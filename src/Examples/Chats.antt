-- ===== src/Examples/Chats.antt =====
-- A chat with a model of one token, the letter `a`, whose template puts an `a` for each message.
use zinfer_lm.Base.{ℕ, Bool, false, List, [], ◌∷◌, map, concat, Result, ok, codes, bytes_eq, nat_eq}
use zinfer_lm.Gguf.DType.{string}
use zinfer_lm.Gguf.Value.{Primitive, u32, i32, bool, Value, primitive, text, array_of, nil, cons}
use zinfer_lm.Gguf.Entry.{Metadata}
use zinfer_lm.Gguf.Loader.{GgufLoader, TokenizerInfo}
use zinfer_lm.Tokenizer.ByteMap.{build_byte_to_unicode_map}
use zinfer_lm.Tokenizer.Trie.{empty_node}
use zinfer_lm.Tokenizer.State.{Tokenizer, Patterns}
use zinfer_lm.Sampling.{Sampler}
use zinfer_lm.Server.{ChatMessage}
use zinfer_lm.Chat.{ChatParams, Chat, Service}
use zinfer_lm.Chat.Answers.{idle_service}
use zinfer_lm.Examples.Vocabulary.{one_byte}

abbrev entry : List ℕ → Value → List ℕ × Metadata
entry key val = (key, record { key = key; val_type = string; val = val })

abbrev number : ℕ → Value
number n = primitive (u32 n) 4

abbrev model : GgufLoader
model = record {
  header = record { magic = 0; version = 3; tensor_count = 0; metadata_kv_count = 10 };
  metadata =
      entry (codes "tokenizer.ggml.model") (text (codes "gpt2"))
      ∷ entry (codes "tokenizer.ggml.pre") (text (codes "qwen2"))
      ∷ entry (codes "tokenizer.ggml.tokens") (array_of 8 1 (cons (text (codes "a")) nil))
      ∷ entry (codes "tokenizer.ggml.merges") (array_of 8 0 nil)
      ∷ entry (codes "tokenizer.ggml.token_type") (array_of 5 1 (cons (primitive (i32 1) 4) nil))
      ∷ entry (codes "tokenizer.ggml.bos_token_id") (number 0)
      ∷ entry (codes "tokenizer.ggml.eos_token_id") (number 0)
      ∷ entry (codes "tokenizer.ggml.padding_token_id") (number 0)
      ∷ entry (codes "tokenizer.ggml.add_bos_token") (primitive (bool 0) 1)
      ∷ entry (codes "tokenizer.chat_template") (text (codes "t"))
      ∷ [];
  tensors = [];
  tensor_base = 0;
}

abbrev info : TokenizerInfo
info = record {
  model = codes "gpt2";
  pre = codes "qwen2";
  tokens = codes "a" ∷ [];
  merges = [];
  token_type = 1 ∷ [];
  bos_token_id = 0;
  eos_token_id = 0;
  padding_token_id = 0;
  add_bos_token = 0;
  template_str = codes "t";
}

abbrev format : Primitive → List ℕ
format p = []

abbrev patterns : Patterns
patterns = record { qwen2 = one_byte; llama_bpe = one_byte; empty = one_byte }

abbrev letter : Tokenizer
letter = record {
  info = info;
  re = one_byte;
  merges = [];
  bytes = build_byte_to_unicode_map;
  token_to_id = (codes "a", 0) ∷ [];
  id_to_token = (0, codes "a") ∷ [];
  trie = record { root = empty_node; size = 0 };
}

abbrev template : List ℕ → List ℕ → List ℕ → Result (List ℕ)
template t bos eos = ok t

abbrev apply : List ℕ → List (List (List ℕ × List ℕ)) → Bool → Result (List ℕ)
apply t messages add = ok (concat (map (λ m. codes "a") messages))

-- The model's next token is always the letter.
abbrev choose : Sampler ℕ → List ℕ → ℕ → ℕ
choose sampler tokens past = 0

abbrev question : List ChatMessage
question = record { role = codes "user"; message = codes "why?" } ∷ []

abbrev chat : Chat
chat = record { model = model; chat_id = codes "chatcmpl"; debug = false }

abbrev params : ChatParams ℕ
params = record { max_tokens = 2; temperature = 0; top_k = 0; top_p = 0 }

abbrev before : Service ℕ
before = idle_service 7 [] [] [] []
