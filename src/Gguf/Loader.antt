-- ===== src/Gguf/Loader.antt =====
-- The loader, src/model_loader/gguf/gguf.cpp: the magic, the header, the loops over the metadata and
-- the tensor entries, the alignment of the tensor data, and what the loader answers.
pub mod Alignment
pub mod RoundTrip
pub mod File
pub mod Indexed
use zinfer_lm.Base.{
  ℕ, zero, suc, ◌+◌, ◌-◌, ◌%◌, ◌^◌, Bool, Option, none, some, List, [], ◌++◌, length, drop, take,
  ltb, ◌==◌, if◌then◌else◌, Result, ok, ◌>>=◌, codes, find, insert, bytes_beq, bytes_eq,
}
use zinfer_lm.Gguf.Bytes.{read_le, to_int, advance}
use zinfer_lm.Gguf.Value.{
  Primitive, to_string, value_u32, value_u8, value_f32, value_bool, val_array_i32, val_array_string,
}
use zinfer_lm.Gguf.Entry.{
  Metadata, metadata_from_ptr, metadata_size, empty_metadata, TensorInfo, tensor_from_ptr,
  tensor_size,
}

-- `gguf_header_t`.
pub record Header : Type 0 where
  pub magic : ℕ
  pub version : ℕ
  pub tensor_count : ℕ
  pub metadata_kv_count : ℕ

unfoldable pub header_from_ptr : List ℕ → Result Header
header_from_ptr ptr = do
  m ← read_le 4 ptr
  v ← read_le 4 (drop 4 ptr)
  t ← read_le 8 (drop 8 ptr)
  k ← read_le 8 (drop 16 ptr)
  ok (record { magic = m; version = v; tensor_count = t; metadata_kv_count = k })

-- `is_gguf_file`: the first four bytes, which `read` fetches. Of a shorter file it compares bytes of
-- the buffer that were never set; those are `junk`.
unfoldable pub is_gguf_file : List ℕ → List ℕ → Bool
is_gguf_file junk file = bytes_beq (codes "GGUF") (take 4 (file ++ drop (length file) junk))

abbrev pub MetadataMap : Type 0
MetadataMap = List (List ℕ × Metadata)

abbrev pub TensorMap : Type 0
TensorMap = List (List ℕ × TensorInfo)

-- The loop of `gguf_metadata`, with the rounds that are left.
unfoldable pub metadata_loop : ℕ → List ℕ → MetadataMap → Result (MetadataMap × List ℕ)
metadata_loop zero ptr m = ok (m, ptr)
metadata_loop (suc n) ptr m = do
  met ← metadata_from_ptr ptr
  ptr' ← advance (metadata_size met) ptr
  metadata_loop n ptr' (insert met.key met m)

-- How often `for (int i = 0; i < count; i++)` runs for an `int` count that is given as a 64-bit
-- number: not at all where the low 32 bits are a negative number.
unfoldable pub int_rounds : ℕ → ℕ
int_rounds n = if ltb (to_int n) (2 ^ 31) then to_int n else 0

unfoldable pub gguf_metadata : List ℕ → ℕ → Result (MetadataMap × List ℕ)
gguf_metadata ptr kv_count = metadata_loop (int_rounds kv_count) ptr []

-- The loop of `gguf_tensors_info`. Its counter is an `int`, which would overflow only past 2 ^ 31
-- rounds; each takes 24 bytes at least.
unfoldable pub tensors_loop : ℕ → List ℕ → TensorMap → Result (TensorMap × List ℕ)
tensors_loop zero ptr m = ok (m, ptr)
tensors_loop (suc n) ptr m = do
  t ← tensor_from_ptr ptr
  ptr' ← advance (tensor_size t) ptr
  tensors_loop n ptr' (insert t.name t m)

unfoldable pub gguf_tensors_info : List ℕ → ℕ → Result (TensorMap × List ℕ)
gguf_tensors_info ptr count = tensors_loop count ptr []

-- `GGUFLoader::get_metadata`.
unfoldable pub get_metadata : MetadataMap → List ℕ → Metadata
get_metadata m key = elim (find key m) [ none ↦ empty_metadata | some met ↦ met ]

-- The arithmetic of `align_address`, on 64-bit unsigned numbers; `alignment` is below 2 ^ 32.
unfoldable pub align_up : ℕ → ℕ → ℕ
align_up alignment ptr = (ptr + (alignment - ptr % alignment) % alignment) % 2 ^ 64

unfoldable pub align_address : MetadataMap → ℕ → Result ℕ
unfolding align_up get_metadata
align_address m ptr = do
  a ← value_u8 (get_metadata m (codes "general.alignment")).val
  ok (align_up (if a == 0 then 32 else a) ptr)

-- `GGUFLoader`. The tensor base is an address.
pub record GgufLoader : Type 0 where
  pub header : Header
  pub metadata : MetadataMap
  pub tensors : TensorMap
  pub tensor_base : ℕ

-- `load_gguf_file` once `mmap` has put the file at the address `base`.
unfoldable pub load_mapped : ℕ → List ℕ → Result GgufLoader
load_mapped base file = do
  header ← header_from_ptr file
  (metadata, cur) ← gguf_metadata (drop 24 file) header.metadata_kv_count
  (tensors, cur') ← gguf_tensors_info cur header.tensor_count
  start ← align_address metadata (base + (length file - length cur'))
  ok (record { header = header; metadata = metadata; tensors = tensors; tensor_base = start })

-- `load_gguf_file`: `none` is the null pointer that it returns where `mmap` fails.
unfoldable pub load_gguf_file : Option (ℕ × List ℕ) → Result (Option GgufLoader)
load_gguf_file none = ok none
load_gguf_file (some (base, file)) = load_mapped base file >>= λ g. ok (some g)

-- `get_tensor_count` and `get_tensor_ptr`.
unfoldable pub get_tensor_count : GgufLoader → ℕ
get_tensor_count g = g.header.tensor_count

unfoldable pub get_tensor_ptr : GgufLoader → ℕ → ℕ
get_tensor_ptr g offset = (g.tensor_base + offset) % 2 ^ 64

-- `model_config_t`; the floats are bit patterns.
pub record ModelConfig : Type 0 where
  pub nheads : ℕ
  pub nkv : ℕ
  pub rope_freq_base : ℕ
  pub n_blocks : ℕ
  pub embedding_dim : ℕ
  pub rms_eps : ℕ
  pub max_context_len : ℕ

unfoldable pub model_config : GgufLoader → Result ModelConfig
model_config g = do
  nheads ← value_u32 (get_metadata g.metadata (codes "qwen2.attention.head_count")).val
  nkv ← value_u32 (get_metadata g.metadata (codes "qwen2.attention.head_count_kv")).val
  rope ← value_f32 (get_metadata g.metadata (codes "qwen2.rope.freq_base")).val
  dim ← value_u32 (get_metadata g.metadata (codes "qwen2.embedding_length")).val
  blocks ← value_u32 (get_metadata g.metadata (codes "qwen2.block_count")).val
  eps ← value_f32 (get_metadata g.metadata (codes "qwen2.attention.layer_norm_rms_epsilon")).val
  len ← value_u32 (get_metadata g.metadata (codes "qwen2.context_length")).val
  ok (record {
    nheads = nheads;
    nkv = nkv;
    rope_freq_base = rope;
    n_blocks = blocks;
    embedding_dim = dim;
    rms_eps = eps;
    max_context_len = len;
  })

-- `tokenizer_info_t`.
pub record TokenizerInfo : Type 0 where
  pub model : List ℕ
  pub pre : List ℕ
  pub tokens : List (List ℕ)
  pub merges : List (List ℕ)
  pub token_type : List ℕ
  pub bos_token_id : ℕ
  pub eos_token_id : ℕ
  pub padding_token_id : ℕ
  pub add_bos_token : ℕ
  pub template_str : List ℕ

unfoldable pub tokenizer_info : (Primitive → List ℕ) → GgufLoader → Result TokenizerInfo
tokenizer_info format g = do
  model ← to_string format (get_metadata g.metadata (codes "tokenizer.ggml.model")).val
  pre ← to_string format (get_metadata g.metadata (codes "tokenizer.ggml.pre")).val
  tokens ← val_array_string format (get_metadata g.metadata (codes "tokenizer.ggml.tokens")).val
  merges ← val_array_string format (get_metadata g.metadata (codes "tokenizer.ggml.merges")).val
  types ← val_array_i32 (get_metadata g.metadata (codes "tokenizer.ggml.token_type")).val
  bos ← value_u32 (get_metadata g.metadata (codes "tokenizer.ggml.bos_token_id")).val
  eos ← value_u32 (get_metadata g.metadata (codes "tokenizer.ggml.eos_token_id")).val
  pad ← value_u32 (get_metadata g.metadata (codes "tokenizer.ggml.padding_token_id")).val
  add_bos ← value_bool (get_metadata g.metadata (codes "tokenizer.ggml.add_bos_token")).val
  template ← to_string format (get_metadata g.metadata (codes "tokenizer.chat_template")).val
  ok (record {
    model = model;
    pre = pre;
    tokens = tokens;
    merges = merges;
    token_type = types;
    bos_token_id = bos;
    eos_token_id = eos;
    padding_token_id = pad;
    add_bos_token = add_bos;
    template_str = template;
  })
