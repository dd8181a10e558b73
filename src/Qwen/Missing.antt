-- ===== src/Qwen/Missing.antt =====
-- A model file without a tensor that the graph needs.
use zinfer_lm.Base.{ℕ, ◌<◌, List, ◌++◌, codes}
use zinfer_lm.Gguf.Loader.{ModelConfig}
use zinfer_lm.Layers.{Ggml}
use zinfer_lm.Qwen.{block_name}

-- The weights that every block needs.
pub data BlockWeight : List ℕ → Type 0 where
  query : BlockWeight (codes ".attn_q.weight")
  key : BlockWeight (codes ".attn_k.weight")
  value : BlockWeight (codes ".attn_v.weight")
  attention_output : BlockWeight (codes ".attn_output.weight")
  gate : BlockWeight (codes ".ffn_gate.weight")
  up : BlockWeight (codes ".ffn_up.weight")
  down : BlockWeight (codes ".ffn_down.weight")

module _ {ℓ} {T : Type ℓ} (tensor_map : List (List ℕ × T)) (config : ModelConfig) (g : Ggml T)
    (to_string : ℕ → List ℕ) where
  -- The weights that the graph needs.
  pub data Needed : List ℕ → Type 0 where
    embedding : Needed (codes "token_embd.weight")
    unembedding : Needed (codes "output.weight")
    of_block :
        (i : ℕ) (w : List ℕ)
        → i < config.n_blocks
        → BlockWeight w
        → Needed (block_name to_string i ++ w)
