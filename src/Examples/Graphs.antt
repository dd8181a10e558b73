-- ===== src/Examples/Graphs.antt =====
-- A model of one block, whose tensors are their shapes: the embedding has four numbers to a token,
-- in two heads that share the keys.
use zinfer_lm.Base.{ℕ, ◌+◌, List, [], ◌∷◌, ok, codes}
use zinfer_lm.Gguf.Loader.{ModelConfig}
use zinfer_lm.Layers.{Ne, Ggml}

abbrev ne4 : ℕ → ℕ → ℕ → ℕ → Ne
ne4 a b c d = record { ne0 = a; ne1 = b; ne2 = c; ne3 = d }

abbrev shapes : Ggml Ne
shapes = record {
  ne = λ x. x;
  new_tensor_1d = λ t a. ne4 a 1 1 1;
  new_tensor_2d = λ t a b. ne4 a b 1 1;
  set_input = λ x. x;
  set_name = λ x n. x;
  rms_norm = λ x e. x;
  silu = λ x. x;
  mul = λ x y. ok x;
  add = λ x y. ok x;
  mul_mat = λ w x. ok (ne4 w.ne1 x.ne1 1 1);
  get_rows = λ w x. ok (ne4 w.ne0 x.ne0 1 1);
  reshape_2d = λ x a b. ok (ne4 a b 1 1);
  reshape_3d = λ x a b c. ok (ne4 a b c 1);
  rope_ext = λ x y d base. ok x;
  permute = λ x. ne4 x.ne0 x.ne2 x.ne1 x.ne3;
  cont = λ x. x;
  flash_attn_ext = λ q k v m s. ok (ne4 v.ne0 q.ne2 q.ne1 1);
  cached = λ i k v p. ok (ne4 2 8 1 1, ne4 2 8 1 1);
  inv_sqrt = λ d. d;
}

abbrev config : ModelConfig
config = record {
  nheads = 2;
  nkv = 1;
  rope_freq_base = 0;
  n_blocks = 1;
  embedding_dim = 4;
  rms_eps = 0;
  max_context_len = 8;
}

abbrev digit : ℕ → List ℕ
digit i = (48 + i) ∷ []

abbrev layers : List (List ℕ × Ne)
layers =
    (codes "blk.0.attn_q.weight", ne4 4 4 1 1)
    ∷ (codes "blk.0.attn_k.weight", ne4 4 2 1 1)
    ∷ (codes "blk.0.attn_v.weight", ne4 4 2 1 1)
    ∷ (codes "blk.0.attn_k.bias", ne4 2 1 1 1)
    ∷ (codes "blk.0.attn_output.weight", ne4 4 4 1 1)
    ∷ (codes "blk.0.attn_norm.weight", ne4 4 1 1 1)
    ∷ (codes "blk.0.ffn_gate.weight", ne4 4 6 1 1)
    ∷ (codes "blk.0.ffn_up.weight", ne4 4 6 1 1)
    ∷ (codes "blk.0.ffn_down.weight", ne4 6 4 1 1)
    ∷ (codes "token_embd.weight", ne4 4 9 1 1)
    ∷ []
