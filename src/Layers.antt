-- ===== src/Layers.antt =====
-- The layers of a model, src/layers: each makes calls of ggml, which are an argument here, and answers
-- with a tensor. The contexts that collect the tensors are ggml's; `float` arguments are bit patterns.
pub mod Missing
use zinfer_lm.Base.{
  ℕ, zero, suc, ◌/◌, Bool, true, false, Option, none, some, List, [], ◌∷◌, ◌++◌, if◌then◌else◌,
  Result, ok, err, wild, ◌>>=◌, codes,
}

-- `ggml_tensor::ne`.
pub record Ne : Type 0 where
  pub ne0 : ℕ
  pub ne1 : ℕ
  pub ne2 : ℕ
  pub ne3 : ℕ

-- The number types of the tensors that the code makes.
pub data NumberType : Type 0 where
  i32 f16 : NumberType

-- The calls of ggml that the models make, with the constant arguments left out; an assertion of ggml
-- that does not hold is a fault. `permute` swaps the middle axes. `cached` stands for the
-- calls of `set_graph`, `write_kv` and `get_slice` of the cache for a block, its keys and its values.
-- Their arguments do not fit the cache's declarations, and `get_slice` returns no value, so that what
-- they answer is left open: it may be any two tensors, or a fault.
pub record Ggml {ℓ} (T : Type ℓ) : Type ℓ where
  pub ne : T → Ne
  pub new_tensor_1d : NumberType → ℕ → T
  pub new_tensor_2d : NumberType → ℕ → ℕ → T
  pub set_input : T → T
  pub set_name : T → List ℕ → T
  pub rms_norm : T → ℕ → T
  pub silu : T → T
  pub mul : T → T → Result T
  pub add : T → T → Result T
  pub mul_mat : T → T → Result T
  pub get_rows : T → T → Result T
  pub reshape_2d : T → ℕ → ℕ → Result T
  pub reshape_3d : T → ℕ → ℕ → ℕ → Result T
  pub rope_ext : T → T → ℕ → ℕ → Result T
  pub permute : T → T
  pub cont : T → T
  pub flash_attn_ext : T → T → T → T → ℕ → Result T
  pub cached : ℕ → T → T → T → Result (T × T)
  pub inv_sqrt : ℕ → ℕ

-- The members of `Layer`; `none` is a null pointer.
pub record Layer {ℓ} (T : Type ℓ) : Type ℓ where
  pub residual : Bool
  pub pre_norm_gamma : Option T
  pub pre_norm_eps : ℕ
  pub name : List ℕ

pub record SwigLu {ℓ} (T : Type ℓ) : Type ℓ where
  pub layer : Layer T
  pub w_gate : Option T
  pub w_up : Option T
  pub w_down : Option T

-- `GroupedAttentionHead`. `out_b_` and `layer_index_`, which nothing reads, are left out.
pub record GroupedAttentionHead {ℓ} (T : Type ℓ) : Type ℓ where
  pub layer : Layer T
  pub block_id : ℕ
  pub q_w : Option T
  pub q_b : Option T
  pub k_w : Option T
  pub k_b : Option T
  pub v_w : Option T
  pub v_b : Option T
  pub out_w : Option T
  pub rope_freq_base : ℕ
  pub apply_rope : Bool
  pub n_heads : ℕ
  pub n_kv : ℕ
  pub positions : T
  pub mask : T

-- What ggml does with a null pointer.
unfoldable pub deref {ℓ} : {T : Type ℓ} → Option T → Result T
deref none = err wild
deref (some x) = ok x

-- `x->ne[0] / n_heads_`.
unfoldable pub head_size : ℕ → ℕ → Result ℕ
head_size n zero = err wild
head_size n (suc h) = ok (n / suc h)

module _ {ℓ} {T : Type ℓ} (g : Ggml T) where
  -- The norm of `operator()`.
  unfoldable pub pre_norm : Layer T → Option T → T → Result T
  pre_norm l none x = ok x
  pre_norm l (some gamma) x = do
    normed ← g.mul (g.set_name (g.rms_norm x l.pre_norm_eps) (l.name ++ codes "-rms")) gamma
    ok (g.set_name normed (l.name ++ codes "-norm"))

  -- Its last part.
  unfoldable pub add_residual : Layer T → Bool → T → T → Result T
  add_residual l false out x = ok out
  add_residual l true out x = do
    sum ← g.add out x
    ok (g.set_name sum (l.name ++ codes "-residual"))

  -- `Layer::operator()`, for a `forward`.
  unfoldable pub call : Layer T → (T → Result T) → T → Result T
  unfolding pre_norm add_residual
  call l forward x = do
    in_norm ← pre_norm l l.pre_norm_gamma x
    out ← forward in_norm
    add_residual l l.residual (g.set_name out (l.name ++ codes "-out")) x

  -- `ggml_mul_mat` with a weight.
  unfoldable pub mul_weight : Option T → T → Result T
  unfolding deref
  mul_weight w x = deref w >>= λ w. g.mul_mat w x

  -- `TokenEmbedding::forward`.
  unfoldable pub token_embedding : Option T → T → Result T
  unfolding deref
  token_embedding emb_w x = deref emb_w >>= λ w. g.get_rows w x

  -- `TokenUnembedding::forward`.
  unfoldable pub token_unembedding : Option T → T → Result T
  unfolding mul_weight
  token_unembedding unemb_w x = mul_weight unemb_w x

  -- `SwigLU::forward`.
  unfoldable pub swiglu : SwigLu T → T → Result T
  unfolding mul_weight
  swiglu s x = do
    gate ← mul_weight s.w_gate x
    up ← mul_weight s.w_up x
    product ←
        g.mul (g.set_name (g.silu (g.set_name gate (codes "gate"))) (codes "silu"))
          (g.set_name up (codes "up"))
    mul_weight s.w_down (g.set_name product (codes "swiglu"))

  -- `Block::forward`, which calls its layers in turn.
  unfoldable pub block : List (T → Result T) → T → Result T
  block [] x = ok x
  block (l ∷ ls) x = l x >>= block ls

  -- A bias, where there is one.
  unfoldable pub add_bias : List ℕ → Option T → T → Result T
  add_bias name none x = ok x
  add_bias name (some b) x = do sum ← g.add x b; ok (g.set_name sum name)

  -- One of the three linear projections of `GroupedAttentionHead::forward`.
  unfoldable pub project : List ℕ → Option T → Option T → T → Result T
  unfolding mul_weight add_bias
  project name w b x = mul_weight w x >>= λ y. add_bias name b (g.set_name y name)

  unfoldable pub rope : Bool → T → T → ℕ → ℕ → Result T
  rope false x positions d_head base = ok x
  rope true x positions d_head base = g.rope_ext x positions d_head base

  -- The last part of `GroupedAttentionHead::forward`, from the call of the cache on.
  unfoldable pub score : GroupedAttentionHead T → T → ℕ → T → T → T → Result T
  unfolding mul_weight
  score a x d_head q_rope k_rope v3 = do
    entry ← g.cached a.block_id (g.set_name k_rope (codes "Kcur_rope")) v3 a.positions
    kqv ←
        g.flash_attn_ext (g.cont (g.permute (g.set_name q_rope (codes "Qcur_rope")))) entry.0
          entry.1 a.mask (g.inv_sqrt d_head)
    flat ← g.reshape_2d (g.set_name kqv (codes "KQV")) (g.ne x).ne0 (g.ne x).ne1
    out ← mul_weight a.out_w flat
    ok (g.set_name out (codes "attn-out"))

  -- Its middle part: the heads, with their positions.
  unfoldable pub attend : GroupedAttentionHead T → T → ℕ → T → T → T → Result T
  unfolding rope score
  attend a x d_head q k v = do
    q3 ← g.reshape_3d q d_head a.n_heads (g.ne x).ne1
    k3 ← g.reshape_3d k d_head a.n_kv (g.ne x).ne1
    v3 ← g.reshape_3d v d_head a.n_kv (g.ne x).ne1
    q_rope ← rope a.apply_rope q3 a.positions d_head a.rope_freq_base
    k_rope ← rope a.apply_rope k3 a.positions d_head a.rope_freq_base
    score a x d_head q_rope k_rope v3

  -- `GroupedAttentionHead::forward`.
  unfoldable pub grouped_attention : GroupedAttentionHead T → T → Result T
  unfolding project head_size attend
  grouped_attention a x = do
    q ← project (codes "Qcur") a.q_w a.q_b x
    k ← project (codes "Kcur") a.k_w a.k_b x
    v ← project (codes "Vcur") a.v_w a.v_b x
    d_head ← head_size (g.ne x).ne0 a.n_heads
    attend a x d_head q k v
