-- ===== src/Predict.antt =====
-- `Inference::predict` of src/inference/inference.cpp with the graph that it keeps. What ggml does is
-- a parameter: building a graph for a number of tokens, reserving memory for it, computing it on what
-- the device holds, and reading bytes of a tensor.
pub mod Ready
pub mod Logits
use zinfer_lm.Base.{
  ℕ, zero, suc, ◌+◌, ◌-◌, ◌*◌, ◌%◌, ◌^◌, Bool, true, false, Option, none, some, List, [], ◌∷◌, ◌++◌,
  length, leb, ◌==◌, ◌&&◌, if◌then◌else◌, Result, ok, err, wild, aborted, ◌>>=◌,
}

-- The tensor that a computation answers: the bytes of its rows.
pub record Output : Type 0 where
  pub ne0 : ℕ
  pub ne1 : ℕ
  pub type_size : ℕ
  pub bytes : List ℕ

-- `build` is `init_context`, `new_graph`, `build_graph` and `set_output` for a number of tokens. It
-- changes the tables of the cache too, which are a part of `D`, and may depend on them; `compute` is `none` where the
-- computation fails.
pub record Runtime {ℓ} (G D : Type ℓ) : Type ℓ where
  pub build : ℕ → D → Result (G × D)
  pub reserve : G → Bool
  pub compute : G → List ℕ → ℕ → D → Option Output × D
  pub tensor_get : Output → ℕ → ℕ → Result (List ℕ)

-- The members `graph_ready_`, `cached_n_tokens_`, and `gf_` with `output_`.
pub record Inference {ℓ} (G : Type ℓ) : Type ℓ where
  pub graph_ready : Bool
  pub cached_n_tokens : ℕ
  pub graph : Option G

-- `(tokens.size() - 1) * out->ne[0] * ggml_type_size(out->type)`, on 64 bits.
unfoldable pub row_offset : ℕ → Output → ℕ
row_offset n out = ((n + 2 ^ 64 - 1) % 2 ^ 64 * out.ne0 * out.type_size) % 2 ^ 64

abbrev pub zeros : ℕ → List ℕ
zeros zero = []
zeros (suc n) = 0 ∷ zeros n

module _ {ℓ} {G D : Type ℓ} (runtime : Runtime G D) where
  -- `prepare`, behind the calls that build the graph `g`. They leave `graph_ready_` false, and so does
  -- a reservation that fails.
  unfoldable pub prepare : Inference G → ℕ → G → Bool × Inference G
  prepare s n g = elim (runtime.reserve g) [
    | true ↦ (true, record { graph_ready = true; cached_n_tokens = n; graph = some g })
    | false ↦
        (false, record { graph_ready = false; cached_n_tokens = s.cached_n_tokens; graph = some g })
  ]

  -- The first part of `predict`: a new graph, unless the one that is kept is for as many tokens.
  unfoldable pub ready_graph : Inference G → ℕ → D → Result ((Bool × Inference G) × D)
  unfolding prepare
  ready_graph s n dev = elim (s.graph_ready && (n == s.cached_n_tokens)) [
    | true ↦ ok ((true, s), dev)
    | false ↦ do (g, dev') ← runtime.build n dev; ok (prepare s n g, dev')
  ]

  -- The bytes of `logits` behind the read of the last token's row. The vector has `ne0` floats of four
  -- bytes, zeros at first; a row that is longer is written past its end. Where the computation has
  -- failed the code uses a null pointer; an assertion that fails ends the program.
  unfoldable pub logits_of : ℕ → Option Output → Result (List ℕ)
  unfolding row_offset
  logits_of n none = err wild
  logits_of n (some out) = elim (leb n out.ne1) [
    | true ↦ elim (leb (out.ne0 * out.type_size) (out.ne0 * 4)) [
      | true ↦ do
        row ← runtime.tensor_get out (row_offset n out) (out.ne0 * out.type_size)
        ok (row ++ zeros (out.ne0 * 4 - out.ne0 * out.type_size))
      | false ↦ err wild
    ]
    | false ↦ err aborted
  ]

  -- The rest of `predict`; `prepare` that fails answers `{}`.
  unfoldable pub predict_ready : Bool → List ℕ → ℕ → D → Inference G → Result (List ℕ × D)
  unfolding logits_of
  predict_ready false tokens past dev s = ok ([], dev)
  predict_ready true tokens past dev s = elim s.graph [
    | none ↦ err wild
    | some g ↦
        let r = runtime.compute g tokens past dev in
        logits_of (length tokens) r.0 >>= λ logits. ok (logits, r.1)
  ]

  -- `predict`: the logits, what the device holds afterwards, and the members.
  unfoldable pub predict : List ℕ → ℕ → D → Inference G → Result ((List ℕ × D) × Inference G)
  unfolding ready_graph predict_ready
  predict tokens past dev s = do
    ((ready, s'), dev') ← ready_graph s (length tokens % 2 ^ 32) dev
    answer ← predict_ready ready tokens past dev' s'
    ok (answer, s')

-- The constructor's members.
unfoldable pub no_graph {ℓ} : {G : Type ℓ} → Inference G
no_graph = record { graph_ready = false; cached_n_tokens = 0; graph = none }
