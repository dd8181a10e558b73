-- ===== src/Predict/Ready.antt =====
-- Which graph a prediction computes.
use zinfer_lm.Base.{
  ℕ, ◌%◌, ◌^◌, ◌≡◌, ◌⊎◌, Bool, true, false, Option, none, some, List, [], length, ok,
}
use zinfer_lm.Predict.{Runtime, Inference, logits_of, predict, no_graph}

module _ {ℓ} {G D : Type ℓ} (runtime : Runtime G D) where
  -- The graph was built for that number of tokens, whatever the device held then.
  abbrev pub BuiltFor : ℕ → G → Type ℓ
  BuiltFor n g = (before after : D) × (runtime.build n before ≡ ok (g, after))

  -- A graph that is kept as ready was built for the number of tokens that is kept with it, and memory
  -- was reserved for it.
  abbrev Keeps : Bool → ℕ → Option G → Type ℓ
  Keeps false n graph = Unit
  Keeps true n none = (g : G) × ⊥
  Keeps true n (some g) = BuiltFor n g × (runtime.reserve g ≡ true)

  abbrev IsKept : Inference G → Type ℓ
  IsKept s = Keeps s.graph_ready s.cached_n_tokens s.graph

  -- A graph for the tokens is there, built by this call or before, and the members keep it as ready
  -- just if memory is reserved for it.
  abbrev HasGraph : ℕ → D → (Bool × Inference G) × D → Type ℓ
  HasGraph n dev ((ready, s), dev') =
      (g : G) × (s.graph ≡ some g)
      × BuiltFor n g
      × (runtime.reserve g ≡ ready)
      × ((dev' ≡ dev) ⊎ (runtime.build n dev ≡ ok (g, dev')))
      × IsKept s

  -- What a call answers and leaves on the device: on a graph `g` without memory, nothing; else the
  -- logits of its computation.
  abbrev pub Computes : Bool → G → List ℕ → ℕ → D → List ℕ × D → Type ℓ
  Computes false g tokens past dev answer = answer ≡ ([], dev)
  Computes true g tokens past dev answer =
      let r = runtime.compute g tokens past dev in
      (logits_of runtime (length tokens) r.0 ≡ ok answer.0) × (answer.1 ≡ r.1)

  -- The members and the device from the constructor on, through calls that answer.
  pub data Reached : Inference G → D → Type ℓ where
    created : (s : Inference G) (dev : D) → s ≡ no_graph → Reached s dev
    called :
        (s s' : Inference G) (dev dev' : D) (tokens : List ℕ) (past : ℕ) (logits : List ℕ)
        → Reached s dev
        → predict runtime tokens past dev s ≡ ok ((logits, dev'), s')
        → Reached s' dev'

  -- The graph that a call for `tokens` computes, on the device as it found it or as building left it.
  abbrev pub UsesGraph : List ℕ → ℕ → D → List ℕ × D → Type ℓ
  UsesGraph tokens past dev answer =
      (g : G) × (dev' : D) × BuiltFor (length tokens % 2 ^ 32) g
      × ((dev' ≡ dev) ⊎ (runtime.build (length tokens % 2 ^ 32) dev ≡ ok (g, dev')))
      × Computes (runtime.reserve g) g tokens past dev' answer
