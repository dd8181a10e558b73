-- ===== src/Models/Create.antt =====
-- The tensors that the first loop of `load_tensors` of src/models/model_impl.cpp makes.
use zinfer_lm.Base.{
  ℕ, suc, ◌+◌, ◌*◌, ◌%◌, ◌^◌, ◌≤◌, ◌<◌, ◌≡◌, refl, sym, subst, ap, ◌∙◌, ◌≢◌, Bool, true, false,
  Option, none, some, List, [], ◌∷◌, ◌++◌, map, append_assoc, All, length, length-append,
  append-nil, le→leb, if◌then◌else◌, arith, ok, find, assign, find-assign, bytes_eq, bytes_beq,
  bytes_beq_iff, beq_refl,
}
use zinfer_lm.Gguf.Loader.{TensorMap}
use zinfer_lm.Gguf.Entry.{TensorInfo}
use zinfer_lm.Gguf.Loader.Alignment.{mul_mono}
use zinfer_lm.Gguf.Info.{TensorSummary, summary_of, summaries}
use zinfer_lm.Models.{Context, Platform, fresh, create_tensor, create_loop}

-- No tensor of the list has the name.
abbrev pub IsMissing : List ℕ → List TensorSummary → Type 0
IsMissing k infos = All (λ (i : TensorSummary). i.name ≢ k) infos

-- No two tensors have the same name.
abbrev pub IsDistinct : List TensorSummary → Type 0
IsDistinct [] = Unit
IsDistinct (i ∷ infos) = IsMissing i.name infos × IsDistinct infos

-- The names stand for the positions from `n` on.
abbrev pub IsNumbered : List (List ℕ × ℕ) → ℕ → List TensorSummary → Type 0
IsNumbered m n [] = Unit
IsNumbered m n (i ∷ infos) = (find i.name m ≡ some n) × IsNumbered m (suc n) infos

one_more : (a b o : ℕ) {top : ℕ} → (a + suc b) * o ≤ top → a * o + o ≤ top
one_more a b o h = omega arith

pub room : (a b o : ℕ) → a ≤ b → b * o < 2 ^ 64 → a * o ≤ (b * o) % 2 ^ 64
room a b o h fits = omega (arith, mul_mono a b o h)

pub length-summaries :
    (type_name : ℕ → List ℕ) (tensors : TensorMap)
    → length (summaries type_name tensors) ≡ length tensors
unfolding summaries
length-summaries type_name [] = refl
length-summaries type_name ((j, u) ∷ tensors) = ap suc (length-summaries type_name tensors)

absurd_bool : true ≢ false
absurd_bool e = absurd (cc)

unfound {ℓ} :
    {A : Type ℓ} (b : Bool) (a : A) (later : Option A)
    → (if b then some a else later) ≡ none
    → b ≡ false
unfound true a later e = absurd (cc)
unfound false a later e = refl

skipped :
    (k j : List ℕ) (n : ℕ) (m : List (List ℕ × ℕ))
    → j ≢ k
    → (if bytes_beq j k then some n else find k m) ≡ find k m
skipped k j n m h = grind (arith, bytes_beq_iff j k)

-- Each tensor stands under its own name.
abbrev pub IsNamed : TensorMap → Type 0
IsNamed m = All (λ (e : List ℕ × TensorInfo). e.1.name ≡ e.0) m

pub find-IsMissing :
    (tensors : TensorMap) (type_name : ℕ → List ℕ) (k : List ℕ)
    → IsNamed tensors
    → find k tensors ≡ none
    → IsMissing k (summaries type_name tensors)
unfolding summaries summary_of find
find-IsMissing [] type_name k named e = tt
find-IsMissing ((j, u) ∷ tensors) type_name k named e =
    let differs : bytes_beq j k ≡ false = unfound (bytes_beq j k) u (find k tensors) e in
    (
      λ same. absurd_bool (sym ((bytes_beq_iff j k).1 (sym named.0 ∙ same)) ∙ differs),
      find-IsMissing tensors type_name k named.1 (rw differs at e),
    )

module _ (p : Platform) where
  -- ggml takes each type and shape.
  abbrev pub IsAdmitted : TensorSummary → Type 0
  IsAdmitted i = p.admits i.type_id i.n_dim i.dimensions ≡ true

  abbrev pub Creates : List TensorSummary → Context → List (List ℕ × ℕ) → Type 0
  Creates infos ctx m =
      (m' : List (List ℕ × ℕ)) × (create_loop p infos ctx m
        ≡ ok (record ctx { tensors = ctx.tensors ++ map (fresh p) infos }, m'))
      × IsNumbered m' (length ctx.tensors) infos
      × ((k : List ℕ) → IsMissing k infos → find k m' ≡ find k m)

  create_tensor_fits :
      (ctx : Context) (i : TensorSummary)
      → IsAdmitted i
      → length ctx.tensors * p.overhead + p.overhead ≤ ctx.mem_size
      → create_tensor p ctx i
        ≡ ok (length ctx.tensors, record ctx { tensors = ctx.tensors ++ (fresh p i ∷ []) })
  unfolding create_tensor
  create_tensor_fits ctx i h room =
      rw (h, le→leb (length ctx.tensors * p.overhead + p.overhead) ctx.mem_size room)

  pub create_loop_lem :
      (infos : List TensorSummary) (ctx : Context) (m : List (List ℕ × ℕ))
      → IsDistinct infos
      → All IsAdmitted infos
      → (length ctx.tensors + length infos) * p.overhead ≤ ctx.mem_size
      → Creates infos ctx m
  unfolding create_loop
  create_loop_lem [] ctx m d a room = (m, rw (append-nil ctx.tensors), tt, λ k h. refl)
  create_loop_lem (i ∷ infos) ctx m d a room =
      let ctx' : Context = record ctx { tensors = ctx.tensors ++ (fresh p i ∷ []) } in
      let grown : length ctx'.tensors ≡ suc (length ctx.tensors) =
        omega (arith, length-append ctx.tensors (fresh p i ∷ [])) in
      let moved : length ctx'.tensors + length infos ≡ length ctx.tensors + length (i ∷ infos) =
        omega (arith, grown) in
      let (m', e, numbered, keeps) =
        create_loop_lem infos ctx' (assign i.name (length ctx.tensors) m) d.1 a.1 (rw moved room) in
      (
        m',
        rw (
          create_tensor_fits ctx i a.0
              (one_more (length ctx.tensors) (length infos) p.overhead room),
          e,
          append_assoc ctx.tensors (fresh p i ∷ []) (map (fresh p) infos),
        ),
        (
          keeps i.name d.0
              ∙ find-assign i.name i.name (length ctx.tensors) m
              ∙ rw (beq_refl i.name),
          subst (λ n. IsNumbered m' n infos) grown numbered,
        ),
        λ k h.
            keeps k h.1
            ∙ find-assign i.name k (length ctx.tensors) m
            ∙ skipped k i.name (length ctx.tensors) m h.0,
      )
