-- ===== src/Gguf/Loader/Indexed.antt =====
-- The map of the tensor entries that the loader makes of any file that it accepts.
use zinfer_lm.Base.{
  ℕ, zero, suc, ◌+◌, ◌≤◌, ◌≡◌, refl, subst, ap, if◌then◌else◌, ◌∙◌, false, Bool-cases, inl, inr,
  none, some, List, [], ◌∷◌, drop, arith, length, ok, first_ok, find, insert, find-insert, bytes_eq,
  bytes_beq, bytes_beq_iff,
}
use zinfer_lm.Gguf.Bytes.{advance}
use zinfer_lm.Gguf.Entry.{TensorInfo, tensor_from_ptr, tensor_size}
use zinfer_lm.Gguf.Loader.{
  header_from_ptr, gguf_metadata, TensorMap, tensors_loop, gguf_tensors_info, align_address,
  GgufLoader, load_mapped,
}

-- Each entry stands under its own name, and no name has two.
abbrev pub IsIndexed : TensorMap → Type 0
IsIndexed [] = Unit
IsIndexed ((k, t) ∷ m) = (t.name ≡ k) × (find k m ≡ none) × IsIndexed m

bytes_beq_sym : (xs ys : List ℕ) → bytes_beq xs ys ≡ false → bytes_beq ys xs ≡ false
bytes_beq_sym xs ys h = grind (arith, bytes_beq_iff xs ys, bytes_beq_iff ys xs)

insert-IsIndexed :
    (t : TensorInfo) (m : TensorMap)
    → IsIndexed m
    → IsIndexed (insert t.name t m) × (length (insert t.name t m) ≤ suc (length m))
unfolding insert find
insert-IsIndexed t [] h = ((refl, refl, tt), omega arith)
insert-IsIndexed t ((k, u) ∷ m) h = elim (Bool-cases (bytes_beq k t.name)) [
  | inl e ↦ rw e (h, omega arith)
  | inr e ↦
      let (indexed, longer) = insert-IsIndexed t m h.2 in
      let missed : find k (insert t.name t m) ≡ (if bytes_beq t.name k then some t else none) =
        find-insert t.name k t m ∙ rw h.1 in
      let differs : bytes_beq t.name k ≡ false = bytes_beq_sym k t.name e in
      rw e ((h.0, missed ∙ rw differs, indexed), omega (arith, longer))
]

tensors_loop-IsIndexed :
    (n : ℕ) (ptr : List ℕ) (m : TensorMap) {m' : TensorMap} {ptr' : List ℕ}
    → tensors_loop n ptr m ≡ ok (m', ptr')
    → IsIndexed m
    → IsIndexed m' × (length m' ≤ n + length m)
unfolding tensors_loop
tensors_loop-IsIndexed zero ptr m {m' = m'} e h =
    let same : m ≡ m' = cc in (subst IsIndexed same h, omega (arith, ap length same))
tensors_loop-IsIndexed (suc n) ptr m e h =
    let (t, read, e1) = first_ok (tensor_from_ptr ptr) _ e in
    let (ptr1, moved, e2) = first_ok (advance (tensor_size t) ptr) _ e1 in
    let (indexed, longer) = insert-IsIndexed t m h in
    let (all, counted) = tensors_loop-IsIndexed n ptr1 (insert t.name t m) e2 indexed in
    (all, omega (arith, longer, counted))

abbrev pub Counted : GgufLoader → Type 0
Counted g = IsIndexed g.tensors × (length g.tensors ≤ g.header.tensor_count)

-- A loader's tensors are indexed, and there are at most as many as the header counts.
pub load_mapped-IsIndexed :
    (base : ℕ) (file : List ℕ) (g : GgufLoader) → load_mapped base file ≡ ok g → Counted g
unfolding load_mapped gguf_tensors_info
load_mapped-IsIndexed base file g e =
    let (header, e0, h1) = first_ok (header_from_ptr file) _ e in
    let ((metadata, cur), e1, h2) =
      first_ok (gguf_metadata (drop 24 file) header.metadata_kv_count) _ h1 in
    let ((tensors, cur'), e2, h3) = first_ok (tensors_loop header.tensor_count cur []) _ h2 in
    let (start, e3, h4) = first_ok (align_address metadata _) _ h3 in
    let (indexed, counted) = tensors_loop-IsIndexed header.tensor_count cur [] e2 tt in
    let built : record {
      header = header;
      metadata = metadata;
      tensors = tensors;
      tensor_base = start;
    }
        ≡ g =
      cc in
    subst Counted built (indexed, omega (arith, counted))
