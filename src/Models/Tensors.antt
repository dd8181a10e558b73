-- ===== src/Models/Tensors.antt =====
-- The tensors of a model behind `load_tensors` of src/models/model_impl.cpp.
use zinfer_lm.Base.{
  get_elem?-behind, set-behind, ℕ, suc, ◌+◌, ◌*◌, ◌^◌, ◌≤◌, ◌<◌, ◌≡◌, refl, sym, subst, ap, ◌∙◌,
  Bool, true, false, Bool-cases, inl, inr, none, some, List, [], ◌∷◌, ◌++◌, map, append_assoc, All,
  length, length-append, get_elem?, arith, ok, find, bytes_eq, bytes_beq, bytes_beq_iff,
}
use zinfer_lm.Gguf.Loader.{GgufLoader, TensorMap, get_tensor_count, get_tensor_ptr}
use zinfer_lm.Gguf.Entry.{TensorInfo}
use zinfer_lm.Gguf.Info.{TensorSummary, summary_of, summaries, tensor_infos}
use zinfer_lm.Qwen.{get_tensor}
use zinfer_lm.Models.{
  Tensor, ModelImpl, Platform, model_impl, fresh, tensor_data, write_data, buffer_set, data_loop,
  alloc_buffer, load_tensors, loaded_impl,
}
use zinfer_lm.Models.Create.{
  IsDistinct, IsNumbered, IsNamed, room, length-summaries, find-IsMissing, IsAdmitted,
  create_loop_lem,
}

module _ (p : Platform) where
  -- The tensor with its data set.
  abbrev pub filled : GgufLoader → TensorSummary → Tensor
  filled g i = record (fresh p i) {
    data_of = tensor_data p (fresh p i) (get_tensor_ptr g i.data_offset);
  }

  write_data_lem :
      (before : List Tensor) (t : Tensor) (ts : List Tensor) (ptr : ℕ)
      → write_data p (before ++ t ∷ ts) (some (length before)) ptr
        ≡ ok ((before ++ (record t { data_of = tensor_data p t ptr } ∷ [])) ++ ts)
  unfolding write_data
  write_data_lem before t ts ptr = rw (
    get_elem?-behind before t ts,
    set-behind before t (record t { data_of = tensor_data p t ptr }) ts,
  )

  data_loop_lem :
      (g : GgufLoader) (m : List (List ℕ × ℕ)) (buffer : Bool) (infos : List TensorSummary)
      (before : List Tensor)
      → buffer_set p buffer ≡ true
      → IsNumbered m (length before) infos
      → data_loop p g m buffer infos (before ++ map (fresh p) infos)
        ≡ ok (before ++ map (filled g) infos)
  unfolding data_loop get_tensor
  data_loop_lem g m buffer [] before b h = refl
  data_loop_lem g m buffer (i ∷ infos) before b h =
      let grown : length (before ++ (filled g i ∷ [])) ≡ suc (length before) =
        omega (arith, length-append before (filled g i ∷ [])) in
      let rest =
        data_loop_lem g m buffer infos (before ++ (filled g i ∷ [])) b
          (subst (λ n. IsNumbered m n infos) (sym grown) h.1) in
      rw (
        b,
        h.0,
        write_data_lem before (fresh p i) (map (fresh p) infos) (get_tensor_ptr g i.data_offset),
        rest,
        append_assoc before (filled g i ∷ []) (map (filled g) infos),
      )

  -- The position of a name that the file has, and the tensor at it.
  numbered-get :
      (g : GgufLoader) (tensors : TensorMap) (type_name : ℕ → List ℕ) (m : List (List ℕ × ℕ))
      (n : ℕ) (k : List ℕ) (t : TensorInfo)
      → IsNamed tensors
      → IsNumbered m n (summaries type_name tensors)
      → find k tensors ≡ some t
      → (i : ℕ) × (find k m ≡ some (n + i))
        × (get_elem? (map (filled g) (summaries type_name tensors)) i
            ≡ some (filled g (summary_of type_name t)))
  unfolding summaries summary_of find
  numbered-get g [] type_name m n k t named h e = absurd (cc)
  numbered-get g ((j, u) ∷ tensors) type_name m n k t named h e =
      elim (Bool-cases (bytes_beq j k)) [
        | inl same ↦
            let hit : some u ≡ some t = rw same at e in
            let u_t : u ≡ t = cc in
            let name_k : u.name ≡ k = named.0 ∙ (bytes_beq_iff j k).0 same in
            (
              0,
              subst (λ x. find x m ≡ some (n + 0)) name_k (h.0 ∙ ap some (omega arith)),
              ap (λ x. some (filled g (summary_of type_name x))) u_t,
            )
        | inr other ↦
            let later : find k tensors ≡ some t = rw other at e in
            let (i, found, at_i) =
              numbered-get g tensors type_name m (suc n) k t named.1 h.1 later in
            (suc i, found ∙ ap some (omega arith), at_i)
      ]

  -- What a model holds for the tensors of its file: of each name that the loader knows the tensor
  -- with its first entry's type and shape and with the data that stand behind its offset, and
  -- nothing for any other name.
  abbrev pub HoldsTensors : (ℕ → List ℕ) → GgufLoader → ModelImpl → Type 0
  HoldsTensors type_name g m =
      ((k : List ℕ) (t : TensorInfo)
        → find k g.tensors ≡ some t
        → (i : ℕ) × (get_tensor m.tensor_map k ≡ some i)
          × (get_elem? m.tensor_ctx.tensors i ≡ some (filled g (summary_of type_name t))))
      × ((k : List ℕ) → find k g.tensors ≡ none → get_tensor m.tensor_map k ≡ none)

  pub loaded_impl_lem :
      (type_name : ℕ → List ℕ) (g : GgufLoader)
      → IsNamed g.tensors
      → IsDistinct (summaries type_name g.tensors)
      → All (IsAdmitted p) (summaries type_name g.tensors)
      → length g.tensors ≤ get_tensor_count g
      → get_tensor_count g * p.overhead < 2 ^ 64
      → buffer_set p (alloc_buffer p false) ≡ true
      → (m : ModelImpl) × (loaded_impl p type_name g ≡ ok m)
        × (m.loader ≡ g)
        × HoldsTensors type_name g m
  unfolding loaded_impl load_tensors model_impl tensor_infos get_tensor get_tensor_count find
  loaded_impl_lem type_name g named distinct admitted counted fits buffer =
      let infos = summaries type_name g.tensors in
      let (map', made, numbered, keeps) =
        create_loop_lem p infos (model_impl p g).tensor_ctx [] distinct admitted (
          room (0 + length infos) (get_tensor_count g) p.overhead
            (omega (arith, length-summaries type_name g.tensors)) fits) in
      let wrote = data_loop_lem g map' (alloc_buffer p false) infos [] buffer numbered in
      (
        record (model_impl p g) {
          tensor_ctx = record (model_impl p g).tensor_ctx { tensors = map (filled g) infos };
          tensor_map = map';
          tensor_buffer = alloc_buffer p false;
        },
        rw (made, wrote),
        refl,
        (
          λ k t e.
              let (i, found, at_i) =
                numbered-get g g.tensors type_name map' 0 k t named numbered e in
              (i, found ∙ ap some (omega arith), at_i),
          λ k e. keeps k (find-IsMissing g.tensors type_name k named e),
        ),
      )
