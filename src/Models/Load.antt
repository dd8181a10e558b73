-- ===== src/Models/Load.antt =====
-- `Model::load` of src/models/models.cpp as a whole, and what it leaves in `instance_`.
use zinfer_lm.Base.{
  ℕ, ◌+◌, ◌*◌, ◌%◌, ◌^◌, ◌<◌, ◌≡◌, ap, ◌∙◌, ◌⊎◌, inl, inr, true, false, Bool-cases, Option-cases,
  Option, none, some, List, [], ◌∷◌, All, get_elem?, if◌then◌else◌, ok, find, bytes_eq,
}
use zinfer_lm.Gguf.Entry.{TensorInfo}
use zinfer_lm.Gguf.Loader.{
  get_tensor_ptr, GgufLoader, TensorMap, is_gguf_file, load_mapped, load_gguf_file,
  get_tensor_count,
}
use zinfer_lm.Gguf.Loader.Indexed.{IsIndexed, load_mapped-IsIndexed}
use zinfer_lm.Gguf.Info.{summary_of, summaries}
use zinfer_lm.Qwen.{get_tensor}
use zinfer_lm.Models.{
  at_address, copied, Tensor, ModelImpl, Platform, get_backend_type, fresh, tensor_data, buffer_set,
  alloc_buffer, readable, load,
}
use zinfer_lm.Models.Create.{IsNamed, IsDistinct, IsAdmitted, find-IsMissing}
use zinfer_lm.Models.Tensors.{filled, HoldsTensors, loaded_impl_lem}

IsIndexed-IsNamed : (m : TensorMap) → IsIndexed m → IsNamed m
IsIndexed-IsNamed [] h = tt
IsIndexed-IsNamed ((k, t) ∷ m) h = (h.0, IsIndexed-IsNamed m h.2)

IsIndexed-IsDistinct :
    (type_name : ℕ → List ℕ) (m : TensorMap) → IsIndexed m → IsDistinct (summaries type_name m)
unfolding summaries summary_of
IsIndexed-IsDistinct type_name [] h = tt
IsIndexed-IsDistinct type_name ((k, t) ∷ m) h = (
  find-IsMissing m type_name t.name (IsIndexed-IsNamed m h.2) (ap (λ j. find j m) h.0 ∙ h.1),
  IsIndexed-IsDistinct type_name m h.2,
)

module _ (p : Platform) where
  -- What ggml is given for an entry: its type and shape are taken, and for a GPU there is a buffer.
  abbrev pub Takes : TensorInfo → Type 0
  Takes t = p.admits t.dtype t.n_dimensions t.dimensions ≡ true

  abbrev pub HasBuffer : Type 0
  HasBuffer = p.cuda ≡ true → p.allocates ≡ true

  buffer_lem : HasBuffer → buffer_set p (alloc_buffer p false) ≡ true
  unfolding buffer_set alloc_buffer get_backend_type
  buffer_lem h = elim (Bool-cases p.cuda) [ inl e ↦ rw (e, h e) | inr e ↦ rw e ]

  -- The tensor of an entry: with CUDA its bytes are copied to the GPU from where they stand in the
  -- mapped file, otherwise the tensor points there.
  abbrev pub tensor_of : ℕ → TensorInfo → Tensor
  tensor_of tensor_base t =
      let address = (tensor_base + t.offset) % 2 ^ 64 in
      record {
        type_id = t.dtype;
        n_dim = t.n_dimensions;
        dims = t.dimensions;
        name = p.label t.name;
        data_of =
            if p.cuda then copied address (p.nbytes t.dtype t.dimensions) else at_address address;
      }

  -- The model has a tensor for each name that the file has, and for no other.
  abbrev pub Answers : ℕ → ModelImpl → List ℕ → Option TensorInfo → Type 0
  Answers tensor_base m k entry =
      ((entry ≡ none) × (get_tensor m.tensor_map k ≡ none))
      ⊎ ((t : TensorInfo) × (i : ℕ) × (entry ≡ some t)
          × (get_tensor m.tensor_map k ≡ some i)
          × (get_elem? m.tensor_ctx.tensors i ≡ some (tensor_of tensor_base t)))

  abbrev pub HasTensors : ℕ → (List ℕ → Option TensorInfo) → ModelImpl → Type 0
  HasTensors tensor_base entry_of m = (k : List ℕ) → Answers tensor_base m k (entry_of k)

  IsAdmitted-summaries :
      (type_name : ℕ → List ℕ) (m : TensorMap)
      → All (λ (e : List ℕ × TensorInfo). Takes e.1) m
      → All (IsAdmitted p) (summaries type_name m)
  unfolding summaries summary_of
  IsAdmitted-summaries type_name [] h = tt
  IsAdmitted-summaries type_name ((k, t) ∷ m) h = (h.0, IsAdmitted-summaries type_name m h.1)

  filled-tensor_of :
      (type_name : ℕ → List ℕ) (g : GgufLoader) (t : TensorInfo)
      → filled p g (summary_of type_name t) ≡ tensor_of g.tensor_base t
  unfolding summary_of fresh tensor_data get_backend_type get_tensor_ptr
  filled-tensor_of type_name g t = elim (Bool-cases p.cuda) [ inl e ↦ rw e | inr e ↦ rw e ]

  HoldsTensors-has :
      (type_name : ℕ → List ℕ) (g : GgufLoader) (m : ModelImpl)
      → HoldsTensors p type_name g m
      → HasTensors g.tensor_base (λ k. find k g.tensors) m
  HoldsTensors-has type_name g m (held, absent) k = elim (Option-cases (find k g.tensors)) [
    | inl e ↦ inl (e, absent k e)
    | inr (t, e) ↦
        let (i, found, at_i) = held k t e in
        inr (t, i, e, found, at_i ∙ ap some (filled-tensor_of type_name g t))
  ]

  -- A file that the loader accepts.
  pub load-accepted :
      (type_name : ℕ → List ℕ) (junk file : List ℕ) (base : ℕ) (g : GgufLoader)
      (s : Option ModelImpl)
      → is_gguf_file junk file ≡ true
      → load_mapped base file ≡ ok g
      → All (λ (e : List ℕ × TensorInfo). Takes e.1) g.tensors
      → get_tensor_count g * p.overhead < 2 ^ 64
      → HasBuffer
      → (m : ModelImpl) × (load p type_name (readable junk file (some base)) s ≡ (ok true, some m))
        × (m.loader ≡ g)
        × HasTensors g.tensor_base (λ k. find k g.tensors) m
  unfolding load load_gguf_file get_tensor_count
  load-accepted type_name junk file base g s magic accepted takes fits buffer =
      let (indexed, counted) = load_mapped-IsIndexed base file g accepted in
      let (m, e, loader, holds) =
        loaded_impl_lem p type_name g (IsIndexed-IsNamed g.tensors indexed)
          (IsIndexed-IsDistinct type_name g.tensors indexed)
          (IsAdmitted-summaries type_name g.tensors takes) counted fits (buffer_lem buffer) in
      (m, rw (magic, accepted, e), loader, HoldsTensors-has type_name g m holds)
