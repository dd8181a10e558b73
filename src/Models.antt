-- ===== src/Models.antt =====
-- The loaded model, src/models/models.cpp and src/models/model_impl.cpp, with `create_tensor` of
-- src/engine/tensors.cpp. A `ggml_tensor *` is a position among the tensors that the context holds,
-- in the order in which they were made. What ggml does is a parameter: whether it takes a type and
-- a shape (`admits`, its assertions), the name that `ggml_set_name` stores (`label`), the bytes of a
-- tensor (`nbytes`) and of its description (`overhead`, what `ggml_tensor_overhead` answers).
pub mod Tensors
pub mod Load
pub mod Create
use zinfer_lm.Base.{
  ℕ, ◌+◌, ◌*◌, ◌%◌, ◌^◌, Bool, true, false, ◌&&◌, Option, none, some, List, [], ◌∷◌, ◌++◌, map,
  length, set, get_elem?, leb, if◌then◌else◌, Result, ok, err, wild, aborted, ◌>>=◌, find, assign,
  bytes_eq,
}
use zinfer_lm.Gguf.Loader.{
  GgufLoader, is_gguf_file, load_gguf_file, get_tensor_count, get_tensor_ptr,
}
use zinfer_lm.Gguf.Info.{TensorSummary, tensor_infos}
use zinfer_lm.Qwen.{get_tensor}

-- `t->data`: null, an address in the mapped file, or a buffer of the backend into which a number of
-- bytes from an address were copied.
pub data TensorData : Type 0 where
  unset : TensorData
  at_address : ℕ → TensorData
  copied : ℕ → ℕ → TensorData

-- What the code sets of a `ggml_tensor`.
pub record Tensor : Type 0 where
  pub type_id : ℕ
  pub n_dim : ℕ
  pub dims : List ℕ
  pub name : List ℕ
  pub data_of : TensorData

-- `ggml_context` with `no_alloc`: the bytes for descriptions, and the tensors that were made.
pub record Context : Type 0 where
  pub mem_size : ℕ
  pub tensors : List Tensor

-- `ggml_backend_dev_type` as far as it is used.
pub data BackendType : Type 0 where
  cpu gpu : BackendType

-- `ModelImpl`. A backend is known by its type; `tensor_buffer` is whether the pointer is set.
pub record ModelImpl : Type 0 where
  pub loader : GgufLoader
  pub tensor_ctx : Context
  pub tensor_map : List (List ℕ × ℕ)
  pub backends : List BackendType
  pub tensor_buffer : Bool

-- What ggml does, and how the code was built: `cuda` is `CUDA_ENABLED`, and `allocates` whether
-- `ggml_backend_alloc_ctx_tensors_from_buft` answers a buffer.
pub record Platform : Type 0 where
  pub admits : ℕ → ℕ → List ℕ → Bool
  pub label : List ℕ → List ℕ
  pub nbytes : ℕ → List ℕ → ℕ
  pub overhead : ℕ
  pub cuda : Bool
  pub allocates : Bool

module _ (p : Platform) where
  -- `get_backend_type`.
  unfoldable pub get_backend_type : BackendType
  get_backend_type = if p.cuda then gpu else cpu

  -- The constructor.
  unfoldable pub model_impl : GgufLoader → ModelImpl
  unfolding get_backend_type
  model_impl g = record {
    loader = g;
    tensor_ctx = record { mem_size = (get_tensor_count g * p.overhead) % 2 ^ 64; tensors = [] };
    tensor_map = [];
    backends = elim get_backend_type [ gpu ↦ gpu ∷ cpu ∷ [] | cpu ↦ cpu ∷ [] ];
    tensor_buffer = false;
  }

  -- The tensor that `ggml_new_tensor` and `ggml_set_name` make.
  unfoldable pub fresh : TensorSummary → Tensor
  fresh info = record {
    type_id = info.type_id;
    n_dim = info.n_dim;
    dims = info.dimensions;
    name = p.label info.name;
    data_of = unset;
  }

  -- `create_tensor`. A description that the context has no room for is an assertion of ggml.
  unfoldable pub create_tensor : Context → TensorSummary → Result (ℕ × Context)
  unfolding fresh
  create_tensor ctx info =
      if p.admits info.type_id info.n_dim info.dimensions
        && leb (length ctx.tensors * p.overhead + p.overhead) ctx.mem_size
      then ok (length ctx.tensors, record ctx { tensors = ctx.tensors ++ (fresh info ∷ []) })
      else err aborted

  -- The first loop of `load_tensors`.
  unfoldable pub create_loop :
      List TensorSummary → Context → List (List ℕ × ℕ) → Result (Context × List (List ℕ × ℕ))
  create_loop [] ctx tensor_map = ok (ctx, tensor_map)
  create_loop (t_info ∷ infos) ctx tensor_map = create_tensor ctx t_info >>= λ (t, ctx').
      create_loop infos ctx' (assign t_info.name t tensor_map)

  -- The write of one round of the second loop, by the kind of the backend.
  unfoldable pub tensor_data : Tensor → ℕ → TensorData
  unfolding get_backend_type
  tensor_data t ptr = elim get_backend_type [
    | cpu ↦ at_address ptr
    | gpu ↦ copied ptr (p.nbytes t.type_id t.dims)
  ]

  -- No tensor stands at a pointer that is null.
  abbrev pub write_found : List Tensor → ℕ → ℕ → Option Tensor → Result (List Tensor)
  write_found ts t ptr none = err wild
  write_found ts t ptr (some tensor) =
      ok (set ts t (record tensor { data_of = tensor_data tensor ptr }))

  -- What a round writes through the pointer that `get_tensor_` answers, which may be null.
  unfoldable pub write_data : List Tensor → Option ℕ → ℕ → Result (List Tensor)
  write_data ts none ptr = err wild
  write_data ts (some t) ptr = write_found ts t ptr (get_elem? ts t)

  -- `GGML_ASSERT(tensor_buffer_.get() != NULL)`, which only the branch of the other backends has.
  unfoldable pub buffer_set : Bool → Bool
  unfolding get_backend_type
  buffer_set buffer = elim get_backend_type [ cpu ↦ true | gpu ↦ buffer ]

  -- The second loop.
  unfoldable pub data_loop :
      GgufLoader
      → List (List ℕ × ℕ)
      → Bool
      → List TensorSummary
      → List Tensor
      → Result (List Tensor)
  data_loop g tensor_map buffer [] ts = ok ts
  data_loop g tensor_map buffer (t_info ∷ infos) ts =
      if buffer_set buffer
      then write_data ts (get_tensor tensor_map t_info.name) (get_tensor_ptr g t_info.data_offset)
        >>= data_loop g tensor_map buffer infos
      else err aborted

  -- `tensor_buffer_` behind the test between the loops.
  unfoldable pub alloc_buffer : Bool → Bool
  unfolding get_backend_type
  alloc_buffer buffer = elim get_backend_type [ gpu ↦ p.allocates | cpu ↦ buffer ]

  -- `load_tensors`; `infos` is what `loader_->tensor_info()` answers.
  unfoldable pub load_tensors : List TensorSummary → ModelImpl → Result ModelImpl
  load_tensors infos m = do
    (ctx, tensor_map) ← create_loop infos m.tensor_ctx m.tensor_map
    let buffer = alloc_buffer m.tensor_buffer
    ts ← data_loop m.loader tensor_map buffer infos ctx.tensors
    ok (record m {
      tensor_ctx = record ctx { tensors = ts };
      tensor_map = tensor_map;
      tensor_buffer = buffer;
    })

  -- The constructor and `load_tensors`, as `Model::load` calls them.
  unfoldable pub loaded_impl : (ℕ → List ℕ) → GgufLoader → Result ModelImpl
  unfolding load_tensors
  loaded_impl type_name g = load_tensors (tensor_infos type_name g) (model_impl g)

-- What the calls of the system answer for a path: `open` fails, `fstat` fails, or a file, with the
-- bytes of the buffer that `is_gguf_file` never set and the address that `mmap` answers, if any.
pub data File : Type 0 where
  unopened unstattable : File
  readable : (junk file : List ℕ) (mapped : Option ℕ) → File

-- What stands behind `instance_`, beside what the call answers. It is `none` where the pointer is
-- null, and where a fault has left a `Model` behind it that has no `impl_` or whose loading is not
-- done.
abbrev pub Call : Type 0 → Type 0
Call A = Option ModelImpl → Result A × Option ModelImpl

-- The mapped file at its address.
abbrev pub mapped_file : List ℕ → Option ℕ → Option (ℕ × List ℕ)
mapped_file file none = none
mapped_file file (some base) = some (base, file)

-- The new `Model` behind `instance_`, once its `impl_` is made and has loaded its tensors. The model
-- that was there before is gone by then, also where this fails.
abbrev pub assembled : Result ModelImpl → Result Bool × Option ModelImpl
assembled (err fault) = (err fault, none)
assembled (ok m) = (ok true, some m)

-- What follows `load_gguf_file`, by what it answers. Its exceptions come before the assignment to
-- `instance_`; `QwenModel` reads through a null loader behind it.
abbrev pub installed : (GgufLoader → Result ModelImpl) → Result (Option GgufLoader) → Call Bool
installed make (err fault) s = (err fault, s)
installed make (ok none) s = (err wild, none)
installed make (ok (some g)) s = assembled (make g)

-- `Model::load`.
unfoldable pub load : Platform → (ℕ → List ℕ) → File → Call Bool
unfolding loaded_impl
load p type_name unopened s = (ok false, s)
load p type_name unstattable s = (ok false, s)
load p type_name (readable junk file mapped) s =
    if is_gguf_file junk file
    then installed (loaded_impl p type_name) (load_gguf_file (mapped_file file mapped)) s
    else (ok false, s)

-- `Model::unload`.
unfoldable pub unload : Call (Unit {0})
unload s = (ok tt, none)

-- `Model::instance`. Where no model is loaded, the Release build of the README has no assertion, and
-- the null pointer is used.
unfoldable pub instance_of : Call ModelImpl
instance_of none = (err wild, none)
instance_of (some m) = (ok m, some m)
