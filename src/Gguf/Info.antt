-- ===== src/Gguf/Info.antt =====
-- What the loader tells of a file, src/model_loader/gguf/gguf.h and gguf.cpp: the names of the file
-- types, `info` and both `tensor_info`.
use Prim.Native.String.{String}
use zinfer_lm.Base.{
  ℕ, ◌+◌, ◌^◌, ◌<◌, ◌≡◌, ap, ◌∙◌, Option, none, some, List, [], ◌∷◌, All, length, ok, Result, ◌>>=◌,
  find, nat_eq, bytes_eq, codes,
}
use zinfer_lm.Gguf.Value.{Primitive, to_string, value_u32, value_u8}
use zinfer_lm.Gguf.Entry.{Metadata, TensorInfo}
use zinfer_lm.Gguf.Entry.RoundTrip.{IsWritableEntry, IsWritableTensor}
use zinfer_lm.Gguf.Loader.{
  Header, GgufLoader, TensorMap, get_metadata, load_mapped, get_tensor_count,
}
use zinfer_lm.Gguf.Loader.Alignment.{alignment}
use zinfer_lm.Gguf.Loader.RoundTrip.{IsHeader, encode_file, first_entry, first_tensor}
use zinfer_lm.Gguf.Loader.File.{entry_or_empty, load_mapped-encode}

-- The cases of the switch, by the value of the enumerator.
abbrev file_type_names : List (ℕ × String)
file_type_names =
    (0, "ALL_F32")
    ∷ (1, "MOSTLY_F16")
    ∷ (2, "MOSTLY_Q4_0")
    ∷ (3, "MOSTLY_Q4_1")
    ∷ (7, "MOSTLY_Q8_0")
    ∷ (8, "MOSTLY_Q5_0")
    ∷ (9, "MOSTLY_Q5_1")
    ∷ (10, "MOSTLY_Q2_K")
    ∷ (11, "MOSTLY_Q3_K_S")
    ∷ (12, "MOSTLY_Q3_K_M")
    ∷ (13, "MOSTLY_Q3_K_L")
    ∷ (14, "MOSTLY_Q4_K_S")
    ∷ (15, "MOSTLY_Q4_K_M")
    ∷ (16, "MOSTLY_Q5_K_S")
    ∷ (17, "MOSTLY_Q5_K_M")
    ∷ (18, "MOSTLY_Q6_K")
    ∷ (19, "MOSTLY_IQ2_XXS")
    ∷ (20, "MOSTLY_IQ2_XS")
    ∷ (21, "MOSTLY_Q2_K_S")
    ∷ (22, "MOSTLY_IQ3_XS")
    ∷ (23, "MOSTLY_IQ3_XXS")
    ∷ []

-- `gguf_file_type_name`.
unfoldable pub gguf_file_type_name : ℕ → List ℕ
gguf_file_type_name type = elim (find type file_type_names) [
  | none ↦ codes "UNKNOWN"
  | some name ↦ codes name
]

-- `model_info_t`.
pub record ModelInfo : Type 0 where
  pub name : List ℕ
  pub version : List ℕ
  pub architecture : List ℕ
  pub file_type : List ℕ

-- `GGUFLoader::info`; `format` prints a number.
unfoldable pub info : (Primitive → List ℕ) → GgufLoader → Result ModelInfo
unfolding gguf_file_type_name
info format g = do
  architecture ← to_string format (get_metadata g.metadata (codes "general.architecture")).val
  version ← to_string format (get_metadata g.metadata (codes "general.version")).val
  name ← to_string format (get_metadata g.metadata (codes "general.name")).val
  file_type ← value_u32 (get_metadata g.metadata (codes "general.file_type")).val
  ok (record {
    name = name;
    version = version;
    architecture = architecture;
    file_type = gguf_file_type_name file_type;
  })

-- `tensor_info_t`.
pub record TensorSummary : Type 0 where
  pub name : List ℕ
  pub type_name : List ℕ
  pub type_id : ℕ
  pub n_dim : ℕ
  pub data_offset : ℕ
  pub dimensions : List ℕ

-- What `ggml_type_name` answers is `type_name`.
module _ (type_name : ℕ → List ℕ) where
  unfoldable pub summary_of : TensorInfo → TensorSummary
  summary_of t = record {
    name = t.name;
    type_name = type_name t.dtype;
    type_id = t.dtype;
    n_dim = t.n_dimensions;
    data_offset = t.offset;
    dimensions = t.dimensions;
  }

  abbrev pub empty_summary : TensorSummary
  empty_summary = record {
    name = [];
    type_name = [];
    type_id = 0;
    n_dim = 0;
    data_offset = 0;
    dimensions = [];
  }

  -- The loop of `tensor_info()`. The order is the map's, which the code does not fix.
  unfoldable pub summaries : TensorMap → List TensorSummary
  unfolding summary_of
  summaries [] = []
  summaries ((name, t) ∷ m) = summary_of t ∷ summaries m

  unfoldable pub tensor_infos : GgufLoader → List TensorSummary
  unfolding summaries
  tensor_infos g = summaries g.tensors

  abbrev pub summary_or_empty : Option TensorInfo → TensorSummary
  unfolding summary_of
  summary_or_empty none = empty_summary
  summary_or_empty (some t) = summary_of t

  -- `tensor_info(name)`.
  unfoldable pub tensor_info : GgufLoader → List ℕ → TensorSummary
  tensor_info g name = summary_or_empty (find name g.tensors)

-- A file that is written by the format's rules, under the conditions under which it is loaded,
-- answers for each tensor name what its first entry of that name holds, the empty answer for a name
-- that it does not have, and the number of its tensor entries.
pub load_mapped-tensor_info :
    (type_name : ℕ → List ℕ) (h : Header) (es : List Metadata) (ts : List TensorInfo)
    (tensor_data : List ℕ) (base a : ℕ)
    → IsHeader h es ts
    → All IsWritableEntry es
    → All IsWritableTensor ts
    → value_u8 (entry_or_empty (first_entry (codes "general.alignment") es)).val ≡ ok a
    → base + length (encode_file h es ts tensor_data) + alignment a < 2 ^ 64
    → (g : GgufLoader) × (load_mapped base (encode_file h es ts tensor_data) ≡ ok g)
      × ((k : List ℕ) → tensor_info type_name g k ≡ summary_or_empty type_name (first_tensor k ts))
      × (get_tensor_count g ≡ length ts)
unfolding tensor_info get_tensor_count
load_mapped-tensor_info type_name h es ts tensor_data base a wh we wt ha fits =
    let (g, e, header, entries, tensors, least) =
      load_mapped-encode h es ts tensor_data base a wh we wt ha fits in
    (
      g,
      e,
      λ k. ap (summary_or_empty type_name) (tensors k),
      ap (λ (x : Header). x.tensor_count) header ∙ wh.tensors_counted,
    )
