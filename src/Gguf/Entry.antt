-- ===== src/Gguf/Entry.antt =====
-- A metadata entry, `Metadata` of src/model_loader/gguf/metadata.cpp, and a tensor entry,
-- `TensorInfo` of tensors.cpp.
pub mod RoundTrip
use zinfer_lm.Base.{ℕ, zero, suc, ◌+◌, ◌*◌, List, [], ◌∷◌, length, drop, Result, ok, ◌>>=◌}
use zinfer_lm.Gguf.Bytes.{read_le, to_int, advance}
use zinfer_lm.Gguf.DType.{DType, uint8, dtype_of}
use zinfer_lm.Gguf.Value.{Value, u8, primitive, text, size, string_from_ptr, value_from_ptr}

-- `Metadata`: the key's characters, the type code and the value.
pub record Metadata : Type 0 where
  pub key : List ℕ
  pub val_type : DType
  pub val : Value

-- `Metadata::from_ptr`.
unfoldable pub metadata_from_ptr : List ℕ → Result Metadata
metadata_from_ptr ptr = do
  key ← string_from_ptr ptr
  cur ← advance (size (text key)) ptr
  c ← read_le 4 cur
  val ← value_from_ptr (drop 4 cur) (dtype_of c)
  ok (record { key = key; val_type = dtype_of c; val = val })

-- `Metadata::size`.
unfoldable pub metadata_size : Metadata → ℕ
metadata_size m = to_int (size (text m.key) + 4 + size m.val)

-- `Metadata::empty`, the entry that a missing key stands for.
unfoldable pub empty_metadata : Metadata
empty_metadata = record { key = []; val_type = uint8; val = primitive (u8 0) 1 }

-- `TensorInfo`.
pub record TensorInfo : Type 0 where
  pub name : List ℕ
  pub n_dimensions : ℕ
  pub dimensions : List ℕ
  pub dtype : ℕ
  pub offset : ℕ

-- The loop that reads the dimensions, eight bytes each, and the pointer behind them.
unfoldable pub dimensions_from_ptr : ℕ → List ℕ → Result (List ℕ × List ℕ)
dimensions_from_ptr zero cur = ok ([], cur)
dimensions_from_ptr (suc n) cur = do
  d ← read_le 8 cur
  (ds, cur') ← dimensions_from_ptr n (drop 8 cur)
  ok (d ∷ ds, cur')

-- `TensorInfo::from_ptr`.
unfoldable pub tensor_from_ptr : List ℕ → Result TensorInfo
tensor_from_ptr ptr = do
  name ← string_from_ptr ptr
  cur ← advance (size (text name)) ptr
  n ← read_le 4 cur
  (ds, cur') ← dimensions_from_ptr n (drop 4 cur)
  t ← read_le 4 cur'
  o ← read_le 8 (drop 4 cur')
  ok (record { name = name; n_dimensions = n; dimensions = ds; dtype = t; offset = o })

-- `TensorInfo::size`.
unfoldable pub tensor_size : TensorInfo → ℕ
tensor_size t = to_int (size (text t.name) + 4 + 8 * length t.dimensions + 4 + 8)
