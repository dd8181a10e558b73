-- ===== src/Gguf/DType.antt =====
-- The type codes of src/model_loader/gguf/metadata.h and the file types of gguf.h.
use Prim.Native.String.{String}
use zinfer_lm.Base.{ℕ, ◌≡◌, refl, arith, ◌==◌, if◌then◌else◌}

-- `enum MetadataDType : uint32_t`; `other` is a code that the enumeration does not name.
pub data DType : Type 0 where
  uint8 int8 uint16 int16 uint32 int32 float32 boolean string array uint64 int64 float64 : DType
  other : ℕ → DType

unfoldable pub dtype_of : ℕ → DType
dtype_of c =
    if c == 0
    then uint8
    else if c == 1
    then int8
    else if c == 2
    then uint16
    else if c == 3
    then int16
    else if c == 4
    then uint32
    else if c == 5
    then int32
    else if c == 6
    then float32
    else if c == 7
    then boolean
    else if c == 8
    then string
    else if c == 9
    then array
    else if c == 10
    then uint64
    else if c == 11
    then int64
    else if c == 12
    then float64
    else other c

-- The number that stands in the file.
unfoldable pub code_of : DType → ℕ
code_of uint8 = 0
code_of int8 = 1
code_of uint16 = 2
code_of int16 = 3
code_of uint32 = 4
code_of int32 = 5
code_of float32 = 6
code_of boolean = 7
code_of string = 8
code_of array = 9
code_of uint64 = 10
code_of int64 = 11
code_of float64 = 12
code_of (other c) = c

-- The switch of `metadata_dtype_name`.
unfoldable pub metadata_dtype_name : DType → String
metadata_dtype_name uint8 = "UINT8"
metadata_dtype_name int8 = "INT8"
metadata_dtype_name uint16 = "UINT16"
metadata_dtype_name int16 = "INT16"
metadata_dtype_name uint32 = "UINT32"
metadata_dtype_name int32 = "INT32"
metadata_dtype_name float32 = "FLOAT32"
metadata_dtype_name boolean = "BOOL"
metadata_dtype_name string = "STRING"
metadata_dtype_name array = "ARRAY"
metadata_dtype_name uint64 = "UINT64"
metadata_dtype_name int64 = "INT64"
metadata_dtype_name float64 = "FLOAT64"
metadata_dtype_name (other c) = "UNKNOWN"

-- The codes that the enumeration names, and the types that it names.
abbrev pub IsNamed : DType → Type 0
IsNamed (other c) = ⊥
IsNamed t = Unit {0}

pub dtype_of-code_of : (t : DType) → IsNamed t → dtype_of (code_of t) ≡ t
unfolding dtype_of code_of
dtype_of-code_of uint8 h = refl
dtype_of-code_of (other c) h = absurd h
dtype_of-code_of _ h = refl

pub code_of-dtype_of : (c : ℕ) → code_of (dtype_of c) ≡ c
unfolding dtype_of code_of
code_of-dtype_of c = ground arith
