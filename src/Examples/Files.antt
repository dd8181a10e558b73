-- ===== src/Examples/Files.antt =====
-- The loader's theorems on a small file: an alignment, a name, an array and one tensor.
use zinfer_lm.Base.{
  ℕ, ◌+◌, ◌-◌, ◌^◌, ◌<◌, ◌≡◌, refl, List, [], ◌∷◌, ◌++◌, length, arith, ok, err, wild,
  bad_variant_access, find, bytes_eq, codes,
}
use zinfer_lm.Gguf.Bytes.{advance, to_le}
use zinfer_lm.Gguf.DType.{uint8, uint32, array, dtype_of}
use zinfer_lm.Gguf.Value.{
  Primitive, u8, i32, u32, Value, primitive, array_of, nil, cons, size, value_from_ptr, to_string,
  value_u8,
}
use zinfer_lm.Gguf.Value.RoundTrip.{encode, IsWritable, value_from_ptr-encode}
use zinfer_lm.Gguf.Value.Printing.{to_string-short}
use zinfer_lm.Gguf.Entry.{Metadata, TensorInfo}
use zinfer_lm.Gguf.Entry.RoundTrip.{IsWritableEntry, IsWritableTensor, encode_dimensions}
use zinfer_lm.Gguf.Loader.{Header, GgufLoader, load_mapped}
use zinfer_lm.Gguf.Loader.Alignment.{alignment, IsLeastMultiple}
use zinfer_lm.Gguf.Loader.RoundTrip.{
  encode_file, encode_entries, encode_tensors, first_entry, first_tensor, IsHeader,
}
use zinfer_lm.Gguf.Loader.File.{load_mapped-encode, load_mapped-encode_u32}

abbrev numbers : Value
numbers = array_of 5 2 (cons (primitive (i32 1) 4) (cons (primitive (i32 3) 4) nil))

numbers-IsWritable : IsWritable array numbers
unfolding dtype_of
numbers-IsWritable = (
  refl,
  omega arith,
  refl,
  omega arith,
  ((refl, refl, omega arith), ((refl, refl, omega arith), tt)),
)

abbrev aligned : Metadata
aligned = record { key = codes "general.alignment"; val_type = uint8; val = primitive (u8 64) 1 }

abbrev types : Metadata
types = record { key = codes "types"; val_type = array; val = numbers }

pub aligned-IsWritableEntry : IsWritableEntry aligned
unfolding to_le encode
aligned-IsWritableEntry = record {
  named = tt;
  fits = (refl, refl, omega arith);
  short = omega arith;
}

pub types-IsWritableEntry : IsWritableEntry types
unfolding to_le encode
types-IsWritableEntry = record { named = tt; fits = numbers-IsWritable; short = omega arith }

abbrev weights : TensorInfo
weights = record {
  name = codes "w";
  n_dimensions = 2;
  dimensions = 3 ∷ 4 ∷ [];
  dtype = 0;
  offset = 0;
}

pub weights-IsWritableTensor : IsWritableTensor weights
unfolding to_le
weights-IsWritableTensor = record {
  counted = refl;
  dims = (omega arith, (omega arith, tt));
  dtype_fits = omega arith;
  offset_fits = omega arith;
  short = omega arith;
}

abbrev pub header : Header
header = record { magic = 0x46554747; version = 3; tensor_count = 1; metadata_kv_count = 2 }

abbrev pub entries : List Metadata
entries = aligned ∷ types ∷ []

abbrev pub tensors : List TensorInfo
tensors = weights ∷ []

abbrev pub floats : List ℕ
floats = 0 ∷ 0 ∷ 128 ∷ 63 ∷ []

pub header-IsHeader : IsHeader header entries tensors
header-IsHeader = record {
  magic_fits = omega arith;
  version_fits = omega arith;
  tensors_counted = refl;
  entries_counted = refl;
  tensors_fit = omega arith;
  entries_fit = omega arith;
}

pub fits_in : 4096 + length (encode_file header entries tensors floats) + alignment 64 < 2 ^ 64
unfolding to_le encode encode_entries encode_tensors encode_dimensions
fits_in = omega arith

pub aligned_u8 : value_u8 aligned.val ≡ ok 64
unfolding value_u8
aligned_u8 = refl

load_mapped-encode_example :
    (g : GgufLoader) × (load_mapped 4096 (encode_file header entries tensors floats) ≡ ok g)
    × (g.header ≡ header)
    × ((k : List ℕ) → find k g.metadata ≡ first_entry k entries)
    × ((k : List ℕ) → find k g.tensors ≡ first_tensor k tensors)
    × IsLeastMultiple 64
        (4096 + (length (encode_file header entries tensors floats) - length floats))
        g.tensor_base
load_mapped-encode_example =
    load_mapped-encode header entries tensors floats 4096 64 header-IsHeader
      (aligned-IsWritableEntry, (types-IsWritableEntry, tt)) (weights-IsWritableTensor, tt)
      aligned_u8 fits_in

numbers-short : length (encode numbers) < 2 ^ 31
unfolding to_le encode
numbers-short = omega arith

value_from_ptr-encode_example :
    (value_from_ptr (encode numbers ++ floats) array ≡ ok numbers)
    × (advance (size numbers) (encode numbers ++ floats) ≡ ok floats)
value_from_ptr-encode_example =
    value_from_ptr-encode numbers array floats numbers-IsWritable numbers-short

-- The alignment in the type that the format gives it.
abbrev unsigned : Metadata
unsigned = record { key = codes "general.alignment"; val_type = uint32; val = primitive (u32 32) 4 }

abbrev unsigned_first : List Metadata
unsigned_first = unsigned ∷ types ∷ []

unsigned-IsWritableEntry : IsWritableEntry unsigned
unfolding to_le encode
unsigned-IsWritableEntry = record {
  named = tt;
  fits = (refl, refl, omega arith);
  short = omega arith;
}

load_mapped-encode_u32_example :
    load_mapped 4096 (encode_file header unsigned_first tensors floats) ≡ err bad_variant_access
load_mapped-encode_u32_example =
    load_mapped-encode_u32 header unsigned_first tensors floats 4096 32 4 unsigned
      (record {
        magic_fits = omega arith;
        version_fits = omega arith;
        tensors_counted = refl;
        entries_counted = refl;
        tensors_fit = omega arith;
        entries_fit = omega arith;
      })
      (unsigned-IsWritableEntry, (types-IsWritableEntry, tt)) (weights-IsWritableTensor, tt) refl
      refl

abbrev digits : Primitive → List ℕ
digits p = codes "0"

to_string-short_example : to_string digits numbers ≡ err wild
to_string-short_example =
    to_string-short digits 5 2 (cons (primitive (i32 1) 4) (cons (primitive (i32 3) 4) nil))
      (omega arith)
