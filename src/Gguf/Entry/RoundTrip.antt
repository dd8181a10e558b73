-- ===== src/Gguf/Entry/RoundTrip.antt =====
-- Entries that a writer of the format puts down are read back, whatever follows them.
use zinfer_lm.Base.{
  ℕ, ◌+◌, ◌*◌, ◌^◌, ◌<◌, ◌≡◌, refl, sym, List, [], ◌∷◌, ◌++◌, append_assoc, arith, length,
  length-append, drop-append, ok, All,
}
use zinfer_lm.Gguf.Bytes.{to_le, length-to_le, read_le-to_le, to_int, advance, advance-append}
use zinfer_lm.Gguf.DType.{DType, uint8, other, code_of, dtype_of-code_of, IsNamed}
use zinfer_lm.Gguf.Value.{text, size, string_from_ptr}
use zinfer_lm.Gguf.Value.RoundTrip.{
  encode, IsWritable, size_lem, string_round_trip, value_from_ptr-encode,
}
use zinfer_lm.Gguf.Entry.{
  Metadata, metadata_from_ptr, metadata_size, TensorInfo, dimensions_from_ptr, tensor_from_ptr,
  tensor_size,
}

-- The bytes of a string: its length, then its characters.
abbrev pub encode_string : List ℕ → List ℕ
encode_string s = to_le 8 (length s) ++ s

length-encode_string : (s : List ℕ) → length (encode_string s) ≡ 8 + length s
length-encode_string s =
    omega (arith, length-append (to_le 8 (length s)) s, length-to_le 8 (length s))

size-string :
    (s : List ℕ) → length (encode_string s) < 2 ^ 31 → size (text s) ≡ length (encode_string s)
unfolding size to_int
size-string s h = omega (arith, length-encode_string s)

-- Reading a string and moving behind it.
string_step :
    (s rest : List ℕ)
    → length (encode_string s) < 2 ^ 31
    → (string_from_ptr (encode_string s ++ rest) ≡ ok s)
      × (advance (size (text s)) (encode_string s ++ rest) ≡ ok rest)
string_step s rest h = (
  string_round_trip s rest (omega (arith, length-encode_string s)),
  advance-append (size (text s)) (encode_string s) rest (size-string s h)
      (omega (arith, size-string s h)),
)

code_of-lt : (t : DType) → IsNamed t → code_of t < 256 ^ 4
unfolding code_of
code_of-lt uint8 h = omega arith
code_of-lt (other c) h = absurd h
code_of-lt _ h = omega arith

abbrev pub encode_metadata : Metadata → List ℕ
encode_metadata m = encode_string m.key ++ (to_le 4 (code_of m.val_type) ++ encode m.val)

-- An entry that the format can write.
pub record IsWritableEntry (m : Metadata) : Type 0 where
  pub named : IsNamed m.val_type
  pub fits : IsWritable m.val_type m.val
  pub short : length (encode_metadata m) < 2 ^ 31

length-encode_metadata :
    (m : Metadata)
    → length (encode_metadata m) ≡ length (encode_string m.key) + (4 + length (encode m.val))
length-encode_metadata m = omega (
  arith,
  length-append (encode_string m.key) (to_le 4 (code_of m.val_type) ++ encode m.val),
  length-append (to_le 4 (code_of m.val_type)) (encode m.val),
  length-to_le 4 (code_of m.val_type),
)

metadata_size_lem :
    (m : Metadata) → IsWritableEntry m → metadata_size m ≡ length (encode_metadata m)
unfolding metadata_size to_int
metadata_size_lem m w = omega (
  arith,
  length-encode_metadata m,
  w.short,
  size-string m.key (omega (arith, length-encode_metadata m, w.short)),
  size_lem m.val m.val_type w.fits (omega (arith, length-encode_metadata m, w.short)),
)

-- A metadata entry that is written by the format's rules in fewer than 2 ^ 31 bytes is read back as
-- itself, whatever follows it, and the reader then moves by its `size` to exactly what follows.
pub metadata_from_ptr-encode :
    (m : Metadata) (rest : List ℕ)
    → IsWritableEntry m
    → (metadata_from_ptr (encode_metadata m ++ rest) ≡ ok m)
      × (advance (metadata_size m) (encode_metadata m ++ rest) ≡ ok rest)
unfolding metadata_from_ptr
metadata_from_ptr-encode m rest w = (
  rw (
    append_assoc (encode_string m.key) (to_le 4 (code_of m.val_type) ++ encode m.val) rest,
    append_assoc (to_le 4 (code_of m.val_type)) (encode m.val) rest,
    (string_step m.key tail key_short).0,
    (string_step m.key tail key_short).1,
    read_le-to_le 4 (code_of m.val_type) (encode m.val ++ rest) (code_of-lt m.val_type w.named),
    drop-append (to_le 4 (code_of m.val_type)) (encode m.val ++ rest) {n = 4}
        (sym (length-to_le 4 (code_of m.val_type))),
    dtype_of-code_of m.val_type w.named,
    (value_from_ptr-encode m.val m.val_type rest w.fits val_short).0,
  ),
  advance-append (metadata_size m) (encode_metadata m) rest (metadata_size_lem m w)
      (omega (arith, metadata_size_lem m w, w.short)),
)
  where
    tail : List ℕ
    tail = to_le 4 (code_of m.val_type) ++ (encode m.val ++ rest)

    key_short : length (encode_string m.key) < 2 ^ 31
    key_short = omega (arith, length-encode_metadata m, w.short)

    val_short : length (encode m.val) < 2 ^ 31
    val_short = omega (arith, length-encode_metadata m, w.short)

unfoldable pub encode_dimensions : List ℕ → List ℕ
encode_dimensions [] = []
encode_dimensions (d ∷ ds) = to_le 8 d ++ encode_dimensions ds

length-encode_dimensions : (ds : List ℕ) → length (encode_dimensions ds) ≡ 8 * length ds
unfolding encode_dimensions
length-encode_dimensions [] = omega arith
length-encode_dimensions (d ∷ ds) = omega (
  arith,
  length-append (to_le 8 d) (encode_dimensions ds),
  length-to_le 8 d,
  length-encode_dimensions ds,
)

dimensions_round_trip :
    (ds rest : List ℕ)
    → All (λ d. d < 256 ^ 8) ds
    → dimensions_from_ptr (length ds) (encode_dimensions ds ++ rest) ≡ ok (ds, rest)
unfolding dimensions_from_ptr encode_dimensions
dimensions_round_trip [] rest h = refl
dimensions_round_trip (d ∷ ds) rest h = rw (
  append_assoc (to_le 8 d) (encode_dimensions ds) rest,
  read_le-to_le 8 d (encode_dimensions ds ++ rest) h.0,
  drop-append (to_le 8 d) (encode_dimensions ds ++ rest) {n = 8} (sym (length-to_le 8 d)),
  dimensions_round_trip ds rest h.1,
)

-- The bytes of a tensor entry: name, number of dimensions, dimensions, type code, offset.
abbrev pub encode_tensor : TensorInfo → List ℕ
encode_tensor t =
    encode_string t.name
    ++ (to_le 4 t.n_dimensions
        ++ (encode_dimensions t.dimensions ++ (to_le 4 t.dtype ++ to_le 8 t.offset)))

pub record IsWritableTensor (t : TensorInfo) : Type 0 where
  pub counted : t.n_dimensions ≡ length t.dimensions
  pub dims : All (λ d. d < 256 ^ 8) t.dimensions
  pub dtype_fits : t.dtype < 256 ^ 4
  pub offset_fits : t.offset < 256 ^ 8
  pub short : length (encode_string t.name) + 8 * length t.dimensions + 16 < 2 ^ 31

length-encode_tensor :
    (t : TensorInfo)
    → length (encode_tensor t) ≡ length (encode_string t.name) + 8 * length t.dimensions + 16
length-encode_tensor t = omega (
  arith,
  length-append (encode_string t.name) (
      to_le 4 t.n_dimensions
      ++ (encode_dimensions t.dimensions ++ (to_le 4 t.dtype ++ to_le 8 t.offset))),
  length-append (to_le 4 t.n_dimensions)
      (encode_dimensions t.dimensions ++ (to_le 4 t.dtype ++ to_le 8 t.offset)),
  length-append (encode_dimensions t.dimensions) (to_le 4 t.dtype ++ to_le 8 t.offset),
  length-append (to_le 4 t.dtype) (to_le 8 t.offset),
  length-to_le 4 t.n_dimensions,
  length-to_le 4 t.dtype,
  length-to_le 8 t.offset,
  length-encode_dimensions t.dimensions,
)

tensor_size_lem : (t : TensorInfo) → IsWritableTensor t → tensor_size t ≡ length (encode_tensor t)
unfolding tensor_size to_int
tensor_size_lem t w =
    omega (arith, length-encode_tensor t, w.short, size-string t.name (omega (arith, w.short)))

-- The same of a tensor entry: it is read back as itself, with its dimensions in order, and the
-- reader then moves by its `size` to exactly what follows.
pub tensor_from_ptr-encode :
    (t : TensorInfo) (rest : List ℕ)
    → IsWritableTensor t
    → (tensor_from_ptr (encode_tensor t ++ rest) ≡ ok t)
      × (advance (tensor_size t) (encode_tensor t ++ rest) ≡ ok rest)
unfolding tensor_from_ptr
tensor_from_ptr-encode t rest w = (
  rw (
    append_assoc (encode_string t.name)
        (to_le 4 t.n_dimensions
          ++ (encode_dimensions t.dimensions ++ (to_le 4 t.dtype ++ to_le 8 t.offset)))
        rest,
    append_assoc (to_le 4 t.n_dimensions)
        (encode_dimensions t.dimensions ++ (to_le 4 t.dtype ++ to_le 8 t.offset)) rest,
    append_assoc (encode_dimensions t.dimensions) (to_le 4 t.dtype ++ to_le 8 t.offset) rest,
    append_assoc (to_le 4 t.dtype) (to_le 8 t.offset) rest,
    (string_step t.name (to_le 4 t.n_dimensions ++ body) (omega (arith, w.short))).0,
    (string_step t.name (to_le 4 t.n_dimensions ++ body) (omega (arith, w.short))).1,
    read_le-to_le 4 t.n_dimensions body (omega (arith, w.counted, w.short)),
    drop-append (to_le 4 t.n_dimensions) body {n = 4} (sym (length-to_le 4 t.n_dimensions)),
    all_dimensions,
    read_le-to_le 4 t.dtype (to_le 8 t.offset ++ rest) w.dtype_fits,
    drop-append (to_le 4 t.dtype) (to_le 8 t.offset ++ rest) {n = 4} (sym (length-to_le 4 t.dtype)),
    read_le-to_le 8 t.offset rest w.offset_fits,
  ),
  advance-append (tensor_size t) (encode_tensor t) rest (tensor_size_lem t w)
      (omega (arith, tensor_size_lem t w, length-encode_tensor t, w.short)),
)
  where
    tail : List ℕ
    tail = to_le 4 t.dtype ++ (to_le 8 t.offset ++ rest)

    body : List ℕ
    body = encode_dimensions t.dimensions ++ tail

    all_dimensions : dimensions_from_ptr t.n_dimensions body ≡ ok (t.dimensions, tail)
    all_dimensions = rw w.counted (dimensions_round_trip t.dimensions tail w.dims)
