-- ===== src/Gguf/Loader/RoundTrip.antt =====
-- A whole file: what the loader makes of the header, the metadata and the tensor entries that a
-- writer of the format puts down.
use zinfer_lm.Base.{
  ℕ, ◌^◌, ◌<◌, ◌≡◌, refl, sym, Option, none, some, List, [], ◌∷◌, ◌++◌, append_assoc, arith, length,
  length-append, drop, drop-append, ok, All, find, insert, find-insert, bytes_eq, bytes_beq,
  if◌then◌else◌,
}
use zinfer_lm.Gguf.Bytes.{to_le, length-to_le, read_le-to_le, to_int}
use zinfer_lm.Gguf.Entry.{Metadata, TensorInfo}
use zinfer_lm.Gguf.Entry.RoundTrip.{
  encode_metadata, IsWritableEntry, metadata_from_ptr-encode, encode_tensor, IsWritableTensor,
  tensor_from_ptr-encode,
}
use zinfer_lm.Gguf.Loader.{
  Header, header_from_ptr, MetadataMap, TensorMap, metadata_loop, int_rounds, tensors_loop,
}

unfoldable pub encode_entries : List Metadata → List ℕ
encode_entries [] = []
encode_entries (m ∷ ms) = encode_metadata m ++ encode_entries ms

unfoldable pub encode_tensors : List TensorInfo → List ℕ
encode_tensors [] = []
encode_tensors (t ∷ ts) = encode_tensor t ++ encode_tensors ts

-- The first entry of a key, and the first tensor of a name.
abbrev pub first_entry : List ℕ → List Metadata → Option Metadata
first_entry k [] = none
first_entry k (m ∷ ms) = if bytes_beq m.key k then some m else first_entry k ms

abbrev pub first_tensor : List ℕ → List TensorInfo → Option TensorInfo
first_tensor k [] = none
first_tensor k (t ∷ ts) = if bytes_beq t.name k then some t else first_tensor k ts

abbrev pub insert_entries : List Metadata → MetadataMap → MetadataMap
insert_entries [] m = m
insert_entries (e ∷ es) m = insert_entries es (insert e.key e m)

abbrev pub insert_tensors : List TensorInfo → TensorMap → TensorMap
insert_tensors [] m = m
insert_tensors (t ∷ ts) m = insert_tensors ts (insert t.name t m)

pub find-insert_entries :
    (k : List ℕ) (es : List Metadata) (m : MetadataMap)
    → find k (insert_entries es m) ≡ elim (find k m) [ none ↦ first_entry k es | some w ↦ some w ]
find-insert_entries k [] m = ground arith
find-insert_entries k (e ∷ es) m =
    ground (arith, find-insert_entries k es (insert e.key e m), find-insert e.key k e m)

pub find-insert_tensors :
    (k : List ℕ) (ts : List TensorInfo) (m : TensorMap)
    → find k (insert_tensors ts m) ≡ elim (find k m) [ none ↦ first_tensor k ts | some w ↦ some w ]
find-insert_tensors k [] m = ground arith
find-insert_tensors k (t ∷ ts) m =
    ground (arith, find-insert_tensors k ts (insert t.name t m), find-insert t.name k t m)

pub metadata_loop-encode :
    (es : List Metadata) (m : MetadataMap) (rest : List ℕ)
    → All IsWritableEntry es
    → metadata_loop (length es) (encode_entries es ++ rest) m ≡ ok (insert_entries es m, rest)
unfolding metadata_loop encode_entries
metadata_loop-encode [] m rest h = refl
metadata_loop-encode (e ∷ es) m rest h =
    let (found, moved) = metadata_from_ptr-encode e (encode_entries es ++ rest) h.0 in
    rw (
      append_assoc (encode_metadata e) (encode_entries es) rest,
      found,
      moved,
      metadata_loop-encode es (insert e.key e m) rest h.1,
    )

pub tensors_loop-encode :
    (ts : List TensorInfo) (m : TensorMap) (rest : List ℕ)
    → All IsWritableTensor ts
    → tensors_loop (length ts) (encode_tensors ts ++ rest) m ≡ ok (insert_tensors ts m, rest)
unfolding tensors_loop encode_tensors
tensors_loop-encode [] m rest h = refl
tensors_loop-encode (t ∷ ts) m rest h =
    let (found, moved) = tensor_from_ptr-encode t (encode_tensors ts ++ rest) h.0 in
    rw (
      append_assoc (encode_tensor t) (encode_tensors ts) rest,
      found,
      moved,
      tensors_loop-encode ts (insert t.name t m) rest h.1,
    )

abbrev pub encode_header : Header → List ℕ
encode_header h =
    to_le 4 h.magic
    ++ (to_le 4 h.version ++ (to_le 8 h.tensor_count ++ to_le 8 h.metadata_kv_count))

-- What the header of a file has to hold.
pub record IsHeader (h : Header) (es : List Metadata) (ts : List TensorInfo) : Type 0 where
  pub magic_fits : h.magic < 256 ^ 4
  pub version_fits : h.version < 256 ^ 4
  pub tensors_counted : h.tensor_count ≡ length ts
  pub entries_counted : h.metadata_kv_count ≡ length es
  pub tensors_fit : length ts < 256 ^ 8
  pub entries_fit : length es < 2 ^ 31

pub header_round_trip :
    (h : Header) (es : List Metadata) (ts : List TensorInfo) (rest : List ℕ)
    → IsHeader h es ts
    → (header_from_ptr (encode_header h ++ rest) ≡ ok h)
      × (drop 24 (encode_header h ++ rest) ≡ rest)
unfolding header_from_ptr
header_round_trip h es ts rest w = (
  rw (
    append_assoc a (b ++ (c ++ d)) rest,
    append_assoc b (c ++ d) rest,
    append_assoc c d rest,
    read_le-to_le 4 h.magic (b ++ (c ++ (d ++ rest))) w.magic_fits,
    drop-append a (b ++ (c ++ (d ++ rest))) {n = 4} (sym (length-to_le 4 h.magic)),
    read_le-to_le 4 h.version (c ++ (d ++ rest)) w.version_fits,
    skip_eight,
    read_le-to_le 8 h.tensor_count (d ++ rest) (omega (arith, w.tensors_counted, w.tensors_fit)),
    skip_sixteen,
    read_le-to_le 8 h.metadata_kv_count rest (omega (arith, w.entries_counted, w.entries_fit)),
  ),
  drop-append (encode_header h) rest {n = 24} (
      omega (
        arith,
        length-append a (b ++ (c ++ d)),
        length-append b (c ++ d),
        length-append c d,
        lengths,
      )),
)
  where
    a : List ℕ
    a = to_le 4 h.magic

    b : List ℕ
    b = to_le 4 h.version

    c : List ℕ
    c = to_le 8 h.tensor_count

    d : List ℕ
    d = to_le 8 h.metadata_kv_count

    lengths : (length a ≡ 4) × (length b ≡ 4) × (length c ≡ 8) × (length d ≡ 8)
    lengths = (
      length-to_le 4 h.magic,
      length-to_le 4 h.version,
      length-to_le 8 h.tensor_count,
      length-to_le 8 h.metadata_kv_count,
    )

    skip_eight : drop 8 (a ++ (b ++ (c ++ (d ++ rest)))) ≡ c ++ (d ++ rest)
    skip_eight = rw (← append_assoc a b (c ++ (d ++ rest))) (
        drop-append (a ++ b) (c ++ (d ++ rest)) {n = 8} (omega (arith, length-append a b, lengths)))

    skip_sixteen : drop 16 (a ++ (b ++ (c ++ (d ++ rest)))) ≡ d ++ rest
    skip_sixteen =
        rw (← append_assoc b c (d ++ rest), ← append_assoc a (b ++ c) (d ++ rest))
          (drop-append (a ++ (b ++ c)) (d ++ rest) {n = 16}
            (omega (arith, length-append a (b ++ c), length-append b c, lengths)))

abbrev pub encode_file : Header → List Metadata → List TensorInfo → List ℕ → List ℕ
encode_file h es ts tensor_data =
    encode_header h ++ (encode_entries es ++ (encode_tensors ts ++ tensor_data))

pub int_rounds_small : (n : ℕ) → n < 2 ^ 31 → int_rounds n ≡ n
unfolding int_rounds to_int
int_rounds_small n h = ground arith
