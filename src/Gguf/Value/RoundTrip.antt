-- ===== src/Gguf/Value/RoundTrip.antt =====
-- What a writer of the format puts down is read back, whatever follows it.
use zinfer_lm.Base.{
  ℕ, zero, suc, ◌+◌, ◌^◌, ◌<◌, ◌≡◌, refl, sym, List, [], ◌++◌, append_assoc, arith, length,
  length-append, drop, drop-append, Result, ok,
}
use zinfer_lm.Gguf.Bytes.{
  to_le, length-to_le, read_le-to_le, to_int, advance, advance-append, view-append,
}
use zinfer_lm.Gguf.DType.{
  DType, uint8, int8, uint16, int16, uint32, int32, float32, boolean, string, array, uint64, int64,
  float64, dtype_of,
}
use zinfer_lm.Gguf.Value.{
  Primitive, u8, i8, u16, i16, u32, i32, f32, bool, u64, i64, f64, Value, Items, primitive, text,
  array_of, nil, cons, length_items, size, size_items, primitive_from_ptr, string_from_ptr,
  items_from_ptr, array_from_ptr, from_ptr, value_from_ptr,
}

abbrev pub payload : Primitive → ℕ
payload (u8 n) = n
payload (i8 n) = n
payload (u16 n) = n
payload (i16 n) = n
payload (u32 n) = n
payload (i32 n) = n
payload (f32 n) = n
payload (bool n) = n
payload (u64 n) = n
payload (i64 n) = n
payload (f64 n) = n

abbrev pub width : Primitive → ℕ
width (u8 n) = 1
width (i8 n) = 1
width (u16 n) = 2
width (i16 n) = 2
width (u32 n) = 4
width (i32 n) = 4
width (f32 n) = 4
width (bool n) = 1
width (u64 n) = 8
width (i64 n) = 8
width (f64 n) = 8

abbrev pub dtype_of_primitive : Primitive → DType
dtype_of_primitive (u8 n) = uint8
dtype_of_primitive (i8 n) = int8
dtype_of_primitive (u16 n) = uint16
dtype_of_primitive (i16 n) = int16
dtype_of_primitive (u32 n) = uint32
dtype_of_primitive (i32 n) = int32
dtype_of_primitive (f32 n) = float32
dtype_of_primitive (bool n) = boolean
dtype_of_primitive (u64 n) = uint64
dtype_of_primitive (i64 n) = int64
dtype_of_primitive (f64 n) = float64

-- The bytes of a value, by the format's rules.
unfoldable mutual
  pub encode : Value → List ℕ
  encode (primitive p s) = to_le (width p) (payload p)
  encode (text s) = to_le 8 (length s) ++ s
  encode (array_of t n es) = to_le 4 t ++ (to_le 8 n ++ encode_items es)

  pub encode_items : Items → List ℕ
  encode_items nil = []
  encode_items (cons e es) = encode e ++ encode_items es

-- A value that the format can write under the type `t`.
abbrev mutual
  pub IsWritable : DType → Value → Type 0
  IsWritable t (primitive p s) =
      (t ≡ dtype_of_primitive p) × (s ≡ width p) × (payload p < 256 ^ width p)
  IsWritable t (text s) = t ≡ string
  IsWritable t (array_of c n es) =
      (t ≡ array)
      × (c < 256 ^ 4)
      × (n ≡ length_items es)
      × (n < 256 ^ 8)
      × AreWritable (dtype_of c) es

  pub AreWritable : DType → Items → Type 0
  AreWritable t nil = Unit {0}
  AreWritable t (cons e es) = IsWritable t e × AreWritable t es

-- The `int` that `size` returns is the number of bytes that the value takes.
length_part :
    (c n : ℕ) (es : Items) → length (encode (array_of c n es)) ≡ 12 + length (encode_items es)
unfolding encode
length_part c n es = omega (
  arith,
  length-append (to_le 4 c) (to_le 8 n ++ encode_items es),
  length-append (to_le 8 n) (encode_items es),
  length-to_le 4 c,
  length-to_le 8 n,
)

mutual
  unfolding size encode to_int

  pub size_lem :
      (v : Value) (t : DType)
      → IsWritable t v
      → length (encode v) < 2 ^ 31
      → size v ≡ length (encode v)
  size_lem (primitive p s) t w h = omega (arith, length-to_le (width p) (payload p))
  size_lem (text s) t w h =
      omega (arith, length-append (to_le 8 (length s)) s, length-to_le 8 (length s))
  size_lem (array_of c n es) t w h =
      let items : length (encode_items es) < 2 ^ 31 = omega (arith, length_part c n es) in
      omega (arith, length_part c n es, size_items_lem es (dtype_of c) w.4 items)

  size_items_lem :
      (es : Items) (t : DType)
      → AreWritable t es
      → length (encode_items es) < 2 ^ 31
      → size_items es ≡ length (encode_items es)
  size_items_lem nil t w h = refl
  size_items_lem (cons e es) t w h = omega (
    arith,
    length-append (encode e) (encode_items es),
    size_lem e t w.0 (omega (arith, length-append (encode e) (encode_items es))),
    size_items_lem es t w.1 (omega (arith, length-append (encode e) (encode_items es))),
  )

primitive_round_trip :
    (p : Primitive) (rest : List ℕ)
    → payload p < 256 ^ width p
    → primitive_from_ptr (to_le (width p) (payload p) ++ rest) (dtype_of_primitive p)
      ≡ ok (primitive p (width p))
unfolding primitive_from_ptr
primitive_round_trip (u8 n) rest h = rw (read_le-to_le 1 n rest h)
primitive_round_trip p rest h = rw (read_le-to_le (width p) (payload p) rest h)

from_ptr-primitive :
    (f : ℕ) (ptr : List ℕ) (p : Primitive)
    → from_ptr (suc f) ptr (dtype_of_primitive p) ≡ primitive_from_ptr ptr (dtype_of_primitive p)
unfolding from_ptr
from_ptr-primitive f ptr (u8 n) = refl
from_ptr-primitive f ptr p = refl

pub string_round_trip :
    (s rest : List ℕ)
    → length s < 256 ^ 8
    → string_from_ptr ((to_le 8 (length s) ++ s) ++ rest) ≡ ok s
unfolding string_from_ptr
string_round_trip s rest h =
    rw
      (
        append_assoc (to_le 8 (length s)) s rest,
        read_le-to_le 8 (length s) (s ++ rest) h,
        drop-append (to_le 8 (length s)) (s ++ rest) {n = 8} (sym (length-to_le 8 (length s))),
      )
      (view-append (length s) s rest refl)

text_round_trip :
    (f : ℕ) (s rest : List ℕ)
    → length s < 256 ^ 8
    → from_ptr (suc f) ((to_le 8 (length s) ++ s) ++ rest) string ≡ ok (text s)
unfolding from_ptr
text_round_trip f s rest h = rw (string_round_trip s rest h)

skip_twelve : (c n : ℕ) (body : List ℕ) → drop 12 (to_le 4 c ++ (to_le 8 n ++ body)) ≡ body
skip_twelve c n body = rw (← append_assoc (to_le 4 c) (to_le 8 n) body) (
    drop-append (to_le 4 c ++ to_le 8 n) body {n = 12}
      (omega (arith, length-append (to_le 4 c) (to_le 8 n), length-to_le 4 c, length-to_le 8 n)))

array_round_trip :
    (value : List ℕ → DType → Result Value) (c n : ℕ) (es : Items) (rest : List ℕ)
    → c < 256 ^ 4
    → n < 256 ^ 8
    → items_from_ptr (λ cur. value cur (dtype_of c)) n (encode_items es ++ rest) ≡ ok es
    → array_from_ptr value (encode (array_of c n es) ++ rest) ≡ ok (array_of c n es)
unfolding array_from_ptr encode
array_round_trip value c n es rest hc hn h =
    let body = encode_items es ++ rest in
    rw (
      append_assoc (to_le 4 c) (to_le 8 n ++ encode_items es) rest,
      append_assoc (to_le 8 n) (encode_items es) rest,
      read_le-to_le 4 c (to_le 8 n ++ body) hc,
      drop-append (to_le 4 c) (to_le 8 n ++ body) {n = 4} (sym (length-to_le 4 c)),
      read_le-to_le 8 n body hn,
      skip_twelve c n body,
      h,
    )

from_ptr-array :
    (f : ℕ) (ptr : List ℕ)
    → from_ptr (suc f) ptr array ≡ array_from_ptr (λ cur t. from_ptr f cur t) ptr
unfolding from_ptr
from_ptr-array f ptr = refl

mutual
  unfolding encode items_from_ptr

  from_ptr-encode :
      (v : Value) (f : ℕ) (t : DType) (rest : List ℕ)
      → IsWritable t v
      → length (encode v) < 2 ^ 31
      → length (encode v) < f
      → from_ptr f (encode v ++ rest) t ≡ ok v
  from_ptr-encode v zero t rest w h l = elim l [ ]
  from_ptr-encode (primitive p s) (suc f) t rest w h l =
      rw (w.0, w.1, from_ptr-primitive f (to_le (width p) (payload p) ++ rest) p)
        (primitive_round_trip p rest w.2)
  from_ptr-encode (text s) (suc f) t rest w h l =
      rw w (text_round_trip f s rest (omega (arith, length-append (to_le 8 (length s)) s)))
  from_ptr-encode (array_of c n es) (suc f) t rest w h l =
      rw (w.0, from_ptr-array f)
        (array_round_trip (λ cur t. from_ptr f cur t) c n es rest w.1 w.3
          (rw w.2 (
            items_from_ptr-encode es f (dtype_of c) rest w.4 (omega (arith, length_part c n es))
              (omega (arith, length_part c n es)))))

  items_from_ptr-encode :
      (es : Items) (f : ℕ) (t : DType) (rest : List ℕ)
      → AreWritable t es
      → length (encode_items es) < 2 ^ 31
      → length (encode_items es) < f
      → items_from_ptr (λ cur. from_ptr f cur t) (length_items es) (encode_items es ++ rest) ≡ ok es
  items_from_ptr-encode nil f t rest w h l = refl
  items_from_ptr-encode (cons e es) f t rest w h l =
      let both : length (encode e ++ encode_items es)
          ≡ length (encode e) + length (encode_items es) =
        length-append (encode e) (encode_items es) in
      rw (
        append_assoc (encode e) (encode_items es) rest,
        from_ptr-encode e f t (encode_items es ++ rest) w.0 (omega (arith, both))
            (omega (arith, both)),
        advance-append (size e) (encode e) (encode_items es ++ rest)
            (size_lem e t w.0 (omega (arith, both)))
            (omega (arith, both, size_lem e t w.0 (omega (arith, both)))),
        items_from_ptr-encode es f t rest w.1 (omega (arith, both)) (omega (arith, both)),
      )

-- A value that is written by the format's rules under its type, in fewer than 2 ^ 31 bytes, is read
-- back as itself, whatever follows it, and its `size` is the number of bytes that it takes, so that
-- the reader moves to exactly what follows.
pub value_from_ptr-encode :
    (v : Value) (t : DType) (rest : List ℕ)
    → IsWritable t v
    → length (encode v) < 2 ^ 31
    → (value_from_ptr (encode v ++ rest) t ≡ ok v) × (advance (size v) (encode v ++ rest) ≡ ok rest)
unfolding value_from_ptr
value_from_ptr-encode v t rest w h = (
  from_ptr-encode v (suc (length (encode v ++ rest))) t rest w h
      (omega (arith, length-append (encode v) rest)),
  advance-append (size v) (encode v) rest (size_lem v t w h) (omega (arith, size_lem v t w h)),
)
