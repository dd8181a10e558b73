-- ===== src/Gguf/Value.antt =====
-- One metadata value: `primitive_value_t`, the classes `MetadataPrimitiveValue`,
-- `MetadataStringValue` and `MetadataArrayValue`, and their `from_ptr`, `size` and `to_string`
-- (src/model_loader/gguf/metadata.h and metadata.cpp).
pub mod RoundTrip
pub mod Total
pub mod Printing
use zinfer_lm.Base.{
  ℕ, zero, suc, ◌+◌, true, false, List, [], ◌∷◌, ◌++◌, length, drop, ltb, ◌==◌, if◌then◌else◌,
  Result, ok, err, wild, stuck, bad_variant_access, ◌>>=◌, codes,
}
use zinfer_lm.Gguf.Bytes.{read_le, to_int, advance, view}
use zinfer_lm.Gguf.DType.{
  DType, uint8, int8, uint16, int16, uint32, int32, float32, boolean, string, array, uint64, int64,
  float64, other, dtype_of,
}

-- `primitive_value_t`. The payload is the bit pattern that the file holds: two's complement for the
-- signed types, IEEE 754 for the floats, one byte for `bool`.
pub data Primitive : Type 0 where
  u8 i8 u16 i16 u32 i32 f32 bool u64 i64 f64 : ℕ → Primitive

-- The class hierarchy `MetadataValue`. A primitive keeps its size; an array keeps its element code
-- and its length as the file has them. A string's length is the length of its view.
mutual
  pub data Value : Type 0 where
    primitive : Primitive → ℕ → Value
    text : List ℕ → Value
    array_of : ℕ → ℕ → Items → Value

  pub data Items : Type 0 where
    nil : Items
    cons : Value → Items → Items

-- The `int size() const` of the three classes.
unfoldable mutual
  pub size : Value → ℕ
  size (primitive p s) = s
  size (text s) = to_int (8 + length s)
  size (array_of t n es) = to_int (12 + size_items es)

  -- The loop over `elements_`, whose `int` sum wraps.
  pub size_items : Items → ℕ
  size_items nil = 0
  size_items (cons e es) = to_int (size e + size_items es)

-- One case of the switch: read `w` bytes, and remember that there were `w`.
unfoldable pub read_as : (ℕ → Primitive) → ℕ → List ℕ → Result Value
read_as make w ptr = read_le w ptr >>= λ n. ok (primitive (make n) w)

-- `MetadataPrimitiveValue::from_ptr`. A code that no case names leaves the variant at its first
-- alternative, a zero `uint8_t`, and the size at 0.
unfoldable pub primitive_from_ptr : List ℕ → DType → Result Value
unfolding read_as
primitive_from_ptr ptr uint8 = read_as u8 1 ptr
primitive_from_ptr ptr int8 = read_as i8 1 ptr
primitive_from_ptr ptr uint16 = read_as u16 2 ptr
primitive_from_ptr ptr int16 = read_as i16 2 ptr
primitive_from_ptr ptr uint32 = read_as u32 4 ptr
primitive_from_ptr ptr int32 = read_as i32 4 ptr
primitive_from_ptr ptr float32 = read_as f32 4 ptr
primitive_from_ptr ptr boolean = read_as bool 1 ptr
primitive_from_ptr ptr string = ok (primitive (u8 0) 0)
primitive_from_ptr ptr array = ok (primitive (u8 0) 0)
primitive_from_ptr ptr uint64 = read_as u64 8 ptr
primitive_from_ptr ptr int64 = read_as i64 8 ptr
primitive_from_ptr ptr float64 = read_as f64 8 ptr
primitive_from_ptr ptr (other c) = ok (primitive (u8 0) 0)

-- `MetadataStringValue::from_ptr`: the length in eight bytes, then a view of the characters.
unfoldable pub string_from_ptr : List ℕ → Result (List ℕ)
string_from_ptr ptr = do len ← read_le 8 ptr; view len (drop 8 ptr)

-- The loop of `MetadataArrayValue::from_ptr`, over the function that reads one element.
unfoldable pub items_from_ptr : (List ℕ → Result Value) → ℕ → List ℕ → Result Items
items_from_ptr one zero cur = ok nil
items_from_ptr one (suc n) cur = do
  e ← one cur
  cur' ← advance (size e) cur
  es ← items_from_ptr one n cur'
  ok (cons e es)

-- `MetadataArrayValue::from_ptr`.
unfoldable pub array_from_ptr : (List ℕ → DType → Result Value) → List ℕ → Result Value
unfolding items_from_ptr
array_from_ptr value ptr = do
  t ← read_le 4 ptr
  n ← read_le 8 (drop 4 ptr)
  es ← items_from_ptr (λ cur. value cur (dtype_of t)) n (drop 12 ptr)
  ok (array_of t n es)

-- `MetadataValue::from_ptr`. The fuel bounds how deep arrays nest.
unfoldable pub from_ptr : ℕ → List ℕ → DType → Result Value
from_ptr zero ptr t = err stuck
from_ptr (suc f) ptr string = string_from_ptr ptr >>= λ s. ok (text s)
from_ptr (suc f) ptr array = array_from_ptr (λ cur t. from_ptr f cur t) ptr
from_ptr (suc f) ptr t = primitive_from_ptr ptr t

-- An array in an array takes twelve bytes at least, so the bytes ahead bound the nesting.
unfoldable pub value_from_ptr : List ℕ → DType → Result Value
value_from_ptr ptr t = from_ptr (suc (length ptr)) ptr t

-- `elements().size()`.
abbrev pub length_items : Items → ℕ
length_items nil = 0
length_items (cons e es) = suc (length_items es)

-- What `std::to_string` and `std::format` print for a number is `format`.
module _ (format : Primitive → List ℕ) where
  unfoldable pub primitive_to_string : Primitive → List ℕ
  primitive_to_string (bool n) = if n == 0 then codes "false" else codes "true"
  primitive_to_string p = format p

  -- `to_string`. An array prints its elements 0 to 49, whether it has them or not: `elements_[i]`
  -- past the end is `wild`.
  unfoldable mutual
    pub to_string : Value → Result (List ℕ)
    to_string (primitive p s) = ok (primitive_to_string p)
    to_string (text s) = ok s
    to_string (array_of t n es) = do
      shown ← items_to_string es 0
      let dots = if ltb 50 (length_items es) then codes " ... " else []
      ok (codes "[ " ++ (shown ++ (dots ++ codes " ]")))

    -- The loop `for (int i = 0; i < 50; i++)`, from index `i` on.
    pub items_to_string : Items → ℕ → Result (List ℕ)
    items_to_string nil i = if ltb i 50 then err wild else ok []
    items_to_string (cons e es) i = elim (ltb i 50) [
      | true ↦ do
        shown ← to_string e
        rest ← items_to_string es (i + 1)
        ok ((if ltb 0 i then codes ", " else []) ++ (shown ++ rest))
      | false ↦ ok []
    ]

-- `value<T>` at `uint32_t`, `uint8_t`, `float` and `bool`: `std::get` throws where the variant
-- holds another type, and a value that is no primitive gives `{}`.
unfoldable pub value_u32 : Value → Result ℕ
value_u32 (primitive (u32 n) s) = ok n
value_u32 (primitive p s) = err bad_variant_access
value_u32 (text s) = ok 0
value_u32 (array_of t n es) = ok 0

unfoldable pub value_u8 : Value → Result ℕ
value_u8 (primitive (u8 n) s) = ok n
value_u8 (primitive p s) = err bad_variant_access
value_u8 (text s) = ok 0
value_u8 (array_of t n es) = ok 0

unfoldable pub value_f32 : Value → Result ℕ
value_f32 (primitive (f32 n) s) = ok n
value_f32 (primitive p s) = err bad_variant_access
value_f32 (text s) = ok 0
value_f32 (array_of t n es) = ok 0

unfoldable pub value_bool : Value → Result ℕ
value_bool (primitive (bool n) s) = ok n
value_bool (primitive p s) = err bad_variant_access
value_bool (text s) = ok 0
value_bool (array_of t n es) = ok 0

-- `val_array<int32_t>` skips the elements that are no primitives.
unfoldable pub items_i32 : Items → Result (List ℕ)
items_i32 nil = ok []
items_i32 (cons (primitive (i32 n) s) es) = items_i32 es >>= λ ns. ok (n ∷ ns)
items_i32 (cons (primitive p s) es) = err bad_variant_access
items_i32 (cons (text s) es) = items_i32 es
items_i32 (cons (array_of t n xs) es) = items_i32 es

unfoldable pub val_array_i32 : Value → Result (List ℕ)
unfolding items_i32
val_array_i32 (array_of t n es) = items_i32 es
val_array_i32 (primitive p s) = ok []
val_array_i32 (text s) = ok []

-- `val_array<std::string>` prints every element.
unfoldable pub items_string : (Primitive → List ℕ) → Items → Result (List (List ℕ))
items_string format nil = ok []
items_string format (cons e es) = do
  s ← to_string format e
  ss ← items_string format es
  ok (s ∷ ss)

unfoldable pub val_array_string : (Primitive → List ℕ) → Value → Result (List (List ℕ))
unfolding items_string
val_array_string format (array_of t n es) = items_string format es
val_array_string format (primitive p s) = ok []
val_array_string format (text s) = ok []
