-- ===== src/Tokenizer/ByteMap.antt =====
-- `build_byte_to_unicode_map_` and `unicode_to_chars_` of src/tokenizer/tokenizer_impl.cpp. A string
-- is the list of its bytes.
pub mod Inverse
use Prim.Native.Nat.{bit_and, bit_or}
use zinfer_lm.Base.{
  ℕ, zero, suc, ◌+◌, ◌-◌, ◌/◌, Bool, true, false, ◌&&◌, ◌||◌, Option, none, some, List, [], ◌∷◌,
  ◌++◌, leb, ◌==◌, if◌then◌else◌, take, find, assign, nat_eq, bytes_eq,
}

-- The lambda `code_point_to_utf8`; a code point above 0x7ff gives no byte.
unfoldable pub code_point_to_utf8 : ℕ → List ℕ
code_point_to_utf8 cp =
    if leb cp 0x7f
    then cp ∷ []
    else if leb cp 0x7ff
    then bit_or 0xc0 (cp / 64) ∷ bit_or 0x80 (bit_and cp 0x3f) ∷ []
    else []

-- The three loops that mark the printable bytes.
unfoldable pub is_printable : ℕ → Bool
is_printable b =
    leb b'!' b && leb b b'~' || (leb 0xa1 b && leb b 0xac || (leb 0xae b && leb b 0xff))

-- `byte_to_unicode_map_` and `unicode_to_byte_map_`.
pub record Maps : Type 0 where
  pub to_unicode : List (ℕ × List ℕ)
  pub to_byte : List (List ℕ × ℕ)

unfoldable pub map_byte : ℕ → ℕ → Maps → Maps
unfolding code_point_to_utf8
map_byte b cp m =
    let unicode = code_point_to_utf8 cp in
    record { to_unicode = assign b unicode m.to_unicode; to_byte = assign unicode b m.to_byte }

-- The loop over the bytes, with the rounds that are left.
unfoldable pub map_loop : ℕ → ℕ → ℕ → Maps → Maps
map_loop zero b shifted m = m
map_loop (suc n) b shifted m =
    map_loop n (b + 1) (if is_printable b then shifted else shifted + 1)
      (map_byte b (if is_printable b then b else shifted) m)

unfoldable pub build_byte_to_unicode_map : Maps
unfolding map_loop is_printable map_byte find assign
build_byte_to_unicode_map = map_loop 256 0 256 (record { to_unicode = []; to_byte = [] })

-- `byte_to_unicode_map_[b]`: the empty string where the key is missing.
unfoldable pub spell_byte : Maps → ℕ → List ℕ
spell_byte m b = elim (find b m.to_unicode) [ none ↦ [] | some u ↦ u ]

-- How many bytes a character takes, by its first.
unfoldable pub utf8_len : ℕ → ℕ
utf8_len c =
    if bit_and c 0xe0 == 0xc0
    then 2
    else if bit_and c 0xf0 == 0xe0
    then 3
    else if bit_and c 0xf8 == 0xf0
    then 4
    else 1

-- What the loop puts out for one piece.
unfoldable pub piece_to_chars : List (List ℕ × ℕ) → List ℕ → List ℕ
piece_to_chars m piece = elim (find piece m) [ none ↦ piece | some b ↦ b ∷ [] ]

-- The loop of `unicode_to_chars_` over the bytes that are left. `i += len` passes the first byte of
-- the piece, and the `skip` bytes behind it.
unfoldable pub unicode_to_chars : List (List ℕ × ℕ) → ℕ → List ℕ → List ℕ
unicode_to_chars m skip [] = []
unicode_to_chars m zero (c ∷ cs) =
    piece_to_chars m (take (utf8_len c) (c ∷ cs)) ++ unicode_to_chars m (utf8_len c - 1) cs
unicode_to_chars m (suc skip) (c ∷ cs) = unicode_to_chars m skip cs
