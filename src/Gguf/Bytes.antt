-- ===== src/Gguf/Bytes.antt =====
-- Reading through a pointer into the mapped file (src/model_loader/gguf). A pointer is the list of
-- the bytes from it to the end of the mapping; reading past the end is `wild`. Integers are little
-- endian, as on the machines that the code's `reinterpret_cast` assumes.
use zinfer_lm.Base.{
  ℕ, zero, suc, ◌+◌, ◌*◌, ◌/◌, ◌%◌, ◌^◌, ◌≤◌, ◌<◌, ◌≡◌, refl, ap, List, [], ◌∷◌, ◌++◌, arith,
  length, drop, take, drop-append, take-append, ltb, leb, if◌then◌else◌, Result, ok, err, wild,
  moved_back, ◌>>=◌, length-append, length-drop,
}

-- `*reinterpret_cast<const uintN_t *>(ptr)` for N = 8 * w.
unfoldable pub read_le : ℕ → List ℕ → Result ℕ
read_le zero bs = ok 0
read_le (suc w) [] = err wild
read_le (suc w) (b ∷ bs) = read_le w bs >>= λ hi. ok (b + 256 * hi)

-- What a writer of the format puts there.
unfoldable pub to_le : ℕ → ℕ → List ℕ
to_le zero n = []
to_le (suc w) n = (n % 256) ∷ to_le w (n / 256)

pub length-to_le : (w n : ℕ) → length (to_le w n) ≡ w
unfolding to_le
length-to_le zero n = refl
length-to_le (suc w) n = ap suc (length-to_le w (n / 256))

pub read_le-to_le : (w n : ℕ) (rest : List ℕ) → n < 256 ^ w → read_le w (to_le w n ++ rest) ≡ ok n
unfolding read_le to_le
read_le-to_le zero n rest h = ground arith
read_le-to_le (suc w) n rest h = ground (arith, read_le-to_le w (n / 256) rest (grind arith))

-- The conversion of a `size_t` to `int` keeps the low 32 bits.
abbrev pub int_mod : ℕ
int_mod = 2 ^ 32

unfoldable pub to_int : ℕ → ℕ
to_int n = n % int_mod

-- `ptr += n` for an `int` n. A pattern above 2 ^ 31 - 1 is negative: it moves the pointer back, to
-- bytes that the list does not hold, and the model stops there with `moved_back`.
unfoldable pub advance : ℕ → List ℕ → Result (List ℕ)
advance n bs = if ltb n (2 ^ 31) then ok (drop n bs) else err moved_back

pub advance-append :
    (n : ℕ) (xs rest : List ℕ) → n ≡ length xs → n < 2 ^ 31 → advance n (xs ++ rest) ≡ ok rest
unfolding advance
advance-append n xs rest e h = ground (arith, drop-append xs rest {n = n} e)

-- `std::string_view(ptr, len)`.
unfoldable pub view : ℕ → List ℕ → Result (List ℕ)
view n bs = if leb n (length bs) then ok (take n bs) else err wild

pub view-append : (n : ℕ) (xs rest : List ℕ) → n ≡ length xs → view n (xs ++ rest) ≡ ok xs
unfolding view
view-append n xs rest e = ground (arith, take-append xs rest {n = n} e, length-append xs rest)

pub length-drop-le : (n : ℕ) (bs : List ℕ) → length (drop n bs) ≤ length bs
length-drop-le n bs = omega (arith, length-drop n bs)
