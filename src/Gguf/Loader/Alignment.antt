-- ===== src/Gguf/Loader/Alignment.antt =====
-- Where the tensor data begins, `GGUFLoader::align_address`.
use native.Mathlib.Nat.{div-add-mod, mul-mod_left}
use native.Mathlib.Decide.{dec_lt}
use zinfer_lm.Base.{
  ℕ, ◌+◌, ◌*◌, ◌/◌, ◌%◌, ◌^◌, ◌≤◌, ◌<◌, ◌≡◌, ◌⊎◌, inl, inr, arith, ◌==◌, if◌then◌else◌, ok, err,
  bad_variant_access, codes,
}
use zinfer_lm.Gguf.Value.{u32, primitive, value_u8}
use zinfer_lm.Gguf.Loader.{MetadataMap, get_metadata, align_up, align_address}

pub mul_mono : (x y a : ℕ) → x ≤ y → x * a ≤ y * a
mul_mono x y a h = grind arith

multiple_step : (q k a : ℕ) → q * a < k * a → (q + 1) * a ≤ k * a
multiple_step q k a h = elim (dec_lt q k) [
  | yes p ↦ mul_mono (q + 1) k a (omega arith)
  | no p ↦ absurd (omega (arith, mul_mono k q a (omega arith)))
]

align_up_cases :
    (a ptr : ℕ)
    → 0 < a
    → ptr + a < 2 ^ 64
    → ((align_up a ptr ≡ ptr / a * a) × (ptr ≡ ptr / a * a))
      ⊎ ((align_up a ptr ≡ (ptr / a + 1) * a) × (ptr / a * a < ptr) × (ptr < (ptr / a + 1) * a))
unfolding align_up
align_up_cases a ptr h fits = grind (arith, div-add-mod ptr a)

-- `r` is a multiple of `a`, not below `ptr`, and no multiple of `a` between the two is smaller.
abbrev pub IsLeastMultiple : ℕ → ℕ → ℕ → Type 0
IsLeastMultiple a ptr r = (ptr ≤ r) × (r % a ≡ 0) × ((k : ℕ) → ptr ≤ k * a → r ≤ k * a)

align_up_least : (a ptr : ℕ) → 0 < a → ptr + a < 2 ^ 64 → IsLeastMultiple a ptr (align_up a ptr)
align_up_least a ptr h fits = elim (align_up_cases a ptr h fits) [
  | inl (e, p) ↦ (omega arith, rw e (mul-mod_left (ptr / a) a), λ k l. omega arith)
  | inr (e, p, q) ↦ (
    omega arith,
    rw e (mul-mod_left (ptr / a + 1) a),
    λ k l. rw e (multiple_step (ptr / a) k a (omega arith)),
  )
]

-- The alignment that the code goes by: a `uint8_t` value of `general.alignment`, and 32 where that
-- is 0 or the key is missing.
abbrev pub alignment : ℕ → ℕ
alignment a = if a == 0 then 32 else a

-- Where `general.alignment` reads as the number `a` through `value<uint8_t>`, the tensor data begins
-- at the least multiple of the alignment that is not below the end of the tensor entries, and 0 or a
-- missing key stands for 32; the address must leave room for it below 2 ^ 64.
pub align_address_least :
    (m : MetadataMap) (a ptr : ℕ)
    → value_u8 (get_metadata m (codes "general.alignment")).val ≡ ok a
    → ptr + alignment a < 2 ^ 64
    → (r : ℕ) × (align_address m ptr ≡ ok r) × IsLeastMultiple (alignment a) ptr r
unfolding align_address
align_address_least m a ptr e fits =
    (align_up (alignment a) ptr, rw e, align_up_least (alignment a) ptr (ground arith) fits)

pub align_address_u32 :
    (m : MetadataMap) (n s ptr : ℕ)
    → (get_metadata m (codes "general.alignment")).val ≡ primitive (u32 n) s
    → align_address m ptr ≡ err bad_variant_access
unfolding align_address value_u8
align_address_u32 m n s ptr e = rw e
