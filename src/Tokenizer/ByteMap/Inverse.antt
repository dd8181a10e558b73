-- ===== src/Tokenizer/ByteMap/Inverse.antt =====
-- The two maps are inverse to one another, and `unicode_to_chars_` undoes the spelling of bytes.
use mathlib.Core.Bool.{false≢true}
use zinfer_lm.Base.{
  ℕ, zero, suc, ◌<◌, ◌≡◌, refl, ap, ◌∙◌, Bool, true, false, ◌&&◌, Option, none, some, List, [], ◌∷◌,
  ◌++◌, append_assoc, arith, All, ◌==◌, ==_iff, find, nat_eq, bytes_eq,
}
use zinfer_lm.Tokenizer.ByteMap.{
  Maps, spell_byte, build_byte_to_unicode_map, utf8_len, piece_to_chars, unicode_to_chars,
}

unfoldable pub all_below : ℕ → (ℕ → Bool) → Bool
all_below zero p = true
all_below (suc n) p = p n && all_below n p

pub all_below_sound : (n : ℕ) (p : ℕ → Bool) (x : ℕ) → all_below n p ≡ true → x < n → p x ≡ true
unfolding all_below
all_below_sound zero p x h lt = elim lt [ ]
all_below_sound (suc n) p x h lt = ground (arith, all_below_sound n p x)

abbrev holds : Option ℕ → ℕ → Bool
holds none b = false
holds (some c) b = c == b

-- The spelling of `b` is one character of one or two bytes, and leads back to `b`.
entry_well : Maps → ℕ → Option (List ℕ) → Bool
entry_well m b (some (x ∷ [])) = utf8_len x == 1 && holds (find (x ∷ []) m.to_byte) b
entry_well m b (some (x ∷ y ∷ [])) = utf8_len x == 2 && holds (find (x ∷ y ∷ []) m.to_byte) b
entry_well m b _ = false

spelled_well : Maps → ℕ → Bool
spelled_well m b = entry_well m b (find b m.to_unicode)

spelled_table : all_below 256 (spelled_well build_byte_to_unicode_map) ≡ true
unfolding all_below spelled_well entry_well build_byte_to_unicode_map utf8_len
spelled_table = refl

-- A spelling of one byte or of two, as the table checks it.
data Spelling (m : Maps) (b : ℕ) (u : List ℕ) : Type 0 where
  one : (x : ℕ) → u ≡ x ∷ [] → utf8_len x ≡ 1 → find (x ∷ []) m.to_byte ≡ some b → Spelling m b u
  two :
      (x y : ℕ)
      → u ≡ x ∷ y ∷ []
      → utf8_len x ≡ 2
      → find (x ∷ y ∷ []) m.to_byte ≡ some b
      → Spelling m b u

holds_lem : (o : Option ℕ) (b : ℕ) → holds o b ≡ true → o ≡ some b
holds_lem none b h = cc
holds_lem (some c) b h = ap some ((==_iff c b).0 h)

and_parts : (p q : Bool) → (p && q) ≡ true → (p ≡ true) × (q ≡ true)
and_parts p q h = ground arith

entry_Spelling :
    (m : Maps) (b : ℕ) (o : Option (List ℕ))
    → entry_well m b o ≡ true
    → (u : List ℕ) × (o ≡ some u) × Spelling m b u
unfolding entry_well
entry_Spelling m b none h = absurd (false≢true h)
entry_Spelling m b (some []) h = absurd (false≢true h)
entry_Spelling m b (some (x ∷ [])) h =
    let (len, back) = and_parts _ _ h in
    (x ∷ [], refl, one x refl ((==_iff _ _).0 len) (holds_lem _ b back))
entry_Spelling m b (some (x ∷ y ∷ [])) h =
    let (len, back) = and_parts _ _ h in
    (x ∷ y ∷ [], refl, two x y refl ((==_iff _ _).0 len) (holds_lem _ b back))
entry_Spelling m b (some (x ∷ y ∷ z ∷ u)) h = absurd (false≢true h)

spell_byte-Spelling : (m : Maps) (b : ℕ) → spelled_well m b ≡ true → Spelling m b (spell_byte m b)
unfolding spelled_well spell_byte
spell_byte-Spelling m b h =
    let (u, e, s) = entry_Spelling m b (find b m.to_unicode) h in rw (e, spell_byte) s

piece-some :
    (m : List (List ℕ × ℕ)) (p : List ℕ) {b : ℕ} → find p m ≡ some b → piece_to_chars m p ≡ b ∷ []
unfolding piece_to_chars
piece-some m p e = rw (e, piece_to_chars)

Spelling-undone :
    (m : Maps) (b : ℕ) (u rest : List ℕ)
    → Spelling m b u
    → unicode_to_chars m.to_byte 0 (u ++ rest) ≡ b ∷ unicode_to_chars m.to_byte 0 rest
unfolding unicode_to_chars
Spelling-undone m b u rest (one x e len back) =
    rw (e, len)
      (ap (λ p. p ++ unicode_to_chars m.to_byte 0 rest) (piece-some m.to_byte (x ∷ []) back))
Spelling-undone m b u rest (two x y e len back) =
    rw (e, len)
      (ap (λ p. p ++ unicode_to_chars m.to_byte 0 rest) (piece-some m.to_byte (x ∷ y ∷ []) back))

-- The string that a list of bytes is spelled as.
unfoldable pub spell : List ℕ → List ℕ
spell [] = []
spell (b ∷ bs) = spell_byte build_byte_to_unicode_map b ++ spell bs

abbrev pub AreBytes : List ℕ → Type 0
AreBytes = All λ b. b < 256

abbrev pub to_chars : List ℕ → List ℕ
to_chars = unicode_to_chars build_byte_to_unicode_map.to_byte 0

-- `unicode_to_chars_` gives the bytes back that were spelled one by one through
-- `byte_to_unicode_map_`, whatever the bytes are, all 256 included.
pub to_chars-spell : (bs : List ℕ) → AreBytes bs → to_chars (spell bs) ≡ bs
unfolding spell
to_chars-spell [] h = unfold unicode_to_chars in refl
to_chars-spell (b ∷ bs) h =
    Spelling-undone build_byte_to_unicode_map b (spell_byte build_byte_to_unicode_map b) (spell bs)
      (spell_byte-Spelling build_byte_to_unicode_map b
        (all_below_sound 256 (spelled_well build_byte_to_unicode_map) b spelled_table h.0))
    ∙ ap (◌∷◌ b) (to_chars-spell bs h.1)

pub spell-append : (bs cs : List ℕ) → spell (bs ++ cs) ≡ spell bs ++ spell cs
unfolding spell
spell-append [] cs = refl
spell-append (b ∷ bs) cs = rw (
  spell-append bs cs,
  append_assoc (spell_byte build_byte_to_unicode_map b) (spell bs) (spell cs),
)
