-- ===== src/Gguf/Value/Printing.antt =====
-- Printing a metadata value, `MetadataArrayValue::to_string`.
use zinfer_lm.Base.{ℕ, ◌+◌, ◌<◌, ◌≡◌, refl, ◌⊎◌, inl, List, arith, Result, ok, err, wild}
use zinfer_lm.Gguf.Value.{
  Primitive, Value, Items, primitive, text, array_of, nil, cons, length_items, to_string,
  items_to_string,
}

abbrev Prints : Result (List ℕ) → Type 0
Prints r = ((s : List ℕ) × (r ≡ ok s)) ⊎ (r ≡ err wild)

module _ (format : Primitive → List ℕ) where
  mutual
    unfolding to_string

    to_string-Prints : (v : Value) → Prints (to_string format v)
    to_string-Prints (primitive p s) = inl (_, refl)
    to_string-Prints (text s) = inl (s, refl)
    to_string-Prints (array_of t n es) = ground (arith, items_to_string-Prints es 0)

    items_to_string-Prints : (es : Items) (i : ℕ) → Prints (items_to_string format es i)
    items_to_string-Prints nil i = ground arith
    items_to_string-Prints (cons e es) i =
        ground (arith, to_string-Prints e, items_to_string-Prints es (i + 1))

  items_to_string-short :
      (es : Items) (i : ℕ) → i + length_items es < 50 → items_to_string format es i ≡ err wild
  unfolding to_string
  items_to_string-short nil i h = ground arith
  items_to_string-short (cons e es) i h =
      ground (arith, to_string-Prints e, items_to_string-short es (i + 1))

  -- Printing an array of fewer than 50 elements reads past its end, whatever the elements are: the
  -- loop goes to 50 whether they are there or not.
  pub to_string-short :
      (t n : ℕ) (es : Items) → length_items es < 50 → to_string format (array_of t n es) ≡ err wild
  unfolding to_string
  to_string-short t n es h = ground (arith, items_to_string-short es 0)
