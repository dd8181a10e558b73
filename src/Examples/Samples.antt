-- ===== src/Examples/Samples.antt =====
-- The sampler on small numbers: the least one stands for minus infinity, and it has no probability.
use zinfer_lm.Base.{
  ℕ, ◌+◌, ◌≡◌, refl, true, false, List, [], ◌∷◌, ltb, leb, lt→ltb, ltb→lt, arith, ok, Bool-cases,
  inl, inr,
}
use zinfer_lm.Sampling.Numbers.{Floats, IsOrdered}
use zinfer_lm.Sampling.{
  any_nan, greedy, sample, top_k_sample, threshold, sort_greater, insert_greater,
}
use zinfer_lm.Sampling.Greedy.{IsFirstMax, greedy-IsFirstMax}
use zinfer_lm.Sampling.Bounds.{AnswersBelow, IsTop, sample_in_bounds, top_k_sample-IsTop}

-- A number stands for its logarithm of base 2, so to say: 0 for what is negligible.
instance number_Floats : Floats ℕ
number_Floats = record {
  lt = ltb;
  is_nan = λ x. false;
  zero = 0;
  minus_infinity = 0;
  sub = λ x y. x;
  div = λ x y. x;
  exp = λ x. x;
  not_positive = λ x. ltb x 1;
  add = ◌+◌;
  scale = λ x y. x;
  reaches = λ x y. leb y x;
}

irrefl : (x : ℕ) → ltb x x ≡ false
irrefl x = ground arith

ltb_of_not : (x y z : ℕ) → ltb x y ≡ false → ltb x z ≡ true → ltb y z ≡ true
ltb_of_not x y z h k = elim (Bool-cases (ltb y z)) [ inl e ↦ e | inr e ↦ ground arith ]

laws : IsOrdered ℕ (λ x. Unit)
unfolding number_Floats
laws = record {
  not_nan = λ x n. refl;
  lt_irrefl = λ x n. irrefl x;
  lt_trans = λ x y z nx ny nz h k. lt→ltb x z (omega (arith, ltb→lt x y h, ltb→lt y z k));
  lt_of_not_lt = λ x y z nx ny nz h k. ltb_of_not x y z h k;
}

abbrev logits : List ℕ
logits = 3 ∷ 7 ∷ 5 ∷ 7 ∷ []

sample_in_bounds_example : AnswersBelow 4 (sample 9 (record { temp = 1; top_k = 2 }) logits)
unfolding any_nan number_Floats
sample_in_bounds_example =
    sample_in_bounds 9 (record { temp = 1; top_k = 2 }) 3 (7 ∷ 5 ∷ 7 ∷ []) refl

greedy-IsFirstMax_example : (i : ℕ) × (v : ℕ) × (greedy logits ≡ ok (i, v)) × IsFirstMax logits i v
greedy-IsFirstMax_example =
    greedy-IsFirstMax (λ x. Unit) laws 3 (7 ∷ 5 ∷ 7 ∷ []) (tt, (tt, (tt, (tt, tt))))

threshold_two : threshold 2 logits ≡ ok 7
unfolding threshold any_nan sort_greater insert_greater number_Floats
threshold_two = refl

top_k_sample-IsTop_example :
    (i : ℕ) × (p : ℕ) × (top_k_sample 9 2 logits ≡ ok (i, p))
    × IsTop (λ x. Unit) laws 9 2 3 (7 ∷ 5 ∷ 7 ∷ []) 7 i
unfolding number_Floats
top_k_sample-IsTop_example =
    top_k_sample-IsTop (λ x. Unit) laws 9 2 3 (7 ∷ 5 ∷ 7 ∷ []) 7 (omega arith)
      (tt, (tt, (tt, (tt, tt)))) threshold_two refl
