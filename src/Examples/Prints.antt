-- ===== src/Examples/Prints.antt =====
-- Eight entries, three of them at each end.
use zinfer_lm.Base.{ℕ, ◌+◌, ◌≤◌, ◌<◌, ◌≡◌, refl, ◌⊎◌, List, [], ◌∷◌, codes, ok, Result}
use zinfer_lm.Debug.{axis_loop, skips, whole_loop}
use zinfer_lm.Debug.Axis.{ends, axis_loop-ends}

abbrev digit_of : ℕ → Result (List ℕ)
digit_of i = ok ((48 + i) ∷ [])

axis_loop-ends_example :
    ((8 ≤ 6) × (axis_loop 9 3 8 (codes "...") digit_of 0 ≡ whole_loop 8 digit_of 0))
    ⊎ ((6 < 8) × (axis_loop 9 3 8 (codes "...") digit_of 0 ≡ ends 3 0 3 8 (codes "...") digit_of))
axis_loop-ends_example = axis_loop-ends 2 8 (codes "...") digit_of

eight : axis_loop 9 3 8 (codes "...") digit_of 0 ≡ ok (codes "012...567")
unfolding axis_loop skips
eight = refl
