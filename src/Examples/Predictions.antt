-- ===== src/Examples/Predictions.antt =====
-- A runtime whose graph is the number of tokens; its device counts the computations, and each of them
-- answers three rows of two floats.
use zinfer_lm.Base.{◌++◌, true, ℕ, ◌+◌, refl, some, List, [], ◌∷◌, take, drop, arith, ok, ltb}
use zinfer_lm.Predict.{Output, Runtime, Inference, logits_of}
use zinfer_lm.Predict.Logits.{IsRow, logits_of-IsRow}

abbrev word : ℕ → List ℕ
word n = n ∷ 0 ∷ 0 ∷ 0 ∷ []

abbrev three_rows : ℕ → Output
three_rows d = record {
  ne0 = 2;
  ne1 = 3;
  type_size = 4;
  bytes = word d ++ word 1 ++ word d ++ word 2 ++ word d ++ word 3;
}

-- Graphs for more than three tokens cannot be reserved.
abbrev counting : Runtime ℕ ℕ
counting = record {
  build = λ n d. ok (n, d);
  reserve = λ g. ltb g 4;
  compute = λ g tokens past d. (some (three_rows d), d + 1);
  tensor_get = λ out at size. ok (take size (drop at out.bytes));
}

abbrev kept : Inference ℕ
kept = record { graph_ready = true; cached_n_tokens = 2; graph = some 2 }

abbrev answered : ℕ → List ℕ × ℕ
answered d = (word d ++ word 2, d + 1)

logits_of-IsRow_example : IsRow (three_rows 4) 1 (logits_of counting 2 (some (three_rows 4)))
logits_of-IsRow_example =
    logits_of-IsRow counting 1 (three_rows 4) (λ at size h. refl) refl (omega arith) refl
      (omega arith) (omega arith)
