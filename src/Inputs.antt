-- ===== src/Inputs.antt =====
-- `QwenModel::set_inputs` of src/models/qwen/model.cpp: the positions and the attention mask that it
-- hands to ggml. An entry of the mask is whether it is 0, and not minus infinity. Positions are taken
-- to stay below 2 ^ 31.
use zinfer_lm.Base.{
  ℕ, zero, suc, ◌+◌, ◌*◌, ◌<◌, ◌≡◌, refl, ap, ◌∙◌, Bool, some, List, [], ◌∷◌, ◌++◌, length,
  get_elem?, leb, arith,
}

-- The loop that fills `pos`, from index `i` on with the tokens that are left.
unfoldable pub positions : ℕ → ℕ → ℕ → List ℕ
positions past zero i = []
positions past (suc n) i = (past + i) ∷ positions past n (i + 1)

-- The inner loop of the mask, for the position `pos_q`, from the key `k` on.
unfoldable pub mask_row : ℕ → ℕ → ℕ → List Bool
mask_row pos_q zero k = []
mask_row pos_q (suc n) k = leb k pos_q ∷ mask_row pos_q n (k + 1)

-- The outer loop, from the token `q` on.
unfoldable pub mask_data : ℕ → ℕ → ℕ → ℕ → List Bool
unfolding mask_row
mask_data max_len past zero q = []
mask_data max_len past (suc n) q = mask_row (past + q) max_len 0 ++ mask_data max_len past n (q + 1)

get-append_left {ℓ} :
    {A : Type ℓ} (xs ys : List A) (i : ℕ) → i < length xs → get_elem? (xs ++ ys) i ≡ get_elem? xs i
get-append_left [] ys i h = elim h [ ]
get-append_left (x ∷ xs) ys zero h = refl
get-append_left (x ∷ xs) ys (suc i) h = get-append_left xs ys i (omega arith)

get-append_right {ℓ} :
    {A : Type ℓ} (xs ys : List A) (i n : ℕ)
    → n ≡ length xs + i
    → get_elem? (xs ++ ys) n ≡ get_elem? ys i
get-append_right [] ys i n h = ap (get_elem? ys) (omega arith)
get-append_right (x ∷ xs) ys i zero h = absurd (omega arith)
get-append_right (x ∷ xs) ys i (suc n) h = get-append_right xs ys i n (omega arith)

length-mask_row : (p n k : ℕ) → length (mask_row p n k) ≡ n
unfolding mask_row
length-mask_row p zero k = refl
length-mask_row p (suc n) k = ap suc (length-mask_row p n (k + 1))

get-mask_row : (p n k j : ℕ) → j < n → get_elem? (mask_row p n k) j ≡ some (leb (k + j) p)
unfolding mask_row
get-mask_row p zero k j h = elim h [ ]
get-mask_row p (suc n) k zero h = ap (λ m. some (leb m p)) (omega arith)
get-mask_row p (suc n) k (suc j) h =
    get-mask_row p n (k + 1) j (omega arith) ∙ ap (λ m. some (leb m p)) (omega arith)

get-mask_data :
    (max_len past n q i k : ℕ)
    → i < n
    → k < max_len
    → get_elem? (mask_data max_len past n q) (i * max_len + k) ≡ some (leb k (past + (q + i)))
unfolding mask_data
get-mask_data max_len past zero q i k h l = elim h [ ]
get-mask_data max_len past (suc n) q zero k h l =
    ap (get_elem? (mask_data max_len past (suc n) q)) (omega arith)
    ∙ get-append_left (mask_row (past + q) max_len 0) (mask_data max_len past n (q + 1)) k
        (omega (arith, length-mask_row (past + q) max_len 0))
    ∙ get-mask_row (past + q) max_len 0 k l
    ∙ ap some (ap (λ m. leb m (past + q)) (omega arith) ∙ ap (leb k) (omega arith))
get-mask_data max_len past (suc n) q (suc i) k h l =
    get-append_right (mask_row (past + q) max_len 0) (mask_data max_len past n (q + 1))
      (i * max_len + k) (suc i * max_len + k) (grind (arith, length-mask_row (past + q) max_len 0))
    ∙ get-mask_data max_len past n (q + 1) i k (omega arith) l
    ∙ ap (λ m. some (leb k (past + m))) (omega arith)

get-positions : (past n i j : ℕ) → j < n → get_elem? (positions past n i) j ≡ some (past + (i + j))
unfolding positions
get-positions past zero i j h = elim h [ ]
get-positions past (suc n) i zero h = ap (λ m. some (past + m)) (omega arith)
get-positions past (suc n) i (suc j) h =
    get-positions past n (i + 1) j (omega arith) ∙ ap (λ m. some (past + m)) (omega arith)

-- The mask is causal: the token `q` of `n` new ones stands at the position behind the `past` ones,
-- and its row of the mask lets it see exactly the keys up to its own position.
pub set_inputs_causal :
    (max_len past n q k : ℕ)
    → q < n
    → k < max_len
    → (get_elem? (positions past n 0) q ≡ some (past + q))
      × (get_elem? (mask_data max_len past n 0) (q * max_len + k) ≡ some (leb k (past + q)))
set_inputs_causal max_len past n q k h l = (
  get-positions past n 0 q h ∙ ap (λ m. some (past + m)) (omega arith),
  get-mask_data max_len past n 0 q k h l ∙ ap (λ m. some (leb k (past + m))) (omega arith),
)
