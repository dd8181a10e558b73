-- ===== src/Streaming/Clean.antt =====
-- A chunk of the stream of tools/serve/server.cpp is not taken for the last one.
use zinfer_lm.Base.{
  ℕ, zero, suc, ◌/◌, ◌%◌, ◌≡◌, ◌≢◌, refl, ◌∙◌, Bool-cases, inl, inr, false, List, [], ◌∷◌, ◌++◌,
  All, All-append, length, arith, ltb, codes,
}
use zinfer_lm.Streaming.{
  hex_digit, hex_digits, make_chunk, chunked_bytes, last_chunk, line_end, event_end, occurs,
}

-- A text without a carriage return, such as printed JSON, which escapes it.
abbrev pub IsPrinted : List ℕ → Type 0
IsPrinted = All (λ b. b ≢ 13)

hex_digits-IsPrinted :
    (fuel n : ℕ) (behind : List ℕ) → IsPrinted behind → IsPrinted (hex_digits fuel n behind)
unfolding hex_digits
hex_digits-IsPrinted zero n behind h = h
hex_digits-IsPrinted (suc f) n behind h = elim (Bool-cases (ltb n 16)) [
  | inl e ↦ rw e (not_return n, h)
  | inr e ↦
      rw e (hex_digits-IsPrinted f (n / 16) (hex_digit (n % 16) ∷ behind) (not_return (n % 16), h))
]
  where
    not_return : (d : ℕ) → hex_digit d ≢ 13
    not_return d = ground arith

-- No match begins before a byte that is no carriage return.
second_differs :
    (x y : ℕ) (ys : List ℕ) → y ≢ 13 → occurs last_chunk (x ∷ y ∷ ys) ≡ occurs last_chunk (y ∷ ys)
unfolding occurs
second_differs x y ys h = ground arith

tail_clean : (xs : List ℕ) → IsPrinted xs → occurs last_chunk (xs ++ line_end) ≡ false
unfolding occurs
tail_clean [] h = refl
tail_clean (x ∷ []) h = ground arith
tail_clean (x ∷ y ∷ xs) h = second_differs x y (xs ++ line_end) h.1.0 ∙ tail_clean (y ∷ xs) h.1

head_clean :
    (xs : List ℕ) (d : ℕ) (ys : List ℕ)
    → IsPrinted xs
    → d ≢ 13
    → occurs last_chunk (d ∷ ys) ≡ false
    → occurs last_chunk (xs ++ (line_end ++ d ∷ ys)) ≡ false
unfolding occurs
head_clean [] d ys h k e = e
head_clean (x ∷ []) d ys h k e = ground (arith, e)
head_clean (x ∷ y ∷ xs) d ys h k e =
    second_differs x y (xs ++ (line_end ++ d ∷ ys)) h.1.0 ∙ head_clean (y ∷ xs) d ys h.1 k e

IsPrinted-payload :
    (payload : List ℕ) → IsPrinted payload → IsPrinted (codes "data: " ++ (payload ++ event_end))
IsPrinted-payload payload h =
    All-append (λ b. b ≢ 13) (codes "data: ") (payload ++ event_end) prefix_printed
      (All-append (λ b. b ≢ 13) payload event_end h (omega arith, (omega arith, tt)))
  where
    prefix_printed : IsPrinted (codes "data: ")
    prefix_printed =
        (omega arith, (omega arith, (omega arith, (omega arith, (omega arith, (omega arith, tt))))))

-- A message that is no last one, of printed JSON, makes a chunk in which the code does not find the
-- last chunk.
pub chunked_bytes-IsClean :
    (payload : List ℕ) → IsPrinted payload → occurs last_chunk (chunked_bytes payload false) ≡ false
unfolding chunked_bytes make_chunk
chunked_bytes-IsClean payload h =
    let raw = codes "data: " ++ (payload ++ event_end) in
    head_clean (hex_digits (suc (length raw)) (length raw) []) 100
      (codes "ata: " ++ (payload ++ event_end) ++ line_end)
      (hex_digits-IsPrinted (suc (length raw)) (length raw) [] tt) (omega arith)
      (tail_clean raw (IsPrinted-payload payload h))
