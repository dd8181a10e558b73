-- ===== src/Predict/Logits.antt =====
-- Which bytes of the output are the logits.
use zinfer_lm.Base.{
  ℕ, suc, ◌+◌, ◌-◌, ◌*◌, ◌%◌, ◌^◌, ◌≤◌, ◌<◌, ◌≡◌, ap, append-nil, true, some, List, length, take,
  drop, leb, Result, ok, arith,
}
use native.Mathlib.Nat.{mod-eq_of_lt, mul-le-mul_right, add-mul, mul_assoc}
use zinfer_lm.Predict.{Output, Runtime, row_offset, logits_of}

-- The bytes of the row `i` of an output of floats, and that they lie inside it.
pub record IsRow (out : Output) (i : ℕ) (r : Result (List ℕ)) : Type 0 where
  pub inside : i * (out.ne0 * out.type_size) + out.ne0 * out.type_size ≤ length out.bytes
  pub found :
      r ≡ ok (take (out.ne0 * out.type_size) (drop (i * (out.ne0 * out.type_size)) out.bytes))

row_fits : (i ne1 w total : ℕ) → i < ne1 → total ≡ ne1 * w → i * w + w ≤ total
row_fits i ne1 w total h e =
    let wide : (i + 1) * w ≤ ne1 * w = mul-le-mul_right w (omega arith) in
    rw e (omega (arith, wide, add-mul i 1 w))

row_offset_lem :
    (i : ℕ) (out : Output)
    → suc i < 2 ^ 64
    → i * (out.ne0 * out.type_size) < 2 ^ 64
    → row_offset (suc i) out ≡ i * (out.ne0 * out.type_size)
unfolding row_offset
row_offset_lem i out h l =
    let before : suc i + 2 ^ 64 - 1 ≡ i + 2 ^ 64 = omega arith in
    let wrapped : (i + 2 ^ 64) % 2 ^ 64 ≡ i = omega arith in
    let whole : i * out.ne0 * out.type_size ≡ i * (out.ne0 * out.type_size) =
      mul_assoc i out.ne0 out.type_size in
    rw (before, wrapped, whole) (mod-eq_of_lt l)

module _ {ℓ} {G D : Type ℓ} (runtime : Runtime G D) where
  -- Of an output of floats of four bytes with a row for each of the `i + 1` tokens at least, whose bytes
  -- are its rows and number less than 2 ^ 64, the logits are the row of the last token, which lies
  -- inside the bytes and fits into the vector that it is read into.
  -- `ggml_backend_tensor_get` is taken to answer the bytes of a range that lies inside the tensor.
  pub logits_of-IsRow :
      (i : ℕ) (out : Output)
      → ((at size : ℕ)
          → at + size ≤ length out.bytes
          → runtime.tensor_get out at size ≡ ok (take size (drop at out.bytes)))
      → out.type_size ≡ 4
      → i < out.ne1
      → length out.bytes ≡ out.ne1 * (out.ne0 * out.type_size)
      → length out.bytes < 2 ^ 64
      → suc i < 2 ^ 64
      → IsRow out i (logits_of runtime (suc i) (some out))
  unfolding logits_of
  logits_of-IsRow i out reads floats rows total small few =
      let w = out.ne0 * out.type_size in
      let fits : i * w + w ≤ length out.bytes =
        row_fits i out.ne1 w (length out.bytes) rows total in
      let place = row_offset_lem i out few (omega arith) in
      let enough : leb (suc i) out.ne1 ≡ true = ground arith in
      let same : w ≡ out.ne0 * 4 = ap (λ n. out.ne0 * n) floats in
      let room : leb w (out.ne0 * 4) ≡ true = ground arith in
      let full : out.ne0 * 4 - w ≡ 0 = omega arith in
      let row = take w (drop (i * w) out.bytes) in
      record {
        inside = fits;
        found =
            rw (enough, logits_of, room, logits_of, place, reads (i * w) w fits, full)
              (ap ok (append-nil row));
      }
