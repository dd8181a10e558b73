-- ===== src/Debug.antt =====
-- The printing of tensors, src/engine/debug.cpp. What ggml and `printf` make of a number is an
-- argument; offsets stay below 2 ^ 64.
pub mod Axis
use zinfer_lm.Base.{
  ℕ, zero, suc, ◌+◌, ◌-◌, ◌*◌, Bool, true, false, Option, none, some, List, [], ◌∷◌, ◌++◌, length,
  take, drop, ltb, leb, ◌==◌, ◌&&◌, if◌then◌else◌, Result, ok, err, wild, aborted, stuck, ◌>>=◌,
  codes,
}

-- The types that `debug_get_float_value` knows.
pub data ValueType : Type 0 where
  f16 f32 i64 i32 i16 i8 bf16 unknown : ValueType

-- The bytes of a number.
unfoldable pub width : ValueType → Result ℕ
width f16 = ok 2
width f32 = ok 4
width i64 = ok 8
width i32 = ok 4
width i16 = ok 2
width i8 = ok 1
width bf16 = ok 2
width unknown = err aborted

-- Four lengths, or the distances of neighbours, of `ne` and `nb`.
pub record Axes : Type 0 where
  pub axis0 : ℕ
  pub axis1 : ℕ
  pub axis2 : ℕ
  pub axis3 : ℕ

unfoldable pub value_offset : Axes → ℕ → ℕ → ℕ → ℕ → ℕ
value_offset nb i0 i1 i2 i3 = i3 * nb.axis3 + i2 * nb.axis2 + i1 * nb.axis1 + i0 * nb.axis0

-- The index that a round uses, of the loop over `ne` with `n` shown at each end.
unfoldable pub skips : ℕ → ℕ → ℕ → Bool
skips n ne i = (i == n) && ltb (2 * n) ne

-- A loop that leaves out the middle, from index `i` on: `dots` stands for it. The fuel bounds the
-- rounds.
unfoldable pub axis_loop : ℕ → ℕ → ℕ → List ℕ → (ℕ → Result (List ℕ)) → ℕ → Result (List ℕ)
unfolding skips
axis_loop zero n ne dots body i = err stuck
axis_loop (suc f) n ne dots body i = elim (ltb i ne) [
  | false ↦ ok []
  | true ↦ elim (skips n ne i) [
    | true ↦ do
      shown ← body (ne - n)
      rest ← axis_loop f n ne dots body (ne - n + 1)
      ok (dots ++ (shown ++ rest))
    | false ↦ do shown ← body i; rest ← axis_loop f n ne dots body (i + 1); ok (shown ++ rest)
  ]
]

-- The loop over the last axis shows all.
unfoldable pub whole_loop : ℕ → (ℕ → Result (List ℕ)) → ℕ → Result (List ℕ)
whole_loop zero body i = ok []
whole_loop (suc n) body i = do shown ← body i; rest ← whole_loop n body (i + 1); ok (shown ++ rest)

abbrev pub indent : List ℕ
indent = codes "    "

module _ {ℓ} {F : Type ℓ} (convert : ValueType → List ℕ → F) (print_value : F → List ℕ) where
  -- `debug_get_float_value`.
  unfoldable pub get_float_value : List ℕ → ValueType → Axes → ℕ → ℕ → ℕ → ℕ → Result F
  unfolding width value_offset
  get_float_value data_bytes type nb i0 i1 i2 i3 = do
    w ← width type
    let i = value_offset nb i0 i1 i2 i3
    if leb (i + w) (length data_bytes)
        then ok (convert type (take w (drop i data_bytes)))
        else err wild

  -- The innermost loop, with its brackets.
  unfoldable pub print_row : List ℕ → ValueType → Axes → Axes → ℕ → ℕ → ℕ → ℕ → Result (List ℕ)
  unfolding get_float_value axis_loop
  print_row data_bytes type ne nb n i3 i2 i1 = do
    values ←
        axis_loop (suc ne.axis0) n ne.axis0 (codes "   ..., ")
          (λ i0. do
            v ← get_float_value data_bytes type nb i0 i1 i2 i3
            ok (print_value v ++ (if ltb i0 (ne.axis0 - 1) then codes ", " else [])))
          0
    ok (indent ++ indent ++ indent ++ codes "[" ++ values ++ codes "  ],\n")

  unfoldable pub print_matrix : List ℕ → ValueType → Axes → Axes → ℕ → ℕ → ℕ → Result (List ℕ)
  unfolding print_row axis_loop
  print_matrix data_bytes type ne nb n i3 i2 = do
    rows ←
        axis_loop (suc ne.axis1) n ne.axis1 (indent ++ indent ++ indent ++ codes "..., \n")
          (print_row data_bytes type ne nb n i3 i2) 0
    ok (indent ++ indent ++ codes "[\n" ++ rows ++ indent ++ indent ++ codes "],\n")

  -- The part of `debug_print_tensor_values` that prints; `sum` is what it prints for the sum.
  unfoldable pub print_tensor : List ℕ → ValueType → Axes → Axes → ℕ → List ℕ → Result (List ℕ)
  unfolding print_matrix axis_loop whole_loop
  print_tensor data_bytes type ne nb zero sum = err aborted
  print_tensor data_bytes type ne nb (suc n) sum =
      whole_loop ne.axis3
        (λ i3. do
          matrices ←
              axis_loop (suc ne.axis2) (suc n) ne.axis2 (indent ++ indent ++ codes "..., \n")
                (print_matrix data_bytes type ne nb (suc n) i3) 0
          ok (
              indent
              ++ codes "[\n"
              ++ matrices
              ++ indent
              ++ codes "]\n"
              ++ indent
              ++ codes "sum = "
              ++ sum
              ++ codes "\n"))
        0
