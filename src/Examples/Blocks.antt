-- ===== src/Examples/Blocks.antt =====
-- An allocation in a layer of two blocks; and the mask of two tokens behind three.
use zinfer_lm.Base.{
  ok, Option, ℕ, ◌+◌, ◌*◌, get_elem?, leb, ◌≡◌, refl, true, false, [], ◌∷◌, some, none, arith,
}
use zinfer_lm.Inputs.{positions, mask_data, set_inputs_causal}
use zinfer_lm.KvCache.{Table, alloc_block}
use zinfer_lm.KvCache.Blocks.{Allocates, alloc_block_lem}

abbrev half_used : Table
half_used = record {
  blocks =
      record { seq_id = some 0; start_pos = 0; num_entries = 16 }
      ∷ record { seq_id = none; start_pos = 7; num_entries = 3 }
      ∷ [];
  usage = true ∷ false ∷ [];
}

set_inputs_causal_example :
    (get_elem? (positions 3 2 0) 1 ≡ some (3 + 1))
    × (get_elem? (mask_data 8 3 2 0) (1 * 8 + 5) ≡ some (leb 5 (3 + 1)))
set_inputs_causal_example = set_inputs_causal 8 3 2 1 5 (omega arith) (omega arith)

alloc_block_lem_example :
    (p : Option ℕ × Table) × (alloc_block half_used ≡ ok p) × Allocates half_used p
alloc_block_lem_example = alloc_block_lem half_used refl
