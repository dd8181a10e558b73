-- ===== src/KvCache/Blocks.antt =====
-- Allocating blocks.
use zinfer_lm.Base.{
  ℕ, zero, suc, ◌+◌, ◌<◌, ◌≡◌, ◌≢◌, refl, ap, ◌∙◌, Bool, true, false, Option, none, some, List, [],
  ◌∷◌, arith, length, get_elem?, get_elem?_bound, get_elem?_inside, set, get_elem?-set_self,
  get_elem?-set_ne, ok, err, wild, ltb, lt→ltb,
}
use zinfer_lm.KvCache.{
  Table, KvCache, reserved_table, first_free, empty_block, alloc_block, open_block, block_for,
  fill_block, last_block, write_loop, write_kv,
}

-- No block below `i` is free.
abbrev pub UsedBelow : List Bool → ℕ → Type 0
UsedBelow us i = (j : ℕ) → j < i → get_elem? us j ≡ some true

pub data Free (us : List Bool) (k : ℕ) (r : Option ℕ) : Type 0 where
  full : r ≡ none → UsedBelow us (length us) → Free us k r
  free : (i : ℕ) → r ≡ some (k + i) → get_elem? us i ≡ some false → UsedBelow us i → Free us k r

UsedBelow-suc : (us : List Bool) (i : ℕ) → UsedBelow us i → UsedBelow (true ∷ us) (suc i)
UsedBelow-suc us i h zero l = refl
UsedBelow-suc us i h (suc j) l = h j (omega arith)

pub first_free-Free : (us : List Bool) (k : ℕ) → Free us k (first_free us k)
unfolding first_free
first_free-Free [] k = full refl (λ j l. elim l [ ])
first_free-Free (true ∷ us) k = elim (first_free-Free us (k + 1)) [
  | full e h ↦ full e (UsedBelow-suc us (length us) h)
  | free i e p h ↦ free (suc i) (e ∙ ap some (omega arith)) p (UsedBelow-suc us i h)
]
first_free-Free (false ∷ us) k = free 0 (ap some (omega arith)) refl (λ j l. elim l [ ])

-- What an allocation gives: the first free block, in use and empty afterwards, with all other blocks
-- as they were; or, where every block is in use, none and the same table.
abbrev pub Allocates : Table → Option ℕ × Table → Type 0
Allocates t (none, t') = UsedBelow t.usage (length t.usage) × (t' ≡ t)
Allocates t (some i, t') =
    (get_elem? t.usage i ≡ some false)
    × UsedBelow t.usage i
    × (get_elem? t'.usage i ≡ some true)
    × (get_elem? t'.blocks i ≡ some empty_block)
    × ((j : ℕ)
        → i ≢ j
        → (get_elem? t'.usage j ≡ get_elem? t.usage j)
          × (get_elem? t'.blocks j ≡ get_elem? t.blocks j))

-- Where there is a block for each flag, an allocation ends without an error. It gives the first free
-- block, which is in use and empty afterwards while all other blocks stay as they were; or, where
-- every block is in use, none and the same table.
pub alloc_block_lem :
    (t : Table)
    → length t.usage ≡ length t.blocks
    → (p : Option ℕ × Table) × (alloc_block t ≡ ok p) × Allocates t p
unfolding alloc_block
alloc_block_lem t same = elim (first_free-Free t.usage 0) [
  | full e h ↦ ((none, t), rw (e, alloc_block), (h, refl))
  | free i e p h ↦
      let found : first_free t.usage 0 ≡ some i = e ∙ ap some (omega arith) in
      let used = get_elem?_bound t.usage i false p in
      let inside : i < length t.blocks = omega arith in
      let (b, q) = get_elem?_inside t.blocks i inside in
      (
        (some i, record { blocks = set t.blocks i empty_block; usage = set t.usage i true }),
        rw (found, alloc_block, q, alloc_block),
        (
          p,
          h,
          get_elem?-set_self t.usage i true used,
          get_elem?-set_self t.blocks i empty_block inside,
          λ j n. (get_elem?-set_ne t.usage true n, get_elem?-set_ne t.blocks empty_block n),
        ),
      )
]

abbrev pub fresh_cache : ℕ → List Table → ℕ → KvCache
fresh_cache size tables n = record {
  block_size = size;
  block_tables = tables;
  usage_of = record { block_list = []; seq_len = n };
}

loop_reserved :
    (f size seq_len n : ℕ)
    → ltb 0 seq_len ≡ true
    → write_loop (suc f) size seq_len 0 reserved_table (record { block_list = []; seq_len = n }) []
      ≡ err wild
unfolding write_loop block_for open_block last_block alloc_block first_free fill_block
    reserved_table
loop_reserved f size seq_len n e = rw (e, write_loop) refl

-- A layer's table as `init` leaves it holds no block, so that writing any entries to it, for a
-- sequence that has no block yet, uses the block -1.
pub write_kv-reserved :
    (layer seq_len size n : ℕ) (tables : List Table)
    → get_elem? tables layer ≡ some reserved_table
    → 0 < seq_len
    → write_kv layer seq_len (fresh_cache size tables n) ≡ err wild
unfolding write_kv
write_kv-reserved layer seq_len size n tables e h =
    rw (e, write_kv, loop_reserved seq_len size seq_len n (lt→ltb 0 seq_len h))
