-- ===== src/KvCache.antt =====
-- The key-value cache, src/kv_cache/cache.h and cache.cpp: the blocks of a layer, and the plan of the
-- copies that `write_kv` hands to ggml. The tensors themselves are ggml's.
pub mod Start
pub mod Blocks
use Prim.Native.Nat.{min}
use zinfer_lm.Base.{
  ℕ, zero, suc, ◌+◌, ◌-◌, Bool, true, false, Option, none, some, List, [], ◌∷◌, ◌++◌, length,
  get_elem?, set, ltb, if◌then◌else◌, Result, ok, err, wild, stuck, ◌>>=◌,
}

-- `kv_cache_block_t`; `none` is the sequence -1.
pub record Block : Type 0 where
  pub seq_id : Option ℕ
  pub start_pos : ℕ
  pub num_entries : ℕ

-- `kv_cache_table_t`, without the tensors.
pub record Table : Type 0 where
  pub blocks : List Block
  pub usage : List Bool

-- `kv_cache_usage_t` of the one sequence that the code knows.
pub record Usage : Type 0 where
  pub block_list : List ℕ
  pub seq_len : ℕ

-- `KVCache`: a table for each layer, and the usage that the layers share.
pub record KvCache : Type 0 where
  pub block_size : ℕ
  pub block_tables : List Table
  pub usage_of : Usage

-- What `init` makes: the code only reserves the capacity of `blocks_` and `usage_`, so that the
-- tables that it fills hold no block.
unfoldable pub reserved_table : Table
reserved_table = record { blocks = []; usage = [] }

-- The loop of `alloc_block`, from index `i` on: the first block that is not in use.
unfoldable pub first_free : List Bool → ℕ → Option ℕ
first_free [] i = none
first_free (true ∷ us) i = first_free us (i + 1)
first_free (false ∷ us) i = some i

unfoldable pub empty_block : Block
empty_block = record { seq_id = none; start_pos = 0; num_entries = 0 }

-- `alloc_block`: `none` is -1.
unfoldable pub alloc_block : Table → Result (Option ℕ × Table)
unfolding first_free empty_block
alloc_block t = elim (first_free t.usage 0) [
  | none ↦ ok (none, t)
  | some i ↦ elim (get_elem? t.blocks i) [
    | none ↦ err wild
    | some b ↦
        ok (some i, record { blocks = set t.blocks i empty_block; usage = set t.usage i true })
  ]
]

unfoldable pub last_block : List ℕ → Option ℕ
last_block [] = none
last_block (b ∷ []) = some b
last_block (b ∷ c ∷ bs) = last_block (c ∷ bs)

-- The last block of the sequence, if it has room.
unfoldable pub open_block : ℕ → Table → Usage → Result (Option ℕ)
unfolding last_block
open_block size t u = elim (last_block u.block_list) [
  | none ↦ ok none
  | some i ↦ elim (get_elem? t.blocks i) [
    | none ↦ err wild
    | some b ↦ ok (if ltb b.num_entries size then some i else none)
  ]
]

-- The block to write to: the open one, or else a new one.
unfoldable pub block_for : ℕ → Table → Usage → Result (Option ℕ × Table)
unfolding open_block alloc_block
block_for size t u =
    open_block size t u >>= λ o. elim o [ some i ↦ ok (some i, t) | none ↦ alloc_block t ]

-- One copy of keys and of values: `len` entries from `from` on in the new tensors go to the row `row`
-- of the block `block`.
pub record Copy : Type 0 where
  pub block : ℕ
  pub row : ℕ
  pub from : ℕ
  pub len : ℕ

-- The rest of a round, with the block that was found; `blocks_[-1]` is `wild`.
unfoldable pub fill_block : ℕ → ℕ → ℕ → Usage → Option ℕ → Table → Result (Copy × Table)
fill_block size seq_len stored u none t = err wild
fill_block size seq_len stored u (some i) t = elim (get_elem? t.blocks i) [
  | none ↦ err wild
  | some b ↦
      let n = min (size - b.num_entries) (seq_len - stored) in
      ok (
        record { block = i; row = b.num_entries; from = stored; len = n },
        record t {
          blocks =
              set t.blocks i (record {
                seq_id = some 0;
                start_pos = u.seq_len;
                num_entries = b.num_entries + n;
              });
        },
      )
]

-- The `while` loop of `write_kv`. A round that stores nothing would repeat for ever: the fuel bounds
-- the rounds.
unfoldable pub write_loop :
    ℕ → ℕ → ℕ → ℕ → Table → Usage → List Copy → Result (Table × Usage × List Copy)
unfolding block_for fill_block
write_loop zero size seq_len stored t u copies = err stuck
write_loop (suc f) size seq_len stored t u copies = elim (ltb stored seq_len) [
  | false ↦ ok (t, record u { seq_len = u.seq_len + stored }, copies)
  | true ↦ do
    (found, t') ← block_for size t u
    (c, t'') ← fill_block size seq_len stored u found t'
    write_loop f size seq_len (stored + c.len) t''
        (record u { block_list = u.block_list ++ c.block ∷ [] }) (copies ++ c ∷ [])
]

-- `write_kv` of `seq_len` entries to a layer.
unfoldable pub write_kv : ℕ → ℕ → KvCache → Result (KvCache × List Copy)
unfolding write_loop
write_kv layer seq_len cache = elim (get_elem? cache.block_tables layer) [
  | none ↦ err wild
  | some t ↦ do
    (t', u, copies) ← write_loop (suc seq_len) cache.block_size seq_len 0 t cache.usage_of []
    ok (record cache { block_tables = set cache.block_tables layer t'; usage_of = u }, copies)
]
