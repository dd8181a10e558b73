-- ===== src/KvCache/Start.antt =====
-- How the key-value cache is made: the constructor, `blocks_count` and `init` of src/kv_cache/cache.h
-- and cache.cpp. The tensors are described by their shape and name; what `std::to_string` prints is
-- an argument.
use zinfer_lm.Base.{
  ℕ, zero, suc, ◌*◌, ◌/◌, Option, none, some, List, [], ◌∷◌, ◌++◌, get_elem?, set, ◌==◌,
  if◌then◌else◌, Result, ok, err, wild, ◌>>=◌, codes,
}
use zinfer_lm.Gguf.Loader.{ModelConfig}
use zinfer_lm.KvCache.{Table}

-- The members that the constructor sets.
pub record CacheParams : Type 0 where
  pub max_len : ℕ
  pub layers : ℕ
  pub n_kv : ℕ
  pub d_head : ℕ
  pub block_size : ℕ

-- The constructor.
unfoldable pub new_cache : ℕ → ℕ → ℕ → ℕ → CacheParams
new_cache ctx_len layers n_kv d_head = record {
  max_len = ctx_len;
  layers = layers;
  n_kv = n_kv;
  d_head = d_head;
  block_size = 16;
}

-- `blocks_count`.
unfoldable pub blocks_count : CacheParams → ℕ
blocks_count c = c.max_len / c.block_size

-- A tensor of the cache, by its three dimensions and its name.
pub record CacheTensor : Type 0 where
  pub dims : List ℕ
  pub name : List ℕ

-- `kv_cache_table_t` with its `entry`; null pointers are `none`.
pub record LayerTable : Type 0 where
  pub table : Table
  pub keys : Option CacheTensor
  pub values : Option CacheTensor

unfoldable pub cache_tensor : CacheParams → List ℕ → CacheTensor
unfolding blocks_count
cache_tensor c name = record {
  dims = (c.d_head * c.n_kv) ∷ c.block_size ∷ blocks_count c ∷ [];
  name = name;
}

-- What a round of the loop of `init` writes to a table; `reserve` adds no element.
unfoldable pub filled_table : (ℕ → List ℕ) → CacheParams → ℕ → LayerTable → LayerTable
unfolding cache_tensor
filled_table to_string c i t = record t {
  keys = some (cache_tensor c (codes "cache->k_l" ++ to_string i));
  values = some (cache_tensor c (codes "cache->v_l" ++ to_string i));
}

abbrev write_table :
    (ℕ → List ℕ) → CacheParams → ℕ → List LayerTable → Option LayerTable → Result (List LayerTable)
write_table to_string c i tables none = err wild
write_table to_string c i tables (some t) = ok (set tables i (filled_table to_string c i t))

-- The loop of `init`, with the rounds that are left: `c` is the object that `init` is called on.
unfoldable pub init_loop :
    (ℕ → List ℕ) → CacheParams → ℕ → ℕ → List LayerTable → Result (List LayerTable)
init_loop to_string c zero i tables = ok tables
init_loop to_string c (suc n) i tables =
    write_table to_string c i tables (get_elem? tables i) >>= init_loop to_string c n (suc i)

-- The cache that `instance_` points to.
pub record CacheInstance : Type 0 where
  pub params : CacheParams
  pub block_tables : List LayerTable

-- `init`, on an object, for the configuration of the model: the tables are only reserved, so that
-- none is there. A division by zero is undefined.
unfoldable pub init :
    (ℕ → List ℕ)
    → CacheParams
    → ModelConfig
    → ℕ
    → Option CacheInstance
    → Result (Option CacheInstance)
unfolding new_cache init_loop
init to_string c config max_len (some cache) = ok (some cache)
init to_string c config max_len none =
    if config.nheads == 0
    then err wild
    else (init_loop to_string c config.n_blocks 0 [] >>= λ tables. ok (
        some (record {
          params =
              new_cache max_len config.n_blocks config.nkv (config.embedding_dim / config.nheads);
          block_tables = tables;
        })))
