-- ===== src/ChunkCache/Examples.antt =====
-- tgdcfs/utils/chunk_cache.py: runs on small caches, and the theorems at concrete data.
use tgdcfs.Base.{
  ◌/◌, ◌-◌, ℕ, ◌+◌, ◌*◌, ◌-◌, ◌<◌, ◌≤◌, ◌≡◌, refl, true, none, some, List, [], ◌∷◌, arith, drop,
  pos, ◌↔◌, contains, sum, map, min, ◌≤ℤ◌, nat_eq,
}
use tgdcfs.Base.Dict
use tgdcfs.ChunkCache.{
  BlockKey, Bytes, ChunkCache, init, get, put, admits, move_to_end, shrink, key_eq,
}
use tgdcfs.ChunkCache.Eviction.{total}
use tgdcfs.ChunkCache.Invariant.{IsValid, put-IsValid}
use tgdcfs.ChunkCache.History.{
  Op, read, store, step, run, memory_after, run-refines, get-put, put-evicts,
}
use tgdcfs.ChunkCache.Blocks.{block_range, block_bounds, block_length, block_range-partition}

abbrev key : ℕ → BlockKey
key i = record { channel = pos 7; message_id = pos 9; index = pos i }

abbrev ops : List Op
ops =
    store (key 0) (1 ∷ 2 ∷ [])
    ∷ store (key 1) (3 ∷ [])
    ∷ read (key 0)
    ∷ store (key 2) (4 ∷ 5 ∷ [])
    ∷ []

-- The block read last survives, the other one goes.
evicts_oldest :
    run ops (init (pos 4))
    ≡ some (record {
      budget = 4;
      blocks = (key 0, 1 ∷ 2 ∷ []) ∷ (key 2, 4 ∷ 5 ∷ []) ∷ [];
      size = 4;
      hits = 1;
      misses = 0;
    })
unfolding run step init get put admits shrink Dict.lookup Dict.erase
evicts_oldest = refl

abbrev small : ChunkCache
small = record { budget = 3; blocks = (key 0, 1 ∷ 2 ∷ []) ∷ []; size = 2; hits = 0; misses = 0 }

small-IsValid : IsValid small
small-IsValid = record {
  counted = refl;
  within = omega arith;
  nodup = (unfold Dict.has_key in refl, tt);
}

admitted : admits small (8 ∷ 9 ∷ []) ≡ true
unfolding admits
admitted = refl

abbrev small_after : ChunkCache
small_after = record small { blocks = (key 1, 8 ∷ 9 ∷ []) ∷ [] }

stored_block : put small (key 1) (8 ∷ 9 ∷ []) ≡ some small_after
unfolding put shrink Dict.lookup Dict.erase
stored_block = refl

run-refines_example :
    (c : ChunkCache) × (run ops (init (pos 4)) ≡ some c)
    × IsValid c
    × ((k : BlockKey) (b : Bytes)
        → (get c k).1 ≡ some b
        → memory_after ops (init (pos 4)) (λ _. none) k ≡ some b)
run-refines_example = run-refines (pos 4) ops

put-IsValid_example :
    (c' : ChunkCache) × (put small (key 1) (8 ∷ 9 ∷ []) ≡ some c') × (c'.budget ≡ 3) × IsValid c'
put-IsValid_example = put-IsValid small (key 1) (8 ∷ 9 ∷ []) small-IsValid

get-put_example : (get small_after (key 1)).1 ≡ some (8 ∷ 9 ∷ [])
get-put_example = get-put small small_after (key 1) (8 ∷ 9 ∷ []) small-IsValid admitted stored_block

put-evicts_example :
    (n : ℕ) × (put small (key 1) (8 ∷ 9 ∷ [])
      ≡ some (record small {
        blocks = drop n (move_to_end (key 1) (8 ∷ 9 ∷ []) small.blocks);
        size = total (drop n (move_to_end (key 1) (8 ∷ 9 ∷ []) small.blocks));
      }))
    × (total (drop n (move_to_end (key 1) (8 ∷ 9 ∷ []) small.blocks)) ≤ 3)
    × ((m : ℕ) → m < n → 3 < total (drop m (move_to_end (key 1) (8 ∷ 9 ∷ []) small.blocks)))
put-evicts_example = put-evicts small (key 1) (8 ∷ 9 ∷ []) small-IsValid admitted

block_range-partition_example :
    ((i : ℕ)
      → (contains (block_range 5 25 10) i ≡ true)
        ↔ (((block_bounds i 10 27).0 ≤ 25) × (pos 5 ≤ℤ (block_bounds i 10 27).1)))
    × (sum (map (λ i. block_length i 10 27) (block_range 5 25 10))
        ≡ min ((25 / 10 + 1) * 10) 27 - 5 / 10 * 10)
block_range-partition_example =
    block_range-partition 5 25 10 27 (omega arith) (omega arith) (omega arith)
