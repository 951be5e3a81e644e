-- ===== src/ChunkCache/Invariant.antt =====
-- tgdcfs/utils/chunk_cache.py: the recorded size, the byte budget and the keys.
use tgdcfs.Base.{
  ℕ, ◌+◌, ◌-◌, ◌≤◌, ◌≡◌, refl, Bool, true, false, Option, none, some, [], ◌∷◌, arith, if◌then◌else◌,
  length, drop, ℤ,
}
use tgdcfs.Base.Dict
use tgdcfs.ChunkCache.{
  BlockKey, Bytes, Blocks, ChunkCache, key_eq, init, get, put, admits, invalidate, clear, found,
  held, move_to_end, drop_message, of_message, enabled,
}
use tgdcfs.ChunkCache.Eviction.{
  total, evictions, total-erase, total-move_to_end, shrink_lem, total-drop-le, drop-NodupKeys,
}

-- The size is the sum of the blocks, it is within the budget, and no key is there twice.
pub record IsValid (c : ChunkCache) : Type 0 where
  pub counted : c.size ≡ total c.blocks
  pub within : c.size ≤ c.budget
  pub nodup : Dict.NodupKeys c.blocks

pub init-IsValid : (budget : ℤ) → IsValid (init budget)
unfolding init
init-IsValid budget = record { counted = refl; within = omega arith; nodup = tt }

pub move_to_end-NodupKeys :
    (k : BlockKey) (b : Bytes) (d : Blocks) → Dict.NodupKeys d → Dict.NodupKeys (move_to_end k b d)
move_to_end-NodupKeys k b d u =
    Dict.snoc-NodupKeys k b (Dict.erase k d) (Dict.has_key-erase_self k d)
      (Dict.erase-NodupKeys k d u)

found-IsValid :
    (c : ChunkCache) (k : BlockKey) (o : Option Bytes)
    → Dict.lookup k c.blocks ≡ o
    → IsValid c
    → IsValid (found c k o).0
unfolding found
found-IsValid c k none h v = record { counted = v.counted; within = v.within; nodup = v.nodup }
found-IsValid c k (some b) h v = record {
  counted = omega (arith, moved, v.counted);
  within = v.within;
  nodup = move_to_end-NodupKeys k b c.blocks v.nodup;
}
  where
    moved : total (move_to_end k b c.blocks) ≡ total c.blocks
    moved = ground (arith, total-move_to_end k b c.blocks v.nodup)

if-IsValid :
    (t : Bool) (x y : ChunkCache × Option Bytes)
    → IsValid x.0
    → IsValid y.0
    → IsValid (if t then x else y).0
if-IsValid true x y p q = p
if-IsValid false x y p q = q

pub get-IsValid : (c : ChunkCache) (k : BlockKey) → IsValid c → IsValid (get c k).0
unfolding get
get-IsValid c k v =
    if-IsValid (enabled c) (found c k (Dict.lookup k c.blocks)) (c, none)
      (found-IsValid c k (Dict.lookup k c.blocks) refl v) v

-- The blocks of the cache after an accepted `put`.
abbrev pub kept : ChunkCache → BlockKey → Bytes → Blocks
kept c k b = let d = move_to_end k b c.blocks in drop (evictions c.budget d) d

-- `put` never raises, and an accepted block leaves the recency list cut at its front.
pub put_lem :
    (c : ChunkCache) (k : BlockKey) (b : Bytes)
    → IsValid c
    → put c k b
      ≡ some (if admits c b then record c { blocks = kept c k b; size = total (kept c k b) } else c)
unfolding put
put_lem c k b v = ground (
  arith,
  shrink_lem c.budget (move_to_end k b c.blocks) (c.size - held k c.blocks + length b) (
      omega
        (arith, total-move_to_end k b c.blocks v.nodup, v.counted, total-erase k c.blocks v.nodup)),
)

accepted-IsValid :
    (c : ChunkCache) (k : BlockKey) (b : Bytes)
    → IsValid c
    → IsValid (record c { blocks = kept c k b; size = total (kept c k b) })
accepted-IsValid c k b v =
    let d : Blocks = move_to_end k b c.blocks in
    record {
      counted = refl;
      within = total-drop-le c.budget d;
      nodup = drop-NodupKeys (evictions c.budget d) d (move_to_end-NodupKeys k b c.blocks v.nodup);
    }

put_result-IsValid :
    (t : Bool) (x y : ChunkCache) → IsValid x → IsValid y → IsValid (if t then x else y)
put_result-IsValid true x y p q = p
put_result-IsValid false x y p q = q

-- Storing a block in a valid cache always returns, never with a `KeyError`, and the cache it
-- returns counts its bytes exactly, stays within the same budget and holds no key twice.
pub put-IsValid :
    (c : ChunkCache) (k : BlockKey) (b : Bytes)
    → IsValid c
    → (c' : ChunkCache) × (put c k b ≡ some c') × (c'.budget ≡ c.budget) × IsValid c'
put-IsValid c k b v = (
  (if admits c b then record c { blocks = kept c k b; size = total (kept c k b) } else c),
  put_lem c k b v,
  ground arith,
  put_result-IsValid (admits c b) (record c { blocks = kept c k b; size = total (kept c k b) }) c
      (accepted-IsValid c k b v) v,
)

drop_message-size :
    (ch mid : ℤ) (d : Blocks) (size : ℕ)
    → total d ≤ size
    → (drop_message ch mid d size).1 + total d ≡ size + total (drop_message ch mid d size).0
unfolding drop_message
drop_message-size ch mid [] size h = omega arith
drop_message-size ch mid ((k, b) ∷ d) size h =
    ground (arith, drop_message-size ch mid d (size - length b), drop_message-size ch mid d size)

-- Dropping a message forgets every block of it and keeps every other block.
pub lookup-drop_message :
    (ch mid : ℤ) (d : Blocks) (size : ℕ) (j : BlockKey)
    → Dict.lookup j (drop_message ch mid d size).0
      ≡ (if of_message ch mid j then none else Dict.lookup j d)
unfolding drop_message Dict.lookup
lookup-drop_message ch mid [] size j = ground arith
lookup-drop_message ch mid ((k, b) ∷ d) size j = ground (
  arith,
  key_eq.eqb_iff k j,
  lookup-drop_message ch mid d (if of_message ch mid k then size - length b else size) j,
)

has_key-drop_message :
    (ch mid : ℤ) (d : Blocks) (size : ℕ) (j : BlockKey)
    → Dict.has_key j d ≡ false
    → Dict.has_key j (drop_message ch mid d size).0 ≡ false
unfolding drop_message Dict.has_key
has_key-drop_message ch mid [] size j h = refl
has_key-drop_message ch mid ((k, b) ∷ d) size j h =
    ground (
      arith,
      has_key-drop_message ch mid d (if of_message ch mid k then size - length b else size) j,
    )

drop_message-NodupKeys :
    (ch mid : ℤ) (d : Blocks) (size : ℕ)
    → Dict.NodupKeys d
    → Dict.NodupKeys (drop_message ch mid d size).0
unfolding drop_message
drop_message-NodupKeys ch mid [] size u = tt
drop_message-NodupKeys ch mid ((k, b) ∷ d) size (fresh, u) =
    let left : ℕ = if of_message ch mid k then size - length b else size in
    ground
      (arith, drop_message-NodupKeys ch mid d left u, has_key-drop_message ch mid d left k fresh)

total-drop_message-le :
    (ch mid : ℤ) (d : Blocks) (size : ℕ) → total (drop_message ch mid d size).0 ≤ total d
unfolding drop_message
total-drop_message-le ch mid [] size = omega arith
total-drop_message-le ch mid ((k, b) ∷ d) size =
    ground (
      arith,
      total-drop_message-le ch mid d (if of_message ch mid k then size - length b else size),
    )

pub invalidate-IsValid : (c : ChunkCache) (ch mid : ℤ) → IsValid c → IsValid (invalidate c ch mid)
unfolding invalidate
invalidate-IsValid c ch mid v =
    put_result-IsValid (enabled c) _ c
      (record {
        counted =
            omega (
              arith,
              drop_message-size ch mid c.blocks c.size (omega (arith, v.counted)),
              v.counted,
            );
        within = omega (
          arith,
          drop_message-size ch mid c.blocks c.size (omega (arith, v.counted)),
          v.counted,
          total-drop_message-le ch mid c.blocks c.size,
          v.within,
        );
        nodup = drop_message-NodupKeys ch mid c.blocks c.size v.nodup;
      })
      v

pub clear-IsValid : (c : ChunkCache) → IsValid (clear c)
unfolding clear
clear-IsValid c = record { counted = refl; within = omega arith; nodup = tt }
