-- ===== src/ChunkCache/Eviction.antt =====
-- tgdcfs/utils/chunk_cache.py, `put`: which blocks the loop over `popitem(last=False)` evicts.
use tgdcfs.Base.{
  ℕ, zero, suc, ◌+◌, ◌-◌, ◌≤◌, ◌<◌, ◌≡◌, refl, some, [], ◌∷◌, ◌++◌, arith, ltb, if◌then◌else◌,
  length, drop, false,
}
use tgdcfs.Base.Dict
use tgdcfs.ChunkCache.{BlockKey, Bytes, Blocks, key_eq, shrink, held, move_to_end}

-- The bytes that some blocks take.
abbrev pub total : Blocks → ℕ
total [] = 0
total ((key, block) ∷ d) = length block + total d

-- How many blocks have to go, from the front, until the rest fits.
abbrev pub evictions : ℕ → Blocks → ℕ
evictions budget [] = 0
evictions budget ((key, block) ∷ d) =
    let n = evictions budget d in if ltb budget (length block + total d) then suc n else 0

pub total-append : (c d : Blocks) → total (c ++ d) ≡ total c + total d
total-append [] d = omega arith
total-append ((key, block) ∷ c) d = omega (arith, total-append c d)

total-erase_of_absent : (k : BlockKey) (d : Blocks) → Dict.has_key k d ≡ false → Dict.erase k d ≡ d
unfolding Dict.erase Dict.has_key
total-erase_of_absent k [] h = refl
total-erase_of_absent k ((j, b) ∷ d) h = ground (arith, total-erase_of_absent k d)

-- Dropping a key frees exactly the bytes that it held.
pub total-erase :
    (k : BlockKey) (d : Blocks) → Dict.NodupKeys d → total (Dict.erase k d) + held k d ≡ total d
unfolding Dict.erase Dict.lookup
total-erase k [] u = omega arith
total-erase k ((j, b) ∷ d) (fresh, u) =
    ground (arith, key_eq.eqb_iff j k, total-erase_of_absent k d, total-erase k d u)

pub total-move_to_end :
    (k : BlockKey) (b : Bytes) (d : Blocks)
    → Dict.NodupKeys d
    → total (move_to_end k b d) + held k d ≡ total d + length b
total-move_to_end k b d u =
    omega (arith, total-erase k d u, total-append (Dict.erase k d) ((k, b) ∷ []))

-- The loop ends without a `KeyError`, and leaves what it must.
pub shrink_lem :
    (budget : ℕ) (d : Blocks) (size : ℕ)
    → size ≡ total d
    → shrink budget d size ≡ some (drop (evictions budget d) d, total (drop (evictions budget d) d))
unfolding shrink
shrink_lem budget [] size e = ground arith
shrink_lem budget ((k, b) ∷ d) size e =
    ground (arith, shrink_lem budget d (size - length b) (omega arith))

pub total-drop-le : (budget : ℕ) (d : Blocks) → total (drop (evictions budget d) d) ≤ budget
total-drop-le budget [] = omega arith
total-drop-le budget ((k, b) ∷ d) = ground (arith, total-drop-le budget d)

-- One eviction fewer would not have been enough.
pub evictions_least :
    (budget : ℕ) (d : Blocks) (m : ℕ) → m < evictions budget d → budget < total (drop m d)
evictions_least budget [] m h = elim h [ ]
evictions_least budget ((k, b) ∷ d) zero h = ground arith
evictions_least budget ((k, b) ∷ d) (suc m) h = ground (arith, evictions_least budget d m)

pub drop-NodupKeys : (n : ℕ) (d : Blocks) → Dict.NodupKeys d → Dict.NodupKeys (drop n d)
drop-NodupKeys zero d u = u
drop-NodupKeys (suc n) [] u = u
drop-NodupKeys (suc n) ((k, b) ∷ d) (fresh, u) = drop-NodupKeys n d u

-- The newest block stays if it fits alone.
pub drop-snoc :
    (budget : ℕ) (k : BlockKey) (b : Bytes) (d : Blocks)
    → length b ≤ budget
    → drop (evictions budget (d ++ ((k, b) ∷ []))) (d ++ ((k, b) ∷ []))
      ≡ drop (evictions budget (d ++ ((k, b) ∷ []))) d ++ ((k, b) ∷ [])
drop-snoc budget k b [] fits = ground arith
drop-snoc budget k b ((j, c) ∷ d) fits = ground (arith, drop-snoc budget k b d fits)
