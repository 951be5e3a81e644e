-- ===== src/ChunkCache/History.antt =====
-- tgdcfs/utils/chunk_cache.py: runs of operations against what was stored.
use tgdcfs.Base.{
  ◌&&◌, ℕ, zero, suc, ◌≤◌, ◌<◌, ◌≡◌, refl, sym, ◌∙◌, Bool, true, false, Option, none, some, List,
  [], ◌∷◌, arith, if◌then◌else◌, length, drop, ℤ, ◌==◌,
}
use tgdcfs.Base.Dict
use tgdcfs.ChunkCache.{
  BlockKey, Bytes, Blocks, ChunkCache, key_eq, init, get, found, put, admits, invalidate, clear,
  move_to_end, of_message, enabled,
}
use tgdcfs.ChunkCache.Eviction.{total, evictions, total-drop-le, evictions_least, drop-snoc}
use tgdcfs.ChunkCache.Invariant.{
  IsValid, init-IsValid, get-IsValid, put_lem, put-IsValid, kept, lookup-drop_message,
  invalidate-IsValid, clear-IsValid, move_to_end-NodupKeys,
}

pub data Op : Type 0 where
  read : BlockKey → Op
  store : BlockKey → Bytes → Op
  forget : ℤ → ℤ → Op
  reset : Op

unfoldable pub step : Op → ChunkCache → Option ChunkCache
step (read k) c = some (get c k).0
step (store k b) c = put c k b
step (forget ch mid) c = some (invalidate c ch mid)
step reset c = some (clear c)

unfoldable pub run : List Op → ChunkCache → Option ChunkCache
run [] c = some c
run (op ∷ ops) c = elim (step op c) [ none ↦ none | some c' ↦ run ops c' ]

-- What every key last stood for: the description that the cache is measured by.
abbrev pub Memory : Type 0
Memory = BlockKey → Option Bytes

unfoldable pub remember : Op → ChunkCache → Memory → Memory
remember (read k) c m = m
remember (store k b) c m = λ j. if admits c b then (if k == j then some b else m j) else m j
remember (forget ch mid) c m = λ j. if enabled c && of_message ch mid j then none else m j
remember reset c m = λ j. none

-- The budget is all that `remember` reads of the cache.
unfoldable pub memory_after : List Op → ChunkCache → Memory → Memory
memory_after [] c m = m
memory_after (op ∷ ops) c m = memory_after ops c (remember op c m)

-- Every block that is held is the one that its key last stood for.
abbrev pub Agrees : ChunkCache → Memory → Type 0
Agrees c m = (k : BlockKey) (b : Bytes) → Dict.lookup k c.blocks ≡ some b → m k ≡ some b

lookup-move_to_end :
    (k j : BlockKey) (b : Bytes) (d : Blocks)
    → Dict.lookup j (move_to_end k b d) ≡ (if k == j then some b else Dict.lookup j d)
lookup-move_to_end k j b d =
    rw (Dict.lookup-append j (Dict.erase k d) ((k, b) ∷ []), Dict.lookup-erase k j d)
      (unfold Dict.lookup in ground arith)

lookup-drop :
    (n : ℕ) (d : Blocks) (j : BlockKey) (b : Bytes)
    → Dict.NodupKeys d
    → Dict.lookup j (drop n d) ≡ some b
    → Dict.lookup j d ≡ some b
unfolding Dict.lookup
lookup-drop zero d j b u h = h
lookup-drop (suc n) [] j b u h = h
lookup-drop (suc n) ((k, x) ∷ d) j b (fresh, u) h =
    ground (arith, key_eq.eqb_iff k j, lookup-drop n d j b u h, Dict.has_key-lookup k d, fresh)

found-Agrees :
    (c : ChunkCache) (k : BlockKey) (o : Option Bytes) (m : Memory)
    → Dict.lookup k c.blocks ≡ o
    → Agrees c m
    → Agrees (found c k o).0 m
unfolding found
found-Agrees c k none m e h = h
found-Agrees c k (some b) m e h =
    λ j x l. ground (arith, lookup-move_to_end k j b c.blocks, key_eq.eqb_iff k j, h j x, h k b)

if-Agrees :
    (t : Bool) (x y : ChunkCache × Option Bytes) (m : Memory)
    → Agrees x.0 m
    → Agrees y.0 m
    → Agrees (if t then x else y).0 m
if-Agrees true x y m p q = p
if-Agrees false x y m p q = q

get-Agrees : (c : ChunkCache) (k : BlockKey) (m : Memory) → Agrees c m → Agrees (get c k).0 m
unfolding get
get-Agrees c k m h =
    if-Agrees (enabled c) (found c k (Dict.lookup k c.blocks)) (c, none) m
      (found-Agrees c k (Dict.lookup k c.blocks) m refl h) h

lookup-kept :
    (c : ChunkCache) (k : BlockKey) (b : Bytes)
    → IsValid c
    → (j : BlockKey) (x : Bytes) → Dict.lookup j (kept c k b) ≡ some x
    → (if k == j then some b else Dict.lookup j c.blocks) ≡ some x
lookup-kept c k b v j x l =
    let d : Blocks = move_to_end k b c.blocks in
    sym (lookup-move_to_end k j b c.blocks)
    ∙ lookup-drop (evictions c.budget d) d j x (move_to_end-NodupKeys k b c.blocks v.nodup) l

put-Agrees :
    (c c' : ChunkCache) (k : BlockKey) (b : Bytes) (m : Memory)
    → IsValid c
    → put c k b ≡ some c'
    → Agrees c m
    → Agrees c' (remember (store k b) c m)
unfolding remember
put-Agrees c c' k b m v e h =
    λ j x l. ground (arith, put_lem c k b v, lookup-kept c k b v j x, h j x)

invalidate-Agrees :
    (c : ChunkCache) (ch mid : ℤ) (m : Memory)
    → IsValid c
    → Agrees c m
    → Agrees (invalidate c ch mid) (remember (forget ch mid) c m)
unfolding invalidate remember
invalidate-Agrees c ch mid m v h =
    λ j x l. ground (arith, lookup-drop_message ch mid c.blocks c.size j, h j x)

-- One step of a valid cache returns a valid cache with the same budget that still agrees.
record Kept (budget : ℕ) (m : Memory) (c : ChunkCache) : Type 0 where
  same : c.budget ≡ budget
  valid : IsValid c
  agrees : Agrees c m

-- `remember` reads nothing of the cache but its budget.
remember-budget :
    (op : Op) (c d : ChunkCache) (m : Memory)
    → c.budget ≡ d.budget
    → (j : BlockKey) → remember op c m j ≡ remember op d m j
unfolding remember admits
remember-budget (read k) c d m e j = refl
remember-budget (store k b) c d m e j = ground arith
remember-budget (forget ch mid) c d m e j = ground arith
remember-budget reset c d m e j = refl

step-Kept :
    (op : Op) (c : ChunkCache) (m : Memory)
    → IsValid c
    → Agrees c m
    → (c' : ChunkCache) × (step op c ≡ some c') × Kept c.budget (remember op c m) c'
unfolding step
step-Kept (read k) c m v h = (
  (get c k).0,
  refl,
  record {
    same = get-budget c k;
    valid = get-IsValid c k v;
    agrees = unfold remember in get-Agrees c k m h;
  },
)
  where
    get-budget : (c : ChunkCache) (k : BlockKey) → (get c k).0.budget ≡ c.budget
    get-budget c k = unfold get in ground arith
step-Kept (store k b) c m v h =
    let (c', e, same, v') = put-IsValid c k b v in
    (c', e, record { same = same; valid = v'; agrees = put-Agrees c c' k b m v e h })
step-Kept (forget ch mid) c m v h = (
  invalidate c ch mid,
  refl,
  record {
    same = unfold invalidate in ground arith;
    valid = invalidate-IsValid c ch mid v;
    agrees = invalidate-Agrees c ch mid m v h;
  },
)
step-Kept reset c m v h = (
  clear c,
  refl,
  record {
    same = unfold clear in refl;
    valid = clear-IsValid c;
    agrees = unfold clear remember Dict.lookup in (λ j x l. l);
  },
)

run-Kept :
    (ops : List Op) (c d : ChunkCache) (m : Memory)
    → c.budget ≡ d.budget
    → IsValid c
    → Agrees c m
    → (c' : ChunkCache) × (run ops c ≡ some c') × Kept d.budget (memory_after ops d m) c'
unfolding run memory_after
run-Kept [] c d m e v h = (c, refl, record { same = e; valid = v; agrees = h })
run-Kept (op ∷ ops) c d m e v h =
    let (c₁, e₁, k₁) = step-Kept op c m v h in
    let agrees₁ : Agrees c₁ (remember op d m) =
      λ j x l. sym (remember-budget op c d m e j) ∙ k₁.agrees j x l in
    let (c₂, e₂, k₂) = run-Kept ops c₁ d (remember op d m) (k₁.same ∙ e) k₁.valid agrees₁ in
    (c₂, rw (e₁, run) e₂, k₂)

get-lookup :
    (c : ChunkCache) (k : BlockKey) (b : Bytes)
    → (get c k).1 ≡ some b
    → Dict.lookup k c.blocks ≡ some b
unfolding get
get-lookup c k b h = ground arith

-- From an empty cache of any budget, every run of operations returns (`put` never raises a
-- `KeyError`), its cache counts its bytes exactly, stays within that budget and holds no key
-- twice, and whatever `get` then hands out for a key is the block last accepted under this key,
-- with no invalidation of its message and no `clear` in between.
pub run-refines :
    (budget : ℤ) (ops : List Op)
    → (c : ChunkCache) × (run ops (init budget) ≡ some c)
      × IsValid c
      × ((k : BlockKey) (b : Bytes)
          → (get c k).1 ≡ some b
          → memory_after ops (init budget) (λ _. none) k ≡ some b)
run-refines budget ops =
    let (c, e, kept) =
      run-Kept ops (init budget) (init budget) (λ _. none) refl (init-IsValid budget)
        (unfold init Dict.lookup in (λ k b l. l)) in
    (c, e, kept.valid, λ k b h. kept.agrees k b (get-lookup c k b h))

lookup-drop_of_absent :
    (n : ℕ) (d : Blocks) (j : BlockKey) → Dict.lookup j d ≡ none → Dict.lookup j (drop n d) ≡ none
unfolding Dict.lookup
lookup-drop_of_absent zero d j h = h
lookup-drop_of_absent (suc n) [] j h = h
lookup-drop_of_absent (suc n) ((k, x) ∷ d) j h = ground (arith, lookup-drop_of_absent n d j)

lookup-kept_self :
    (c : ChunkCache) (k : BlockKey) (b : Bytes)
    → length b ≤ c.budget
    → Dict.lookup k (kept c k b) ≡ some b
lookup-kept_self c k b fits =
    let d : Blocks = Dict.erase k c.blocks in
    let n : ℕ = evictions c.budget (move_to_end k b c.blocks) in
    rw (drop-snoc c.budget k b d fits, Dict.lookup-append k (drop n d) ((k, b) ∷ []))
      (unfold Dict.lookup in
        ground (
          arith,
          key_eq.eqb_iff k k,
          lookup-drop_of_absent n d k
              (Dict.lookup-erase k k c.blocks ∙ ground (arith, key_eq.eqb_iff k k)),
        ))

-- A block that `put` accepts is handed out by the next `get` of its key.
pub get-put :
    (c c' : ChunkCache) (k : BlockKey) (b : Bytes)
    → IsValid c
    → admits c b ≡ true
    → put c k b ≡ some c'
    → (get c' k).1 ≡ some b
unfolding get admits
get-put c c' k b v a e = ground (arith, put_lem c k b v, lookup-kept_self c k b (ground arith))

-- Which blocks go: with the dict as the recency order, oldest first, an accepted block is put at
-- the end and some blocks are dropped from the front, so that the rest fits the budget, and not
-- one more than that takes.
pub put-evicts :
    (c : ChunkCache) (k : BlockKey) (b : Bytes)
    → IsValid c
    → admits c b ≡ true
    → (n : ℕ) × (put c k b
        ≡ some (record c {
          blocks = drop n (move_to_end k b c.blocks);
          size = total (drop n (move_to_end k b c.blocks));
        }))
      × (total (drop n (move_to_end k b c.blocks)) ≤ c.budget)
      × ((m : ℕ) → m < n → c.budget < total (drop m (move_to_end k b c.blocks)))
put-evicts c k b v a =
    let d : Blocks = move_to_end k b c.blocks in
    (
      evictions c.budget d,
      put_lem c k b v ∙ rw a,
      total-drop-le c.budget d,
      evictions_least c.budget d,
    )
