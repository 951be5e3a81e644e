-- ===== src/ChunkCache.antt =====
-- tgdcfs/utils/chunk_cache.py: a byte-budgeted LRU cache of blocks of message content.
-- An `OrderedDict` is an association list, the block used longest ago first. `popitem` on an
-- empty dict raises a `KeyError`: `put` returns `none` there.
pub mod Invariant
pub mod Eviction
pub mod History
pub mod Blocks
mod Examples
use tgdcfs.Base.{
  ℕ, ◌+◌, ◌-◌, ◌≡◌, ◌↔◌, refl, Bool, true, false, not, ◌&&◌, ◌||◌, Option, none, some, List, [],
  ◌∷◌, ◌++◌, arith, ltb, if◌then◌else◌, length, ℤ, int_eq, pos_part, Eq, ◌==◌, nat_eq,
}
use tgdcfs.Base.Dict
use tgdcfs.Base.Dict.{Dict}

-- (channel id, message id, block index)
pub record BlockKey : Type 0 where
  pub channel : ℤ
  pub message_id : ℤ
  pub index : ℤ

abbrev pub key_beq : BlockKey → BlockKey → Bool
key_beq a b = a.channel == b.channel && (a.message_id == b.message_id && a.index == b.index)

pub key_beq_iff : (a b : BlockKey) → (key_beq a b ≡ true) ↔ (a ≡ b)
key_beq_iff a b = ground (
  arith,
  int_eq.eqb_iff a.channel b.channel,
  int_eq.eqb_iff a.message_id b.message_id,
  int_eq.eqb_iff a.index b.index,
)

instance abbrev pub key_eq : Eq BlockKey
key_eq = record { eqb = key_beq; eqb_iff = key_beq_iff }

abbrev pub Bytes : Type 0
Bytes = List ℕ

abbrev pub Blocks : Type 0
Blocks = Dict BlockKey Bytes

pub record ChunkCache : Type 0 where
  pub budget : ℕ
  pub blocks : Blocks
  pub size : ℕ
  pub hits : ℕ
  pub misses : ℕ

unfoldable pub init : ℤ → ChunkCache
init budget_bytes = record {
  budget = pos_part budget_bytes;
  blocks = [];
  size = 0;
  hits = 0;
  misses = 0;
}

abbrev pub enabled : ChunkCache → Bool
enabled c = ltb 0 c.budget

-- `self._blocks.move_to_end(key)` for a key that is there with this block
abbrev pub move_to_end : BlockKey → Bytes → Blocks → Blocks
move_to_end key block d = Dict.erase key d ++ ((key, block) ∷ [])

found : ChunkCache → BlockKey → Option Bytes → ChunkCache × Option Bytes
found c key none = (record c { misses = c.misses + 1 }, none)
found c key (some block) =
    (record c { blocks = move_to_end key block c.blocks; hits = c.hits + 1 }, some block)

unfoldable pub get : ChunkCache → BlockKey → ChunkCache × Option Bytes
unfolding found
get c key = if enabled c then found c key (Dict.lookup key c.blocks) else (c, none)

unfoldable pub contains_block : ChunkCache → BlockKey → Bool
contains_block c key = enabled c && Dict.has_key key c.blocks

-- `while self._size > self._budget: popitem(last=False)`
unfoldable pub shrink : ℕ → Blocks → ℕ → Option (Blocks × ℕ)
shrink budget [] size = if ltb budget size then none else some ([], size)
shrink budget ((key, evicted) ∷ d) size =
    let rest = shrink budget d (size - length evicted) in
    if ltb budget size then rest else some ((key, evicted) ∷ d, size)

-- What is subtracted when the key is already there.
abbrev pub held : BlockKey → Blocks → ℕ
held key d = elim (Dict.lookup key d) [ none ↦ 0 | some old ↦ length old ]

is_empty : Bytes → Bool
is_empty [] = true
is_empty (b ∷ bs) = false

store_blocks : ChunkCache → Option (Blocks × ℕ) → Option ChunkCache
store_blocks c none = none
store_blocks c (some (d, size)) = some (record c { blocks = d; size = size })

-- Whether `put` keeps the block at all: its two early returns.
unfoldable pub admits : ChunkCache → Bytes → Bool
unfolding is_empty
admits c block = enabled c && not (is_empty block) && not (ltb c.budget (length block))

unfoldable pub put : ChunkCache → BlockKey → Bytes → Option ChunkCache
unfolding admits store_blocks
put c key block =
    if admits c block
    then store_blocks c (
        shrink c.budget (move_to_end key block c.blocks)
          (c.size - held key c.blocks + length block))
    else some c

-- The keys of one message.
abbrev pub of_message : ℤ → ℤ → BlockKey → Bool
of_message channel message_id key = key.channel == channel && key.message_id == message_id

-- The blocks that stay when every block of one message is dropped, and the bytes left.
unfoldable pub drop_message : ℤ → ℤ → Blocks → ℕ → Blocks × ℕ
drop_message channel message_id [] size = ([], size)
drop_message channel message_id ((key, block) ∷ d) size =
    let stale = of_message channel message_id key in
    let (rest, left) =
      drop_message channel message_id d (if stale then size - length block else size) in
    (if stale then rest else (key, block) ∷ rest, left)

unfoldable pub invalidate : ChunkCache → ℤ → ℤ → ChunkCache
invalidate c channel message_id =
    let (d, left) = drop_message channel message_id c.blocks c.size in
    if enabled c then record c { blocks = d; size = left } else c

unfoldable pub clear : ChunkCache → ChunkCache
clear c = record c { blocks = []; size = 0; hits = 0; misses = 0 }
