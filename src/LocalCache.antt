-- ===== src/LocalCache.antt =====
-- tgdcfs/core/local_cache.py: the entries of the local cache and its budget. The free bytes of the
-- disk are a parameter, a function of the entries on it; whether a file can be created or written is
-- an argument of the operation. Sizes and offsets are not negative: guards against negative ones have
-- no case here.
pub mod Room
pub mod Budget
pub mod Runs
pub mod Writes
pub mod Sweep
pub mod Keeps
mod Lemmas
pub mod Charging
mod Examples
use tgdcfs.Base.{
  ℕ, zero, suc, ◌+◌, ◌-◌, ◌*◌, ◌/◌, ◌%◌, Bool, true, false, not, ◌&&◌, ◌||◌, Option, none, some,
  List, [], ◌∷◌, ◌++◌, ltb, leb, if◌then◌else◌, length, replicate, min, String, ◌==◌, nat_eq,
  string_eq,
}

pub record Entry : Type 0 where
  pub version_id : String
  -- What `is` compares: two entries of one version are different objects.
  pub identity : ℕ
  pub fs : String
  pub size : ℕ
  pub block_size : ℕ
  pub present : List Bool
  pub last_access : ℕ
  pub pins : ℕ
  pub writing : Bool
  pub inflight : ℕ
  pub pinned_at : ℕ

-- A limit of 0 is no limit.
pub record Config : Type 0 where
  pub enabled : Bool
  pub max_size_bytes : ℕ
  pub max_files : ℕ
  pub max_file_size_bytes : ℕ
  pub min_free_bytes : ℕ
  pub block_bytes : ℕ
  pub keep_for_reads : Bool
  pub max_age_seconds : ℕ
  pub target_bytes : Option ℕ

abbrev pub Entries : Type 0
Entries = List Entry

pub record LocalCache : Type 0 where
  pub entries : Entries
  pub next_identity : ℕ

abbrev pub evictable : Entry → Bool
evictable e = (e.pins == 0) && (not e.writing && (e.inflight == 0))

unfoldable pub block_length : Entry → ℕ → ℕ
block_length e index =
    if ltb (index + 1) (length e.present) then e.block_size else e.size - index * e.block_size

-- The bytes of the blocks of which the flag is set, from block `index` on.
unfoldable pub flagged_bytes : Entry → ℕ → List Bool → ℕ
flagged_bytes e index [] = 0
flagged_bytes e index (p ∷ ps) =
    (if p then block_length e index else 0) + flagged_bytes e (index + 1) ps

abbrev pub present_bytes : Entry → ℕ
present_bytes e = flagged_bytes e 0 e.present

unfoldable pub charged_bytes : Entry → ℕ
charged_bytes e = if e.writing then e.size else present_bytes e + e.inflight

unfoldable pub all_of : List Bool → Bool
all_of [] = true
all_of (b ∷ bs) = b && all_of bs

abbrev pub is_complete : Entry → Bool
is_complete e = (e.size == 0) || all_of e.present

-- `self.present[index]`
abbrev pub present_at : List Bool → ℕ → Bool
present_at [] index = false
present_at (p ∷ ps) zero = p
present_at (p ∷ ps) (suc index) = present_at ps index

-- `all(self.present[first : last + 1])`, the count being `last + 1 - first`
unfoldable pub present_from : List Bool → ℕ → ℕ → Bool
present_from present first zero = true
present_from present first (suc count) =
    (if ltb first (length present) then present_at present first else true)
    && present_from present (first + 1) count

unfoldable pub has_range : Entry → ℕ → ℕ → Bool
has_range e begin end =
    if e.size == 0
    then true
    else if leb e.size end || ltb end begin
    then false
    else present_from e.present (begin / e.block_size)
        (end / e.block_size + 1 - begin / e.block_size)

-- The loop over the blocks, `count` of them still to come before the one past the last.
unfoldable pub collect_runs : Entry → ℕ → ℕ → Option ℕ → List (ℕ × ℕ)
collect_runs e index zero none = []
collect_runs e index zero (some start) =
    (start * e.block_size, (index - 1) * e.block_size + block_length e (index - 1) - 1) ∷ []
collect_runs e index (suc count) none =
    let onward = collect_runs e (index + 1) count none in
    let opened = collect_runs e (index + 1) count (some index) in
    if present_at e.present index then onward else opened
collect_runs e index (suc count) (some start) =
    let closed = collect_runs e (index + 1) count none in
    let onward = collect_runs e (index + 1) count (some start) in
    if present_at e.present index
    then (start * e.block_size, (index - 1) * e.block_size + block_length e (index - 1) - 1)
      ∷ closed
    else onward

unfoldable pub missing_runs : Entry → ℕ → ℕ → List (ℕ × ℕ)
missing_runs e begin end =
    if e.size == 0
    then []
    else let first = begin / e.block_size in
      let last = min end (e.size - 1) / e.block_size in collect_runs e first (last + 1 - first) none

unfoldable pub blocks_for : ℕ → ℕ → ℕ
blocks_for size block_size = (size + block_size - 1) / block_size

-- `self._entries.get(version_id)`
unfoldable pub entry : String → Entries → Option Entry
entry version_id [] = none
entry version_id (e ∷ es) = if e.version_id == version_id then some e else entry version_id es

unfoldable pub complete : String → LocalCache → Bool
complete version_id c = elim (entry version_id c.entries) [
  | none ↦ false
  | some e ↦ not e.writing && is_complete e
]

unfoldable pub used_bytes : Entries → ℕ
used_bytes [] = 0
used_bytes (e ∷ es) = charged_bytes e + used_bytes es

-- `_drop`, without the files
unfoldable pub drop_entry : String → Entries → Entries
drop_entry version_id [] = []
drop_entry version_id (e ∷ es) =
    let rest = drop_entry version_id es in if e.version_id == version_id then rest else e ∷ rest

unfoldable pub remove : String → LocalCache → LocalCache
remove version_id c = record c { entries = drop_entry version_id c.entries }

unfoldable pub remove_many : List String → LocalCache → LocalCache
remove_many [] c = c
remove_many (v ∷ vs) c = remove_many vs (remove v c)

-- `victims.sort(key=last_access, reverse=True)` keeps the order of entries that tie.
unfoldable pub insert_recent : Entry → List Entry → List Entry
insert_recent e [] = e ∷ []
insert_recent e (v ∷ vs) =
    let rest = insert_recent e vs in
    if leb v.last_access e.last_access then e ∷ (v ∷ vs) else v ∷ rest

abbrev pub is_kept : Option ℕ → Entry → Bool
is_kept none e = false
is_kept (some keep) e = e.identity == keep

-- The evictable entries, the one read longest ago last.
unfoldable pub lru_order : Option ℕ → Entries → List Entry
lru_order keep [] = []
lru_order keep (e ∷ es) =
    let rest = lru_order keep es in
    if evictable e && not (is_kept keep e) then insert_recent e rest else rest

-- `pop()` takes from the end.
unfoldable pub popped : List Entry → List Entry
popped [] = []
popped (e ∷ es) = popped es ++ (e ∷ [])

unfoldable pub fits : Config → ℕ → Bool
fits cfg size = not ((ltb 0 cfg.max_file_size_bytes) && ltb cfg.max_file_size_bytes size)

module _ (cfg : Config) (disk_free : Entries → Option ℕ) where
  abbrev pub over_bytes : ℕ → ℕ → Bool
  over_bytes used size = ltb 0 cfg.max_size_bytes && ltb cfg.max_size_bytes (used + size)

  abbrev pub over_files : Bool → Entries → Bool
  over_files new_entry es = new_entry && (ltb 0 cfg.max_files && ltb cfg.max_files (length es + 1))

  -- `free - size < min_free`, the difference perhaps negative
  abbrev pub short_of : Option ℕ → ℕ → Bool
  short_of none size = false
  short_of (some free) size = ltb free (cfg.min_free_bytes + size)

  abbrev pub over_disk : Entries → ℕ → Bool
  over_disk es size = ltb 0 cfg.min_free_bytes && short_of (disk_free es) size

  -- The loop of `_make_room`: whether the bytes fit in the end, and the entries that are left.
  unfoldable pub evict_until : ℕ → Bool → ℕ → List Entry → Entries → Bool × Entries
  evict_until size new_entry used [] es =
      (not (over_bytes used size || (over_files new_entry es || over_disk es size)), es)
  evict_until size new_entry used (v ∷ victims) es =
      let onward =
        evict_until size new_entry (used - charged_bytes v) victims (drop_entry v.version_id es) in
      if over_bytes used size || (over_files new_entry es || over_disk es size)
      then onward
      else (true, es)

  unfoldable pub make_room : ℕ → Bool → Option ℕ → Entries → Bool × Entries
  make_room size new_entry keep es =
      evict_until size new_entry (used_bytes es) (popped (lru_order keep es)) es

  abbrev pub new_entry_of : LocalCache → String → String → ℕ → ℕ → Bool → Entry
  new_entry_of c fs version_id size now writing = record {
    version_id = version_id;
    identity = c.next_identity;
    fs = fs;
    size = size;
    block_size = cfg.block_bytes;
    present = replicate (blocks_for size cfg.block_bytes) false;
    last_access = now;
    pins = 0;
    writing = writing;
    inflight = 0;
    pinned_at = 0;
  }

  -- What `open_staging` and `reserve` share once the size is admitted; the identity of the new entry
  -- when there is one.
  unfoldable pub admit :
      ℕ → Bool → Bool → String → String → ℕ → ℕ → LocalCache → Option ℕ × LocalCache
  admit charge writing created fs version_id size now c =
      let room = make_room charge true none c.entries in
      if room.0 && created
      then (
        some c.next_identity,
        record {
          entries = room.1 ++ (new_entry_of c fs version_id size now writing ∷ []);
          next_identity = c.next_identity + 1;
        },
      )
      else (none, record c { entries = room.1 })

  unfoldable pub open_staging : Bool → String → String → ℕ → ℕ → LocalCache → Option ℕ × LocalCache
  open_staging created fs version_id size now c =
      if cfg.enabled
      then (let c' = remove version_id c in
          if fits cfg size then admit size true created fs version_id size now c' else (none, c'))
      else (none, c)

  unfoldable pub reserve : Bool → String → String → ℕ → ℕ → LocalCache → Option ℕ × LocalCache
  reserve created fs version_id size now c =
      if cfg.enabled
      then admit 0 false created fs version_id size now (remove version_id c)
      else (none, c)
