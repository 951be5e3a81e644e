-- ===== src/LocalCache/Sweep.antt =====
-- tgdcfs/core/local_cache.py: pins, releases and the periodic sweep. Orphaned files are not modelled.
use tgdcfs.Base.{
  ◌*◌, ℕ, ◌+◌, ◌-◌, Bool, false, not, ◌&&◌, Option, none, some, List, [], ◌∷◌, ltb, leb,
  if◌then◌else◌, String, ◌==◌, nat_eq, string_eq,
}
use tgdcfs.LocalCache.{
  Entry, Entries, LocalCache, Config, entry, remove, remove_many, drop_entry, evictable, lru_order,
  popped, used_bytes, charged_bytes,
}

unfoldable pub on_entry : String → (Entry → Entry) → Entries → Entries
on_entry version_id f [] = []
on_entry version_id f (e ∷ es) =
    let rest = on_entry version_id f es in
    if e.version_id == version_id then f e ∷ rest else e ∷ rest

unfoldable pub pin : String → ℕ → LocalCache → LocalCache
pin version_id now c = record c {
  entries =
      on_entry version_id
        (λ (e : Entry). record e {
          pins = e.pins + 1;
          pinned_at = if e.pins == 0 then now else e.pinned_at;
        })
        c.entries;
}

-- The subtraction stops at 0, as `max(0, pins - 1)` does.
unfoldable pub unpin : String → LocalCache → LocalCache
unpin version_id c = record c {
  entries = on_entry version_id (λ (e : Entry). record e { pins = e.pins - 1 }) c.entries;
}

module _ (cfg : Config) where
  unfoldable pub release : String → LocalCache → LocalCache
  release version_id c = elim (entry version_id c.entries) [
    | none ↦ c
    | some e ↦
        let unpinned = record c {
          entries =
              on_entry version_id (λ (e : Entry). record e { pins = 0; pinned_at = 0 }) c.entries;
        } in
        if cfg.keep_for_reads then unpinned else remove version_id unpinned
  ]

  abbrev pub victims_of : Entries → List String
  victims_of [] = []
  victims_of (e ∷ es) =
      let rest = victims_of es in if evictable e then e.version_id ∷ rest else rest

  unfoldable pub evict_unpinned : LocalCache → LocalCache
  evict_unpinned c = remove_many (victims_of c.entries) c

  -- `STALE_PIN_SECONDS`
  abbrev pub stale_pin_seconds : ℕ
  stale_pin_seconds = 24 * 3600

  abbrev pub is_stale : (String → Bool) → ℕ → Entry → Bool
  is_stale queue_empty now e =
      ltb 0 e.pins
      && (not e.writing && (leb (e.pinned_at + stale_pin_seconds) now && queue_empty e.fs))

  -- `for entry in list(self._entries.values())`: over the entries as they were.
  unfoldable pub release_stale : (String → Bool) → ℕ → List Entry → LocalCache → LocalCache
  release_stale queue_empty now [] c = c
  release_stale queue_empty now (e ∷ es) c =
      release_stale queue_empty now es
        (if is_stale queue_empty now e then release e.version_id c else c)

  unfoldable pub expire : ℕ → List Entry → Entries → Entries
  expire now [] es = es
  expire now (e ∷ rest) es = expire now rest (
      if evictable e && leb (e.last_access + cfg.max_age_seconds) now
      then drop_entry e.version_id es
      else es)

  module _ (disk_free : Entries → Option ℕ) where
    abbrev pub disk_is_short : Entries → Bool
    disk_is_short es =
        ltb 0 cfg.min_free_bytes
        && (elim (disk_free es) [ none ↦ false | some free ↦ ltb free cfg.min_free_bytes ])

    unfoldable pub evict_for_disk : List Entry → Entries → Entries
    evict_for_disk [] es = es
    evict_for_disk (v ∷ victims) es =
        let onward = evict_for_disk victims (drop_entry v.version_id es) in
        if disk_is_short es then onward else es

    abbrev pub above_target : ℕ → Bool
    above_target used = elim cfg.target_bytes [ none ↦ false | some target ↦ ltb target used ]

    -- The two loops over one snapshot of the victims.
    unfoldable pub evict_down : ℕ → List Entry → Entries → Entries
    evict_down used [] es = es
    evict_down used (v ∷ victims) es =
        let onward = evict_down (used - charged_bytes v) victims (drop_entry v.version_id es) in
        if above_target used then onward else evict_for_disk (v ∷ victims) es

    unfoldable pub sweep : (String → Bool) → ℕ → LocalCache → LocalCache
    sweep queue_empty now c =
        let released = release_stale queue_empty now c.entries c in
        let kept =
          if ltb 0 cfg.max_age_seconds
          then expire now released.entries released.entries
          else released.entries in
        record released {
          entries = evict_down (used_bytes kept) (popped (lru_order none kept)) kept;
        }
