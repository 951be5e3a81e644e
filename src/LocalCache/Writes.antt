-- ===== src/LocalCache/Writes.antt =====
-- tgdcfs/core/local_cache.py: what fills an entry. The staging writer appends; a fill of the read cache
-- claims its bytes, writes them, and only then marks its blocks: the two halves of `write_blocks` are
-- two operations, since other operations run while the write is on its way.
use tgdcfs.Base.{
  ℕ, ◌+◌, ◌-◌, ◌/◌, ◌%◌, Bool, true, false, not, ◌&&◌, ◌||◌, Option, none, some, List, [], ◌∷◌, ltb,
  leb, if◌then◌else◌, length, String, ◌==◌, nat_eq, string_eq,
}
use tgdcfs.LocalCache.{Entry, Entries, LocalCache, Config, entry, remove, flagged_bytes, make_room}

-- Sets the flags of the blocks from `first` on, `index` being the first of the list.
unfoldable pub mark_from : ℕ → ℕ → ℕ → List Bool → List Bool
mark_from first past index [] = []
mark_from first past index (p ∷ ps) =
    (p || (leb first index && ltb index past)) ∷ mark_from first past (index + 1) ps

-- Changes the entry that is this very object, if it is still there.
unfoldable pub update : String → ℕ → (Entry → Entry) → Entries → Entries
update version_id identity f [] = []
update version_id identity f (e ∷ es) =
    let rest = update version_id identity f es in
    if (e.version_id == version_id) && (e.identity == identity) then f e ∷ rest else e ∷ rest

abbrev pub marked : ℕ → ℕ → Entry → Entry
marked first past e = record e { present = mark_from first past 0 e.present }

unfoldable pub mark_present : String → ℕ → ℕ → ℕ → LocalCache → LocalCache
mark_present version_id identity first past c = record c {
  entries = update version_id identity (marked first past) c.entries;
}

-- The writer remembers what never changes of its entry.
pub record StagingWriter : Type 0 where
  pub version_id : String
  pub identity : ℕ
  pub size : ℕ
  pub block_size : ℕ
  pub blocks : ℕ
  pub offset : ℕ
  pub file_open : Bool
  pub failed : Bool

abbrev pub stop_writing : Entry → Entry
stop_writing e = record e { writing = false }

abbrev pub finish : StagingWriter → LocalCache → StagingWriter × LocalCache
finish w c = (
  record w { file_open = false },
  record c { entries = update w.version_id w.identity stop_writing c.entries },
)

-- Removes whatever entry the version has by now.
unfoldable pub abort : StagingWriter → LocalCache → StagingWriter × LocalCache
abort w c = (
  record w { failed = true; file_open = false },
  remove w.version_id
      (record c { entries = update w.version_id w.identity stop_writing c.entries }),
)

-- `written` is whether the disk took all the bytes.
unfoldable pub write : Bool → ℕ → StagingWriter → LocalCache → StagingWriter × LocalCache
write written count w c =
    if w.failed || (count == 0)
    then (w, c)
    else if written
    then (let offset = w.offset + count in
        let w' = record w { offset = offset; file_open = true } in
        let blocks_done = if leb w.size offset then w.blocks else offset / w.block_size in
        let c' = mark_present w.version_id w.identity 0 blocks_done c in
        if leb w.size offset then finish w' c' else (w', c'))
    else abort w c

unfoldable pub close : StagingWriter → LocalCache → StagingWriter × LocalCache
close w c =
    if w.failed
    then (w, c)
    else if leb w.size w.offset
    then (if w.file_open then finish w c else (w, c))
    else abort w c

-- The bytes of the blocks from `first` to before `past` that are not on disk.
abbrev pub added_bytes : Entry → ℕ → ℕ → ℕ
added_bytes e first past =
    flagged_bytes e 0 (mark_from first past 0 e.present) - flagged_bytes e 0 e.present

-- What a fill remembers over its write.
pub record Fill : Type 0 where
  pub version_id : String
  pub identity : ℕ
  pub first : ℕ
  pub past : ℕ
  pub added : ℕ

abbrev pub claim_bytes : ℕ → Entry → Entry
claim_bytes added e = record e { inflight = e.inflight + added }

abbrev pub unclaim_bytes : ℕ → Entry → Entry
unclaim_bytes added e = record e { inflight = e.inflight - added }

module _ (cfg : Config) (disk_free : Entries → Option ℕ) where
  -- `last_full`
  abbrev pub past_full : Entry → ℕ → ℕ
  past_full e end_offset =
      if leb e.size end_offset then length e.present else end_offset / e.block_size

  unfoldable pub claim : Entry → ℕ → ℕ → LocalCache → Option Fill × LocalCache
  claim e first past c =
      let added = added_bytes e first past in
      let room =
        if ltb 0 added
        then make_room cfg disk_free added false (some e.identity) c.entries
        else (true, c.entries) in
      if room.0
      then (
        some (record {
          version_id = e.version_id;
          identity = e.identity;
          first = first;
          past = past;
          added = added;
        }),
        record c { entries = update e.version_id e.identity (claim_bytes added) room.1 },
      )
      else (none, record c { entries = room.1 })

  -- The first half of `write_blocks`, up to the write to the disk.
  unfoldable pub begin_fill : String → ℕ → ℕ → LocalCache → Option Fill × LocalCache
  begin_fill version_id begin count c = elim (entry version_id c.entries) [
    | none ↦ (none, c)
    | some e ↦
        if e.writing || (count == 0)
        then (none, c)
        else if not (begin % e.block_size == 0) || ltb e.size (begin + count)
        then (none, c)
        else let first = begin / e.block_size in
          let past = past_full e (begin + count) in
          if ltb first past then claim e first past c else (none, c)
  ]

-- The second half, by whether the disk took the bytes.
unfoldable pub end_fill : Bool → ℕ → Fill → LocalCache → LocalCache
end_fill written now f c =
    let settled = record c {
      entries = update f.version_id f.identity (unclaim_bytes f.added) c.entries;
    } in
    if written
    then (let c' = mark_present f.version_id f.identity f.first f.past settled in
        record c' {
          entries =
              update f.version_id f.identity (λ (e : Entry). record e { last_access = now })
                c'.entries;
        })
    else remove f.version_id settled
