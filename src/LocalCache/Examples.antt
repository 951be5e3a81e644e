-- ===== src/LocalCache/Examples.antt =====
-- tgdcfs/core/local_cache.py: a cache of ten bytes.
use tgdcfs.Base.{
  some, ℕ, ◌≤◌, ◌≡◌, ◌≢◌, refl, true, false, Option, none, [], ◌∷◌, arith, String, string_eq, ap,
  Bool,
}
use tgdcfs.LocalCache.{
  Entry, Entries, entry, Config, LocalCache, make_room, open_staging, reserve, used_bytes,
  charged_bytes, missing_runs, blocks_for, evict_until, collect_runs, flagged_bytes, lru_order,
  block_length, insert_recent, popped, drop_entry,
}
use tgdcfs.LocalCache.Writes.{begin_fill, StagingWriter, close}
use tgdcfs.LocalCache.Keeps.{sweep-keeps}
use tgdcfs.LocalCache.Lemmas.{Distinct, IsIn}
use tgdcfs.LocalCache.Sweep.{sweep}
use tgdcfs.LocalCache.Room.{Fits, Left, make_room-Fits, make_room-Left}
use tgdcfs.LocalCache.Runs.{covers, IsMapped, missing_runs-covers}
use tgdcfs.LocalCache.Budget.{IsWithin}
use tgdcfs.LocalCache.Charging.{IsCharged, IsClaimed, opened-IsCharged, begin_fill-IsClaimed}

abbrev ten_bytes : Config
ten_bytes = record {
  enabled = true;
  max_size_bytes = 10;
  max_files = 3;
  max_file_size_bytes = 0;
  min_free_bytes = 0;
  block_bytes = 2;
  keep_for_reads = true;
  max_age_seconds = 0;
  target_bytes = none;
}

abbrev unknown : Entries → Option ℕ
unknown es = none

-- Four bytes of five, read at the time `when`.
abbrev filled : String → ℕ → ℕ → ℕ → Entry
filled version_id identity pins when = record {
  version_id = version_id;
  identity = identity;
  fs = "fs";
  size = 5;
  block_size = 2;
  present = true ∷ true ∷ false ∷ [];
  last_access = when;
  pins = pins;
  writing = false;
  inflight = 0;
  pinned_at = 0;
}

abbrev two_entries : Entries
two_entries = filled "a" 0 1 5 ∷ filled "b" 1 0 9 ∷ []

abbrev cache : LocalCache
cache = record { entries = two_entries; next_identity = 2 }

-- The pinned entry was read longest ago, yet the other one goes.
evicts_unpinned :
    make_room ten_bytes unknown 6 true none two_entries ≡ (true, filled "a" 0 1 5 ∷ [])
unfolding make_room evict_until lru_order insert_recent popped drop_entry used_bytes charged_bytes
    flagged_bytes block_length
evicts_unpinned = refl

-- Seven bytes do not fit beside the pinned four, and the other entry is gone all the same.
refuses : make_room ten_bytes unknown 7 true none two_entries ≡ (false, filled "a" 0 1 5 ∷ [])
unfolding make_room evict_until lru_order insert_recent popped drop_entry used_bytes charged_bytes
    flagged_bytes block_length
refuses = refl

-- The last block is short, and it is the one that is missing.
misses_last : missing_runs (filled "a" 0 0 5) 3 9 ≡ (4, 4) ∷ []
unfolding missing_runs collect_runs block_length
misses_last = refl

fits_six : (make_room ten_bytes unknown 6 true none two_entries).0 ≡ true
fits_six = ap (λ (r : Bool × Entries). r.0) evicts_unpinned

absurd_false : false ≢ true
absurd_false h = cc

abbrev name_a : String
name_a = "a"

abbrev name_b : String
name_b = "b"

different : name_a ≢ name_b
different e = absurd_false ((string_eq.eqb_iff name_a name_b).1 e)

used_eight : used_bytes two_entries ≤ 10
unfolding used_bytes charged_bytes flagged_bytes block_length
used_eight = omega arith

two_entries-Distinct : Distinct two_entries
two_entries-Distinct = (((λ e. different e), tt), (tt, tt))

cache-IsWithin : IsWithin ten_bytes cache
cache-IsWithin = record { distinct = two_entries-Distinct; budget = λ limit. used_eight }

make_room-Fits_example :
    Fits ten_bytes unknown 6 true (make_room ten_bytes unknown 6 true none two_entries).1
make_room-Fits_example =
    make_room-Fits ten_bytes unknown 6 true none two_entries two_entries-Distinct fits_six

make_room-Left_example :
    Left ten_bytes unknown 6 true none two_entries
      (make_room ten_bytes unknown 6 true none two_entries).1
make_room-Left_example =
    make_room-Left ten_bytes unknown 6 true none two_entries two_entries-Distinct

opened-IsCharged_example :
    (IsWithin ten_bytes (open_staging ten_bytes unknown true "fs" "c" 6 10 cache).1
      × IsCharged "c" 6 (open_staging ten_bytes unknown true "fs" "c" 6 10 cache))
    × (IsWithin ten_bytes (reserve ten_bytes unknown true "fs" "c" 6 10 cache).1
        × IsCharged "c" 0 (reserve ten_bytes unknown true "fs" "c" 6 10 cache))
opened-IsCharged_example =
    opened-IsCharged ten_bytes unknown true "fs" "c" 6 10 cache cache-IsWithin

begin_fill-IsClaimed_example :
    IsWithin ten_bytes (begin_fill ten_bytes unknown "a" 4 1 cache).1
    × IsClaimed "a" cache (begin_fill ten_bytes unknown "a" 4 1 cache)
begin_fill-IsClaimed_example = begin_fill-IsClaimed ten_bytes unknown "a" 4 1 cache cache-IsWithin

-- The writer of a version of no bytes is never finished: no write comes, and `close` does nothing.
abbrev empty_writer : StagingWriter
empty_writer = record {
  version_id = "c";
  identity = 2;
  size = 0;
  block_size = 2;
  blocks = 0;
  offset = 0;
  file_open = false;
  failed = false;
}

still_writing : close empty_writer cache ≡ (empty_writer, cache)
unfolding close
still_writing = refl

filled-IsMapped : IsMapped (filled "a" 0 1 5)
unfolding blocks_for
filled-IsMapped = record { positive = omega arith; flags = refl }

-- Unread for longer than two seconds, with a target of no bytes: all that may go goes.
abbrev swept : Config
swept = record ten_bytes { max_age_seconds = 2; target_bytes = some 0 }

abbrev busy : String → Bool
busy fs = false

sweep-keeps_example : IsIn (sweep swept unknown busy 100000 cache).entries (filled "a" 0 1 5)
unfolding entry
sweep-keeps_example =
    sweep-keeps swept unknown busy 100000 cache (filled "a" 0 1 5) two_entries-Distinct refl refl
      refl

missing_runs-covers_example : covers (missing_runs (filled "a" 0 1 5) 1 9) 4 ≡ true
missing_runs-covers_example =
    missing_runs-covers (filled "a" 0 1 5) filled-IsMapped 4 (omega arith) 1 9 (omega arith)
