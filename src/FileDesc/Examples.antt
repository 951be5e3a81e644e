-- ===== src/FileDesc/Examples.antt =====
-- tgdcfs/core/model/file.py: a file of two versions.
use tgdcfs.Base.{
  ◌⊎◌, ◌≢◌, ◌==◌, if◌then◌else◌, ℕ, ◌≡◌, refl, true, false, none, some, [], ◌∷◌, arith, String,
  string_eq, map,
}
use tgdcfs.Base.Result.{ok, err}
use tgdcfs.Base.Dict
use tgdcfs.FileDesc.{FileVersion, relocate, promote}
use tgdcfs.FileDesc.Versions.{
  FileDesc, add_version, delete_version, set_last_modified, get_versions, too_old, no_version,
  not_found, is_newest, newest_other, newest, sort_versions, insert_version,
}
use tgdcfs.FileDesc.Order.{
  AllValues, IsNotAfter, IsDated, add_version-IsDated, delete_version-IsDated,
}
use tgdcfs.FileDesc.Dating.{Later, set_last_modified-IsDated}

abbrev version : String → ℕ → FileVersion
version id when = record {
  id = id;
  updated_at = when;
  size_field = none;
  message_ids = 11 ∷ 12 ∷ [];
  part_sizes = 4 ∷ 4 ∷ [];
  mirrors = ("dc", 21 ∷ 22 ∷ []) ∷ [];
  replicas = [];
  store = some "tg";
  pending = false;
}

abbrev file : FileDesc
file = record {
  name = "notes";
  latest_version_id = some "b";
  created_at = 1000;
  versions = ("a", version "a" 1000) ∷ ("b", version "b" 5000) ∷ [];
}

-- A tie goes to the version added last, and it stands first in the sorted list.
tie_goes_to_last :
    add_version (version "c" 5000) file
    ≡ ok (record file {
      latest_version_id = some "c";
      versions = ("a", version "a" 1000) ∷ ("b", version "b" 5000) ∷ ("c", version "c" 5000) ∷ [];
    })
unfolding add_version is_newest Dict.insert Dict.lookup
tie_goes_to_last = refl

ties_sorted :
    map
      (λ (v : FileVersion). v.id)
      (get_versions true false (record file {
        versions = ("a", version "a" 1000) ∷ ("b", version "b" 5000) ∷ ("c", version "c" 5000) ∷ [];
      }))
    ≡ "c" ∷ "b" ∷ "a" ∷ []
unfolding get_versions sort_versions insert_version Dict.values
ties_sorted = refl

-- The mirror was promoted: its ids are the version's, and the old ids are a mirror's.
swaps_stores : relocate "dc" (version "a" 1000) ≡ record (version "a" 1000) {
  message_ids = 21 ∷ 22 ∷ [];
  mirrors = ("tg", 11 ∷ 12 ∷ []) ∷ [];
  store = some "dc";
}
unfolding relocate promote Dict.has_key Dict.insert Dict.lookup Dict.erase
swaps_stores = refl

-- Not before another version.
refuses_old : set_last_modified 1900 file ≡ err too_old
unfolding set_last_modified newest_other Dict.lookup
refuses_old = refl

file-IsDated : IsDated file
unfolding Dict.lookup Dict.has_key
file-IsDated = record {
  keyed = (refl, (refl, tt));
  nodup = (refl, (refl, tt));
  latest = (version "b" 5000, refl, (omega arith, (omega arith, tt)));
}

add_version-IsDated_example :
    (d' : FileDesc) × (add_version (version "c" 5000) file ≡ ok d')
    × IsDated d'
    × ((k : String)
        → Dict.lookup k d'.versions
          ≡ (if "c" == k then some (version "c" 5000) else Dict.lookup k file.versions))
    × (AllValues (IsNotAfter (version "c" 5000)) file.versions → d'.latest_version_id ≡ some "c")
add_version-IsDated_example =
    add_version-IsDated (version "c" 5000) file file-IsDated (unfold Dict.has_key in refl)

abbrev without_b : FileDesc
without_b = record file { latest_version_id = some "a"; versions = ("a", version "a" 1000) ∷ [] }

deletes_latest : delete_version "b" file ≡ ok without_b
unfolding delete_version newest Dict.has_key Dict.erase
deletes_latest = refl

delete_version-IsDated_example :
    ((Dict.has_key "b" file.versions ≡ false) × (delete_version "b" file ≡ err not_found))
    ⊎ ((Dict.has_key "b" file.versions ≡ true)
        × (d' : FileDesc) × (delete_version "b" file ≡ ok d')
        × IsDated d'
        × ((k : String)
            → Dict.lookup k d'.versions ≡ (if "b" == k then none else Dict.lookup k file.versions))
        × (file.latest_version_id ≢ some "b" → d'.latest_version_id ≡ file.latest_version_id))
delete_version-IsDated_example = delete_version-IsDated "b" file file-IsDated

abbrev later : FileDesc
later = record file { versions = ("a", version "a" 1000) ∷ ("b", version "b" 7000) ∷ [] }

dates : set_last_modified 7000 file ≡ ok later
unfolding set_last_modified newest_other Dict.lookup Dict.insert
dates = refl

set_last_modified-IsDated_example :
    ((file.latest_version_id ≡ none) × (set_last_modified 7000 file ≡ err no_version))
    ⊎ ((id : String) × (v : FileVersion) × (file.latest_version_id ≡ some id)
        × (Dict.lookup id file.versions ≡ some v)
        × (((set_last_modified 7000 file ≡ err too_old) × Later id 7000 file.versions)
            ⊎ ((d' : FileDesc) × (set_last_modified 7000 file ≡ ok d')
                × IsDated d'
                × (d'.latest_version_id ≡ some id)
                × ((k : String)
                    → Dict.lookup k d'.versions ≡ (
                        if id == k
                        then some (record v { updated_at = 7000 })
                        else Dict.lookup k file.versions)))))
set_last_modified-IsDated_example = set_last_modified-IsDated 7000 file file-IsDated
