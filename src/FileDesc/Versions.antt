-- ===== src/FileDesc/Versions.antt =====
-- tgdcfs/core/model/file.py, `TGFSFileDesc`: the versions of one file, of which the latest is served.
use tgdcfs.Base.{
  ℕ, Bool, true, false, Option, none, some, List, [], ◌∷◌, ltb, leb, if◌then◌else◌, String, ◌==◌,
  string_eq,
}
use tgdcfs.Base.Result.{Result, ok, err, ◌>>=◌}
use tgdcfs.Base.Dict
use tgdcfs.Base.Dict.{Dict}
use tgdcfs.FileDesc.{FileVersion, ts, is_valid}

pub record FileDesc : Type 0 where
  pub name : String
  pub latest_version_id : Option String
  pub created_at : ℕ
  pub versions : Dict String FileVersion

pub data DescError : Type 0 where
  no_version too_old not_found key_error : DescError

-- `self.latest_version_id == "" or version.updated_at >= self.versions[self.latest_version_id].updated_at`,
-- once the new version is stored
unfoldable pub is_newest :
    FileVersion → Option String → Dict String FileVersion → Result DescError Bool
is_newest v none versions = ok true
is_newest v (some id) versions = elim (Dict.lookup id versions) [
  | none ↦ err key_error
  | some l ↦ ok (leb l.updated_at v.updated_at)
]

unfoldable pub add_version : FileVersion → FileDesc → Result DescError FileDesc
add_version v d =
    let versions = Dict.insert v.id v d.versions in
    is_newest v d.latest_version_id versions >>= λ newer. ok (record d {
      versions = versions;
      latest_version_id = if newer then some v.id else d.latest_version_id;
      created_at = if ltb v.updated_at d.created_at then v.updated_at else d.created_at;
    })

unfoldable pub update_version : String → FileVersion → FileDesc → FileDesc
update_version id v d = record d { versions = Dict.insert id v d.versions }

-- `max` of the timestamps of all versions but this one
unfoldable pub newest_other : String → Dict String FileVersion → Option ℕ
newest_other id [] = none
newest_other id ((k, v) ∷ d) =
    let rest = newest_other id d in
    if k == id then rest else elim rest [
      | none ↦ some (ts v.updated_at)
      | some t ↦ if ltb t (ts v.updated_at) then some (ts v.updated_at) else some t
    ]

abbrev pub is_late : Option ℕ → ℕ → Bool
is_late none when = true
is_late (some newest) when = ltb newest (ts when)

unfoldable pub set_last_modified : ℕ → FileDesc → Result DescError FileDesc
set_last_modified when d = elim d.latest_version_id [
  | none ↦ err no_version
  | some id ↦ elim (Dict.lookup id d.versions) [
    | none ↦ err key_error
    | some v ↦
        if is_late (newest_other id d.versions) when
        then ok (record d {
          versions = Dict.insert id (record v { updated_at = when }) d.versions;
          created_at = if ltb (ts when) (ts d.created_at) then when else d.created_at;
        })
        else err too_old
  ]
]

-- `max(enumerate(self.versions), key=(updated_at, index))`: of two that tie, the one added last.
unfoldable pub newest : Dict String FileVersion → Option FileVersion
newest [] = none
newest ((k, v) ∷ d) = elim (newest d) [
  | none ↦ some v
  | some w ↦ if leb v.updated_at w.updated_at then some w else some v
]

abbrev pub id_of : Option FileVersion → Option String
id_of none = none
id_of (some v) = some v.id

unfoldable pub delete_version : String → FileDesc → Result DescError FileDesc
delete_version id d =
    if Dict.has_key id d.versions
    then (let left = Dict.erase id d.versions in
        ok (record d {
          versions = left;
          latest_version_id =
              if elim d.latest_version_id [ none ↦ false | some l ↦ l == id ]
              then id_of (newest left)
              else d.latest_version_id;
        }))
    else err not_found

-- `sorted(enumerate(values), key=(updated_at_timestamp, index), reverse=True)`
unfoldable pub insert_version : FileVersion → List FileVersion → List FileVersion
insert_version v [] = v ∷ []
insert_version v (w ∷ ws) =
    let rest = insert_version v ws in
    if leb (ts v.updated_at) (ts w.updated_at) then w ∷ rest else v ∷ (w ∷ ws)

unfoldable pub sort_versions : List FileVersion → List FileVersion
sort_versions [] = []
sort_versions (v ∷ vs) = insert_version v (sort_versions vs)

unfoldable pub only_valid : List FileVersion → List FileVersion
only_valid [] = []
only_valid (v ∷ vs) = let rest = only_valid vs in if is_valid v then v ∷ rest else rest

unfoldable pub get_versions : Bool → Bool → FileDesc → List FileVersion
get_versions sort exclude_invalid d =
    let res = if sort then sort_versions (Dict.values d.versions) else Dict.values d.versions in
    if exclude_invalid then only_valid res else res

-- The latest version of `from_dict`: the first of those with the greatest timestamp.
unfoldable pub first_newest : List FileVersion → Option FileVersion
first_newest [] = none
first_newest (v ∷ vs) = elim (first_newest vs) [
  | none ↦ some v
  | some w ↦ if ltb (ts v.updated_at) (ts w.updated_at) then some w else some v
]
