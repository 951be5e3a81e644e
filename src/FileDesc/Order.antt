-- ===== src/FileDesc/Order.antt =====
-- tgdcfs/core/model/file.py, `TGFSFileDesc`: the latest version, as versions are added and deleted.
use tgdcfs.Base.{
  ◌⊎◌, ap, ◌≤◌, ◌≡◌, ◌≢◌, refl, ◌∙◌, sym, subst, Bool, true, false, Option, none, some, [], ◌∷◌,
  ltb, leb, if◌then◌else◌, String, ◌==◌, string_eq, arith, Bool-cases, inl, inr, if_both, ==_refl,
}
use tgdcfs.Base.Result.{ok, err}
use tgdcfs.Base.Dict
use tgdcfs.Base.Dict.{Dict}
use tgdcfs.FileDesc.{FileVersion}
use tgdcfs.FileDesc.Versions.{
  FileDesc, DescError, is_newest, add_version, newest, id_of, delete_version, not_found,
}

abbrev pub AllValues : (FileVersion → Type 0) → Dict String FileVersion → Type 0
AllValues P [] = Unit
AllValues P ((k, v) ∷ d) = P v × AllValues P d

-- The keys are the ids of the versions.
abbrev pub IsKeyed : Dict String FileVersion → Type 0
IsKeyed [] = Unit
IsKeyed ((k, v) ∷ d) = (v.id ≡ k) × IsKeyed d

abbrev pub IsNotAfter : FileVersion → FileVersion → Type 0
IsNotAfter v w = w.updated_at ≤ v.updated_at

-- The latest version is one of the versions, and none is newer; there is none only without versions.
abbrev pub IsLatest : Option String → Dict String FileVersion → Type 0
IsLatest none versions = versions ≡ []
IsLatest (some id) versions =
    (v : FileVersion) × (Dict.lookup id versions ≡ some v) × AllValues (IsNotAfter v) versions

pub record IsDated (d : FileDesc) : Type 0 where
  pub keyed : IsKeyed d.versions
  pub nodup : Dict.NodupKeys d.versions
  pub latest : IsLatest d.latest_version_id d.versions

module _ (P : FileVersion → Type 0) where
  pub AllValues-insert :
      (k : String) (v : FileVersion) (d : Dict String FileVersion)
      → P v
      → AllValues P d
      → AllValues P (Dict.insert k v d)
  unfolding Dict.insert
  AllValues-insert k v [] p h = (p, tt)
  AllValues-insert k v ((j, w) ∷ d) p (q, h) =
      if_both (AllValues P) (j == k) _ _ (λ t. (p, h)) (λ t. (q, AllValues-insert k v d p h))

  AllValues-erase :
      (k : String) (d : Dict String FileVersion) → AllValues P d → AllValues P (Dict.erase k d)
  unfolding Dict.erase
  AllValues-erase k [] h = tt
  AllValues-erase k ((j, w) ∷ d) (q, h) =
      if_both (AllValues P) (j == k) _ _ (λ t. AllValues-erase k d h)
        (λ t. (q, AllValues-erase k d h))

AllValues-map :
    (P Q : FileVersion → Type 0) (d : Dict String FileVersion)
    → ((v : FileVersion) → P v → Q v)
    → AllValues P d
    → AllValues Q d
AllValues-map P Q [] f h = tt
AllValues-map P Q ((k, v) ∷ d) f (p, h) = (f v p, AllValues-map P Q d f h)

pub IsKeyed-insert :
    (k : String) (v : FileVersion) (d : Dict String FileVersion)
    → v.id ≡ k
    → IsKeyed d
    → IsKeyed (Dict.insert k v d)
unfolding Dict.insert
IsKeyed-insert k v [] same h = (same, tt)
IsKeyed-insert k v ((j, w) ∷ d) same (e, h) =
    if_both IsKeyed (j == k) _ _ (λ t. (same ∙ sym ((string_eq.eqb_iff j k).0 t), h))
      (λ t. (e, IsKeyed-insert k v d same h))

IsKeyed-erase : (k : String) (d : Dict String FileVersion) → IsKeyed d → IsKeyed (Dict.erase k d)
unfolding Dict.erase
IsKeyed-erase k [] h = tt
IsKeyed-erase k ((j, w) ∷ d) (e, h) =
    if_both IsKeyed (j == k) _ _ (λ t. IsKeyed-erase k d h) (λ t. (e, IsKeyed-erase k d h))

abbrev Found : Option FileVersion → Dict String FileVersion → Type 0
Found none d = d ≡ []
Found (some v) d = (Dict.lookup v.id d ≡ some v) × AllValues (IsNotAfter v) d

pub contradictory : (b : Bool) → b ≡ false → b ≢ true
contradictory b p = λ q. ground arith

lookup-has :
    (j : String) (d : Dict String FileVersion) (v : FileVersion)
    → Dict.lookup j d ≡ some v
    → Dict.has_key j d ≡ true
lookup-has j d v h = Dict.has_key-lookup j d ∙ rw h refl

pub other_key :
    (k j : String) (d : Dict String FileVersion) (v : FileVersion)
    → Dict.has_key k d ≡ false
    → Dict.lookup j d ≡ some v
    → (k == j) ≡ false
other_key k j d v fresh there = elim (Bool-cases (k == j)) [
  | inr other ↦ other
  | inl same ↦ absurd (
      contradictory (Dict.has_key k d) fresh
        (rw ((string_eq.eqb_iff k j).0 same) (lookup-has j d v there)))
]

pub first_here :
    (k : String) (v : FileVersion) (d : Dict String FileVersion)
    → v.id ≡ k
    → Dict.lookup v.id ((k, v) ∷ d) ≡ some v
unfolding Dict.lookup
first_here k v d e = rw (e, ==_refl k) refl

Found-cons :
    (k : String) (v : FileVersion) (d : Dict String FileVersion)
    → v.id ≡ k
    → Dict.has_key k d ≡ false
    → (m : Option FileVersion) → Found m d
    → Found
        (elim m [
          | none ↦ some v
          | some w ↦ if leb v.updated_at w.updated_at then some w else some v
        ])
        ((k, v) ∷ d)
Found-cons k v d e fresh none h =
    (first_here k v d e, (omega arith, subst (AllValues (IsNotAfter v)) (sym h) tt))
Found-cons k v d e fresh (some w) (there, all) =
    if_both (λ (m : Option FileVersion). Found m ((k, v) ∷ d)) (leb v.updated_at w.updated_at) _ _
      (λ older.
        (unfold Dict.lookup in rw (other_key k w.id d w fresh there) there, (ground arith, all)))
      (λ newer. (
        first_here k v d e,
        (omega arith, AllValues-map (IsNotAfter w) (IsNotAfter v) d (λ x below. ground arith) all),
      ))

newest-Found : (d : Dict String FileVersion) → IsKeyed d → Dict.NodupKeys d → Found (newest d) d
unfolding newest Dict.lookup
newest-Found [] e u = refl
newest-Found ((k, v) ∷ d) (e, es) (fresh, u) =
    Found-cons k v d e fresh (newest d) (newest-Found d es u)

AllValues-lookup :
    (P : FileVersion → Type 0) (k : String) (d : Dict String FileVersion) (v : FileVersion)
    → AllValues P d
    → Dict.lookup k d ≡ some v
    → P v
unfolding Dict.lookup
AllValues-lookup P k [] v h e = cc
AllValues-lookup P k ((j, w) ∷ d) v (p, h) e = elim (Bool-cases (j == k)) [
  | inl same ↦ let is : w ≡ v = ground (arith, rw same at e) in subst P is p
  | inr other ↦ AllValues-lookup P k d v h (rw other at e)
]

-- Where a new version of a new id stands against the latest one.
placed :
    (v : FileVersion) (versions : Dict String FileVersion) (id : Option String)
    → IsLatest id versions
    → Dict.has_key v.id versions ≡ false
    → (newer : Bool) × (is_newest v id (Dict.insert v.id v versions) ≡ ok newer)
      × IsLatest (if newer then some v.id else id) (Dict.insert v.id v versions)
      × (AllValues (IsNotAfter v) versions → newer ≡ true)
unfolding is_newest
placed v versions none h fresh = (
  true,
  refl,
  (
    v,
    Dict.lookup-insert v.id v.id v versions ∙ rw (==_refl v.id) refl,
    AllValues-insert (IsNotAfter v) v.id v versions (omega arith)
        (subst (AllValues (IsNotAfter v)) (sym h) tt),
  ),
  λ _. refl,
)
placed v versions (some id) (l, there, all) fresh =
    let stored : Dict.lookup id (Dict.insert v.id v versions) ≡ some l =
      Dict.lookup-insert v.id id v versions ∙ rw (other_key v.id id versions l fresh there) there in
    (
      leb l.updated_at v.updated_at,
      rw (stored, is_newest) refl,
      if_both (λ (x : Option String). IsLatest x (Dict.insert v.id v versions))
          (leb l.updated_at v.updated_at) _ _
          (λ newer. (
            v,
            Dict.lookup-insert v.id v.id v versions ∙ rw (==_refl v.id) refl,
            AllValues-insert (IsNotAfter v) v.id v versions (omega arith) (
                AllValues-map (IsNotAfter l) (IsNotAfter v) versions (λ x below. ground arith) all),
          ))
          (λ older.
            (l, stored, AllValues-insert (IsNotAfter l) v.id v versions (ground arith) all)),
      λ newest. ground (arith, AllValues-lookup (IsNotAfter v) id versions l newest there),
    )

-- Adding a version of a new id succeeds: it is stored, and every other version stays as it was. Afterwards
-- again the latest version is one that no version is newer than, and it is the added one where no other is
-- newer than that, so of versions with one time it is the one added last. Before, too, the latest version was
-- one that no version is newer than, and each version stands under its own id.
pub add_version-IsDated :
    (v : FileVersion) (d : FileDesc)
    → IsDated d
    → Dict.has_key v.id d.versions ≡ false
    → (d' : FileDesc) × (add_version v d ≡ ok d')
      × IsDated d'
      × ((k : String)
          → Dict.lookup k d'.versions ≡ (if v.id == k then some v else Dict.lookup k d.versions))
      × (AllValues (IsNotAfter v) d.versions → d'.latest_version_id ≡ some v.id)
unfolding add_version
add_version-IsDated v d h fresh =
    let (newer, e, served, last) = placed v d.versions d.latest_version_id h.latest fresh in
    (
      record d {
        versions = Dict.insert v.id v d.versions;
        latest_version_id = if newer then some v.id else d.latest_version_id;
        created_at = if ltb v.updated_at d.created_at then v.updated_at else d.created_at;
      },
      rw e refl,
      record {
        keyed = IsKeyed-insert v.id v d.versions refl h.keyed;
        nodup = Dict.insert-NodupKeys v.id v d.versions h.nodup;
        latest = served;
      },
      λ k. Dict.lookup-insert v.id k v d.versions,
      λ newest. rw (last newest) refl,
    )

swapped : (a b : String) → (a == b) ≡ false → (b == a) ≡ false
swapped a b h = ground (arith, string_eq.eqb_iff a b, string_eq.eqb_iff b a)

of_Found : (m : Option FileVersion) (d : Dict String FileVersion) → Found m d → IsLatest (id_of m) d
of_Found none d h = h
of_Found (some v) d (there, all) = (v, there, all)

pub accepted :
    (b : Bool) (x d' : FileDesc) (e : DescError)
    → (if b then ok x else err e) ≡ ok d'
    → (b ≡ true) × (x ≡ d')
accepted true x d' e h = (refl, cc)
accepted false x d' e h = cc

served_still :
    (id : String) (latest : Option String) (versions : Dict String FileVersion)
    → IsKeyed versions
    → Dict.NodupKeys versions
    → IsLatest latest versions
    → IsLatest
        (if (elim latest [ none ↦ false | some l ↦ l == id ])
          then id_of (newest (Dict.erase id versions))
          else latest)
        (Dict.erase id versions)
served_still id none versions e u h = rw h (unfold Dict.erase in refl)
served_still id (some l) versions e u (v, there, all) =
    if_both (λ (x : Option String). IsLatest x (Dict.erase id versions)) (l == id) _ _
      (λ same. of_Found (newest (Dict.erase id versions)) (Dict.erase id versions) (
        newest-Found (Dict.erase id versions) (IsKeyed-erase id versions e)
          (Dict.erase-NodupKeys id versions u)))
      (λ other. (
        v,
        Dict.lookup-erase id l versions ∙ rw (swapped l id other) there,
        AllValues-erase (IsNotAfter v) id versions all,
      ))

kept_latest :
    (id : String) (latest : Option String) (left : Dict String FileVersion)
    → latest ≢ some id
    → (if (elim latest [ none ↦ false | some l ↦ l == id ]) then id_of (newest left) else latest)
      ≡ latest
kept_latest id none left other = refl
kept_latest id (some l) left other = elim (Bool-cases (l == id)) [
  | inl same ↦ absurd (other (ap (λ (k : String). some k) ((string_eq.eqb_iff l id).0 same)))
  | inr differ ↦ rw differ refl
]

-- Deleting a version that is not there fails. Deleting one that is there succeeds and takes away that version
-- and no other; afterwards the latest version is again one that no version is newer than, and the same as
-- before where it was not the deleted one. Before, too, the latest version was one that no version is newer
-- than, and each version stands under its own id.
pub delete_version-IsDated :
    (id : String) (d : FileDesc)
    → IsDated d
    → ((Dict.has_key id d.versions ≡ false) × (delete_version id d ≡ err not_found))
      ⊎ ((Dict.has_key id d.versions ≡ true)
          × (d' : FileDesc) × (delete_version id d ≡ ok d')
          × IsDated d'
          × ((k : String)
              → Dict.lookup k d'.versions ≡ (if id == k then none else Dict.lookup k d.versions))
          × (d.latest_version_id ≢ some id → d'.latest_version_id ≡ d.latest_version_id))
unfolding delete_version
delete_version-IsDated id d h = elim (Bool-cases (Dict.has_key id d.versions)) [
  | inr absent ↦ inl (absent, rw absent refl)
  | inl there ↦ inr (
    there,
    record d {
      versions = Dict.erase id d.versions;
      latest_version_id =
          if elim d.latest_version_id [ none ↦ false | some l ↦ l == id ]
          then id_of (newest (Dict.erase id d.versions))
          else d.latest_version_id;
    },
    rw there refl,
    record {
      keyed = IsKeyed-erase id d.versions h.keyed;
      nodup = Dict.erase-NodupKeys id d.versions h.nodup;
      latest = served_still id d.latest_version_id d.versions h.keyed h.nodup h.latest;
    },
    λ k. Dict.lookup-erase id k d.versions,
    λ other. kept_latest id d.latest_version_id (Dict.erase id d.versions) other,
  )
]
