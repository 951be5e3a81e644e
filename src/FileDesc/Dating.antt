-- ===== src/FileDesc/Dating.antt =====
-- tgdcfs/core/model/file.py, `TGFSFileDesc.set_last_modified`: the latest version and its time.
use tgdcfs.Base.{
  ◌⊎◌, ◌≤◌, Option-cases, ℕ, ◌<◌, ◌≡◌, ◌≢◌, refl, ◌∙◌, sym, ap, subst, Bool, true, false, Option,
  none, some, [], ◌∷◌, ltb, if◌then◌else◌, String, ◌==◌, string_eq, arith, Bool-cases, inl, inr,
  ==_refl,
}
use tgdcfs.Base.Result.{ok, err}
use tgdcfs.Base.Dict
use tgdcfs.Base.Dict.{Dict}
use tgdcfs.FileDesc.{FileVersion, ts}
use tgdcfs.FileDesc.Versions.{
  FileDesc, too_old, no_version, newest_other, is_late, set_last_modified,
}
use tgdcfs.FileDesc.Order.{
  IsDated, IsLatest, IsNotAfter, IsKeyed, AllValues, IsKeyed-insert, other_key,
}

late_cons :
    (rest : Option ℕ) (t when : ℕ)
    → is_late (elim rest [ none ↦ some t | some u ↦ if ltb u t then some t else some u ]) when
      ≡ true
    → (t < ts when) × (is_late rest when ≡ true)
late_cons none t when h = (ground arith, refl)
late_cons (some u) t when h = elim (Bool-cases (ltb u t)) [
  | inl more ↦ let h' : ltb t (ts when) ≡ true = rw more at h in (ground arith, ground arith)
  | inr less ↦ let h' : ltb u (ts when) ≡ true = rw less at h in (ground arith, ground arith)
]

here_false : (b : Bool) (r : Bool) → b ≡ true → (if b then true else r) ≢ false
here_false true r e = λ h. cc
here_false false r e = cc

later_false : (b : Bool) (r : Bool) → b ≡ false → (if b then true else r) ≡ false → r ≡ false
later_false true r e h = cc
later_false false r e h = h

module _ (id : String) (v : FileVersion) where
  others :
      (d : Dict String FileVersion)
      → Dict.has_key id d ≡ false
      → is_late (newest_other id d) v.updated_at ≡ true
      → AllValues (IsNotAfter v) d
  unfolding newest_other Dict.has_key
  others [] fresh h = tt
  others ((k, w) ∷ d) fresh h = elim (Bool-cases (k == id)) [
    | inl same ↦ absurd (here_false (k == id) (Dict.has_key id d) same fresh)
    | inr other ↦
        let (early, late) =
          late_cons (newest_other id d) (ts w.updated_at) v.updated_at
            (rw (other, newest_other) at h) in
        (
          omega (arith, early),
          others d (later_false (k == id) (Dict.has_key id d) other fresh) late,
        )
  ]

  dated :
      (d : Dict String FileVersion)
      → Dict.NodupKeys d
      → is_late (newest_other id d) v.updated_at ≡ true
      → AllValues (IsNotAfter v) (Dict.insert id v d)
  unfolding newest_other Dict.insert
  dated [] u h = (omega arith, tt)
  dated ((k, w) ∷ d) (fresh, u) h = elim (Bool-cases (k == id)) [
    | inl same ↦
        let absent : Dict.has_key id d ≡ false = rw (← (string_eq.eqb_iff k id).0 same) fresh in
        rw same (omega arith, others d absent (rw (same, newest_other) at h))
    | inr other ↦
        let (early, late) =
          late_cons (newest_other id d) (ts w.updated_at) v.updated_at
            (rw (other, newest_other) at h) in
        rw other (omega (arith, early), dated d u late)
  ]

first_some :
    (b : Bool) (w v : FileVersion) (r : Option FileVersion)
    → b ≡ true
    → (if b then some w else r) ≡ some v
    → w ≡ v
first_some true w v r e h = cc
first_some false w v r e h = cc

later_some :
    (b : Bool) (w v : FileVersion) (r : Option FileVersion)
    → b ≡ false
    → (if b then some w else r) ≡ some v
    → r ≡ some v
later_some true w v r e h = cc
later_some false w v r e h = h

keyed_id :
    (id : String) (d : Dict String FileVersion) (v : FileVersion)
    → IsKeyed d
    → Dict.lookup id d ≡ some v
    → v.id ≡ id
unfolding Dict.lookup
keyed_id id [] v e h = cc
keyed_id id ((k, w) ∷ d) v (same, e) h = elim (Bool-cases (k == id)) [
  | inl here ↦
      ap (λ (x : FileVersion). x.id) (sym (first_some (k == id) w v _ here h))
      ∙ same
      ∙ (string_eq.eqb_iff k id).0 here
  | inr other ↦ keyed_id id d v e (later_some (k == id) w v _ other h)
]

-- Another version, no older than the time.
abbrev pub Later : String → ℕ → Dict String FileVersion → Type 0
Later id when d =
    (k : String) × (w : FileVersion) × (Dict.lookup k d ≡ some w)
    × ((k == id) ≡ false)
    × (ts when ≤ ts w.updated_at)

Later-here :
    (id : String) (when : ℕ) (k : String) (w : FileVersion) (d : Dict String FileVersion)
    → (k == id) ≡ false
    → ts when ≤ ts w.updated_at
    → Later id when ((k, w) ∷ d)
unfolding Dict.lookup
Later-here id when k w d other le = (k, w, rw (==_refl k) refl, other, le)

Later-there :
    (id : String) (when : ℕ) (k : String) (w : FileVersion) (d : Dict String FileVersion)
    → Dict.has_key k d ≡ false
    → Later id when d
    → Later id when ((k, w) ∷ d)
unfolding Dict.lookup
Later-there id when k w d fresh (j, x, there, other, le) =
    (j, x, rw (other_key k j d x fresh there) there, other, le)

late_split :
    (rest : Option ℕ) (t when : ℕ)
    → is_late (elim rest [ none ↦ some t | some u ↦ if ltb u t then some t else some u ]) when
      ≡ false
    → (ts when ≤ t) ⊎ (is_late rest when ≡ false)
late_split none t when h = inl (ground (arith, h))
late_split (some u) t when h = elim (Bool-cases (ltb u t)) [
  | inl more ↦ let h' : ltb t (ts when) ≡ false = rw more at h in inl (ground arith)
  | inr less ↦ let h' : ltb u (ts when) ≡ false = rw less at h in inr h'
]

-- The time is refused for a reason.
refused :
    (id : String) (when : ℕ) (d : Dict String FileVersion)
    → Dict.NodupKeys d
    → is_late (newest_other id d) when ≡ false
    → Later id when d
unfolding newest_other
refused id when [] u h = cc
refused id when ((k, w) ∷ d) (fresh, u) h = elim (Bool-cases (k == id)) [
  | inl same ↦ Later-there id when k w d fresh (refused id when d u (rw (same, newest_other) at h))
  | inr other ↦
      elim (late_split (newest_other id d) (ts w.updated_at) when (rw (other, newest_other) at h)) [
        | inl le ↦ Later-here id when k w d other le
        | inr onward ↦ Later-there id when k w d fresh (refused id when d u onward)
      ]
]

redated :
    (when : ℕ) (d d' : FileDesc) (id : String) (v : FileVersion)
    → d.latest_version_id ≡ some id
    → Dict.lookup id d.versions ≡ some v
    → is_late (newest_other id d.versions) when ≡ true
    → record d {
      versions = Dict.insert id (record v { updated_at = when }) d.versions;
      created_at = if ltb (ts when) (ts d.created_at) then when else d.created_at;
    }
      ≡ d'
    → set_last_modified when d ≡ ok d'
unfolding set_last_modified
redated when d d' id v l there late same = rw (l, there, late, set_last_modified) (ap ok same)

pub set_last_modified-IsDated :
    (when : ℕ) (d : FileDesc)
    → IsDated d
    → ((d.latest_version_id ≡ none) × (set_last_modified when d ≡ err no_version))
      ⊎ ((id : String) × (v : FileVersion) × (d.latest_version_id ≡ some id)
          × (Dict.lookup id d.versions ≡ some v)
          × (((set_last_modified when d ≡ err too_old) × Later id when d.versions)
              ⊎ ((d' : FileDesc) × (set_last_modified when d ≡ ok d')
                  × IsDated d'
                  × (d'.latest_version_id ≡ some id)
                  × ((k : String)
                      → Dict.lookup k d'.versions ≡ (
                          if id == k
                          then some (record v { updated_at = when })
                          else Dict.lookup k d.versions)))))
unfolding set_last_modified
set_last_modified-IsDated when d h = elim (Option-cases d.latest_version_id) [
  | inl l ↦ inl (l, rw (l, set_last_modified) refl)
  | inr (id, l) ↦
      let (v, there, all) = subst (λ (x : Option String). IsLatest x d.versions) l h.latest in
      let dated_v : FileVersion = record v { updated_at = when } in
      inr (
        id,
        v,
        l,
        there,
        elim (Bool-cases (is_late (newest_other id d.versions) when)) [
          | inr early ↦ inl (
            rw (l, there, early, set_last_modified) refl,
            refused id when d.versions h.nodup early,
          )
          | inl late ↦ inr (
            record d {
              versions = Dict.insert id dated_v d.versions;
              created_at = if ltb (ts when) (ts d.created_at) then when else d.created_at;
            },
            redated when d _ id v l there late refl,
            record {
              keyed =
                  IsKeyed-insert id dated_v d.versions (keyed_id id d.versions v h.keyed there)
                    h.keyed;
              nodup = Dict.insert-NodupKeys id dated_v d.versions h.nodup;
              latest =
                  subst (λ (x : Option String). IsLatest x (Dict.insert id dated_v d.versions))
                    (sym l)
                    (
                      dated_v,
                      Dict.lookup-insert id id dated_v d.versions ∙ rw (==_refl id) refl,
                      dated id dated_v d.versions h.nodup late,
                    );
            },
            l,
            λ k. Dict.lookup-insert id k dated_v d.versions,
          )
        ],
      )
]
