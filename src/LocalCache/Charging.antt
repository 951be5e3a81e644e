-- ===== src/LocalCache/Charging.antt =====
-- tgdcfs/core/local_cache.py, `open_staging`, `reserve` and the first half of `write_blocks`: what the new entry,
-- and what a claim, is charged.
use tgdcfs.Base.{
  ◌%◌, ◌/◌, ◌⊎◌, Option-cases, if_both, ℕ, ◌+◌, ◌≡◌, refl, ◌∙◌, sym, ap, subst, Bool, true, false,
  not, ◌&&◌, ◌||◌, Option, none, some, [], ◌∷◌, ◌++◌, ltb, if◌then◌else◌, String, ◌==◌, string_eq,
  nat_eq, arith, Bool-cases, inl, inr, ==_refl,
}
use tgdcfs.LocalCache.{
  Entry, Entries, Config, LocalCache, entry, remove, charged_bytes, make_room, admit, open_staging,
  reserve, new_entry_of, fits,
}
use tgdcfs.LocalCache.Lemmas.{IsIn}
use tgdcfs.LocalCache.Room.{Left, make_room-Left}
use tgdcfs.LocalCache.Writes.{Fill, begin_fill, claim, update, claim_bytes, added_bytes, past_full}
use tgdcfs.LocalCache.Budget.{
  IsWithin, opened-IsWithin, begin_fill-IsWithin, charged-new_entry, removed, remove-IsWithin,
  stays_none, charged-claim_bytes_eq,
}

-- An entry was opened, and it is charged so many bytes.
abbrev pub IsCharged : String → ℕ → Option ℕ × LocalCache → Type 0
IsCharged version_id charge r =
    (r.0 ≡ none)
    ⊎ ((n : ℕ) × (e : Entry) × (r.0 ≡ some n)
        × (entry version_id r.1.entries ≡ some e)
        × (e.identity ≡ n)
        × (charged_bytes e ≡ charge))

-- The first half of a fill was refused, or it put the bytes of its blocks on the account of the entry.
abbrev pub IsClaimed : String → LocalCache → Option Fill × LocalCache → Type 0
IsClaimed version_id c r =
    (r.0 ≡ none)
    ⊎ ((f : Fill) × (e : Entry) × (e' : Entry) × (r.0 ≡ some f)
        × (entry version_id c.entries ≡ some e)
        × (entry version_id r.1.entries ≡ some e')
        × (f.added ≡ added_bytes e f.first f.past)
        × (e'.inflight ≡ e.inflight + f.added)
        × (charged_bytes e' ≡ charged_bytes e + f.added))

entry-snoc :
    (k : String) (es : Entries) (e : Entry)
    → entry k es ≡ none
    → e.version_id ≡ k
    → entry k (es ++ (e ∷ [])) ≡ some e
unfolding entry
entry-snoc k [] e absent same = rw (same, ==_refl k) refl
entry-snoc k (f ∷ es) e absent same = elim (Bool-cases (f.version_id == k)) [
  | inl here ↦ cc (rw here at absent)
  | inr other ↦ rw other (entry-snoc k es e (rw other at absent) same)
]

entry-name : (k : String) (es : Entries) (e : Entry) → entry k es ≡ some e → e.version_id ≡ k
unfolding entry
entry-name k [] e h = cc
entry-name k (f ∷ es) e h = elim (Bool-cases (f.version_id == k)) [
  | inl here ↦
      let is : f ≡ e = ground (arith, rw here at h) in
      ap (λ (x : Entry). x.version_id) (sym is) ∙ (string_eq.eqb_iff f.version_id k).0 here
  | inr other ↦ entry-name k es e (rw other at h)
]

entry-update :
    (k : String) (added : ℕ) (es : Entries) (e : Entry)
    → entry k es ≡ some e
    → entry k (update k e.identity (claim_bytes added) es) ≡ some (claim_bytes added e)
unfolding entry update
entry-update k added [] e h = cc
entry-update k added (f ∷ es) e h = elim (Bool-cases (f.version_id == k)) [
  | inl here ↦
      let is : f ≡ e = ground (arith, rw here at h) in
      let object : (f.identity == e.identity) ≡ true =
        ground (arith, ap (λ (x : Entry). x.identity) is, nat_eq.eqb_iff f.identity e.identity) in
      rw (here, object, here) (ap (λ (x : Entry). some (claim_bytes added x)) is)
  | inr other ↦ rw (other, other) (entry-update k added es e (rw other at h))
]

module _ (cfg : Config) (disk_free : Entries → Option ℕ) where
  admit-IsCharged :
      (charge : ℕ) (writing created : Bool) (fs version_id : String) (size now : ℕ) (c : LocalCache)
      → IsWithin cfg c
      → entry version_id c.entries ≡ none
      → IsCharged version_id
          (if writing then size else 0)
          (admit cfg disk_free charge writing created fs version_id size now c)
  unfolding admit
  admit-IsCharged charge writing created fs version_id size now c w absent =
      let room : Bool × Entries = make_room cfg disk_free charge true none c.entries in
      let new : Entry = new_entry_of cfg disk_free c fs version_id size now writing in
      let left : Left cfg disk_free charge true none c.entries room.1 =
        make_room-Left cfg disk_free charge true none c.entries w.distinct in
      let free : entry version_id room.1 ≡ none =
        stays_none (entry version_id c.entries) (entry version_id room.1)
          (left.nothing_new version_id) absent in
      elim (Bool-cases (room.0 && created)) [
        | inr refused ↦ rw refused (inl refl)
        | inl admitted ↦ rw admitted (
            inr (
              c.next_identity,
              new,
              refl,
              entry-snoc version_id room.1 new free refl,
              refl,
              charged-new_entry cfg disk_free c fs version_id size now writing,
            ))
      ]

  open_staging-IsCharged :
      (created : Bool) (fs version_id : String) (size now : ℕ) (c : LocalCache)
      → IsWithin cfg c
      → IsCharged version_id size (open_staging cfg disk_free created fs version_id size now c)
  unfolding open_staging
  open_staging-IsCharged created fs version_id size now c w =
      if_both (IsCharged version_id size) cfg.enabled _ _
        (λ on.
          if_both (IsCharged version_id size) (fits cfg size) _ _
            (λ small.
              admit-IsCharged size true created fs version_id size now (remove version_id c)
                (remove-IsWithin cfg disk_free version_id c w) (removed cfg disk_free version_id c))
            (λ large. inl refl))
        (λ off. inl refl)

  reserve-IsCharged :
      (created : Bool) (fs version_id : String) (size now : ℕ) (c : LocalCache)
      → IsWithin cfg c
      → IsCharged version_id 0 (reserve cfg disk_free created fs version_id size now c)
  unfolding reserve
  reserve-IsCharged created fs version_id size now c w =
      if_both (IsCharged version_id 0) cfg.enabled _ _
        (λ on.
          admit-IsCharged 0 false created fs version_id size now (remove version_id c)
            (remove-IsWithin cfg disk_free version_id c w) (removed cfg disk_free version_id c))
        (λ off. inl refl)

  -- Opening an entry that is written front to back, and one for the blocks of reads, whatever the disk and the
  -- budget answer, leaves at most one entry a version, and the bytes charged within the budget, as they were
  -- before. Where an entry was opened it stands in the cache: the first is charged its whole size from the
  -- start, the second nothing yet.
  pub opened-IsCharged :
      (created : Bool) (fs version_id : String) (size now : ℕ) (c : LocalCache)
      → IsWithin cfg c
      → (IsWithin cfg (open_staging cfg disk_free created fs version_id size now c).1
          × IsCharged version_id size (open_staging cfg disk_free created fs version_id size now c))
        × (IsWithin cfg (reserve cfg disk_free created fs version_id size now c).1
            × IsCharged version_id 0 (reserve cfg disk_free created fs version_id size now c))
  opened-IsCharged created fs version_id size now c w =
      let (staged, reserved) = opened-IsWithin cfg disk_free created fs version_id size now c w in
      (
        (staged, open_staging-IsCharged created fs version_id size now c w),
        (reserved, reserve-IsCharged created fs version_id size now c w),
      )

  claimed :
      (version_id : String) (e : Entry) (first past : ℕ) (c : LocalCache) (room : Bool × Entries)
      → e.version_id ≡ version_id
      → e.writing ≡ false
      → entry version_id c.entries ≡ some e
      → entry version_id room.1 ≡ some e
      → let added = added_bytes e first past in
        IsClaimed version_id c (
          if room.0
          then (
            some (record {
              version_id = e.version_id;
              identity = e.identity;
              first = first;
              past = past;
              added = added;
            }),
            record c { entries = update e.version_id e.identity (claim_bytes added) room.1 },
          )
          else (none, record c { entries = room.1 }))
  claimed version_id e first past c (true, es) name settled there still =
      let added = added_bytes e first past in
      inr (
        record {
          version_id = e.version_id;
          identity = e.identity;
          first = first;
          past = past;
          added = added;
        },
        e,
        claim_bytes added e,
        refl,
        there,
        subst
            (λ (k : String).
              entry version_id (update k e.identity (claim_bytes added) es)
              ≡ some (claim_bytes added e))
            (sym name) (entry-update version_id added es e still),
        refl,
        refl,
        charged-claim_bytes_eq added e settled,
      )
  claimed version_id e first past c (false, es) name settled there still = inl refl

  claim-IsClaimed :
      (version_id : String) (e : Entry) (first past : ℕ) (c : LocalCache)
      → IsWithin cfg c
      → e.writing ≡ false
      → entry version_id c.entries ≡ some e
      → IsClaimed version_id c (claim cfg disk_free e first past c)
  unfolding claim
  claim-IsClaimed version_id e first past c w settled there =
      let added : ℕ = added_bytes e first past in
      let name = entry-name version_id c.entries e there in
      let here : IsIn c.entries e = ap (λ (k : String). entry k c.entries) name ∙ there in
      let room = make_room cfg disk_free added false (some e.identity) c.entries in
      let left = make_room-Left cfg disk_free added false (some e.identity) c.entries w.distinct in
      let still : IsIn room.1 e =
        left.stays e here (ground (arith, nat_eq.eqb_iff e.identity e.identity)) in
      elim (Bool-cases (ltb 0 added)) [
        | inl some_bytes ↦ rw some_bytes (
            claimed version_id e first past c room name settled there
              (ap (λ (k : String). entry k room.1) (sym name) ∙ still))
        | inr nothing ↦
            rw nothing
              (claimed version_id e first past c (true, c.entries) name settled there there)
      ]

  abbrev filling : Entry → ℕ → ℕ → LocalCache → Option Fill × LocalCache
  filling e begin count c =
      let first = begin / e.block_size in
      let past = past_full cfg disk_free e (begin + count) in
      if e.writing || (count == 0)
      then (none, c)
      else if not (begin % e.block_size == 0) || ltb e.size (begin + count)
      then (none, c)
      else if ltb first past
      then claim cfg disk_free e first past c
      else (none, c)

  begin_fill-some :
      (version_id : String) (begin count : ℕ) (c : LocalCache) (e : Entry)
      → entry version_id c.entries ≡ some e
      → begin_fill cfg disk_free version_id begin count c ≡ filling e begin count c
  unfolding begin_fill
  begin_fill-some version_id begin count c e found = rw (found, begin_fill) refl

  begin_fill-none :
      (version_id : String) (begin count : ℕ) (c : LocalCache)
      → entry version_id c.entries ≡ none
      → begin_fill cfg disk_free version_id begin count c ≡ (none, c)
  unfolding begin_fill
  begin_fill-none version_id begin count c absent = rw (absent, begin_fill) refl

  -- Starting to fill blocks of an entry from a read leaves the bytes charged within the budget, as they were
  -- before, those that are on their way to the disk included: it is refused, or the bytes of the blocks that
  -- the entry lacks are added to those in flight of that entry, and to what it is charged.
  pub begin_fill-IsClaimed :
      (version_id : String) (begin count : ℕ) (c : LocalCache)
      → IsWithin cfg c
      → IsWithin cfg (begin_fill cfg disk_free version_id begin count c).1
        × IsClaimed version_id c (begin_fill cfg disk_free version_id begin count c)
  begin_fill-IsClaimed version_id begin count c w = (
    begin_fill-IsWithin cfg disk_free version_id begin count c w,
    elim (Option-cases (entry version_id c.entries)) [
      | inl absent ↦
          subst (IsClaimed version_id c) (sym (begin_fill-none version_id begin count c absent))
            (inl refl)
      | inr (e, found) ↦
          subst (IsClaimed version_id c) (sym (begin_fill-some version_id begin count c e found)) (
            if_both (IsClaimed version_id c) (e.writing || (count == 0)) _ _ (λ t. inl refl)
              (λ t.
                if_both (IsClaimed version_id c)
                  (not (begin % e.block_size == 0) || ltb e.size (begin + count)) _ _
                  (λ u. inl refl)
                  (λ u.
                    if_both (IsClaimed version_id c)
                      (ltb (begin / e.block_size) (past_full cfg disk_free e (begin + count))) _ _
                      (λ v.
                        claim-IsClaimed version_id e (begin / e.block_size)
                          (past_full cfg disk_free e (begin + count)) c w (ground (arith, t)) found)
                      (λ v. inl refl))))
    ],
  )
