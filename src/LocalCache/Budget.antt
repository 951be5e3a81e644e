-- ===== src/LocalCache/Budget.antt =====
-- tgdcfs/core/local_cache.py, `open_staging`, `reserve` and the first half of `write_blocks`: the budget.
use tgdcfs.Base.{
  ◌%◌, ◌/◌, Option-cases, if_both, ℕ, zero, suc, ◌+◌, ◌-◌, ◌≤◌, ◌<◌, ◌≡◌, ◌≢◌, refl, ◌∙◌, sym, ap,
  subst, Bool, true, false, not, ◌&&◌, ◌||◌, Option, none, some, List, [], ◌∷◌, ◌++◌, ltb,
  if◌then◌else◌, replicate, String, ◌==◌, string_eq, nat_eq, arith, Bool-cases, inl, inr, All,
  ==_refl,
}
use tgdcfs.LocalCache.{
  Entry, Entries, Config, LocalCache, entry, drop_entry, remove, used_bytes, charged_bytes,
  flagged_bytes, evict_until, make_room, admit, open_staging, reserve, new_entry_of, blocks_for,
  fits, popped, lru_order, block_length,
}
use tgdcfs.LocalCache.Lemmas.{Apart, Distinct, entry-drop_entry, drop_entry-Distinct, snoc-Distinct}
use tgdcfs.LocalCache.Room.{
  Fits, Left, make_room-Fits, make_room-Left, step_over, step_under, is_over,
}
use tgdcfs.LocalCache.Writes.{Fill, begin_fill, claim, update, claim_bytes, added_bytes, past_full}

-- One entry a version, and never more charged than the budget, where there is one.
pub record IsWithin (cfg : Config) (c : LocalCache) : Type 0 where
  pub distinct : Distinct c.entries
  pub budget : 0 < cfg.max_size_bytes → used_bytes c.entries ≤ cfg.max_size_bytes

used-drop_entry_le : (k : String) (es : Entries) → used_bytes (drop_entry k es) ≤ used_bytes es
unfolding used_bytes drop_entry
used-drop_entry_le k [] = omega arith
used-drop_entry_le k (e ∷ es) = ground (arith, used-drop_entry_le k es)

used-append : (es fs : Entries) → used_bytes (es ++ fs) ≡ used_bytes es + used_bytes fs
unfolding used_bytes
used-append [] fs = omega arith
used-append (e ∷ es) fs = omega (arith, used-append es fs)

used-one : (e : Entry) → used_bytes (e ∷ []) ≡ charged_bytes e
unfolding used_bytes
used-one e = omega arith

flagged-none : (e : Entry) (index n : ℕ) → flagged_bytes e index (replicate n false) ≡ 0
unfolding flagged_bytes
flagged-none e index zero = refl
flagged-none e index (suc n) = omega (arith, flagged-none e (index + 1) n)

absurd_test : (b : Bool) → b ≡ false → b ≢ true
absurd_test b p = λ q. ground arith

not_some : (r : Option Entry) (e : Entry) → r ≡ some e → r ≢ none
not_some none e h = cc
not_some (some x) e h = λ k. cc

pub stays_none :
    (r r' : Option Entry) → ((e : Entry) → r' ≡ some e → r ≡ some e) → r ≡ none → r' ≡ none
stays_none r none f h = refl
stays_none r (some e) f h = absurd (not_some r e (f e refl) h)

not_none : (f : Entry) (b : Bool) (r : Option Entry) → b ≡ true → (if b then some f else r) ≢ none
not_none f true r t = λ h. cc
not_none f false r t = cc

later_none :
    (f : Entry) (b : Bool) (r : Option Entry)
    → b ≡ false
    → (if b then some f else r) ≡ none
    → r ≡ none
later_none f true r t h = cc
later_none f false r t h = h

absent-Apart : (e : Entry) (es : Entries) → entry e.version_id es ≡ none → All (Apart e) es
unfolding entry
absent-Apart e [] h = tt
absent-Apart e (f ∷ es) h = elim (Bool-cases (f.version_id == e.version_id)) [
  | inl same ↦ absurd (not_none f (f.version_id == e.version_id) (entry e.version_id es) same h)
  | inr other ↦ (
    λ eq. absurd_test (f.version_id == e.version_id) other (rw eq (==_refl f.version_id)),
    absent-Apart e es (later_none f (f.version_id == e.version_id) (entry e.version_id es) other h),
  )
]

flagged-claim_bytes :
    (added : ℕ) (e : Entry) (index : ℕ) (ps : List Bool)
    → flagged_bytes (claim_bytes added e) index ps ≡ flagged_bytes e index ps
unfolding flagged_bytes block_length
flagged-claim_bytes added e index [] = refl
flagged-claim_bytes added e index (p ∷ ps) =
    ap (λ (n : ℕ). (if p then block_length e index else 0) + n)
      (flagged-claim_bytes added e (index + 1) ps)

charged-claim_bytes :
    (added : ℕ) (e : Entry) → charged_bytes (claim_bytes added e) ≤ charged_bytes e + added
unfolding charged_bytes
charged-claim_bytes added e = ground (arith, flagged-claim_bytes added e 0 e.present)

pub charged-claim_bytes_eq :
    (added : ℕ) (e : Entry)
    → e.writing ≡ false
    → charged_bytes (claim_bytes added e) ≡ charged_bytes e + added
unfolding charged_bytes
charged-claim_bytes_eq added e idle = ground (arith, idle, flagged-claim_bytes added e 0 e.present)

module _ (k : String) (identity added : ℕ) where
  All-update :
      (e : Entry) (es : Entries)
      → All (Apart e) es
      → All (Apart e) (update k identity (claim_bytes added) es)
  unfolding update
  All-update e [] a = tt
  All-update e (f ∷ es) (apart, a) =
      if_both (All (Apart e)) ((f.version_id == k) && (f.identity == identity)) _ _
        (λ t. (apart, All-update e es a)) (λ t. (apart, All-update e es a))

  update-Distinct :
      (es : Entries) → Distinct es → Distinct (update k identity (claim_bytes added) es)
  unfolding update
  update-Distinct [] d = tt
  update-Distinct (f ∷ es) (a, d) =
      if_both Distinct ((f.version_id == k) && (f.identity == identity)) _ _
        (λ t. (All-update f es a, update-Distinct es d))
        (λ t. (All-update f es a, update-Distinct es d))

  update-absent :
      (f : Entry) (es : Entries)
      → f.version_id ≡ k
      → All (Apart f) es
      → update k identity (claim_bytes added) es ≡ es
  unfolding update
  update-absent f [] h a = refl
  update-absent f (g ∷ es) h (apart, a) =
      ground (arith, string_eq.eqb_iff g.version_id k, update-absent f es h a)

  used-update :
      (es : Entries)
      → Distinct es
      → used_bytes (update k identity (claim_bytes added) es) ≤ used_bytes es + added
  unfolding update used_bytes
  used-update [] d = omega arith
  used-update (f ∷ es) (a, d) =
      if_both (λ (fs : Entries). used_bytes fs ≤ charged_bytes f + used_bytes es + added)
        ((f.version_id == k) && (f.identity == identity)) _ _
        (λ t. omega (
          arith,
          charged-claim_bytes added f,
          ap used_bytes (update-absent f es (ground (arith, string_eq.eqb_iff f.version_id k)) a),
        ))
        (λ t. omega (arith, used-update es d))

module _ (cfg : Config) (disk_free : Entries → Option ℕ) where
  evict_until-le :
      (size : ℕ) (new_entry : Bool) (used : ℕ) (victims es : Entries)
      → used_bytes (evict_until cfg disk_free size new_entry used victims es).1 ≤ used_bytes es
  unfolding evict_until
  evict_until-le size new_entry used [] es = omega arith
  evict_until-le size new_entry used (x ∷ victims) es =
      elim (Bool-cases (is_over cfg disk_free size new_entry used es)) [
        | inl over ↦
            subst (λ (r : Bool × Entries). used_bytes r.1 ≤ used_bytes es)
              (sym (step_over cfg disk_free size new_entry used x victims es over))
              (omega (
                arith,
                evict_until-le size new_entry (used - charged_bytes x) victims
                    (drop_entry x.version_id es),
                used-drop_entry_le x.version_id es,
              ))
        | inr under ↦
            subst (λ (r : Bool × Entries). used_bytes r.1 ≤ used_bytes es)
              (sym (step_under cfg disk_free size new_entry used x victims es under)) (omega arith)
      ]

  make_room-le :
      (size : ℕ) (new_entry : Bool) (keep : Option ℕ) (es : Entries)
      → used_bytes (make_room cfg disk_free size new_entry keep es).1 ≤ used_bytes es
  unfolding make_room
  make_room-le size new_entry keep es =
      evict_until-le size new_entry (used_bytes es) (popped (lru_order keep es)) es

  pub charged-new_entry :
      (c : LocalCache) (fs version_id : String) (size now : ℕ) (writing : Bool)
      → charged_bytes (new_entry_of cfg disk_free c fs version_id size now writing)
        ≡ (if writing then size else 0)
  unfolding charged_bytes
  charged-new_entry c fs version_id size now true = refl
  charged-new_entry c fs version_id size now false = omega (
    arith,
    flagged-none (new_entry_of cfg disk_free c fs version_id size now false) 0
        (blocks_for size cfg.block_bytes),
  )

  admit-IsWithin :
      (charge : ℕ) (writing created : Bool) (fs version_id : String) (size now : ℕ) (c : LocalCache)
      → charge ≡ (if writing then size else 0)
      → IsWithin cfg c
      → entry version_id c.entries ≡ none
      → IsWithin cfg (admit cfg disk_free charge writing created fs version_id size now c).1
  unfolding admit
  admit-IsWithin charge writing created fs version_id size now c e w absent =
      let room : Bool × Entries = make_room cfg disk_free charge true none c.entries in
      let new : Entry = new_entry_of cfg disk_free c fs version_id size now writing in
      let left : Left cfg disk_free charge true none c.entries room.1 =
        make_room-Left cfg disk_free charge true none c.entries w.distinct in
      let smaller : used_bytes room.1 ≤ used_bytes c.entries =
        make_room-le charge true none c.entries in
      elim (Bool-cases (room.0 && created)) [
        | inr refused ↦ rw refused (record {
          distinct = left.distinct;
          budget = λ limit. omega (arith, smaller, w.budget limit);
        })
        | inl admitted ↦
            let fit : Fits cfg disk_free charge true room.1 =
              make_room-Fits cfg disk_free charge true none c.entries w.distinct (ground arith) in
            let free : entry version_id room.1 ≡ none =
              stays_none (entry version_id c.entries) (entry version_id room.1)
                (left.nothing_new version_id) absent in
            rw admitted (record {
              distinct = snoc-Distinct room.1 new (absent-Apart new room.1 free) left.distinct;
              budget = λ limit. omega (
                arith,
                used-append room.1 (new ∷ []),
                used-one new,
                charged-new_entry c fs version_id size now writing,
                e,
                fit.in_budget limit,
              );
            })
      ]

  pub remove-IsWithin :
      (version_id : String) (c : LocalCache) → IsWithin cfg c → IsWithin cfg (remove version_id c)
  unfolding remove
  remove-IsWithin version_id c w = record {
    distinct = drop_entry-Distinct version_id c.entries w.distinct;
    budget = λ limit. omega (arith, used-drop_entry_le version_id c.entries, w.budget limit);
  }

  pub removed :
      (version_id : String) (c : LocalCache) → entry version_id (remove version_id c).entries ≡ none
  unfolding remove
  removed version_id c =
      entry-drop_entry version_id version_id c.entries ∙ rw (==_refl version_id) refl

  abbrev WithinAfter {ℓ} : {A : Type ℓ} → A × LocalCache → Type 0
  WithinAfter r = IsWithin cfg r.1

  open_staging-IsWithin :
      (created : Bool) (fs version_id : String) (size now : ℕ) (c : LocalCache)
      → IsWithin cfg c
      → IsWithin cfg (open_staging cfg disk_free created fs version_id size now c).1
  unfolding open_staging
  open_staging-IsWithin created fs version_id size now c w =
      if_both WithinAfter cfg.enabled _ _
        (λ on.
          if_both WithinAfter (fits cfg size) _ _
            (λ small.
              admit-IsWithin size true created fs version_id size now (remove version_id c) refl
                (remove-IsWithin version_id c w) (removed version_id c))
            (λ large. remove-IsWithin version_id c w))
        (λ off. w)

  reserve-IsWithin :
      (created : Bool) (fs version_id : String) (size now : ℕ) (c : LocalCache)
      → IsWithin cfg c
      → IsWithin cfg (reserve cfg disk_free created fs version_id size now c).1
  unfolding reserve
  reserve-IsWithin created fs version_id size now c w =
      if_both WithinAfter cfg.enabled _ _
        (λ on.
          admit-IsWithin 0 false created fs version_id size now (remove version_id c) refl
            (remove-IsWithin version_id c w) (removed version_id c))
        (λ off. w)

  pub opened-IsWithin :
      (created : Bool) (fs version_id : String) (size now : ℕ) (c : LocalCache)
      → IsWithin cfg c
      → IsWithin cfg (open_staging cfg disk_free created fs version_id size now c).1
        × IsWithin cfg (reserve cfg disk_free created fs version_id size now c).1
  opened-IsWithin created fs version_id size now c w = (
    open_staging-IsWithin created fs version_id size now c w,
    reserve-IsWithin created fs version_id size now c w,
  )

  claimed :
      (e : Entry) (added : ℕ) (c : LocalCache) (room : Bool × Entries)
      → Distinct room.1
      → (room.0 ≡ true → 0 < cfg.max_size_bytes → used_bytes room.1 + added ≤ cfg.max_size_bytes)
      → (0 < cfg.max_size_bytes → used_bytes room.1 ≤ cfg.max_size_bytes)
      → (fill : Fill)
      → WithinAfter (
          if room.0
          then (
            some fill,
            record c { entries = update e.version_id e.identity (claim_bytes added) room.1 },
          )
          else (none, record c { entries = room.1 }))
  claimed e added c (true, es) d fitting within fill = record {
    distinct = update-Distinct e.version_id e.identity added es d;
    budget =
        λ limit. omega (arith, used-update e.version_id e.identity added es d, fitting refl limit);
  }
  claimed e added c (false, es) d fitting within fill = record { distinct = d; budget = within }

  -- The first half of a fill: claiming the bytes.
  claim-IsWithin :
      (e : Entry) (first past : ℕ) (c : LocalCache)
      → IsWithin cfg c
      → IsWithin cfg (claim cfg disk_free e first past c).1
  unfolding claim
  claim-IsWithin e first past c w =
      let added : ℕ = added_bytes e first past in
      let fill : Fill = record {
        version_id = e.version_id;
        identity = e.identity;
        first = first;
        past = past;
        added = added;
      } in
      let after = λ (room : Bool × Entries). WithinAfter {A = Option Fill} (
        if room.0
        then (
          some fill,
          record c { entries = update e.version_id e.identity (claim_bytes added) room.1 },
        )
        else (none, record c { entries = room.1 })) in
      if_both after (ltb 0 added) _ _
        (λ some_bytes.
          claimed e added c (make_room cfg disk_free added false (some e.identity) c.entries)
            (make_room-Left cfg disk_free added false (some e.identity) c.entries
              w.distinct).distinct
            (λ roomy.
              (make_room-Fits cfg disk_free added false (some e.identity) c.entries w.distinct
                roomy).in_budget)
            (λ limit.
              omega (arith, make_room-le added false (some e.identity) c.entries, w.budget limit))
            fill)
        (λ nothing.
          claimed e added c (true, c.entries) w.distinct
            (λ roomy limit. ground (arith, w.budget limit)) w.budget fill)

  pub begin_fill-IsWithin :
      (version_id : String) (begin count : ℕ) (c : LocalCache)
      → IsWithin cfg c
      → IsWithin cfg (begin_fill cfg disk_free version_id begin count c).1
  unfolding begin_fill
  begin_fill-IsWithin version_id begin count c w =
      elim (Option-cases (entry version_id c.entries)) [
        | inl absent ↦ rw (absent, begin_fill) w
        | inr (e, found) ↦
            rw (found, begin_fill)
              (if_both WithinAfter (e.writing || (count == 0)) _ _ (λ t. w)
                (λ t.
                  if_both WithinAfter
                    (not (begin % e.block_size == 0) || ltb e.size (begin + count)) _ _ (λ t. w)
                    (λ t.
                      if_both WithinAfter
                        (ltb (begin / e.block_size) (past_full cfg disk_free e (begin + count))) _ _
                        (λ t.
                          claim-IsWithin e (begin / e.block_size)
                            (past_full cfg disk_free e (begin + count)) c w)
                        (λ t. w))))
      ]
