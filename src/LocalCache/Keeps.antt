-- ===== src/LocalCache/Keeps.antt =====
-- tgdcfs/core/local_cache.py: the entries that the sweep leaves alone.
use tgdcfs.Base.{
  ℕ, Bool, true, false, Option, none, some, List, [], ◌∷◌, ◌≡◌, ◌≢◌, refl, sym, String, ◌==◌, ◌&&◌,
  string_eq, arith, Bool-cases, inl, inr, All, if_both, ltb, leb, ◌+◌, ◌-◌, ◌∙◌, ap, subst, All-map,
}
use tgdcfs.LocalCache.{
  Entry, Entries, LocalCache, Config, entry, remove, drop_entry, evictable, lru_order, popped,
  charged_bytes,
}
use tgdcfs.LocalCache.Lemmas.{
  IsIn, Distinct, All-IsIn, All-drop_entry, All-lru_order, All-popped, MayGo, lru_order-MayGo,
  entry-drop_entry,
}
use tgdcfs.LocalCache.Sweep.{
  on_entry, release, release_stale, is_stale, expire, evict_for_disk, evict_down, sweep,
  above_target, disk_is_short,
}

-- What holds of an entry is said of every entry of the same version.
abbrev pub Alike : Entry → (Entry → Type 0) → Entry → Type 0
Alike e P x = x.version_id ≡ e.version_id → P x

abbrev pub Needed : Entry → Type 0
Needed x = evictable x ≡ false

-- The entry is there, and no entry of its version may be evicted.
record Stays (e : Entry) (es : Entries) : Type 0 where
  there : IsIn es e
  needed : All (Alike e Needed) es

same-id : (a b : String) → (a == b) ≡ true → a ≡ b
same-id a b h = (string_eq.eqb_iff a b).0 h

other-id : (a b : String) → a ≢ b → (a == b) ≡ false
other-id a b h = elim (Bool-cases (a == b)) [
  | inl same ↦ absurd (h (same-id a b same))
  | inr other ↦ other
]

All-both :
    (P Q R : Entry → Type 0)
    → ((x : Entry) → P x → Q x → R x)
    → (es : Entries) → All P es
    → All Q es
    → All R es
All-both P Q R f [] h i = tt
All-both P Q R f (x ∷ es) (p, h) (q, i) = (f x p q, All-both P Q R f es h i)

found_same :
    (P : Entry → Type 0) (e : Entry) (es : Entries)
    → IsIn es e
    → P e
    → (x : Entry) → IsIn es x
    → Alike e P x
found_same P e es there p x found same =
    let eq : some x ≡ some e = sym found ∙ ap (λ (k : String). entry k es) same ∙ there in
    subst P (ground (arith, eq)) p

same_version :
    (P : Entry → Type 0) (e : Entry) (es : Entries)
    → Distinct es
    → IsIn es e
    → P e
    → All (Alike e P) es
same_version P e es d there p =
    All-map (IsIn es) (Alike e P) (found_same P e es there p) es (All-IsIn es d)

drop_other :
    (e : Entry) (k : String) (es : Entries)
    → k ≢ e.version_id
    → Stays e es
    → Stays e (drop_entry k es)
drop_other e k es other h = record {
  there =
      ground (arith, entry-drop_entry k e.version_id es, other-id k e.version_id other, h.there);
  needed = All-drop_entry (Alike e Needed) k es h.needed;
}

entry-on_entry :
    (k j : String) (f : Entry → Entry) (es : Entries)
    → ((x : Entry) → (f x).version_id ≡ x.version_id)
    → (k == j) ≡ false
    → entry j (on_entry k f es) ≡ entry j es
unfolding entry on_entry
entry-on_entry k j f [] keeps other = refl
entry-on_entry k j f (x ∷ es) keeps other = ground (
  arith,
  keeps x,
  string_eq.eqb_iff x.version_id k,
  string_eq.eqb_iff x.version_id j,
  string_eq.eqb_iff k j,
  entry-on_entry k j f es keeps other,
)

All-on_entry :
    (e : Entry) (k : String) (f : Entry → Entry) (es : Entries)
    → ((x : Entry) → (f x).version_id ≡ x.version_id)
    → k ≢ e.version_id
    → All (Alike e Needed) es
    → All (Alike e Needed) (on_entry k f es)
unfolding on_entry
All-on_entry e k f [] keeps other h = tt
All-on_entry e k f (x ∷ es) keeps other (p, h) = elim (Bool-cases (x.version_id == k)) [
  | inl same ↦ rw same (
    (λ alike. absurd (other (sym (same-id x.version_id k same) ∙ sym (keeps x) ∙ alike))),
    All-on_entry e k f es keeps other h,
  )
  | inr different ↦ rw different (p, All-on_entry e k f es keeps other h)
]

on_other :
    (e : Entry) (k : String) (f : Entry → Entry) (es : Entries)
    → ((x : Entry) → (f x).version_id ≡ x.version_id)
    → k ≢ e.version_id
    → Stays e es
    → Stays e (on_entry k f es)
on_other e k f es keeps other h = record {
  there = entry-on_entry k e.version_id f es keeps (other-id k e.version_id other) ∙ h.there;
  needed = All-on_entry e k f es keeps other h.needed;
}

module _ (cfg : Config) where
  release_other :
      (e : Entry) (k : String) (c : LocalCache)
      → k ≢ e.version_id
      → Stays e c.entries
      → (found : Option Entry) → entry k c.entries ≡ found
      → Stays e (release cfg k c).entries
  unfolding release remove
  release_other e k c other h none eq = rw (eq, release) h
  release_other e k c other h (some x) eq =
      let on =
        on_other e k (λ (y : Entry). record y { pins = 0; pinned_at = 0 }) c.entries (λ y. refl)
          other h in
      rw (eq, release)
        (if_both (λ (d : LocalCache). Stays e d.entries) cfg.keep_for_reads _ _ (λ kept. on)
          (λ gone. drop_other e k _ other on))

  release_stale-Stays :
      (queue_empty : String → Bool) (now : ℕ) (e : Entry) (es : List Entry) (c : LocalCache)
      → All (Alike e (λ (x : Entry). is_stale cfg queue_empty now x ≡ false)) es
      → Stays e c.entries
      → Stays e (release_stale cfg queue_empty now es c).entries
  unfolding release_stale
  release_stale-Stays queue_empty now e [] c fresh h = h
  release_stale-Stays queue_empty now e (x ∷ es) c (p, fresh) h =
      release_stale-Stays queue_empty now e es _ fresh (
        if_both (λ (d : LocalCache). Stays e d.entries) (is_stale cfg queue_empty now x) _ _
          (λ stale.
            release_other e x.version_id c (λ same. ground (arith, p same, stale)) h
              (entry x.version_id c.entries) refl)
          (λ kept. h))

  expire-Stays :
      (now : ℕ) (e : Entry) (xs : List Entry) (es : Entries)
      → All (Alike e Needed) xs
      → Stays e es
      → Stays e (expire cfg now xs es)
  unfolding expire
  expire-Stays now e [] es p h = h
  expire-Stays now e (x ∷ xs) es (p, ps) h = expire-Stays now e xs _ ps (
      if_both (Stays e) (evictable x && leb (x.last_access + cfg.max_age_seconds) now) _ _
        (λ old. drop_other e x.version_id es (λ same. ground (arith, p same, old)) h) (λ kept. h))

  module _ (disk_free : Entries → Option ℕ) where
    disk-Stays :
        (e : Entry) (vs : List Entry) (es : Entries)
        → All (λ (v : Entry). v.version_id ≢ e.version_id) vs
        → Stays e es
        → Stays e (evict_for_disk cfg disk_free vs es)
    unfolding evict_for_disk
    disk-Stays e [] es p h = h
    disk-Stays e (v ∷ vs) es (p, ps) h =
        if_both (Stays e) (disk_is_short cfg disk_free es) _ _
          (λ short. disk-Stays e vs _ ps (drop_other e v.version_id es p h)) (λ enough. h)

    down-Stays :
        (e : Entry) (used : ℕ) (vs : List Entry) (es : Entries)
        → All (λ (v : Entry). v.version_id ≢ e.version_id) vs
        → Stays e es
        → Stays e (evict_down cfg disk_free used vs es)
    unfolding evict_down
    down-Stays e used [] es p h = h
    down-Stays e used (v ∷ vs) es (p, ps) h =
        if_both (Stays e) (above_target cfg disk_free used) _ _
          (λ above.
            down-Stays e (used - charged_bytes v) vs (drop_entry v.version_id es) ps
              (drop_other e v.version_id es p h))
          (λ below. disk-Stays e (v ∷ vs) es (p, ps) h)

    -- A victim may be evicted, so it is not of the version of an entry that stays.
    victims-differ :
        (e : Entry) (es : Entries)
        → All (Alike e Needed) es
        → All (λ (v : Entry). v.version_id ≢ e.version_id) (popped (lru_order none es))
    victims-differ e es h = All-popped _ _ (
        All-both _ _ _ (λ v alike goes same. ground (arith, alike same, MayGo.idle goes))
          (lru_order none es) (All-lru_order none (Alike e Needed) es h) (lru_order-MayGo none es))

    -- In a cache with one entry for a version: an entry that an upload still writes, a mirror waits for or
    -- a fill is open on, and of which the pin is not stale, is in the cache after a sweep as it was before.
    pub sweep-keeps :
        (queue_empty : String → Bool) (now : ℕ) (c : LocalCache) (e : Entry)
        → Distinct c.entries
        → IsIn c.entries e
        → evictable e ≡ false
        → is_stale cfg queue_empty now e ≡ false
        → IsIn (sweep cfg disk_free queue_empty now c).entries e
    unfolding sweep
    sweep-keeps queue_empty now c e d there needed fresh =
        let released =
          release_stale-Stays queue_empty now e c.entries c
            (same_version (λ (x : Entry). is_stale cfg queue_empty now x ≡ false) e c.entries d
              there fresh)
            (record { there = there; needed = same_version Needed e c.entries d there needed }) in
        let kept =
          if_both (Stays e) (ltb 0 cfg.max_age_seconds) _ _
            (λ aged. expire-Stays now e _ _ released.needed released) (λ ageless. released) in
        (down-Stays e _ _ _ (victims-differ e _ kept.needed) kept).there
