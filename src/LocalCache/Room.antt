-- ===== src/LocalCache/Room.antt =====
-- tgdcfs/core/local_cache.py: what `_make_room` frees, and what it never touches.
use tgdcfs.Base.{
  ℕ, ◌+◌, ◌-◌, ◌≤◌, ◌<◌, ◌≡◌, ◌≢◌, refl, ◌∙◌, sym, ap, Bool, true, false, not, ◌&&◌, ◌||◌, Option,
  none, some, [], ◌∷◌, if◌then◌else◌, length, String, ◌==◌, string_eq, nat_eq, arith, Bool-cases,
  inl, inr, All, subst,
}
use tgdcfs.LocalCache.{
  Entry, Entries, Config, entry, drop_entry, used_bytes, charged_bytes, evictable, is_kept,
  lru_order, popped, over_bytes, over_files, over_disk, evict_until, make_room,
}
use tgdcfs.LocalCache.Lemmas.{
  Apart, Distinct, IsIn, MayGo, entry-drop_entry, used-drop_entry, drop_entry-Distinct,
  popped-Distinct, All-popped, lru_order-Distinct, lru_order-MayGo, lru_order-IsIn, other_id,
}

IsIn-drop_entry :
    (e : Entry) (es vs : Entries)
    → All (Apart e) vs
    → All (IsIn es) vs
    → All (IsIn (drop_entry e.version_id es)) vs
IsIn-drop_entry e es [] a h = tt
IsIn-drop_entry e es (v ∷ vs) (apart, a) (there, h) = (
  entry-drop_entry e.version_id v.version_id es ∙ rw (other_id e v apart) there,
  IsIn-drop_entry e es vs a h,
)

some-injective : (x e : Entry) → some x ≡ some e → x ≡ e
some-injective x e h = cc

both_idle : (a b : Bool) → a ≡ true → b ≡ false → a && not b ≢ false
both_idle a b p q = λ h. ground arith

kept_only :
    (b : Bool) (r : Option Entry) (e : Entry) → (if b then none else r) ≡ some e → r ≡ some e
kept_only true r e h = cc
kept_only false r e h = h

-- Two entries, one that may go and one that may not, are of different versions.
differ :
    (keep : Option ℕ) (x e : Entry) (es : Entries)
    → MayGo keep x
    → IsIn es x
    → IsIn es e
    → (evictable e && not (is_kept keep e)) ≡ false
    → x.version_id ≢ e.version_id
differ keep x e es goes there e_there busy same =
    let x≡e : x ≡ e =
      some-injective x e (sym there ∙ (ap (λ (k : String). entry k es) same ∙ e_there)) in
    both_idle (evictable x) (is_kept keep x) goes.idle goes.unkept
      (subst (λ (y : Entry). (evictable y && not (is_kept keep y)) ≡ false) (sym x≡e) busy)

not_dropped :
    (x k : String) (es : Entries) (e : Entry)
    → entry k (drop_entry x es) ≡ some e
    → entry k es ≡ some e
not_dropped x k es e h = kept_only (x == k) (entry k es) e (sym (entry-drop_entry x k es) ∙ h)

module _ (cfg : Config) (disk_free : Entries → Option ℕ) (size : ℕ) (new_entry : Bool) where
  abbrev pub is_over : ℕ → Entries → Bool
  is_over used es =
      over_bytes cfg disk_free used size
      || (over_files cfg disk_free new_entry es || over_disk cfg disk_free es size)

  -- No limit is passed once the bytes are added.
  pub record Fits (es : Entries) : Type 0 where
    pub in_budget : 0 < cfg.max_size_bytes → used_bytes es + size ≤ cfg.max_size_bytes
    pub in_count : new_entry ≡ true → 0 < cfg.max_files → length es + 1 ≤ cfg.max_files
    pub on_disk : over_disk cfg disk_free es size ≡ false

  under-Fits : (es : Entries) (used : ℕ) → used ≡ used_bytes es → is_over used es ≡ false → Fits es
  under-Fits es used e h = record {
    in_budget = ground arith;
    in_count = ground arith;
    on_disk = ground arith;
  }

  pub step_over :
      (used : ℕ) (x : Entry) (victims es : Entries)
      → is_over used es ≡ true
      → evict_until cfg disk_free size new_entry used (x ∷ victims) es
        ≡ evict_until cfg disk_free size new_entry
            (used - charged_bytes x)
            victims
            (drop_entry x.version_id es)
  unfolding evict_until
  step_over used x victims es h = rw (h, evict_until) refl

  pub step_under :
      (used : ℕ) (x : Entry) (victims es : Entries)
      → is_over used es ≡ false
      → evict_until cfg disk_free size new_entry used (x ∷ victims) es ≡ (true, es)
  unfolding evict_until
  step_under used x victims es h = rw (h, evict_until) refl

  evict_until-Fits :
      (used : ℕ) (victims es : Entries)
      → used ≡ used_bytes es
      → Distinct es
      → Distinct victims
      → All (IsIn es) victims
      → (evict_until cfg disk_free size new_entry used victims es).0 ≡ true
      → Fits (evict_until cfg disk_free size new_entry used victims es).1
  unfolding evict_until
  evict_until-Fits used [] es e d v h t = under-Fits es used e (ground arith)
  evict_until-Fits used (x ∷ victims) es e d (apart, v) (there, h) t =
      elim (Bool-cases (is_over used es)) [
        | inl over ↦
            let step = step_over used x victims es over in
            let t' : (evict_until cfg disk_free size new_entry (used - charged_bytes x) victims
                  (drop_entry x.version_id es)).0
                ≡ true =
              ap (λ (r : Bool × Entries). r.0) (sym step) ∙ t in
            subst (λ (r : Bool × Entries). Fits r.1) (sym step)
              (evict_until-Fits (used - charged_bytes x) victims (drop_entry x.version_id es)
                (omega (arith, used-drop_entry x es d there, e))
                (drop_entry-Distinct x.version_id es d) v (IsIn-drop_entry x es victims apart h) t')
        | inr under ↦
            subst (λ (r : Bool × Entries). Fits r.1) (sym (step_under used x victims es under))
              (under-Fits es used e under)
      ]

  -- What the loop leaves of the entries that it found.
  pub record Left (keep : Option ℕ) (es es' : Entries) : Type 0 where
    pub distinct : Distinct es'
    pub stays : (e : Entry) → IsIn es e → (evictable e && not (is_kept keep e)) ≡ false → IsIn es' e
    pub nothing_new : (k : String) (e : Entry) → entry k es' ≡ some e → entry k es ≡ some e

  unmoved : (keep : Option ℕ) (es : Entries) → Distinct es → Left keep es es
  unmoved keep es d = record { distinct = d; stays = λ e there h. there; nothing_new = λ k e h. h }

  -- One eviction before the rest.
  one_gone :
      (keep : Option ℕ) (x : Entry) (es es' : Entries)
      → MayGo keep x
      → IsIn es x
      → Left keep (drop_entry x.version_id es) es'
      → Left keep es es'
  one_gone keep x es es' goes there rest = record {
    distinct = rest.distinct;
    stays = λ e e_there busy.
        rest.stays e
          (entry-drop_entry x.version_id e.version_id es
            ∙ rw (other_id x e (differ keep x e es goes there e_there busy)) e_there)
          busy;
    nothing_new = λ k e h. not_dropped x.version_id k es e (rest.nothing_new k e h);
  }

  evict_until-Left :
      (keep : Option ℕ) (used : ℕ) (victims es : Entries)
      → Distinct es
      → Distinct victims
      → All (IsIn es) victims
      → All (MayGo keep) victims
      → Left keep es (evict_until cfg disk_free size new_entry used victims es).1
  unfolding evict_until
  evict_until-Left keep used [] es d v h g = unmoved keep es d
  evict_until-Left keep used (x ∷ victims) es d (apart, v) (there, h) (goes, g) =
      elim (Bool-cases (is_over used es)) [
        | inl over ↦
            subst (λ (r : Bool × Entries). Left keep es r.1)
              (sym (step_over used x victims es over))
              (one_gone keep x es _ goes there (
                evict_until-Left keep (used - charged_bytes x) victims (drop_entry x.version_id es)
                  (drop_entry-Distinct x.version_id es d) v (IsIn-drop_entry x es victims apart h)
                  g))
        | inr under ↦
            subst (λ (r : Bool × Entries). Left keep es r.1)
              (sym (step_under used x victims es under)) (unmoved keep es d)
      ]

  -- When making room reports that the bytes fit, every limit that is set holds once they are added:
  -- the bytes that the remaining entries are charged, the number of entries, and the free disk.
  pub make_room-Fits :
      (keep : Option ℕ) (es : Entries)
      → Distinct es
      → (make_room cfg disk_free size new_entry keep es).0 ≡ true
      → Fits (make_room cfg disk_free size new_entry keep es).1
  unfolding make_room
  make_room-Fits keep es d t =
      evict_until-Fits (used_bytes es) (popped (lru_order keep es)) es refl d
        (popped-Distinct (lru_order keep es) (lru_order-Distinct keep es d))
        (All-popped (IsIn es) (lru_order keep es) (lru_order-IsIn keep es d)) t

  -- Whether or not the bytes fit in the end, making room keeps every entry that is pinned, being
  -- written or being filled, and the entry that room is made for, just as it was; and every entry that
  -- is left was there before.
  pub make_room-Left :
      (keep : Option ℕ) (es : Entries)
      → Distinct es
      → Left keep es (make_room cfg disk_free size new_entry keep es).1
  unfolding make_room
  make_room-Left keep es d =
      evict_until-Left keep (used_bytes es) (popped (lru_order keep es)) es d
        (popped-Distinct (lru_order keep es) (lru_order-Distinct keep es d))
        (All-popped (IsIn es) (lru_order keep es) (lru_order-IsIn keep es d))
        (All-popped (MayGo keep) (lru_order keep es) (lru_order-MayGo keep es))
