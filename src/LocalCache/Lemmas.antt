-- ===== src/LocalCache/Lemmas.antt =====
-- tgdcfs/core/local_cache.py: entries found, dropped and ordered.
use tgdcfs.Base.{
  ℕ, ◌+◌, ◌≡◌, ◌≢◌, refl, sym, Bool, true, false, not, ◌&&◌, Option, none, some, [], ◌∷◌, ◌++◌, leb,
  if◌then◌else◌, String, ◌==◌, string_eq, nat_eq, arith, Bool-cases, inl, inr, All, ==_refl, subst,
}
use native.Mathlib.Nat.{add_comm}
use tgdcfs.LocalCache.{
  Entry, Entries, entry, drop_entry, used_bytes, charged_bytes, evictable, is_kept, insert_recent,
  lru_order, popped,
}

abbrev pub Apart : Entry → Entry → Type 0
Apart e f = e.version_id ≢ f.version_id

-- A dict holds one entry for a version.
abbrev pub Distinct : Entries → Type 0
Distinct [] = Unit
Distinct (e ∷ es) = All (Apart e) es × Distinct es

abbrev pub IsIn : Entries → Entry → Type 0
IsIn es e = entry e.version_id es ≡ some e

pub entry-drop_entry :
    (k j : String) (es : Entries)
    → entry j (drop_entry k es) ≡ (if k == j then none else entry j es)
unfolding entry drop_entry
entry-drop_entry k j [] = ground arith
entry-drop_entry k j (e ∷ es) = ground (
  arith,
  string_eq.eqb_iff k j,
  string_eq.eqb_iff e.version_id k,
  string_eq.eqb_iff e.version_id j,
  entry-drop_entry k j es,
)

drop_entry-absent : (e : Entry) (es : Entries) → All (Apart e) es → drop_entry e.version_id es ≡ es
unfolding drop_entry
drop_entry-absent e [] h = refl
drop_entry-absent e (f ∷ es) (apart, h) =
    ground (arith, string_eq.eqb_iff f.version_id e.version_id, drop_entry-absent e es h)

found_first :
    (f e : Entry) (b : Bool) (r : Option Entry)
    → b ≡ true
    → (if b then some f else r) ≡ some e
    → f ≡ e
found_first f e true r t h = cc
found_first f e false r t h = cc

found_later :
    (f e : Entry) (b : Bool) (r : Option Entry)
    → b ≡ false
    → (if b then some f else r) ≡ some e
    → r ≡ some e
found_later f e true r t h = cc
found_later f e false r t h = h

pub used-drop_entry :
    (e : Entry) (es : Entries)
    → Distinct es
    → IsIn es e
    → used_bytes (drop_entry e.version_id es) + charged_bytes e ≡ used_bytes es
unfolding used_bytes drop_entry entry
used-drop_entry e [] d h = cc
used-drop_entry e (f ∷ es) (apart, d) h = elim (Bool-cases (f.version_id == e.version_id)) [
  | inl same ↦
      let e≡f : e ≡ f =
        sym (found_first f e (f.version_id == e.version_id) (entry e.version_id es) same h) in
      let gone : drop_entry e.version_id es ≡ es =
        drop_entry-absent e es (subst (λ (x : Entry). All (Apart x) es) (sym e≡f) apart) in
      rw (same, gone, e≡f) (add_comm (used_bytes es) (charged_bytes f))
  | inr other ↦
      let later : IsIn es e =
        found_later f e (f.version_id == e.version_id) (entry e.version_id es) other h in
      rw other (omega (arith, used-drop_entry e es d later))
]

pub All-drop_entry :
    (P : Entry → Type 0) (k : String) (es : Entries) → All P es → All P (drop_entry k es)
unfolding drop_entry
All-drop_entry P k [] h = tt
All-drop_entry P k (e ∷ es) (p, h) = elim (Bool-cases (e.version_id == k)) [
  | inl same ↦ rw same (All-drop_entry P k es h)
  | inr other ↦ rw other (p, All-drop_entry P k es h)
]

pub drop_entry-Distinct : (k : String) (es : Entries) → Distinct es → Distinct (drop_entry k es)
unfolding drop_entry
drop_entry-Distinct k [] h = tt
drop_entry-Distinct k (e ∷ es) (apart, h) = elim (Bool-cases (e.version_id == k)) [
  | inl same ↦ rw same (drop_entry-Distinct k es h)
  | inr other ↦ rw other (All-drop_entry (Apart e) k es apart, drop_entry-Distinct k es h)
]

pub other_id : (e f : Entry) → Apart e f → (e.version_id == f.version_id) ≡ false
other_id e f apart = elim (Bool-cases (e.version_id == f.version_id)) [
  | inr other ↦ other
  | inl same ↦ absurd (apart ((string_eq.eqb_iff e.version_id f.version_id).0 same))
]

IsIn-cons :
    (e : Entry) (es fs : Entries) → All (Apart e) fs → All (IsIn es) fs → All (IsIn (e ∷ es)) fs
unfolding entry
IsIn-cons e es [] a h = tt
IsIn-cons e es (f ∷ fs) (apart, a) (there, h) =
    (rw (other_id e f apart) there, IsIn-cons e es fs a h)

pub All-IsIn : (es : Entries) → Distinct es → All (IsIn es) es
unfolding entry
All-IsIn [] h = tt
All-IsIn (e ∷ es) (apart, h) =
    (rw (==_refl e.version_id) refl, IsIn-cons e es es apart (All-IsIn es h))

-- What `lru_order` and `popped` keep of every entry.
All-insert_recent :
    (P : Entry → Type 0) (e : Entry) (vs : Entries) → P e → All P vs → All P (insert_recent e vs)
unfolding insert_recent
All-insert_recent P e [] p h = (p, tt)
All-insert_recent P e (v ∷ vs) p (q, h) = elim (Bool-cases (leb v.last_access e.last_access)) [
  | inl newer ↦ rw newer (p, (q, h))
  | inr older ↦ rw older (q, All-insert_recent P e vs p h)
]

insert_recent-Distinct :
    (e : Entry) (vs : Entries) → All (Apart e) vs → Distinct vs → Distinct (insert_recent e vs)
unfolding insert_recent
insert_recent-Distinct e [] a h = (tt, tt)
insert_recent-Distinct e (v ∷ vs) (a, aa) (b, h) =
    elim (Bool-cases (leb v.last_access e.last_access)) [
      | inl newer ↦ rw newer ((a, aa), (b, h))
      | inr older ↦
          rw older (
            All-insert_recent (Apart v) e vs (λ eq. a (sym eq)) b,
            insert_recent-Distinct e vs aa h,
          )
    ]

All-snoc : (P : Entry → Type 0) (vs : Entries) (e : Entry) → All P vs → P e → All P (vs ++ (e ∷ []))
All-snoc P [] e h p = (p, tt)
All-snoc P (v ∷ vs) e (q, h) p = (q, All-snoc P vs e h p)

pub All-popped : (P : Entry → Type 0) (vs : Entries) → All P vs → All P (popped vs)
unfolding popped
All-popped P [] h = tt
All-popped P (v ∷ vs) (p, h) = All-snoc P (popped vs) v (All-popped P vs h) p

pub snoc-Distinct :
    (vs : Entries) (e : Entry) → All (Apart e) vs → Distinct vs → Distinct (vs ++ (e ∷ []))
snoc-Distinct [] e a h = (tt, tt)
snoc-Distinct (v ∷ vs) e (a, aa) (b, h) =
    (All-snoc (Apart v) vs e b (λ eq. a (sym eq)), snoc-Distinct vs e aa h)

pub popped-Distinct : (vs : Entries) → Distinct vs → Distinct (popped vs)
unfolding popped
popped-Distinct [] h = tt
popped-Distinct (v ∷ vs) (a, h) =
    snoc-Distinct (popped vs) v (All-popped (Apart v) vs a) (popped-Distinct vs h)

-- A victim may go: nothing needs it, and it is not the entry that room is made for.
pub record MayGo (keep : Option ℕ) (e : Entry) : Type 0 where
  pub idle : evictable e ≡ true
  pub unkept : is_kept keep e ≡ false

module _ (keep : Option ℕ) where
  pub All-lru_order : (P : Entry → Type 0) (es : Entries) → All P es → All P (lru_order keep es)
  unfolding lru_order
  All-lru_order P [] h = tt
  All-lru_order P (e ∷ es) (p, h) = elim (Bool-cases (evictable e && not (is_kept keep e))) [
    | inl goes ↦ rw goes (All-insert_recent P e (lru_order keep es) p (All-lru_order P es h))
    | inr stays ↦ rw stays (All-lru_order P es h)
  ]

  pub lru_order-Distinct : (es : Entries) → Distinct es → Distinct (lru_order keep es)
  unfolding lru_order
  lru_order-Distinct [] h = tt
  lru_order-Distinct (e ∷ es) (a, h) = elim (Bool-cases (evictable e && not (is_kept keep e))) [
    | inl goes ↦ rw goes (
        insert_recent-Distinct e (lru_order keep es) (All-lru_order (Apart e) es a)
          (lru_order-Distinct es h))
    | inr stays ↦ rw stays (lru_order-Distinct es h)
  ]

  may_go :
      (a b : Bool)
      → a && not b ≡ true
      → (e : Entry) → evictable e ≡ a
      → is_kept keep e ≡ b
      → MayGo keep e
  may_go true false h e p q = record { idle = p; unkept = q }
  may_go true true h e p q = cc
  may_go false b h e p q = cc

  pub lru_order-MayGo : (es : Entries) → All (MayGo keep) (lru_order keep es)
  unfolding lru_order
  lru_order-MayGo [] = tt
  lru_order-MayGo (e ∷ es) = elim (Bool-cases (evictable e && not (is_kept keep e))) [
    | inl goes ↦ rw goes (
        All-insert_recent (MayGo keep) e (lru_order keep es)
          (may_go (evictable e) (is_kept keep e) goes e refl refl) (lru_order-MayGo es))
    | inr stays ↦ rw stays (lru_order-MayGo es)
  ]

  pub lru_order-IsIn : (es : Entries) → Distinct es → All (IsIn es) (lru_order keep es)
  lru_order-IsIn es h = All-lru_order (IsIn es) es (All-IsIn es h)
