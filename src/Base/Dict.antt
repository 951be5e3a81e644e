-- ===== src/Base/Dict.antt =====
-- Python's `dict`: entries in insertion order, an assignment to a known key stays in its place.
use mathlib.Core.Path.{◌≡◌, refl}
use mathlib.Core.Bool.{Bool, true, false, not, ◌&&◌}
use mathlib.Core.Option.{Option, none, some}
use mathlib.Core.List.{List, [], ◌∷◌, ◌++◌}
use native.Mathlib.Omega.{arith}
use tgdcfs.Base.Tests.{if◌then◌else◌}
use tgdcfs.Base.Equality.{Eq, ◌==◌, ==_refl}

abbrev pub Dict {ℓ κ} : Type ℓ → Type κ → Type (ℓ ⊔ κ)
Dict K V = List (K × V)

-- `d.values()`
unfoldable pub values {ℓ κ} : {K : Type ℓ} {V : Type κ} → Dict K V → List V
values [] = []
values ((k, v) ∷ d) = v ∷ values d

module _ {ℓ κ} {K : Type ℓ} {V : Type κ} ⦃e : Eq K⦄ where
  -- `d.get(k)`
  unfoldable pub lookup : K → Dict K V → Option V
  lookup k [] = none
  lookup k ((j, v) ∷ d) = if j == k then some v else lookup k d

  -- `k in d`
  unfoldable pub has_key : K → Dict K V → Bool
  has_key k [] = false
  has_key k ((j, v) ∷ d) = if j == k then true else has_key k d

  -- `d[k] = v`
  unfoldable pub insert : K → V → Dict K V → Dict K V
  insert k v [] = (k, v) ∷ []
  insert k v ((j, w) ∷ d) = if j == k then (j, v) ∷ d else (j, w) ∷ insert k v d

  -- `d.pop(k, None)`. Every entry of the key goes; a dict has at most one.
  unfoldable pub erase : K → Dict K V → Dict K V
  erase k [] = []
  erase k ((j, v) ∷ d) = let rest = erase k d in if j == k then rest else (j, v) ∷ rest

  abbrev pub NodupKeys : Dict K V → Type 0
  NodupKeys [] = Unit
  NodupKeys ((k, v) ∷ d) = (has_key k d ≡ false) × NodupKeys d

module _ {ℓ κ} {K : Type ℓ} {V : Type κ} ⦃e : Eq K⦄ where
  pub lookup-insert :
      (k j : K) (v : V) (d : Dict K V)
      → lookup j (insert k v d) ≡ (if k == j then some v else lookup j d)
  unfolding lookup insert
  lookup-insert k j v [] = refl
  lookup-insert k j v ((i, w) ∷ d) =
      ground (arith, e.eqb_iff k j, e.eqb_iff i k, e.eqb_iff i j, lookup-insert k j v d)

  pub lookup-erase :
      (k j : K) (d : Dict K V) → lookup j (erase k d) ≡ (if k == j then none else lookup j d)
  unfolding lookup erase
  lookup-erase k j [] = ground arith
  lookup-erase k j ((i, w) ∷ d) =
      ground (arith, e.eqb_iff k j, e.eqb_iff i k, e.eqb_iff i j, lookup-erase k j d)

  pub has_key-erase :
      (k j : K) (d : Dict K V) → has_key j (erase k d) ≡ (not (k == j) && has_key j d)
  unfolding has_key erase
  has_key-erase k j [] = ground arith
  has_key-erase k j ((i, w) ∷ d) =
      ground (arith, e.eqb_iff k j, e.eqb_iff i k, e.eqb_iff i j, has_key-erase k j d)

  pub has_key-insert :
      (k j : K) (v : V) (d : Dict K V)
      → has_key j (insert k v d) ≡ (if k == j then true else has_key j d)
  unfolding has_key insert
  has_key-insert k j v [] = refl
  has_key-insert k j v ((i, w) ∷ d) =
      ground (arith, e.eqb_iff k j, e.eqb_iff i k, e.eqb_iff i j, has_key-insert k j v d)

  pub lookup-append :
      (j : K) (c d : Dict K V)
      → lookup j (c ++ d) ≡ elim (lookup j c) [ none ↦ lookup j d | some v ↦ some v ]
  unfolding lookup
  lookup-append j [] d = refl
  lookup-append j ((i, w) ∷ c) d = ground (arith, lookup-append j c d)

  pub has_key-lookup :
      (j : K) (d : Dict K V) → has_key j d ≡ elim (lookup j d) [ none ↦ false | some v ↦ true ]
  unfolding lookup has_key
  has_key-lookup j [] = refl
  has_key-lookup j ((i, w) ∷ d) = ground (arith, has_key-lookup j d)

  pub has_key-append :
      (j : K) (c d : Dict K V) → has_key j (c ++ d) ≡ (if has_key j c then true else has_key j d)
  unfolding has_key
  has_key-append j [] d = refl
  has_key-append j ((i, w) ∷ c) d = ground (arith, has_key-append j c d)

  pub erase-NodupKeys : (k : K) (d : Dict K V) → NodupKeys d → NodupKeys (erase k d)
  unfolding erase
  erase-NodupKeys k [] u = u
  erase-NodupKeys k ((i, w) ∷ d) (fresh, u) =
      ground (arith, has_key-erase k i d, erase-NodupKeys k d u)

  pub insert-NodupKeys : (k : K) (v : V) (d : Dict K V) → NodupKeys d → NodupKeys (insert k v d)
  unfolding insert
  insert-NodupKeys k v [] u = (unfold has_key in refl, tt)
  insert-NodupKeys k v ((i, w) ∷ d) (fresh, u) =
      ground (arith, e.eqb_iff i k, e.eqb_iff k i, has_key-insert k i v d, insert-NodupKeys k v d u)

  -- A fresh key goes to the end.
  pub snoc-NodupKeys :
      (k : K) (v : V) (d : Dict K V)
      → has_key k d ≡ false
      → NodupKeys d
      → NodupKeys (d ++ ((k, v) ∷ []))
  snoc-NodupKeys k v [] fresh u = (unfold has_key in refl, tt)
  snoc-NodupKeys k v ((i, w) ∷ d) fresh (f, u) = (
    unfold has_key in
        ground (arith, has_key-append i d ((k, v) ∷ []), e.eqb_iff i k, e.eqb_iff k i),
    snoc-NodupKeys k v d (unfold has_key in ground arith) u,
  )

  pub has_key-erase_self : (k : K) (d : Dict K V) → has_key k (erase k d) ≡ false
  has_key-erase_self k d = rw (has_key-erase k k d, ==_refl k)

  pub insert-fresh :
      (k : K) (v : V) (d : Dict K V) → has_key k d ≡ false → insert k v d ≡ d ++ ((k, v) ∷ [])
  unfolding has_key insert
  insert-fresh k v [] h = refl
  insert-fresh k v ((j, w) ∷ d) h = ground (arith, insert-fresh k v d)

  pub erase-absent : (k : K) (d : Dict K V) → has_key k d ≡ false → erase k d ≡ d
  unfolding has_key erase
  erase-absent k [] h = refl
  erase-absent k ((j, w) ∷ d) h = ground (arith, erase-absent k d)
