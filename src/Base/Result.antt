-- ===== src/Base/Result.antt =====
-- A call that returns or raises.
use mathlib.Core.Path.{◌≡◌, refl}
use mathlib.Core.Bool.{Bool, true, false}

pub data Result {ℓ κ} (E : Type κ) (A : Type ℓ) : Type (ℓ ⊔ κ) where
  ok : A → Result E A
  err : E → Result E A

module _ {κ} {E : Type κ} where
  infixl 10 ◌>>=◌ ◌>>◌
  abbrev pub ◌>>=◌ {ℓ μ} : {A : Type ℓ} {B : Type μ} → Result E A → (A → Result E B) → Result E B
  err reason >>= next = err reason
  ok value >>= next = next value

  abbrev pub ◌>>◌ {ℓ} : {B : Type ℓ} → Result E (Unit {0}) → Result E B → Result E B
  first >> second = first >>= λ done. second

  -- `if not test: raise reason`
  abbrev pub require : Bool → E → Result E (Unit {0})
  require false reason = err reason
  require true reason = ok tt

  pub >>=-eq-ok {ℓ μ} :
      {A : Type ℓ} {B : Type μ} (run : Result E A) (next : A → Result E B) {result : B}
      → (run >>= next) ≡ ok result
      → (value : A) × (run ≡ ok value) × (next value ≡ ok result)
  >>=-eq-ok (err reason) next h = cc
  >>=-eq-ok (ok value) next h = (value, refl, h)
