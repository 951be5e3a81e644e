-- ===== src/Directory/Rooted.antt =====
-- tgdcfs/core/model/directory.py: directories that lead up to a root, and the ancestor test.
use tgdcfs.Base.{
  ℕ, zero, suc, ◌+◌, ◌≤◌, ◌≡◌, ◌≢◌, refl, ◌∙◌, sym, ap, subst, ◌==◌, nat_eq, string_eq, Bool, true,
  false, if◌then◌else◌, none, some, arith, Bool-cases, inl, inr, Option-cases, ◌⊎◌,
}
use tgdcfs.Directory.Tree.{Tree, ascend, is_ancestor_of}

-- The parents of a directory lead to one that has none.
pub data Rooted (t : Tree) : ℕ → Type 0 where
  top : {i : ℕ} → (t.dirs i).parent ≡ none → Rooted t i
  under : {i : ℕ} (p : ℕ) → (t.dirs i).parent ≡ some p → Rooted t p → Rooted t i

-- `i` is `s` or lies below it.
pub data Below (t : Tree) (s : ℕ) : ℕ → Type 0 where
  here : {i : ℕ} → i ≡ s → Below t s i
  deeper : {i : ℕ} (p : ℕ) → (t.dirs i).parent ≡ some p → Below t s p → Below t s i

-- The way up from `i` does not meet `s`.
pub data Avoids (t : Tree) (s : ℕ) : ℕ → Type 0 where
  top : {i : ℕ} → i ≢ s → (t.dirs i).parent ≡ none → Avoids t s i
  under : {i : ℕ} (p : ℕ) → i ≢ s → (t.dirs i).parent ≡ some p → Avoids t s p → Avoids t s i

differs : (i s : ℕ) → (i == s) ≡ false → i ≢ s
differs i s h e = ground (arith, h, e)

-- One step of the loop.
ascend-step :
    (fuel : ℕ) (t : Tree) (s i : ℕ)
    → ascend (suc fuel) t s (some i)
      ≡ (if i == s then some true else ascend fuel t s (t.dirs i).parent)
unfolding ascend
ascend-step fuel t s i = refl

ascend-none : (fuel : ℕ) (t : Tree) (s : ℕ) → ascend fuel t s none ≡ some false
unfolding ascend
ascend-none zero t s = refl
ascend-none (suc fuel) t s = refl

ascend-zero : (t : Tree) (s i : ℕ) → ascend zero t s (some i) ≡ none
unfolding ascend
ascend-zero t s i = refl

pub Avoids-ascend :
    (fuel : ℕ) (t : Tree) (s i : ℕ) → ascend fuel t s (some i) ≡ some false → Avoids t s i
Avoids-ascend zero t s i e = cc (sym (ascend-zero t s i) ∙ e)
Avoids-ascend (suc fuel) t s i e = elim (Bool-cases (i == s)) [
  | inl same ↦ cc (rw same at (sym (ascend-step fuel t s i) ∙ e))
  | inr other ↦
      let up : ascend fuel t s (t.dirs i).parent ≡ some false =
        rw other at (sym (ascend-step fuel t s i) ∙ e) in
      elim (Option-cases (t.dirs i).parent) [
        | inl root ↦ Avoids.top (differs i s other) root
        | inr (p, f) ↦
            Avoids.under p (differs i s other) f
              (Avoids-ascend fuel t s p (ap (ascend fuel t s) (sym f) ∙ up))
      ]
]

Below-ascend : (fuel : ℕ) (t : Tree) (s i : ℕ) → ascend fuel t s (some i) ≡ some true → Below t s i
Below-ascend zero t s i e = cc (sym (ascend-zero t s i) ∙ e)
Below-ascend (suc fuel) t s i e = elim (Bool-cases (i == s)) [
  | inl same ↦ Below.here ((nat_eq.eqb_iff i s).0 same)
  | inr other ↦
      let up : ascend fuel t s (t.dirs i).parent ≡ some true =
        rw other at (sym (ascend-step fuel t s i) ∙ e) in
      elim (Option-cases (t.dirs i).parent) [
        | inl root ↦ cc (sym (ascend-none fuel t s) ∙ ap (ascend fuel t s) (sym root) ∙ up)
        | inr (p, f) ↦
            Below.deeper p f (Below-ascend fuel t s p (ap (ascend fuel t s) (sym f) ∙ up))
      ]
]

Avoids-Below : (t : Tree) (s i : ℕ) → Avoids t s i → Below t s i → ⊥
Avoids-Below t s i (Avoids.top other root) (Below.here same) = other same
Avoids-Below t s i (Avoids.under p other up a) (Below.here same) = other same
Avoids-Below t s i (Avoids.top other root) (Below.deeper q up b) = cc (sym root ∙ up)
Avoids-Below t s i (Avoids.under p other up a) (Below.deeper q up' b) =
    let same : q ≡ p = ground (arith, sym up ∙ up') in
    Avoids-Below t s p a (subst (Below t s) same b)

ascend-at_top :
    (t : Tree) (s i fuel : ℕ)
    → (t.dirs i).parent ≡ none
    → 1 ≤ fuel
    → (b : Bool) × (ascend fuel t s (some i) ≡ some b)
ascend-at_top t s i zero root le = absurd (omega arith)
ascend-at_top t s i (suc fuel) root le = elim (Bool-cases (i == s)) [
  | inl same ↦ (true, ascend-step fuel t s i ∙ rw same refl)
  | inr other ↦
      (false, ascend-step fuel t s i ∙ rw other (ap (ascend fuel t s) root ∙ ascend-none fuel t s))
]

ascend-further :
    (t : Tree) (s i p enough fuel : ℕ)
    → (t.dirs i).parent ≡ some p
    → ((f : ℕ) → enough ≤ f → (b : Bool) × (ascend f t s (some p) ≡ some b))
    → enough + 1 ≤ fuel
    → (b : Bool) × (ascend fuel t s (some i) ≡ some b)
ascend-further t s i p enough zero up ih le = absurd (omega arith)
ascend-further t s i p enough (suc fuel) up ih le = elim (Bool-cases (i == s)) [
  | inl same ↦ (true, ascend-step fuel t s i ∙ rw same refl)
  | inr other ↦
      let r = ih fuel (omega arith) in
      (r.0, ascend-step fuel t s i ∙ rw other (ap (ascend fuel t s) up ∙ r.1))
]

-- Enough fuel: the number of directories on the way up.
ascend-total :
    (t : Tree) (s i : ℕ)
    → Rooted t i
    → (enough : ℕ) × ((fuel : ℕ) → enough ≤ fuel → (b : Bool) × (ascend fuel t s (some i) ≡ some b))
ascend-total t s i (Rooted.top root) = (1, λ fuel le. ascend-at_top t s i fuel root le)
ascend-total t s i (Rooted.under p up h) =
    let ih = ascend-total t s p h in
    (ih.0 + 1, λ fuel le. ascend-further t s i p ih.0 fuel up ih.1 le)

decided :
    (t : Tree) (self other fuel : ℕ)
    → (b : Bool) × (ascend fuel t self (some other) ≡ some b)
    → ((ascend fuel t self (some other) ≡ some true) × Below t self other)
      ⊎ ((ascend fuel t self (some other) ≡ some false) × (Below t self other → ⊥))
decided t self other fuel (true, e) = inl (e, Below-ascend fuel t self other e)
decided t self other fuel (false, e) =
    inr (e, Avoids-Below t self other (Avoids-ascend fuel t self other e))

-- From a directory that leads up to a root, the loop of `is_ancestor_of` ends after finitely many rounds, and
-- its answer is whether the directory is the other one or lies below it.
pub is_ancestor_of-Below :
    (t : Tree) (self other : ℕ)
    → Rooted t other
    → (enough : ℕ) × ((fuel : ℕ)
        → enough ≤ fuel
        → ((is_ancestor_of fuel t self other ≡ some true) × Below t self other)
          ⊎ ((is_ancestor_of fuel t self other ≡ some false) × (Below t self other → ⊥)))
unfolding is_ancestor_of
is_ancestor_of-Below t self other h =
    let total = ascend-total t self other h in
    (total.0, λ fuel le. decided t self other fuel (total.1 fuel le))
