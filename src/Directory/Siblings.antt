-- ===== src/Directory/Siblings.antt =====
-- tgdcfs/core/model/directory.py: what holds of a tree of directories, and the names of siblings.
use tgdcfs.Base.{
  ℕ, ◌≤◌, ◌<◌, ◌≡◌, ◌≢◌, refl, ap, ◌==◌, nat_eq, string_eq, true, false, ◌||◌, none, some, List, [],
  ◌∷◌, ◌++◌, String, arith, All, contains, ==_refl,
}
use tgdcfs.Directory.{is_empty}
use tgdcfs.Directory.Tree.{Tree, with_names}
use tgdcfs.Directory.Rooted.{Rooted}

abbrev pub names : Tree → List ℕ → List String
names t [] = []
names t (c ∷ cs) = (t.dirs c).name ∷ names t cs

abbrev pub NodupNames : List String → Type 0
NodupNames [] = Unit
NodupNames (n ∷ ns) = (contains ns n ≡ false) × NodupNames ns

-- A child names its parent, siblings have different names, every directory leads up to a root, and what is
-- not made yet is nowhere.
pub record IsTree (t : Tree) : Type 0 where
  pub linked : (i : ℕ) → All (λ (c : ℕ). (t.dirs c).parent ≡ some i) (t.dirs i).children
  pub siblings : (i : ℕ) → NodupNames (names t (t.dirs i).children)
  pub rooted : (i : ℕ) → Rooted t i
  pub fresh : (i : ℕ) → t.count ≤ i → ((t.dirs i).parent ≡ none) × ((t.dirs i).children ≡ [])
  pub bound : (i p : ℕ) → (t.dirs i).parent ≡ some p → p < t.count

pub contains-names_append :
    (t : Tree) (xs ys : List ℕ) (n : String)
    → contains (names t (xs ++ ys)) n ≡ (contains (names t xs) n || contains (names t ys) n)
contains-names_append t [] ys n = refl
contains-names_append t (x ∷ xs) ys n = ground (arith, contains-names_append t xs ys n)

pub nodup_merge :
    (t : Tree) (xs : List ℕ) (c : ℕ) (ys : List ℕ)
    → NodupNames (names t (xs ++ (c ∷ ys)))
    → NodupNames (names t (xs ++ ys))
nodup_merge t [] c ys (f, h) = h
nodup_merge t (x ∷ xs) c ys (f, h) = (
  ground (
    arith,
    f,
    contains-names_append t xs (c ∷ ys) (t.dirs x).name,
    contains-names_append t xs ys (t.dirs x).name,
  ),
  nodup_merge t xs c ys h,
)

-- The name of a child is that of no other.
pub name_gone :
    (t : Tree) (xs : List ℕ) (c : ℕ) (ys : List ℕ)
    → NodupNames (names t (xs ++ (c ∷ ys)))
    → contains (names t (xs ++ ys)) (t.dirs c).name ≡ false
name_gone t [] c ys (f, h) = f
name_gone t (x ∷ xs) c ys (f, h) = ground (
  arith,
  f,
  contains-names_append t xs (c ∷ ys) (t.dirs x).name,
  name_gone t xs c ys h,
  string_eq.eqb_iff (t.dirs x).name (t.dirs c).name,
  string_eq.eqb_iff (t.dirs c).name (t.dirs x).name,
)

contains-snoc :
    (ns : List String) (n m : String) → contains (ns ++ (n ∷ [])) m ≡ (contains ns m || (m == n))
contains-snoc [] n m = ground arith
contains-snoc (k ∷ ns) n m = ground (arith, contains-snoc ns n m)

pub nodup_snoc :
    (ns : List String) (n : String)
    → contains ns n ≡ false
    → NodupNames ns
    → NodupNames (ns ++ (n ∷ []))
nodup_snoc [] n f h = (refl, tt)
nodup_snoc (m ∷ ns) n f (g, h) = (
  ground (arith, f, g, contains-snoc ns n m, string_eq.eqb_iff n m, string_eq.eqb_iff m n),
  nodup_snoc ns n (ground (arith, f)) h,
)

pub with_names-none :
    (name : String) (t : Tree) (children : List ℕ)
    → is_empty (with_names (name ∷ []) t children) ≡ true
    → contains (names t children) name ≡ false
unfolding with_names
with_names-none name t [] e = refl
with_names-none name t (c ∷ cs) e = ground (
  arith,
  e,
  with_names-none name t cs,
  string_eq.eqb_iff name (t.dirs c).name,
  string_eq.eqb_iff (t.dirs c).name name,
)

-- A child that has another name is another directory.
pub other_child :
    (t : Tree) (s : ℕ) (cs : List ℕ)
    → contains (names t cs) (t.dirs s).name ≡ false
    → All (λ (c : ℕ). c ≢ s) cs
other_child t s [] h = tt
other_child t s (c ∷ cs) h = (
  (λ same.
      let alike : (t.dirs c).name ≡ (t.dirs s).name = ap (λ (i : ℕ). (t.dirs i).name) same in
      ground (arith, h, alike, ==_refl (t.dirs s).name)),
  other_child t s cs (ground (arith, h)),
)

pub some_eq : {A : Type 0} {x y : A} → some x ≡ some y → x ≡ y
some_eq e = ground (arith, e)

pub All-snoc : (P : ℕ → Type 0) (xs : List ℕ) (y : ℕ) → All P xs → P y → All P (xs ++ (y ∷ []))
All-snoc P [] y h p = (p, tt)
All-snoc P (x ∷ xs) y (q, h) p = (q, All-snoc P xs y h p)

pub some-none : {A : Type 0} {x : A} → some x ≡ none → ⊥
some-none e = ground (arith, e)

pub All-pair :
    (P Q : ℕ → Type 0) (js : List ℕ) → All P js → All Q js → All (λ (j : ℕ). P j × Q j) js
All-pair P Q [] h k = tt
All-pair P Q (j ∷ js) (p, h) (q, k) = ((p, q), All-pair P Q js h k)
