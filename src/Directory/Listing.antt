-- ===== src/Directory/Listing.antt =====
-- tgdcfs/core/model/directory.py, `move_to`: which directory lists which.
use tgdcfs.Base.{
  ℕ, ◌<◌, ◌≡◌, ◌≢◌, refl, ◌∙◌, sym, ap, subst, ◌==◌, nat_eq, string_eq, Bool, true, false, ◌||◌,
  if◌then◌else◌, Option, some, List, [], ◌∷◌, ◌++◌, String, arith, Bool-cases, inl, inr, All,
  contains,
}
use tgdcfs.Base.Result.{ok}
use tgdcfs.Directory.Tree.{Tree, remove_child, move_to, or_name}
use tgdcfs.Directory.Siblings.{IsTree, names, NodupNames, name_gone, other_child, some_eq}
use tgdcfs.Directory.Moves.{
  Gone, remove_child-Gone, Moved, move_from-Moved, move_to-some, move_to-IsTree,
}
use tgdcfs.Directory.Placing.{children_moved, parent_moved}

-- `c` is among the children of `i`.
abbrev pub lists : Tree → ℕ → ℕ → Bool
lists t i c = contains (t.dirs i).children c

pub contains-append :
    (xs ys : List ℕ) (n : ℕ) → contains (xs ++ ys) n ≡ (contains xs n || contains ys n)
contains-append [] ys n = refl
contains-append (x ∷ xs) ys n = ground (arith, contains-append xs ys n)

between :
    (b : List ℕ) (x : ℕ) (a : List ℕ) (n : ℕ)
    → contains (b ++ (x ∷ a)) n ≡ (x == n || contains (b ++ a) n)
between b x a n =
    contains-append b (x ∷ a) n
    ∙ ground (arith, contains-append b a n, nat_eq.eqb_iff x n, nat_eq.eqb_iff n x)

none_is : (s : ℕ) (cs : List ℕ) → All (λ (c : ℕ). c ≢ s) cs → contains cs s ≡ false
none_is s [] h = refl
none_is s (c ∷ cs) (other, h) =
    ground (arith, other, none_is s cs h, nat_eq.eqb_iff c s, nat_eq.eqb_iff s c)

-- A child has one parent.
one_parent :
    (t : Tree) (i c p : ℕ) (cs : List ℕ)
    → All (λ (k : ℕ). (t.dirs k).parent ≡ some i) cs
    → contains cs c ≡ true
    → (t.dirs c).parent ≡ some p
    → i ≡ p
one_parent t i c p [] h there up = cc
one_parent t i c p (k ∷ cs) (linked, h) there up = elim (Bool-cases (k == c)) [
  | inl same ↦
      some_eq (sym linked ∙ ap (λ (x : ℕ). (t.dirs x).parent) ((nat_eq.eqb_iff k c).0 same) ∙ up)
  | inr other ↦
      one_parent t i c p cs h (ground (arith, there, other, nat_eq.eqb_iff k c, nat_eq.eqb_iff c k))
        up
]

pub only_under :
    (t : Tree) (s p i : ℕ)
    → IsTree t
    → (t.dirs s).parent ≡ some p
    → (p == i) ≡ false
    → lists t i s ≡ false
only_under t s p i tree up other = elim (Bool-cases (lists t i s)) [
  | inr absent ↦ absent
  | inl there ↦
      let is = one_parent t i s p (t.dirs i).children (tree.linked i) there up in
      absurd (ground (arith, is, other, nat_eq.eqb_iff p i))
]

module _ (others_equal : Tree → ℕ → ℕ → Bool) where
  -- Where the directory is listed, it is the one that is taken out, and the others stay.
  pub remove_child-contains :
      (t : Tree) (s : ℕ) (cs kept : List ℕ)
      → NodupNames (names t cs)
      → contains cs s ≡ true
      → remove_child others_equal t s cs ≡ some kept
      → (c : ℕ) → contains kept c ≡ (if c == s then false else contains cs c)
  remove_child-contains t s cs kept named there e c =
      let g = remove_child-Gone others_equal t s cs kept e in
      let b = Gone.before g in
      let a = Gone.after g in
      let x = Gone.child g in
      let apart : contains (names t (b ++ a)) (t.dirs x).name ≡ false =
        name_gone t b x a (subst (λ (l : List ℕ). NodupNames (names t l)) (Gone.stood g) named) in
      let absent : contains (b ++ a) s ≡ false = none_is s (b ++ a) (
        other_child t s (b ++ a)
          (subst (λ (n : String). contains (names t (b ++ a)) n ≡ false) (Gone.same g) apart)) in
      let found : contains (b ++ (x ∷ a)) s ≡ true =
        subst (λ (l : List ℕ). contains l s ≡ true) (Gone.stood g) there in
      let is : (x == s) ≡ true = ground (arith, found, between b x a s, absent) in
      ap (λ (l : List ℕ). contains l c) (Gone.left g) ∙ elim (Bool-cases (c == s)) [
        | inl same ↦
            rw same (ap (λ (k : ℕ). contains (b ++ a) k) ((nat_eq.eqb_iff c s).0 same) ∙ absent)
        | inr other ↦ rw other (
            let apart_from : (x == c) ≡ false =
              ground
                (arith, other, is, nat_eq.eqb_iff x s, nat_eq.eqb_iff c s, nat_eq.eqb_iff x c) in
            sym (
              ap (λ (l : List ℕ). contains l c) (Gone.stood g)
              ∙ between b x a c
              ∙ rw apart_from refl))
      ]

  Moved-lists :
      (fuel now np old : ℕ) (name : String) (t : Tree) (s : ℕ) (t' : Tree)
      → IsTree t
      → (t.dirs s).parent ≡ some old
      → lists t old s ≡ true
      → Moved others_equal fuel now np old name t s t'
      → (i c : ℕ) → lists t' i c ≡ (if c == s then np == i else lists t i c)
  Moved-lists fuel now np old name t s t' tree up listed m i c =
      let kept = Moved.kept m in
      let out =
        remove_child-contains t s (t.dirs old).children kept (tree.siblings old) listed
          (Moved.gone m) in
      let base : List ℕ = if old == i then kept else (t.dirs i).children in
      let at_base : contains base c ≡ (if c == s then false else lists t i c) =
        elim (Bool-cases (old == i)) [
          | inl same ↦ rw same (
              out c
              ∙ ap (λ (k : ℕ). if c == s then false else lists t k c)
                  ((nat_eq.eqb_iff old i).0 same))
          | inr other ↦ rw other (elim (Bool-cases (c == s)) [
            | inr differ ↦ rw differ refl
            | inl is ↦
                rw is
                  (ap (lists t i) ((nat_eq.eqb_iff c s).0 is) ∙ only_under t s old i tree up other)
          ])
        ] in
      ap (λ (u : Tree). lists u i c) (sym (Moved.result m))
      ∙ ap (λ (l : List ℕ). contains l c) (children_moved now name old np s kept t i)
      ∙ elim (Bool-cases (np == i)) [
        | inr other ↦ rw other (at_base ∙ ground (arith, other))
        | inl same ↦ rw same (contains-append base (s ∷ []) c ∙ ground (arith, at_base))
      ]

-- A move in a tree, if it returns, leaves a tree: siblings have different names, a child names its parent, and
-- every directory, those below the moved one included, still leads up to a root, so no circle is closed. The
-- directory has its new parent and its new name, it is among the children of its new parent and of no other
-- directory, and every other directory keeps its parent and is among the children that it was among before. No
-- directory's files change. The directory was listed by its parent before, and the new parent was one of the
-- tree.
pub move_to-lists :
    (others_equal : Tree → ℕ → ℕ → Bool) (fuel now np : ℕ) (new_name : Option String) (t : Tree)
    (s old : ℕ) (t' : Tree)
    → IsTree t
    → (t.dirs s).parent ≡ some old
    → lists t old s ≡ true
    → np < t.count
    → move_to others_equal fuel now np new_name t s ≡ ok t'
    → IsTree t'
      × ((t'.dirs s).parent ≡ some np)
      × ((t'.dirs s).name ≡ or_name new_name (t.dirs s).name)
      × ((i c : ℕ) → lists t' i c ≡ (if c == s then np == i else lists t i c))
      × ((c : ℕ) → (c == s) ≡ false → (t'.dirs c).parent ≡ (t.dirs c).parent)
      × ((i : ℕ) → (t'.dirs i).files ≡ (t.dirs i).files)
move_to-lists others_equal fuel now np new_name t s old t' tree up listed made e =
    let (tree', parent, name, files) =
      move_to-IsTree others_equal fuel now np new_name t s t' tree made e in
    let moved =
      move_from-Moved others_equal fuel now np old (or_name new_name (t.dirs s).name) t s t'
        (sym (move_to-some others_equal fuel now np old new_name t s up) ∙ e) in
    (
      tree',
      parent,
      name,
      (λ i c. elim moved [
        | inr m ↦
            Moved-lists others_equal fuel now np old (or_name new_name (t.dirs s).name) t s t' tree
              up listed m i c
        | inl (same, still) ↦
            ap (λ (u : Tree). lists u i c) (sym still) ∙ elim (Bool-cases (c == s)) [
              | inr other ↦ rw other refl
              | inl is ↦ rw is (
                  ap (lists t i) ((nat_eq.eqb_iff c s).0 is) ∙ elim (Bool-cases (old == i)) [
                    | inl here ↦
                        ap (λ (k : ℕ). lists t k s) (sym ((nat_eq.eqb_iff old i).0 here))
                        ∙ listed
                        ∙ ground (
                          arith,
                          here,
                          same,
                          nat_eq.eqb_iff np old,
                          nat_eq.eqb_iff old i,
                          nat_eq.eqb_iff np i,
                        )
                    | inr other ↦
                        only_under t s old i tree up other
                        ∙ ground (
                          arith,
                          other,
                          same,
                          nat_eq.eqb_iff np old,
                          nat_eq.eqb_iff old i,
                          nat_eq.eqb_iff np i,
                        )
                  ])
            ]
      ]),
      (λ c other. elim moved [
        | inr m ↦
            ap (λ (u : Tree). (u.dirs c).parent) (sym (Moved.result m))
            ∙ parent_moved now (or_name new_name (t.dirs s).name) old np s (Moved.kept m) t c
            ∙ ground (arith, other, nat_eq.eqb_iff c s, nat_eq.eqb_iff s c)
        | inl (same, still) ↦ ap (λ (u : Tree). (u.dirs c).parent) (sym still)
      ]),
      files,
    )
