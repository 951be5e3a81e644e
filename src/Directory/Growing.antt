-- ===== src/Directory/Growing.antt =====
-- tgdcfs/core/model/directory.py, `create_dir`: a new directory leaves a tree.
use tgdcfs.Base.{
  ℕ, ◌+◌, ◌<◌, ◌≡◌, refl, ◌∙◌, sym, ap, subst, ◌==◌, nat_eq, string_eq, true, false, if◌then◌else◌,
  some, List, [], ◌∷◌, ◌++◌, String, arith, Bool-cases, inl, inr, All, All-map, contains, if_both,
  Option-cases,
}
use tgdcfs.Base.Result.{ok, require, >>=-eq-ok}
use tgdcfs.Directory
use tgdcfs.Directory.{FileRefList, is_empty}
use tgdcfs.Directory.Tree.{Dir, Tree, DirError, validate_name, put_dir, find_dirs, create_dir}
use tgdcfs.Directory.Rooted.{Rooted}
use tgdcfs.Directory.Siblings.{
  IsTree, names, NodupNames, All-snoc, nodup_snoc, with_names-none, some_eq,
}
use tgdcfs.Directory.Moves.{ok_eq, require-ok}

module _ (name : String) (now : ℕ) (t : Tree) (d : ℕ) where
  abbrev child : Dir
  child = record {
    name = name;
    parent = some d;
    children = [];
    files = Directory.of_refs [];
    created_at = now;
    modified_at = now;
  }

  abbrev made : Tree
  made = record (put_dir t.count child t) { count = t.count + 1 }

  abbrev pub grown : Tree
  grown =
      put_dir d
        (record (made.dirs d) {
          children = (made.dirs d).children ++ (t.count ∷ []);
          modified_at = now;
        })
        made

  pub create_dir-ok :
      (c : ℕ) (t' : Tree)
      → create_dir name now t d ≡ ok (c, t')
      → (is_empty (find_dirs (name ∷ []) t d) ≡ true) × (grown ≡ t')
  unfolding create_dir
  create_dir-ok c t' e =
      let f =
        >>=-eq-ok (require (is_empty (find_dirs (name ∷ []) t d)) (DirError.already_exists name)) _
          e in
      let v = >>=-eq-ok (validate_name name) _ f.2 in
      (
        require-ok (is_empty (find_dirs (name ∷ []) t d)) (DirError.already_exists name) f.0 f.1,
        ap (λ (r : ℕ × Tree). r.1) (ok_eq v.2),
      )

  module _ (tree : IsTree t) (here : d < t.count) where
    pub parent_grown :
        (i : ℕ) → (grown.dirs i).parent ≡ (if t.count == i then some d else (t.dirs i).parent)
    unfolding put_dir
    parent_grown i =
        ground (arith, nat_eq.eqb_iff d i, nat_eq.eqb_iff t.count i, nat_eq.eqb_iff t.count d)

    name_grown : (i : ℕ) → (grown.dirs i).name ≡ (if t.count == i then name else (t.dirs i).name)
    unfolding put_dir
    name_grown i =
        ground (arith, nat_eq.eqb_iff d i, nat_eq.eqb_iff t.count i, nat_eq.eqb_iff t.count d)

    pub no_children : (t.dirs t.count).children ≡ []
    no_children = (tree.fresh t.count (omega arith)).1

    pub children_grown :
        (i : ℕ)
        → (grown.dirs i).children
          ≡ (if d == i then (t.dirs i).children ++ (t.count ∷ []) else (t.dirs i).children)
    unfolding put_dir
    children_grown i = elim (Bool-cases (d == i)) [
      | inl same ↦
          let is : d ≡ i = (nat_eq.eqb_iff d i).0 same in
          let apart : (t.count == d) ≡ false = ground (arith, nat_eq.eqb_iff t.count d) in
          rw (same, apart) (ap (λ (k : ℕ). (t.dirs k).children ++ (t.count ∷ [])) is)
      | inr other ↦ elim (Bool-cases (t.count == i)) [
        | inl new ↦
            rw (other, new)
              (sym no_children
                ∙ ap (λ (k : ℕ). (t.dirs k).children) ((nat_eq.eqb_iff t.count i).0 new))
        | inr old ↦ rw (other, old) refl
      ]
    ]

    pub old_child : (c i : ℕ) → (t.dirs c).parent ≡ some i → (t.count == c) ≡ false
    old_child c i up = elim (Bool-cases (t.count == c)) [
      | inr old ↦ old
      | inl new ↦
          let is : t.count ≡ c = (nat_eq.eqb_iff t.count c).0 new in
          cc
            (sym ((tree.fresh t.count (omega arith)).0) ∙ ap (λ (k : ℕ). (t.dirs k).parent) is ∙ up)
    ]

    parent_old : (c i : ℕ) → (t.dirs c).parent ≡ some i → (grown.dirs c).parent ≡ some i
    parent_old c i up = parent_grown c ∙ rw (old_child c i up) up

    names_old :
        (i : ℕ) (cs : List ℕ)
        → All (λ (c : ℕ). (t.dirs c).parent ≡ some i) cs
        → names grown cs ≡ names t cs
    names_old i [] h = refl
    names_old i (c ∷ cs) (up, h) =
        ap (λ (n : String). n ∷ names grown cs) (name_grown c ∙ rw (old_child c i up) refl)
        ∙ ap (λ (ns : List String). (t.dirs c).name ∷ ns) (names_old i cs h)

    names_snoc :
        (cs : List ℕ)
        → names grown (cs ++ (t.count ∷ [])) ≡ names grown cs ++ ((grown.dirs t.count).name ∷ [])
    names_snoc [] = refl
    names_snoc (c ∷ cs) = ap (λ (ns : List String). (grown.dirs c).name ∷ ns) (names_snoc cs)

    Rooted-grown : (i : ℕ) → i < t.count → Rooted t i → Rooted grown i
    Rooted-grown i lt (Rooted.top root) =
        Rooted.top (parent_grown i ∙ ground (arith, lt, root, nat_eq.eqb_iff t.count i))
    Rooted-grown i lt (Rooted.under p up r) =
        Rooted.under p (parent_old i p up) (Rooted-grown p (tree.bound i p up) r)

    new_name : (grown.dirs t.count).name ≡ name
    new_name = name_grown t.count ∙ ground (arith, nat_eq.eqb_iff t.count t.count)

    new_parent : (grown.dirs t.count).parent ≡ some d
    new_parent = parent_grown t.count ∙ ground (arith, nat_eq.eqb_iff t.count t.count)

    grown-IsTree : contains (names t (t.dirs d).children) name ≡ false → IsTree grown
    unfolding put_dir
    grown-IsTree free = record {
      linked = λ i.
          let before =
            All-map _ (λ (c : ℕ). (grown.dirs c).parent ≡ some i) (λ c up. parent_old c i up)
              (t.dirs i).children (tree.linked i) in
          subst (All _) (sym (children_grown i)) (
            if_both (All (λ (c : ℕ). (grown.dirs c).parent ≡ some i)) (d == i) _ _
              (λ same.
                All-snoc _ (t.dirs i).children t.count before
                  (new_parent ∙ ap (λ (k : ℕ). some k) ((nat_eq.eqb_iff d i).0 same)))
              (λ other. before));
      siblings = λ i.
          let same_names = names_old i (t.dirs i).children (tree.linked i) in
          subst (λ (cs : List ℕ). NodupNames (names grown cs)) (sym (children_grown i))
            (if_both (λ (cs : List ℕ). NodupNames (names grown cs)) (d == i) _ _
              (λ same.
                subst NodupNames
                  (sym (
                    names_snoc (t.dirs i).children
                    ∙ ap (λ (n : String). names grown (t.dirs i).children ++ (n ∷ [])) new_name
                    ∙ ap (λ (ns : List String). ns ++ (name ∷ [])) same_names))
                  (nodup_snoc (names t (t.dirs i).children) name
                    (subst (λ (k : ℕ). contains (names t (t.dirs k).children) name ≡ false)
                      ((nat_eq.eqb_iff d i).0 same) free)
                    (tree.siblings i)))
              (λ other. subst NodupNames (sym same_names) (tree.siblings i)));
      rooted = λ i. elim (Bool-cases (t.count == i)) [
        | inl new ↦
            subst (Rooted grown) ((nat_eq.eqb_iff t.count i).0 new)
              (Rooted.under d new_parent (Rooted-grown d here (tree.rooted d)))
        | inr other ↦ elim (Option-cases (t.dirs i).parent) [
          | inl root ↦ Rooted.top (parent_grown i ∙ rw other root)
          | inr (p, up) ↦
              Rooted.under p (parent_old i p up)
                (Rooted-grown p (tree.bound i p up) (tree.rooted p))
        ]
      ];
      fresh = λ i le.
          let old = tree.fresh i (omega (arith, le)) in
          let apart : (t.count == i) ≡ false = ground (arith, le, nat_eq.eqb_iff t.count i) in
          let away : (d == i) ≡ false = ground (arith, le, here, nat_eq.eqb_iff d i) in
          (parent_grown i ∙ rw apart old.0, children_grown i ∙ rw away old.1);
      bound = λ i p up. elim (Bool-cases (t.count == i)) [
        | inl new ↦
            let is : d ≡ p = some_eq (sym (parent_grown i ∙ rw new refl) ∙ up) in
            omega (arith, here, is)
        | inr other ↦
            let lt = tree.bound i p (sym (parent_grown i ∙ rw other refl) ∙ up) in omega (arith, lt)
      ];
    }

  pub create_dir-IsTree :
      (c : ℕ) (t' : Tree)
      → IsTree t
      → d < t.count
      → create_dir name now t d ≡ ok (c, t')
      → IsTree t'
  unfolding find_dirs
  create_dir-IsTree c t' tree here e =
      let made = create_dir-ok c t' e in
      subst IsTree made.1
        (grown-IsTree tree here (with_names-none name t (t.dirs d).children made.0))
