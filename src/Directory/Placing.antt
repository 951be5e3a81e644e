-- ===== src/Directory/Placing.antt =====
-- tgdcfs/core/model/directory.py: a directory that is taken out and put in at another place.
use tgdcfs.Base.{
  ℕ, ◌≤◌, ◌<◌, ◌≡◌, ◌≢◌, refl, ◌∙◌, sym, ap, subst, ◌==◌, nat_eq, string_eq, false, if◌then◌else◌,
  none, some, List, [], ◌∷◌, ◌++◌, String, arith, Bool-cases, inl, inr, All, contains, All-map,
  if_both,
}
use tgdcfs.Directory.Tree.{Tree, put_dir, attach}
use tgdcfs.Directory.Rooted.{Rooted, Avoids}
use tgdcfs.Directory.Siblings.{
  nodup_snoc, other_child, All-snoc, some-none, All-pair, names, NodupNames, IsTree,
}

-- What a detached and attached directory leaves: every field of every directory.
module _ (now : ℕ) (name : String) (old np s : ℕ) (kept : List ℕ) (t : Tree) where
  abbrev pub removed : Tree
  removed = put_dir old (record (t.dirs old) { children = kept; modified_at = now }) t

  abbrev pub moved : Tree
  moved = attach now name np s removed

  pub parent_moved :
      (i : ℕ) → (moved.dirs i).parent ≡ (if s == i then some np else (t.dirs i).parent)
  unfolding attach put_dir
  parent_moved i = ground (
    arith,
    nat_eq.eqb_iff s np,
    nat_eq.eqb_iff s i,
    nat_eq.eqb_iff np i,
    nat_eq.eqb_iff old i,
    nat_eq.eqb_iff old np,
    nat_eq.eqb_iff old s,
  )

  pub name_moved : (i : ℕ) → (moved.dirs i).name ≡ (if s == i then name else (t.dirs i).name)
  unfolding attach put_dir
  name_moved i = ground (
    arith,
    nat_eq.eqb_iff s np,
    nat_eq.eqb_iff s i,
    nat_eq.eqb_iff np i,
    nat_eq.eqb_iff old i,
    nat_eq.eqb_iff old np,
    nat_eq.eqb_iff old s,
  )

  pub files_moved : (i : ℕ) → (moved.dirs i).files ≡ (t.dirs i).files
  unfolding attach put_dir
  files_moved i = ground (
    arith,
    nat_eq.eqb_iff s np,
    nat_eq.eqb_iff s i,
    nat_eq.eqb_iff np i,
    nat_eq.eqb_iff old i,
    nat_eq.eqb_iff old np,
    nat_eq.eqb_iff old s,
  )

  abbrev base : ℕ → List ℕ
  base i = if old == i then kept else (t.dirs i).children

  pub children_moved :
      (i : ℕ) → (moved.dirs i).children ≡ (if np == i then base i ++ (s ∷ []) else base i)
  unfolding attach put_dir
  children_moved i = ground (
    arith,
    nat_eq.eqb_iff s np,
    nat_eq.eqb_iff s i,
    nat_eq.eqb_iff np i,
    nat_eq.eqb_iff old i,
    nat_eq.eqb_iff old np,
    nat_eq.eqb_iff old s,
  )

  names_append :
      (cs : List ℕ) → names moved (cs ++ (s ∷ [])) ≡ names moved cs ++ ((moved.dirs s).name ∷ [])
  names_append [] = refl
  names_append (c ∷ cs) = ap (λ (ns : List String). (moved.dirs c).name ∷ ns) (names_append cs)

  leads :
      (i c : ℕ)
      → (t.dirs c).parent ≡ some i
      → (old == i) ≡ false
      → (t.dirs s).parent ≡ some old
      → c ≢ s
  leads i c linked other parent is =
      let both : some i ≡ some old = sym linked ∙ ap (λ (k : ℕ). (t.dirs k).parent) is ∙ parent in
      ground (arith, both, other)

  module _ (tree : IsTree t) (parent : (t.dirs s).parent ≡ some old) (apart : Avoids t s np)
      (np_made : np < t.count) (gone : contains (names t kept) (t.dirs s).name ≡ false)
      (kept_linked : All (λ (c : ℕ). (t.dirs c).parent ≡ some old) kept)
      (kept_named : NodupNames (names t kept))
      (kept_apart : (n : String)
        → contains (names t (t.dirs old).children) n ≡ false
        → contains (names t kept) n ≡ false)
      (free : contains (names t (t.dirs np).children) name ≡ false) where
    -- The children that were there before are other directories.
    others : (i : ℕ) → All (λ (c : ℕ). (c ≢ s) × ((t.dirs c).parent ≡ some i)) (base i)
    others i = elim (Bool-cases (old == i)) [
      | inl same ↦
          let is : old ≡ i = (nat_eq.eqb_iff old i).0 same in
          rw same (
            All-pair _ _ kept (other_child t s kept gone)
              (subst (λ (k : ℕ). All (λ (c : ℕ). (t.dirs c).parent ≡ some k) kept) is kept_linked))
      | inr other ↦ rw other (
          All-map _ _ (λ c linked. (leads i c linked other parent, linked)) (t.dirs i).children
            (tree.linked i))
    ]

    parent_kept : (c i : ℕ) → c ≢ s → (t.dirs c).parent ≡ some i → (moved.dirs c).parent ≡ some i
    parent_kept c i other linked =
        parent_moved c ∙ ground (arith, linked, other, nat_eq.eqb_iff s c)

    linked : (i : ℕ) → All (λ (c : ℕ). (moved.dirs c).parent ≡ some i) (moved.dirs i).children
    linked i =
        let before =
          All-map _ (λ (c : ℕ). (moved.dirs c).parent ≡ some i) (λ c h. parent_kept c i h.0 h.1)
            (base i) (others i) in
        subst (All _) (sym (children_moved i)) (
          if_both (All (λ (c : ℕ). (moved.dirs c).parent ≡ some i)) (np == i) _ _
            (λ here.
              All-snoc _ (base i) s before
                (parent_moved s ∙ ground (arith, here, nat_eq.eqb_iff s s, nat_eq.eqb_iff np i)))
            (λ elsewhere. before))

    names_kept :
        (i : ℕ) (cs : List ℕ)
        → All (λ (c : ℕ). (c ≢ s) × ((t.dirs c).parent ≡ some i)) cs
        → names moved cs ≡ names t cs
    names_kept i [] h = refl
    names_kept i (c ∷ cs) ((other, linked), h) =
        let same : (moved.dirs c).name ≡ (t.dirs c).name =
          name_moved c ∙ ground (arith, other, nat_eq.eqb_iff s c) in
        ap (λ (n : String). n ∷ names moved cs) same
        ∙ ap (λ (ns : List String). (t.dirs c).name ∷ ns) (names_kept i cs h)

    base-NodupNames : (i : ℕ) → NodupNames (names t (base i))
    base-NodupNames i =
        if_both (λ (cs : List ℕ). NodupNames (names t cs)) (old == i) _ _ (λ here. kept_named)
          (λ elsewhere. tree.siblings i)

    base_free : contains (names t (base np)) name ≡ false
    base_free =
        if_both (λ (cs : List ℕ). contains (names t cs) name ≡ false) (old == np) _ _
          (λ here. kept_apart name (
            subst (λ (k : ℕ). contains (names t (t.dirs k).children) name ≡ false)
              (sym ((nat_eq.eqb_iff old np).0 here)) free))
          (λ elsewhere. free)

    names_snoc : (i : ℕ) → names moved (base i ++ (s ∷ [])) ≡ names t (base i) ++ (name ∷ [])
    names_snoc i =
        names_append (base i)
        ∙ ap (λ (ns : List String). ns ++ ((moved.dirs s).name ∷ []))
            (names_kept i (base i) (others i))
        ∙ ap (λ (n : String). names t (base i) ++ (n ∷ []))
            (name_moved s ∙ ground (arith, nat_eq.eqb_iff s s))

    siblings : (i : ℕ) → NodupNames (names moved (moved.dirs i).children)
    siblings i =
        subst (λ (cs : List ℕ). NodupNames (names moved cs)) (sym (children_moved i))
          (if_both (λ (cs : List ℕ). NodupNames (names moved cs)) (np == i) _ _
            (λ here.
              let is : np ≡ i = (nat_eq.eqb_iff np i).0 here in
              subst NodupNames (sym (names_snoc i)) (
                nodup_snoc (names t (base i)) name
                  (subst (λ (k : ℕ). contains (names t (base k)) name ≡ false) is base_free)
                  (base-NodupNames i)))
            (λ elsewhere.
              subst NodupNames (sym (names_kept i (base i) (others i))) (base-NodupNames i)))

    Avoids-Rooted : (i : ℕ) → Avoids t s i → Rooted moved i
    Avoids-Rooted i (Avoids.top other root) =
        Rooted.top (parent_moved i ∙ ground (arith, other, root, nat_eq.eqb_iff s i))
    Avoids-Rooted i (Avoids.under p other up a) =
        Rooted.under p (parent_moved i ∙ ground (arith, other, up, nat_eq.eqb_iff s i))
          (Avoids-Rooted p a)

    self-Rooted : Rooted moved s
    self-Rooted =
        Rooted.under np (parent_moved s ∙ ground (arith, nat_eq.eqb_iff s s))
          (Avoids-Rooted np apart)

    still-Rooted : (i : ℕ) → Rooted t i → Rooted moved i
    still-Rooted i (Rooted.top root) = elim (Bool-cases (s == i)) [
      | inl same ↦ subst (Rooted moved) ((nat_eq.eqb_iff s i).0 same) self-Rooted
      | inr other ↦ Rooted.top (parent_moved i ∙ ground (arith, other, root))
    ]
    still-Rooted i (Rooted.under p up h) = elim (Bool-cases (s == i)) [
      | inl same ↦ subst (Rooted moved) ((nat_eq.eqb_iff s i).0 same) self-Rooted
      | inr other ↦ Rooted.under p (parent_moved i ∙ ground (arith, other, up)) (still-Rooted p h)
    ]

    moved_count : moved.count ≡ t.count
    unfolding attach put_dir
    moved_count = refl

    unborn : (i : ℕ) → t.count ≤ i → ((moved.dirs i).parent ≡ none) × ((moved.dirs i).children ≡ [])
    unborn i le =
        let f = tree.fresh i le in
        let not_self : (s == i) ≡ false = elim (Bool-cases (s == i)) [
          | inr other ↦ other
          | inl same ↦ absurd (
              some-none (
                sym parent ∙ ap (λ (k : ℕ). (t.dirs k).parent) ((nat_eq.eqb_iff s i).0 same) ∙ f.0))
        ] in
        (
          parent_moved i ∙ rw not_self f.0,
          children_moved i
              ∙ ground (
                arith,
                le,
                np_made,
                tree.bound s old parent,
                f.1,
                nat_eq.eqb_iff np i,
                nat_eq.eqb_iff old i,
              ),
        )

    within : (i p : ℕ) → (moved.dirs i).parent ≡ some p → p < t.count
    within i p up = elim (Bool-cases (s == i)) [
      | inl same ↦ ground (arith, np_made, same, sym (parent_moved i) ∙ up)
      | inr other ↦ tree.bound i p (ground (arith, other, sym (parent_moved i) ∙ up))
    ]

    pub moved-IsTree : IsTree moved
    moved-IsTree = record {
      linked = linked;
      siblings = siblings;
      rooted = λ i. still-Rooted i (tree.rooted i);
      fresh = λ i le. unborn i (subst (λ (k : ℕ). k ≤ i) moved_count le);
      bound = λ i p up. subst (λ (k : ℕ). p < k) (sym moved_count) (within i p up);
    }
