-- ===== src/Directory/Moves.antt =====
-- tgdcfs/core/model/directory.py, `move_to`: a move leaves a tree.
use tgdcfs.Base.{
  ◌&&◌, ◌⊎◌, ℕ, ◌<◌, ◌≡◌, refl, ◌∙◌, sym, ap, subst, ◌==◌, nat_eq, string_eq, Bool, true, false,
  none, some, List, [], ◌∷◌, ◌++◌, String, arith, Bool-cases, inl, inr, All, Option-cases, contains,
  Option,
}
use tgdcfs.Base.Result.{ok, err, require, >>=-eq-ok}
use tgdcfs.Directory.{is_empty}
use tgdcfs.Directory.Tree.{
  Tree, put_dir, same_dir, remove_child, attach, move_to, detach, ascend, find_dirs, move_from,
  or_name, below, DirError, Outcome, is_ancestor_of, validate_name,
}
use tgdcfs.Directory.Rooted.{Avoids-ascend}
use tgdcfs.Directory.Siblings.{
  contains-names_append, nodup_merge, name_gone, with_names-none, some_eq, names, NodupNames,
  IsTree,
}
use tgdcfs.Directory.Placing.{parent_moved, name_moved, files_moved, moved, moved-IsTree}

pub All-merge :
    (P : ℕ → Type 0) (xs : List ℕ) (y : ℕ) (ys : List ℕ) → All P (xs ++ (y ∷ ys)) → All P (xs ++ ys)
All-merge P [] y ys (p, h) = h
All-merge P (x ∷ xs) y ys (p, h) = (p, All-merge P xs y ys h)

fewer :
    (t : Tree) (xs : List ℕ) (c : ℕ) (ys : List ℕ) (n : String)
    → contains (names t (xs ++ (c ∷ ys))) n ≡ false
    → contains (names t (xs ++ ys)) n ≡ false
fewer t xs c ys n h =
    ground (arith, h, contains-names_append t xs (c ∷ ys) n, contains-names_append t xs ys n)

pub require-ok : (b : Bool) (reason : DirError) (u : Unit {0}) → require b reason ≡ ok u → b ≡ true
require-ok true reason u e = refl
require-ok false reason u e = cc

pub ok_eq : {A : Type 0} {x y : A} → ◌≡◌ {A = Outcome A} (ok x) (ok y) → x ≡ y
ok_eq e = ground (arith, e)

module _ (others_equal : Tree → ℕ → ℕ → Bool) where
  pub record Gone (t : Tree) (s : ℕ) (children kept : List ℕ) : Type 0 where
    pub before : List ℕ
    pub child : ℕ
    pub after : List ℕ
    pub stood : children ≡ before ++ (child ∷ after)
    pub left : kept ≡ before ++ after
    pub same : (t.dirs child).name ≡ (t.dirs s).name

  same_dir-name :
      (t : Tree) (a b : ℕ) → same_dir others_equal t a b ≡ true → (t.dirs a).name ≡ (t.dirs b).name
  unfolding same_dir
  same_dir-name t a b e = elim (Bool-cases (a == b)) [
    | inl same ↦ ap (λ (i : ℕ). (t.dirs i).name) ((nat_eq.eqb_iff a b).0 same)
    | inr other ↦ ground (arith, e, other, string_eq.eqb_iff (t.dirs a).name (t.dirs b).name)
  ]

  pub remove_child-Gone :
      (t : Tree) (s : ℕ) (children kept : List ℕ)
      → remove_child others_equal t s children ≡ some kept
      → Gone t s children kept
  unfolding remove_child
  remove_child-Gone t s [] kept e = cc
  remove_child-Gone t s (c ∷ cs) kept e = elim (Bool-cases (same_dir others_equal t c s)) [
    | inl same ↦ record {
      before = [];
      child = c;
      after = cs;
      stood = refl;
      left = sym (some_eq (rw same at e));
      same = same_dir-name t c s same;
    }
    | inr other ↦ elim (Option-cases (remove_child others_equal t s cs)) [
      | inl nothing ↦ cc (rw (other, nothing) at e)
      | inr (rest, f) ↦
          let m = remove_child-Gone t s cs rest f in
          record {
            before = c ∷ m.before;
            child = m.child;
            after = m.after;
            stood = ap (λ (l : List ℕ). c ∷ l) m.stood;
            left = sym (some_eq (rw (other, f) at e)) ∙ ap (λ (l : List ℕ). c ∷ l) m.left;
            same = m.same;
          }
    ]
  ]

  pub move_to-some :
      (fuel now np old : ℕ) (new_name : Option String) (t : Tree) (s : ℕ)
      → (t.dirs s).parent ≡ some old
      → move_to others_equal fuel now np new_name t s
        ≡ move_from others_equal fuel now np (or_name new_name (t.dirs s).name) old t s
  unfolding move_to
  move_to-some fuel now np old new_name t s e = rw (e, move_to) refl

  pub move_to-root :
      (fuel now np : ℕ) (new_name : Option String) (t : Tree) (s : ℕ)
      → (t.dirs s).parent ≡ none
      → move_to others_equal fuel now np new_name t s ≡ err DirError.root_moved
  unfolding move_to
  move_to-root fuel now np new_name t s e = rw (e, move_to) refl

  pub detach-some :
      (now p s : ℕ) (t : Tree) (kept : List ℕ)
      → remove_child others_equal t s (t.dirs p).children ≡ some kept
      → detach others_equal now p s t
        ≡ ok (put_dir p (record (t.dirs p) { children = kept; modified_at = now }) t)
  unfolding detach
  detach-some now p s t kept e = rw (e, detach) refl

  pub detach-none :
      (now p s : ℕ) (t : Tree)
      → remove_child others_equal t s (t.dirs p).children ≡ none
      → detach others_equal now p s t ≡ err DirError.value_error
  unfolding detach
  detach-none now p s t e = rw (e, detach) refl

  -- A move to another place that returns.
  pub record Moved (fuel now np old : ℕ) (name : String) (t : Tree) (s : ℕ) (t' : Tree)
      : Type 0 where
    pub kept : List ℕ
    pub apart : ascend fuel t s (some np) ≡ some false
    pub free : is_empty (find_dirs (name ∷ []) t np) ≡ true
    pub gone : remove_child others_equal t s (t.dirs old).children ≡ some kept
    pub result : moved now name old np s kept t ≡ t'

  below-ok : (o : Option Bool) (u : Unit {0}) → below o ≡ ok u → o ≡ some false
  below-ok none u e = cc
  below-ok (some true) u e = cc
  below-ok (some false) u e = refl

  pub move_from-Moved :
      (fuel now np old : ℕ) (name : String) (t : Tree) (s : ℕ) (t' : Tree)
      → move_from others_equal fuel now np name old t s ≡ ok t'
      → (((np == old && name == (t.dirs s).name) ≡ true) × (t ≡ t'))
        ⊎ Moved fuel now np old name t s t'
  unfolding move_from is_ancestor_of
  move_from-Moved fuel now np old name t s t' e =
      let v = >>=-eq-ok (validate_name name) _ e in
      elim (Bool-cases (np == old && name == (t.dirs s).name)) [
        | inl same ↦ inl (same, ok_eq (rw same at v.2))
        | inr other ↦
            let b = >>=-eq-ok (below (ascend fuel t s (some np))) _ (rw other at v.2) in
            let f =
              >>=-eq-ok
                (require (is_empty (find_dirs (name ∷ []) t np)) (DirError.already_exists name)) _
                b.2 in
            let d = >>=-eq-ok (detach others_equal now old s t) _ f.2 in
            inr (elim (Option-cases (remove_child others_equal t s (t.dirs old).children)) [
              | inl nothing ↦ cc (sym (detach-none now old s t nothing) ∙ d.1)
              | inr (kept, k) ↦ record {
                kept = kept;
                apart = below-ok (ascend fuel t s (some np)) b.0 b.1;
                free =
                    require-ok (is_empty (find_dirs (name ∷ []) t np))
                      (DirError.already_exists name) f.0 f.1;
                gone = k;
                result =
                    ap (λ (u : Tree). attach now name np s u)
                      (ok_eq (sym (detach-some now old s t kept k) ∙ d.1))
                    ∙ ok_eq d.2;
              }
            ])
      ]

  Moved-IsTree :
      (fuel now np old : ℕ) (name : String) (t : Tree) (s : ℕ) (t' : Tree)
      → IsTree t
      → (t.dirs s).parent ≡ some old
      → np < t.count
      → (m : Moved fuel now np old name t s t') → IsTree (moved now name old np s m.kept t)
  unfolding find_dirs
  Moved-IsTree fuel now np old name t s t' tree up made m =
      let g = remove_child-Gone t s (t.dirs old).children m.kept m.gone in
      let names' : NodupNames (names t (g.before ++ (g.child ∷ g.after))) =
        subst (λ (cs : List ℕ). NodupNames (names t cs)) g.stood (tree.siblings old) in
      let links : All (λ (c : ℕ). (t.dirs c).parent ≡ some old) (g.before ++ (g.child ∷ g.after)) =
        subst (All _) g.stood (tree.linked old) in
      moved-IsTree now name old np s m.kept t tree up (Avoids-ascend fuel t s np m.apart) made
        (subst (λ (cs : List ℕ). contains (names t cs) (t.dirs s).name ≡ false) (sym g.left)
          (subst (λ (n : String). contains (names t (g.before ++ g.after)) n ≡ false) g.same
            (name_gone t g.before g.child g.after names')))
        (subst (All _) (sym g.left) (All-merge _ g.before g.child g.after links))
        (subst (λ (cs : List ℕ). NodupNames (names t cs)) (sym g.left)
          (nodup_merge t g.before g.child g.after names'))
        (λ n absent.
          subst (λ (cs : List ℕ). contains (names t cs) n ≡ false) (sym g.left)
            (fewer t g.before g.child g.after n
              (subst (λ (cs : List ℕ). contains (names t cs) n ≡ false) g.stood absent)))
        (with_names-none name t (t.dirs np).children m.free)

pub move_to-IsTree :
    (others_equal : Tree → ℕ → ℕ → Bool) (fuel now np : ℕ) (new_name : Option String) (t : Tree)
    (s : ℕ) (t' : Tree)
    → IsTree t
    → np < t.count
    → move_to others_equal fuel now np new_name t s ≡ ok t'
    → IsTree t'
      × ((t'.dirs s).parent ≡ some np)
      × ((t'.dirs s).name ≡ or_name new_name (t.dirs s).name)
      × ((i : ℕ) → (t'.dirs i).files ≡ (t.dirs i).files)
move_to-IsTree others_equal fuel now np new_name t s t' tree made e =
    elim (Option-cases (t.dirs s).parent) [
      | inl root ↦ cc (sym (move_to-root others_equal fuel now np new_name t s root) ∙ e)
      | inr (old, up) ↦
          let name = or_name new_name (t.dirs s).name in
          elim (move_from-Moved others_equal fuel now np old name t s t'
            (sym (move_to-some others_equal fuel now np old new_name t s up) ∙ e)) [
              | inl (same, still) ↦
                  subst
                    (λ (u : Tree).
                      IsTree u
                      × ((u.dirs s).parent ≡ some np)
                      × ((u.dirs s).name ≡ name)
                      × ((i : ℕ) → (u.dirs i).files ≡ (t.dirs i).files))
                    still
                    (
                      tree,
                      up ∙ ground (arith, same, nat_eq.eqb_iff np old),
                      sym (ground (arith, same, string_eq.eqb_iff name (t.dirs s).name)),
                      λ i. refl,
                    )
              | inr m ↦
                  subst
                    (λ (u : Tree).
                      IsTree u
                      × ((u.dirs s).parent ≡ some np)
                      × ((u.dirs s).name ≡ name)
                      × ((i : ℕ) → (u.dirs i).files ≡ (t.dirs i).files))
                    (Moved.result m)
                    (
                      Moved-IsTree others_equal fuel now np old name t s t' tree up made m,
                      parent_moved now name old np s (Moved.kept m) t s
                          ∙ ground (arith, nat_eq.eqb_iff s s),
                      name_moved now name old np s (Moved.kept m) t s
                          ∙ ground (arith, nat_eq.eqb_iff s s),
                      files_moved now name old np s (Moved.kept m) t,
                    )
            ]
    ]
