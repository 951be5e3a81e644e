-- ===== src/Directory/Shrinking.antt =====
-- tgdcfs/core/model/directory.py, `delete`: a directory less leaves a tree.
use tgdcfs.Base.{
  ℕ, ◌≡◌, refl, ◌∙◌, sym, ap, subst, ◌==◌, nat_eq, string_eq, Bool, if◌then◌else◌, none, some, List,
  [], ◌∷◌, ◌++◌, String, arith, Bool-cases, inl, inr, All, All-map, if_both, Option-cases,
}
use tgdcfs.Base.Result.{ok}
use tgdcfs.Directory
use tgdcfs.Directory.{FileRefList, is_empty}
use tgdcfs.Directory.Tree.{Tree, put_dir, remove_child, detach, delete}
use tgdcfs.Directory.Rooted.{Rooted}
use tgdcfs.Directory.Siblings.{IsTree, names, NodupNames, nodup_merge}
use tgdcfs.Directory.Moves.{Gone, remove_child-Gone, detach-some, detach-none, ok_eq, All-merge}

-- A directory that loses children.
module _ (p now : ℕ) (kept : List ℕ) (files : FileRefList) (t : Tree) where
  abbrev pub shrunk : Tree
  shrunk = put_dir p (record (t.dirs p) { children = kept; files = files; modified_at = now }) t

  pub parent_shrunk : (i : ℕ) → (shrunk.dirs i).parent ≡ (t.dirs i).parent
  unfolding put_dir
  parent_shrunk i = ground (arith, nat_eq.eqb_iff p i)

  pub children_shrunk :
      (i : ℕ) → (shrunk.dirs i).children ≡ (if p == i then kept else (t.dirs i).children)
  unfolding put_dir
  children_shrunk i = ground (arith, nat_eq.eqb_iff p i)

  names-shrunk : (cs : List ℕ) → names shrunk cs ≡ names t cs
  unfolding put_dir
  names-shrunk [] = refl
  names-shrunk (c ∷ cs) =
      let same : (shrunk.dirs c).name ≡ (t.dirs c).name = ground (arith, nat_eq.eqb_iff p c) in
      ap (λ (n : String). n ∷ names shrunk cs) same
      ∙ ap (λ (ns : List String). (t.dirs c).name ∷ ns) (names-shrunk cs)

  Rooted-shrunk : (i : ℕ) → Rooted t i → Rooted shrunk i
  Rooted-shrunk i (Rooted.top root) = Rooted.top (parent_shrunk i ∙ root)
  Rooted-shrunk i (Rooted.under q up r) = Rooted.under q (parent_shrunk i ∙ up) (Rooted-shrunk q r)

  shrunk-IsTree :
      IsTree t
      → All (λ (c : ℕ). (t.dirs c).parent ≡ some p) kept
      → NodupNames (names t kept)
      → ((t.dirs p).children ≡ [] → kept ≡ [])
      → IsTree shrunk
  unfolding put_dir
  shrunk-IsTree tree links named fewer = record {
    linked = λ i.
        let up : (cs : List ℕ)
            → All (λ (c : ℕ). (t.dirs c).parent ≡ some i) cs
            → All (λ (c : ℕ). (shrunk.dirs c).parent ≡ some i) cs =
          λ cs h. All-map _ _ (λ c e. parent_shrunk c ∙ e) cs h in
        subst (All _) (sym (children_shrunk i)) (
          if_both (All (λ (c : ℕ). (shrunk.dirs c).parent ≡ some i)) (p == i) _ _
            (λ same. up kept (
              subst (λ (k : ℕ). All (λ (c : ℕ). (t.dirs c).parent ≡ some k) kept)
                ((nat_eq.eqb_iff p i).0 same) links))
            (λ other. up (t.dirs i).children (tree.linked i)));
    siblings = λ i.
        subst (λ (cs : List ℕ). NodupNames (names shrunk cs)) (sym (children_shrunk i))
          (if_both (λ (cs : List ℕ). NodupNames (names shrunk cs)) (p == i) _ _
            (λ same. subst NodupNames (sym (names-shrunk kept)) named)
            (λ other. subst NodupNames (sym (names-shrunk (t.dirs i).children)) (tree.siblings i)));
    rooted = λ i. Rooted-shrunk i (tree.rooted i);
    fresh = λ i le.
        let old = tree.fresh i le in
        (
          parent_shrunk i ∙ old.0,
          children_shrunk i ∙ elim (Bool-cases (p == i)) [
            | inl same ↦
                rw same (
                  fewer (ap (λ (k : ℕ). (t.dirs k).children) ((nat_eq.eqb_iff p i).0 same) ∙ old.1))
            | inr other ↦ rw other old.1
          ],
        );
    bound = λ i q up. tree.bound i q (sym (parent_shrunk i) ∙ up);
  }

pub delete-under :
    (others_equal : Tree → ℕ → ℕ → Bool) (now : ℕ) (t : Tree) (self p : ℕ)
    → (t.dirs self).parent ≡ some p
    → delete others_equal now t self ≡ detach others_equal now p self t
unfolding delete
delete-under others_equal now t self p up = rw (up, delete) refl

pub delete-root :
    (others_equal : Tree → ℕ → ℕ → Bool) (now : ℕ) (t : Tree) (self : ℕ) (t' : Tree)
    → (t.dirs self).parent ≡ none
    → shrunk self now [] (Directory.clear (t.dirs self).files) t ≡ t'
    → delete others_equal now t self ≡ ok t'
unfolding delete
delete-root others_equal now t self t' root e = rw (root, delete) (ap ok e)

-- A list with an item has one.
not_nil : (xs : List ℕ) (x : ℕ) (ys : List ℕ) → xs ++ (x ∷ ys) ≡ [] → ⊥
not_nil [] x ys e = cc
not_nil (z ∷ xs) x ys e = cc

pub delete-IsTree :
    (others_equal : Tree → ℕ → ℕ → Bool) (now : ℕ) (t : Tree) (self : ℕ) (t' : Tree)
    → IsTree t
    → delete others_equal now t self ≡ ok t'
    → IsTree t'
delete-IsTree others_equal now t self t' tree e = elim (Option-cases (t.dirs self).parent) [
  | inl root ↦
      subst IsTree (ok_eq (sym (delete-root others_equal now t self _ root refl) ∙ e))
        (shrunk-IsTree self now [] (Directory.clear (t.dirs self).files) t tree tt tt (λ _. refl))
  | inr (p, up) ↦ elim (Option-cases (remove_child others_equal t self (t.dirs p).children)) [
    | inl nothing ↦ cc (
        sym (detach-none others_equal now p self t nothing)
        ∙ sym (delete-under others_equal now t self p up)
        ∙ e)
    | inr (kept, k) ↦
        let g = remove_child-Gone others_equal t self (t.dirs p).children kept k in
        let links =
          subst (All (λ (c : ℕ). (t.dirs c).parent ≡ some p)) (Gone.stood g) (tree.linked p) in
        let named =
          subst (λ (cs : List ℕ). NodupNames (names t cs)) (Gone.stood g) (tree.siblings p) in
        subst IsTree
          (ok_eq (
            sym (detach-some others_equal now p self t kept k)
            ∙ sym (delete-under others_equal now t self p up)
            ∙ e))
          (shrunk-IsTree p now kept (t.dirs p).files t tree
            (subst (All (λ (c : ℕ). (t.dirs c).parent ≡ some p)) (sym (Gone.left g))
              (All-merge _ (Gone.before g) (Gone.child g) (Gone.after g) links))
            (subst (λ (cs : List ℕ). NodupNames (names t cs)) (sym (Gone.left g))
              (nodup_merge t (Gone.before g) (Gone.child g) (Gone.after g) named))
            (λ none_left. absurd (
              not_nil (Gone.before g) (Gone.child g) (Gone.after g)
                (sym (Gone.stood g) ∙ none_left))))
  ]
]
