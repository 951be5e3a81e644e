-- ===== src/Directory/Whole.antt =====
-- tgdcfs/core/model/directory.py: the children that a directory is listed among, as directories come and go.
use tgdcfs.Base.{
  ℕ, ◌<◌, ◌≡◌, refl, ◌∙◌, sym, ap, subst, ◌==◌, nat_eq, string_eq, Bool, true, false, ◌||◌, Option,
  none, some, List, [], ◌∷◌, ◌++◌, String, arith, Bool-cases, inl, inr, Option-cases, contains,
}
use tgdcfs.Base.Result.{ok}
use tgdcfs.Directory
use tgdcfs.Directory.Tree.{Tree, create_dir, delete, move_to, remove_child}
use tgdcfs.Directory.Siblings.{IsTree, some_eq}
use tgdcfs.Directory.Moves.{detach-some, detach-none, ok_eq, move_to-root}
use tgdcfs.Directory.Growing.{create_dir-ok, children_grown, parent_grown}
use tgdcfs.Directory.Shrinking.{children_shrunk, parent_shrunk, delete-under, delete-root}
use tgdcfs.Directory.Listing.{lists, contains-append, remove_child-contains, move_to-lists}

-- Every directory that was not deleted is listed by its parent.
abbrev pub Whole : List ℕ → Tree → Type 0
Whole gone t = (c p : ℕ) → contains gone c ≡ false → (t.dirs c).parent ≡ some p → lists t p c ≡ true

-- What a deletion takes out of the tree: the directory, or the children of a root.
unfoldable pub removed : Tree → ℕ → List ℕ
removed t self = elim (t.dirs self).parent [ none ↦ (t.dirs self).children | some p ↦ self ∷ [] ]

removed-root :
    (t : Tree) (self : ℕ) → (t.dirs self).parent ≡ none → removed t self ≡ (t.dirs self).children
unfolding removed
removed-root t self root = rw (root, removed) refl

removed-under : (t : Tree) (self p : ℕ) → (t.dirs self).parent ≡ some p → removed t self ≡ self ∷ []
unfolding removed
removed-under t self p up = rw (up, removed) refl

pub create_dir-Whole :
    (gone : List ℕ) (name : String) (now : ℕ) (t : Tree) (d c : ℕ) (t' : Tree)
    → IsTree t
    → d < t.count
    → create_dir name now t d ≡ ok (c, t')
    → Whole gone t
    → Whole gone t'
create_dir-Whole gone name now t d c t' tree here e whole =
    subst (Whole gone) (create_dir-ok name now t d c t' e).1 (λ k p still up.
      elim (Bool-cases (t.count == k)) [
        | inl new ↦
            let is : d ≡ p =
              some_eq (sym (parent_grown name now t d tree here k ∙ rw new refl) ∙ up) in
            ap (λ (l : List ℕ). contains l k) (children_grown name now t d tree here p)
            ∙ rw ((nat_eq.eqb_iff d p).1 is) (
                contains-append (t.dirs p).children (t.count ∷ []) k
                ∙ ground (arith, new, nat_eq.eqb_iff t.count k, nat_eq.eqb_iff k t.count))
        | inr old ↦
            let listed : lists t p k ≡ true =
              whole k p still (sym (parent_grown name now t d tree here k ∙ rw old refl) ∙ up) in
            ap (λ (l : List ℕ). contains l k) (children_grown name now t d tree here p)
            ∙ elim (Bool-cases (d == p)) [
              | inr other ↦ rw other listed
              | inl same ↦
                  rw same
                    (contains-append (t.dirs p).children (t.count ∷ []) k ∙ ground (arith, listed))
            ]
      ])

pub move_to-Whole :
    (others_equal : Tree → ℕ → ℕ → Bool) (gone : List ℕ) (fuel now np : ℕ)
    (new_name : Option String) (t : Tree) (s : ℕ) (t' : Tree)
    → IsTree t
    → np < t.count
    → contains gone s ≡ false
    → move_to others_equal fuel now np new_name t s ≡ ok t'
    → Whole gone t
    → Whole gone t'
move_to-Whole others_equal gone fuel now np new_name t s t' tree made still e whole =
    elim (Option-cases (t.dirs s).parent) [
      | inl root ↦ cc (sym (move_to-root others_equal fuel now np new_name t s root) ∙ e)
      | inr (old, up) ↦
          let (tree', parent, name, listing, others, files) =
            move_to-lists others_equal fuel now np new_name t s old t' tree up
              (whole s old still up) made e in
          λ c p kept up'. listing p c ∙ elim (Bool-cases (c == s)) [
            | inr other ↦ rw other (whole c p kept (sym (others c other) ∙ up'))
            | inl is ↦ rw is (
                (nat_eq.eqb_iff np p).1 (
                  some_eq (
                    sym parent
                    ∙ ap (λ (k : ℕ). (t'.dirs k).parent) (sym ((nat_eq.eqb_iff c s).0 is))
                    ∙ up')))
          ]
    ]

pub delete-Whole :
    (others_equal : Tree → ℕ → ℕ → Bool) (gone : List ℕ) (now : ℕ) (t : Tree) (self : ℕ) (t' : Tree)
    → IsTree t
    → contains gone self ≡ false
    → delete others_equal now t self ≡ ok t'
    → Whole gone t
    → Whole (removed t self ++ gone) t'
delete-Whole others_equal gone now t self t' tree still e whole =
    elim (Option-cases (t.dirs self).parent) [
      | inl root ↦
          let files = Directory.clear (t.dirs self).files in
          subst (Whole (removed t self ++ gone))
            (ok_eq (sym (delete-root others_equal now t self _ root refl) ∙ e))
            (λ c p kept up.
              let up0 : (t.dirs c).parent ≡ some p =
                sym (parent_shrunk self now [] files t c) ∙ up in
              let out : (contains (t.dirs self).children c || contains gone c) ≡ false =
                sym (
                  ap (λ (l : List ℕ). contains (l ++ gone) c) (removed-root t self root)
                  ∙ contains-append (t.dirs self).children gone c)
                ∙ kept in
              let listed : lists t p c ≡ true = whole c p (ground (arith, out)) up0 in
              ap (λ (l : List ℕ). contains l c) (children_shrunk self now [] files t p)
              ∙ elim (Bool-cases (self == p)) [
                | inr other ↦ rw other listed
                | inl same ↦ absurd (
                    let there : lists t self c ≡ true =
                      ap (λ (k : ℕ). lists t k c) ((nat_eq.eqb_iff self p).0 same) ∙ listed in
                    ground (arith, there, out))
              ])
      | inr (q, above) ↦
          elim (Option-cases (remove_child others_equal t self (t.dirs q).children)) [
            | inl nothing ↦ cc (
                sym (detach-none others_equal now q self t nothing)
                ∙ sym (delete-under others_equal now t self q above)
                ∙ e)
            | inr (kept, k) ↦
                let files = (t.dirs q).files in
                let left =
                  remove_child-contains others_equal t self (t.dirs q).children kept
                    (tree.siblings q) (whole self q still above) k in
                subst (Whole (removed t self ++ gone))
                  (ok_eq (
                    sym (detach-some others_equal now q self t kept k)
                    ∙ sym (delete-under others_equal now t self q above)
                    ∙ e))
                  (λ c p still' up.
                    let up0 : (t.dirs c).parent ≡ some p =
                      sym (parent_shrunk q now kept files t c) ∙ up in
                    let out : contains (self ∷ gone) c ≡ false =
                      ap (λ (l : List ℕ). contains (l ++ gone) c)
                        (sym (removed-under t self q above))
                      ∙ still' in
                    let apart : (c == self) ≡ false =
                      ground (arith, out, nat_eq.eqb_iff c self, nat_eq.eqb_iff self c) in
                    let listed : lists t p c ≡ true =
                      whole c p (ground (arith, out, nat_eq.eqb_iff c self, nat_eq.eqb_iff self c))
                        up0 in
                    ap (λ (l : List ℕ). contains l c) (children_shrunk q now kept files t p)
                    ∙ elim (Bool-cases (q == p)) [
                      | inr other ↦ rw other listed
                      | inl same ↦ rw same (
                          left c
                          ∙ rw apart
                              (ap (λ (j : ℕ). lists t j c) ((nat_eq.eqb_iff q p).0 same) ∙ listed))
                    ])
          ]
    ]
