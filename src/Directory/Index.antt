-- ===== src/Directory/Index.antt =====
-- tgdcfs/core/model/directory.py, `FileRefList`: the index by name against the list.
use tgdcfs.Base.{
  ℕ, zero, suc, ◌+◌, ◌≡◌, refl, ◌∙◌, sym, ap, subst, ◌==◌, nat_eq, string_eq, Bool, true, false,
  ◌||◌, if◌then◌else◌, Option, none, some, List, [], ◌∷◌, ◌++◌, String, take, drop, get_elem?,
  arith, Bool-cases, inl, inr, append_assoc, append-nil, ==_refl, Option-cases,
}
use tgdcfs.Base.Dict
use tgdcfs.Base.Dict.{Dict}
use tgdcfs.Directory.{
  FileRef, FileRefList, or_empty, index, unindex, without, is_empty, index_all, of_refs, named,
  append, extend, same_ref, remove_first,
}

-- The refs of a name, in list order.
abbrev pub of_name : String → List FileRef → List FileRef
of_name name [] = []
of_name name (r ∷ refs) = let rest = of_name name refs in if r.name == name then r ∷ rest else rest

abbrev pub IsIndexed : FileRefList → Type 0
IsIndexed l = (name : String) → named name l ≡ of_name name l.items

abbrev pub has_uid : ℕ → List FileRef → Bool
has_uid uid [] = false
has_uid uid (r ∷ refs) = r.uid == uid || has_uid uid refs

-- No object is twice in the list.
abbrev pub Apart : List FileRef → Type 0
Apart [] = Unit
Apart (r ∷ refs) = (has_uid r.uid refs ≡ false) × Apart refs

pub of_name-append :
    (name : String) (xs ys : List FileRef)
    → of_name name (xs ++ ys) ≡ of_name name xs ++ of_name name ys
of_name-append name [] ys = refl
of_name-append name (x ∷ xs) ys = elim (Bool-cases (x.name == name)) [
  | inl same ↦ rw same (ap (λ (rs : List FileRef). x ∷ rs) (of_name-append name xs ys))
  | inr other ↦ rw other (of_name-append name xs ys)
]

pub lookup-index :
    (name : String) (r : FileRef) (d : Dict String (List FileRef))
    → or_empty (Dict.lookup name (index r d))
      ≡ or_empty (Dict.lookup name d) ++ of_name name (r ∷ [])
unfolding index
lookup-index name r d = elim (Bool-cases (r.name == name)) [
  | inl same ↦
      let is : r.name ≡ name = (string_eq.eqb_iff r.name name).0 same in
      rw
        (same, Dict.lookup-insert r.name name (or_empty (Dict.lookup r.name d) ++ (r ∷ [])) d, same)
        (ap (λ (n : String). or_empty (Dict.lookup n d) ++ (r ∷ [])) is)
  | inr other ↦
      rw
        (
          other,
          Dict.lookup-insert r.name name (or_empty (Dict.lookup r.name d) ++ (r ∷ [])) d,
          other,
        )
        (sym (append-nil (or_empty (Dict.lookup name d))))
]

lookup-index_all :
    (name : String) (refs : List FileRef) (d : Dict String (List FileRef))
    → or_empty (Dict.lookup name (index_all refs d))
      ≡ or_empty (Dict.lookup name d) ++ of_name name refs
unfolding index_all
lookup-index_all name [] d = sym (append-nil (or_empty (Dict.lookup name d)))
lookup-index_all name (r ∷ refs) d =
    lookup-index_all name refs (index r d)
    ∙ ap (λ (rs : List FileRef). rs ++ of_name name refs) (lookup-index name r d)
    ∙ append_assoc (or_empty (Dict.lookup name d)) (of_name name (r ∷ [])) (of_name name refs)
    ∙ ap (λ (rs : List FileRef). or_empty (Dict.lookup name d) ++ rs)
        (sym (of_name-append name (r ∷ []) refs))

pub of_refs-IsIndexed : (refs : List FileRef) → IsIndexed (of_refs refs)
unfolding of_refs named Dict.lookup
of_refs-IsIndexed refs name = lookup-index_all name refs []

pub append-IsIndexed : (r : FileRef) (l : FileRefList) → IsIndexed l → IsIndexed (append r l)
unfolding append named
append-IsIndexed r l h name =
    lookup-index name r l.by_name
    ∙ ap (λ (rs : List FileRef). rs ++ of_name name (r ∷ [])) (h name)
    ∙ sym (of_name-append name l.items (r ∷ []))

pub extend-IsIndexed :
    (refs : List FileRef) (l : FileRefList) → IsIndexed l → IsIndexed (extend refs l)
unfolding extend
extend-IsIndexed [] l h = h
extend-IsIndexed (r ∷ refs) l h = extend-IsIndexed refs (append r l) (append-IsIndexed r l h)

all_gone : (refs : List FileRef) → is_empty refs ≡ true → refs ≡ []
all_gone [] h = refl
all_gone (r ∷ refs) h = cc

pub has_uid-append :
    (uid : ℕ) (xs ys : List FileRef) → has_uid uid (xs ++ ys) ≡ (has_uid uid xs || has_uid uid ys)
has_uid-append uid [] ys = refl
has_uid-append uid (x ∷ xs) ys = ground (arith, has_uid-append uid xs ys)

unindex-none :
    (r : FileRef) (d : Dict String (List FileRef)) → Dict.lookup r.name d ≡ none → unindex r d ≡ d
unfolding unindex
unindex-none r d e = rw (e, unindex) refl

unindex-some :
    (r : FileRef) (d : Dict String (List FileRef)) (refs : List FileRef)
    → Dict.lookup r.name d ≡ some refs
    → unindex r d ≡ (
        if is_empty (without r.uid refs)
        then Dict.erase r.name d
        else Dict.insert r.name (without r.uid refs) d)
unfolding unindex
unindex-some r d refs e = rw (e, unindex) refl

lookup-unindex :
    (name : String) (r : FileRef) (d : Dict String (List FileRef))
    → or_empty (Dict.lookup name (unindex r d)) ≡ (
        if r.name == name
        then without r.uid (or_empty (Dict.lookup r.name d))
        else or_empty (Dict.lookup name d))
lookup-unindex name r d = elim (Option-cases (Dict.lookup r.name d)) [
  | inl nothing ↦ rw (unindex-none r d nothing) (elim (Bool-cases (r.name == name)) [
    | inl same ↦
        let is : name ≡ r.name = sym ((string_eq.eqb_iff r.name name).0 same) in
        rw same (
          ap or_empty (ap (λ (n : String). Dict.lookup n d) is ∙ nothing)
          ∙ sym (
              ap (λ (o : Option (List FileRef)). without r.uid (or_empty o)) nothing
              ∙ unfold without in refl))
    | inr other ↦ rw other refl
  ])
  | inr (refs, e) ↦
      rw (unindex-some r d refs e, e)
        (elim (Bool-cases (is_empty (without r.uid refs))) [
          | inl gone ↦
              rw (gone, Dict.lookup-erase r.name name d)
                (ground (arith, all_gone (without r.uid refs) gone))
          | inr kept ↦
              rw (kept, Dict.lookup-insert r.name name (without r.uid refs) d) (ground arith)
        ])
]

-- A ref that stands in the list is the only one of its identity.
Apart-before :
    (before : List FileRef) (r : FileRef) (after : List FileRef)
    → Apart (before ++ (r ∷ after))
    → has_uid r.uid before ≡ false
Apart-before [] r after h = refl
Apart-before (x ∷ before) r after (fresh, h) = ground (
  arith,
  Apart-before before r after h,
  has_uid-append x.uid before (r ∷ after),
  fresh,
  nat_eq.eqb_iff x.uid r.uid,
)

Apart-after :
    (before : List FileRef) (r : FileRef) (after : List FileRef)
    → Apart (before ++ (r ∷ after))
    → has_uid r.uid after ≡ false
Apart-after [] r after (fresh, h) = fresh
Apart-after (x ∷ before) r after (fresh, h) = Apart-after before r after h

pub Apart-merge :
    (before : List FileRef) (r : FileRef) (after : List FileRef)
    → Apart (before ++ (r ∷ after))
    → Apart (before ++ after)
Apart-merge [] r after (fresh, h) = h
Apart-merge (x ∷ before) r after (fresh, h) = (
  ground (arith, fresh, has_uid-append x.uid before (r ∷ after), has_uid-append x.uid before after),
  Apart-merge before r after h,
)

without-absent :
    (uid : ℕ) (name : String) (refs : List FileRef)
    → has_uid uid refs ≡ false
    → without uid (of_name name refs) ≡ of_name name refs
unfolding without
without-absent uid name [] h = refl
without-absent uid name (r ∷ refs) h = ground (arith, without-absent uid name refs)

without-append :
    (uid : ℕ) (xs ys : List FileRef) → without uid (xs ++ ys) ≡ without uid xs ++ without uid ys
unfolding without
without-append uid [] ys = refl
without-append uid (x ∷ xs) ys = ground (arith, without-append uid xs ys)

of_name-same :
    (r : FileRef) (refs : List FileRef) → of_name r.name (r ∷ refs) ≡ r ∷ of_name r.name refs
of_name-same r refs = rw (==_refl r.name) refl

without-same : (r : FileRef) (refs : List FileRef) → without r.uid (r ∷ refs) ≡ without r.uid refs
unfolding without
without-same r refs = rw (==_refl r.uid) refl

-- What the index loses with an object is what the list loses with it.
pub unindexed :
    (before : List FileRef) (q : FileRef) (after : List FileRef) (r : FileRef)
    (d : Dict String (List FileRef))
    → q.uid ≡ r.uid
    → q.name ≡ r.name
    → Apart (before ++ (q ∷ after))
    → ((name : String) → or_empty (Dict.lookup name d) ≡ of_name name (before ++ (q ∷ after)))
    → (name : String) → or_empty (Dict.lookup name (unindex r d)) ≡ of_name name (before ++ after)
unindexed before q after r d u n apart h name = elim (Bool-cases (r.name == name)) [
  | inl same ↦
      let is : r.name ≡ name = (string_eq.eqb_iff r.name name).0 same in
      let alone : (has_uid r.uid before ≡ false) × (has_uid r.uid after ≡ false) =
        subst (λ (i : ℕ). (has_uid i before ≡ false) × (has_uid i after ≡ false)) u
          (Apart-before before q after apart, Apart-after before q after apart) in
      let found : of_name r.name (q ∷ after) ≡ q ∷ of_name r.name after =
        ap (λ (m : String). of_name m (q ∷ after)) (sym n)
        ∙ of_name-same q after
        ∙ ap (λ (m : String). q ∷ of_name m after) n in
      let dropped : without r.uid (q ∷ of_name r.name after)
          ≡ without r.uid (of_name r.name after) =
        ap (λ (i : ℕ). without i (q ∷ of_name r.name after)) (sym u)
        ∙ without-same q (of_name r.name after)
        ∙ ap (λ (i : ℕ). without i (of_name r.name after)) u in
      lookup-unindex name r d
      ∙ rw same (
          ap (without r.uid) (h r.name ∙ of_name-append r.name before (q ∷ after))
          ∙ without-append r.uid (of_name r.name before) (of_name r.name (q ∷ after))
          ∙ ap (λ (rs : List FileRef). rs ++ without r.uid (of_name r.name (q ∷ after)))
              (without-absent r.uid r.name before alone.0)
          ∙ ap (λ (rs : List FileRef). of_name r.name before ++ without r.uid rs) found
          ∙ ap (λ (rs : List FileRef). of_name r.name before ++ rs)
              (dropped ∙ without-absent r.uid r.name after alone.1)
          ∙ sym (of_name-append r.name before after)
          ∙ ap (λ (m : String). of_name m (before ++ after)) is)
  | inr other ↦
      lookup-unindex name r d
      ∙ rw other (
          h name
          ∙ of_name-append name before (q ∷ after)
          ∙ ap (λ (rs : List FileRef). of_name name before ++ rs) (ground (arith, n, other))
          ∙ sym (of_name-append name before after))
]

pub some_eq : {A : Type 0} {x y : A} → some x ≡ some y → x ≡ y
some_eq e = ground (arith, e)

-- The first item that equals the ref, and what stands about it.
pub record Removed (ref : FileRef) (items kept : List FileRef) : Type 0 where
  pub before : List FileRef
  pub item : FileRef
  pub after : List FileRef
  pub stood : items ≡ before ++ (item ∷ after)
  pub left : kept ≡ before ++ after
  pub equal : same_ref item ref ≡ true

pub remove_first-Removed :
    (ref : FileRef) (items kept : List FileRef)
    → remove_first ref items ≡ some kept
    → Removed ref items kept
unfolding remove_first
remove_first-Removed ref [] kept e = cc
remove_first-Removed ref (r ∷ refs) kept e = elim (Bool-cases (same_ref r ref)) [
  | inl same ↦ record {
    before = [];
    item = r;
    after = refs;
    stood = refl;
    left = sym (some_eq (rw same at e));
    equal = same;
  }
  | inr other ↦ elim (Option-cases (remove_first ref refs)) [
    | inl nothing ↦ cc (rw (other, nothing) at e)
    | inr (rest, f) ↦
        let m = remove_first-Removed ref refs rest f in
        record {
          before = r ∷ m.before;
          item = m.item;
          after = m.after;
          stood = ap (λ (rs : List FileRef). r ∷ rs) m.stood;
          left = sym (some_eq (rw (other, f) at e)) ∙ ap (λ (rs : List FileRef). r ∷ rs) m.left;
          equal = m.equal;
        }
  ]
]

pub take-get-drop :
    (at : ℕ) (items : List FileRef) (r : FileRef)
    → get_elem? items at ≡ some r
    → items ≡ take at items ++ (r ∷ drop (at + 1) items)
take-get-drop at [] r e = cc
take-get-drop zero (x ∷ items) r e = ap (λ (y : FileRef). y ∷ items) (some_eq e)
take-get-drop (suc at) (x ∷ items) r e =
    let up : suc at + 1 ≡ suc (at + 1) = omega arith in
    rw up (ap (λ (rs : List FileRef). x ∷ rs) (take-get-drop at items r e))
