-- ===== src/Directory/Changes.antt =====
-- tgdcfs/core/model/directory.py, `FileRefList`: its methods, one after another.
use tgdcfs.Base.{
  ℕ, zero, suc, ◌+◌, ◌≤◌, ◌≡◌, refl, ◌∙◌, sym, ap, subst, ◌==◌, nat_eq, string_eq, true, false,
  Option, none, some, List, [], ◌∷◌, ◌++◌, String, length, ltb, take, drop, get_elem?, arith,
  Bool-cases, inl, inr, All, append_assoc, append-nil, take-append-drop, Option-cases,
}
use tgdcfs.Base.Dict
use tgdcfs.Directory.{
  FileRef, FileRefList, unindex, of_refs, named, append, extend, insert, same_ref, remove_first,
  remove, pop, clear, set_item, del_item, imul, repeat,
}
use tgdcfs.Directory.Index.{
  IsIndexed, Apart, has_uid, of_name, of_refs-IsIndexed, append-IsIndexed, extend-IsIndexed,
  Apart-merge, unindexed, has_uid-append, of_name-append, lookup-index, remove_first-Removed,
  take-get-drop, some_eq,
}

-- Changes of a list, at positions that are not negative. Slices, and the methods that `FileRefList` inherits from
-- `list`, are left out.
pub data Change : Type 0 where
  appended : FileRef → Change
  extended : List FileRef → Change
  inserted : ℕ → FileRef → Change
  removed : FileRef → Change
  popped : ℕ → Change
  cleared : Change
  assigned : ℕ → FileRef → Change
  deleted : ℕ → Change
  multiplied : ℕ → Change

abbrev pub list_of : Option (FileRef × FileRefList) → Option FileRefList
list_of none = none
list_of (some (ref, l)) = some l

-- `none` where the method raises.
unfoldable pub change : Change → FileRefList → Option FileRefList
change (appended ref) l = some (append ref l)
change (extended refs) l = some (extend refs l)
change (inserted at ref) l = some (insert at ref l)
change (removed ref) l = remove ref l
change (popped at) l = list_of (pop at l)
change cleared l = some (clear l)
change (assigned at ref) l = set_item at ref l
change (deleted at) l = del_item at l
change (multiplied n) l = some (imul n l)

-- No object comes twice; an inserted ref has a new name; what is removed equals no other object.
abbrev pub Allowed : Change → FileRefList → Type 0
Allowed (appended ref) l = has_uid ref.uid l.items ≡ false
Allowed (extended refs) l = Apart (l.items ++ refs)
Allowed (inserted at ref) l = (has_uid ref.uid l.items ≡ false) × (of_name ref.name l.items ≡ [])
Allowed (removed ref) l =
    All (λ (q : FileRef). same_ref q ref ≡ true → (q.uid ≡ ref.uid) × (q.name ≡ ref.name)) l.items
Allowed (popped at) l = Unit {0}
Allowed cleared l = Unit {0}
Allowed (assigned at ref) l = has_uid ref.uid l.items ≡ false
Allowed (deleted at) l = Unit {0}
Allowed (multiplied n) l = n ≤ 1

abbrev pub Sound : FileRefList → Type 0
Sound l = IsIndexed l × Apart l.items

Apart-insert :
    (before : List FileRef) (r : FileRef) (after : List FileRef)
    → has_uid r.uid (before ++ after) ≡ false
    → Apart (before ++ after)
    → Apart (before ++ (r ∷ after))
Apart-insert [] r after fresh h = (fresh, h)
Apart-insert (x ∷ before) r after fresh (f, h) = (
  ground (
    arith,
    f,
    fresh,
    has_uid-append x.uid before (r ∷ after),
    has_uid-append x.uid before after,
    nat_eq.eqb_iff x.uid r.uid,
    nat_eq.eqb_iff r.uid x.uid,
  ),
  Apart-insert before r after (ground (arith, fresh)) h,
)

All-at :
    (P : FileRef → Type 0) (before : List FileRef) (r : FileRef) (after : List FileRef)
    → All P (before ++ (r ∷ after))
    → P r
All-at P [] r after (p, h) = p
All-at P (x ∷ before) r after (p, h) = All-at P before r after h

extend-items : (refs : List FileRef) (l : FileRefList) → (extend refs l).items ≡ l.items ++ refs
unfolding extend append
extend-items [] l = sym (append-nil l.items)
extend-items (r ∷ refs) l = extend-items refs (append r l) ∙ append_assoc l.items (r ∷ []) refs

both_empty : (xs ys : List FileRef) → xs ++ ys ≡ [] → (xs ≡ []) × (ys ≡ [])
both_empty [] ys e = (refl, e)
both_empty (x ∷ xs) ys e = cc

-- Where no ref has its name, the place of a new one does not matter to the index.
placed :
    (name : String) (r : FileRef) (before after : List FileRef)
    → of_name r.name before ++ of_name r.name after ≡ []
    → (of_name name before ++ of_name name after) ++ of_name name (r ∷ [])
      ≡ of_name name (before ++ (r ∷ after))
placed name r before after new = elim (Bool-cases (r.name == name)) [
  | inl same ↦
      let is : r.name ≡ name = (string_eq.eqb_iff r.name name).0 same in
      let e = both_empty (of_name r.name before) (of_name r.name after) new in
      let b : of_name name before ≡ [] = ap (λ (n : String). of_name n before) (sym is) ∙ e.0 in
      let a : of_name name after ≡ [] = ap (λ (n : String). of_name n after) (sym is) ∙ e.1 in
      rw (of_name-append name before (r ∷ after), same, b, a) refl
  | inr other ↦
      rw (of_name-append name before (r ∷ after), other)
        (append-nil (of_name name before ++ of_name name after))
]

insert-Sound :
    (at : ℕ) (ref : FileRef) (l : FileRefList)
    → Allowed (inserted at ref) l
    → Sound l
    → Sound (insert at ref l)
unfolding insert named
insert-Sound at ref l (fresh, new) (h, apart) =
    let whole : take at l.items ++ drop at l.items ≡ l.items = take-append-drop at l.items in
    (
      λ name.
          lookup-index name ref l.by_name
          ∙ ap (λ (rs : List FileRef). rs ++ of_name name (ref ∷ []))
              (h name
                ∙ ap (of_name name) (sym whole)
                ∙ of_name-append name (take at l.items) (drop at l.items))
          ∙ placed name ref (take at l.items) (drop at l.items) (
              sym (of_name-append ref.name (take at l.items) (drop at l.items))
              ∙ ap (of_name ref.name) whole
              ∙ new),
      Apart-insert (take at l.items) ref (drop at l.items)
          (subst (λ (rs : List FileRef). has_uid ref.uid rs ≡ false) (sym whole) fresh)
          (subst Apart (sym whole) apart),
    )

pub removed_eq :
    (ref : FileRef) (l : FileRefList) (kept : List FileRef)
    → remove_first ref l.items ≡ some kept
    → some (record { items = kept; by_name = unindex ref l.by_name }) ≡ remove ref l
unfolding remove
removed_eq ref l kept f = rw (f, remove) refl

none-removed :
    (ref : FileRef) (l : FileRefList) → remove_first ref l.items ≡ none → remove ref l ≡ none
unfolding remove
none-removed ref l f = rw (f, remove) refl

pub remove-Sound :
    (ref : FileRef) (l l' : FileRefList)
    → Allowed (removed ref) l
    → remove ref l ≡ some l'
    → Sound l
    → Sound l'
unfolding remove named
remove-Sound ref l l' only e (h, apart) = elim (Option-cases (remove_first ref l.items)) [
  | inl nothing ↦ cc (sym (none-removed ref l nothing) ∙ e)
  | inr (kept, f) ↦
      let m = remove_first-Removed ref l.items kept f in
      let same = All-at _ m.before m.item m.after (subst (All _) m.stood only) m.equal in
      let apart' : Apart (m.before ++ (m.item ∷ m.after)) = subst Apart m.stood apart in
      let now : record { items = kept; by_name = unindex ref l.by_name } ≡ l' =
        some_eq (removed_eq ref l kept f ∙ e) in
      subst Sound now (
        λ name.
            unindexed m.before m.item m.after ref l.by_name same.0 same.1 apart'
              (λ n. h n ∙ ap (of_name n) m.stood) name
            ∙ ap (of_name name) (sym m.left),
        subst Apart (sym m.left) (Apart-merge m.before m.item m.after apart'),
      )
]

pop-some :
    (at : ℕ) (l : FileRefList) (ref : FileRef)
    → get_elem? l.items at ≡ some ref
    → pop at l
      ≡ some (
        ref,
        record {
          items = take at l.items ++ drop (at + 1) l.items;
          by_name = unindex ref l.by_name;
        },
      )
unfolding pop
pop-some at l ref e = rw (e, pop) refl

pop-none : (at : ℕ) (l : FileRefList) → get_elem? l.items at ≡ none → pop at l ≡ none
unfolding pop
pop-none at l e = rw (e, pop) refl

pop-Sound : (at : ℕ) (l l' : FileRefList) → list_of (pop at l) ≡ some l' → Sound l → Sound l'
unfolding named
pop-Sound at l l' e (h, apart) = elim (Option-cases (get_elem? l.items at)) [
  | inl nothing ↦ cc (sym (ap list_of (pop-none at l nothing)) ∙ e)
  | inr (ref, f) ↦
      let whole = take-get-drop at l.items ref f in
      let apart' = subst Apart whole apart in
      subst Sound (some_eq (sym (ap list_of (pop-some at l ref f)) ∙ e)) (
        unindexed (take at l.items) ref (drop (at + 1) l.items) ref l.by_name refl refl apart'
            (λ n. h n ∙ ap (of_name n) whole),
        Apart-merge (take at l.items) ref (drop (at + 1) l.items) apart',
      )
]

get_elem?-some :
    (at : ℕ) (items : List FileRef)
    → ltb at (length items) ≡ true
    → (r : FileRef) × (get_elem? items at ≡ some r)
get_elem?-some at [] h = absurd (ground (arith, h))
get_elem?-some zero (r ∷ items) h = (r, refl)
get_elem?-some (suc at) (r ∷ items) h = get_elem?-some at items (ground (arith, h))

of_refs-items : (refs : List FileRef) → (of_refs refs).items ≡ refs
unfolding of_refs
of_refs-items refs = refl

pub of_refs-Sound : (refs : List FileRef) → Apart refs → Sound (of_refs refs)
unfolding of_refs
of_refs-Sound refs apart = (of_refs-IsIndexed refs, apart)

del_item-Sound : (at : ℕ) (l l' : FileRefList) → del_item at l ≡ some l' → Sound l → Sound l'
unfolding del_item
del_item-Sound at l l' e (h, apart) = elim (Bool-cases (ltb at (length l.items))) [
  | inr out ↦ cc (rw out at e)
  | inl inside ↦
      let r = get_elem?-some at l.items inside in
      subst Sound (some_eq (rw inside at e)) (
        of_refs-Sound (take at l.items ++ drop (at + 1) l.items) (
          Apart-merge (take at l.items) r.0 (drop (at + 1) l.items)
            (subst Apart (take-get-drop at l.items r.0 r.1) apart)))
]

set_item-Sound :
    (at : ℕ) (ref : FileRef) (l l' : FileRefList)
    → has_uid ref.uid l.items ≡ false
    → set_item at ref l ≡ some l'
    → Sound l
    → Sound l'
unfolding set_item
set_item-Sound at ref l l' fresh e (h, apart) = elim (Bool-cases (ltb at (length l.items))) [
  | inr out ↦ cc (rw out at e)
  | inl inside ↦
      let r = get_elem?-some at l.items inside in
      let before = take at l.items in
      let after = drop (at + 1) l.items in
      let whole = take-get-drop at l.items r.0 r.1 in
      let rest : has_uid ref.uid (before ++ after) ≡ false = ground (
        arith,
        fresh,
        ap (has_uid ref.uid) whole,
        has_uid-append ref.uid before (r.0 ∷ after),
        has_uid-append ref.uid before after,
      ) in
      subst Sound (some_eq (rw inside at e)) (
        of_refs-Sound (before ++ (ref ∷ after)) (
          Apart-insert before ref after rest
            (Apart-merge before r.0 after (subst Apart whole apart))))
]

imul-Sound : (n : ℕ) (l : FileRefList) → n ≤ 1 → Sound l → Sound (imul n l)
unfolding imul repeat
imul-Sound zero l le h = of_refs-Sound [] tt
imul-Sound (suc zero) l le (h, apart) =
    of_refs-Sound (l.items ++ []) (subst Apart (sym (append-nil l.items)) apart)
imul-Sound (suc (suc n)) l le h = absurd (omega arith)

pub append-Sound :
    (ref : FileRef) (l : FileRefList)
    → has_uid ref.uid l.items ≡ false
    → Sound l
    → Sound (append ref l)
unfolding append
append-Sound ref l fresh (h, apart) = (
  append-IsIndexed ref l h,
  Apart-insert l.items ref []
      (subst (λ (rs : List FileRef). has_uid ref.uid rs ≡ false) (sym (append-nil l.items)) fresh)
      (subst Apart (sym (append-nil l.items)) apart),
)

change-Sound :
    (c : Change) (l l' : FileRefList) → Allowed c l → change c l ≡ some l' → Sound l → Sound l'
unfolding change append clear
change-Sound (appended ref) l l' ok e h = subst Sound (some_eq e) (append-Sound ref l ok h)
change-Sound (extended refs) l l' ok e (h, apart) =
    subst Sound (some_eq e) (extend-IsIndexed refs l h, subst Apart (sym (extend-items refs l)) ok)
change-Sound (inserted at ref) l l' ok e h = subst Sound (some_eq e) (insert-Sound at ref l ok h)
change-Sound (removed ref) l l' ok e h = remove-Sound ref l l' ok e h
change-Sound (popped at) l l' ok e h = pop-Sound at l l' e h
change-Sound cleared l l' ok e h =
    subst Sound (some_eq e) ((λ name. unfold named Dict.lookup in refl), tt)
change-Sound (assigned at ref) l l' ok e h = set_item-Sound at ref l l' ok e h
change-Sound (deleted at) l l' ok e h = del_item-Sound at l l' e h
change-Sound (multiplied n) l l' ok e h = subst Sound (some_eq e) (imul-Sound n l ok h)

-- The lists that come of one by changes that do not raise.
pub data Changed (l : FileRefList) : FileRefList → Type 0 where
  unchanged : Changed l l
  then_changed :
      {m n : FileRefList}
      → Changed l m
      → (c : Change) → Allowed c m
      → change c m ≡ some n
      → Changed l n

Changed-Sound : (l m : FileRefList) → Sound l → Changed l m → Sound m
Changed-Sound l m h unchanged = h
Changed-Sound l m h (then_changed {m = k} before c ok e) =
    change-Sound c k m ok e (Changed-Sound l k h before)

-- After appends, extensions, inserts, removals, pops, clearings, assignments, deletions and multiplications of
-- a list, one after another, a look-up by name gives exactly the refs of that name, in list order. The refs are
-- different objects, and one that is added or assigned is not in the list yet; an inserted one has a name that
-- is new in the list, as `insert` otherwise breaks the order; one that is removed equals no other ref of the
-- list but itself; the list is multiplied by 0 or 1. Positions are not negative, and slices and the methods
-- inherited from `list`, such as `sort`, are not among the changes.
pub Changed-named :
    (refs : List FileRef) (l : FileRefList)
    → Apart refs
    → Changed (of_refs refs) l
    → (name : String) → named name l ≡ of_name name l.items
Changed-named refs l apart changed =
    (Changed-Sound (of_refs refs) l (of_refs-Sound refs apart) changed).0
