-- ===== src/Directory.antt =====
-- tgdcfs/core/model/directory.py: file refs and the list of a directory with its index by name.
pub mod Index
pub mod Changes
pub mod Tree
pub mod Rooted
pub mod Siblings
pub mod Placing
pub mod Moves
pub mod Listing
pub mod Growing
pub mod Shrinking
pub mod Whole
pub mod Growth
pub mod Refs
pub mod Unique
pub mod Relocating
mod Examples
use tgdcfs.Base.{
  Eq, ℕ, zero, suc, ◌+◌, ◌==◌, nat_eq, string_eq, Bool, true, false, not, ◌&&◌, ◌||◌, if◌then◌else◌,
  Option, none, some, List, [], ◌∷◌, ◌++◌, String, length, ltb, leb, take, drop, get_elem?,
}
use tgdcfs.Base.Dict
use tgdcfs.Base.Dict.{Dict}

pub record FileStat : Type 0 where
  pub size : ℕ
  pub created_at : ℕ
  pub modified_at : ℕ

-- A ref is an object: `uid` is its identity. The directory of its location is the one whose list it is in.
pub record FileRef : Type 0 where
  pub uid : ℕ
  pub message_id : ℕ
  pub name : String
  pub mirrors : Dict String ℕ
  pub store : Option String
  pub stat : Option FileStat
  pub stat_epoch : ℕ

pub record FileRefList : Type 0 where
  pub items : List FileRef
  pub by_name : Dict String (List FileRef)

abbrev pub or_empty : Option (List FileRef) → List FileRef
or_empty none = []
or_empty (some refs) = refs

unfoldable pub index : FileRef → Dict String (List FileRef) → Dict String (List FileRef)
index ref by_name =
    Dict.insert ref.name (or_empty (Dict.lookup ref.name by_name) ++ (ref ∷ [])) by_name

-- `[r for r in refs if r is not ref]`
unfoldable pub without : ℕ → List FileRef → List FileRef
without uid [] = []
without uid (r ∷ refs) = let rest = without uid refs in if r.uid == uid then rest else r ∷ rest

abbrev pub is_empty {ℓ} : {A : Type ℓ} → List A → Bool
is_empty [] = true
is_empty (x ∷ xs) = false

unfoldable pub unindex : FileRef → Dict String (List FileRef) → Dict String (List FileRef)
unindex ref by_name = elim (Dict.lookup ref.name by_name) [
  | none ↦ by_name
  | some refs ↦
      let kept = without ref.uid refs in
      if is_empty kept then Dict.erase ref.name by_name else Dict.insert ref.name kept by_name
]

unfoldable pub index_all : List FileRef → Dict String (List FileRef) → Dict String (List FileRef)
index_all [] by_name = by_name
index_all (ref ∷ refs) by_name = index_all refs (index ref by_name)

-- `FileRefList(refs)`, and `_reindex` after a change of the list.
unfoldable pub of_refs : List FileRef → FileRefList
of_refs refs = record { items = refs; by_name = index_all refs [] }

unfoldable pub named : String → FileRefList → List FileRef
named name l = or_empty (Dict.lookup name l.by_name)

unfoldable pub append : FileRef → FileRefList → FileRefList
append ref l = record { items = l.items ++ (ref ∷ []); by_name = index ref l.by_name }

unfoldable pub extend : List FileRef → FileRefList → FileRefList
extend [] l = l
extend (ref ∷ refs) l = extend refs (append ref l)

-- The index is not negative; one past the end is the end.
unfoldable pub insert : ℕ → FileRef → FileRefList → FileRefList
insert at ref l = record {
  items = take at l.items ++ (ref ∷ drop at l.items);
  by_name = index ref l.by_name;
}

module _ {K V : Type 0} ⦃k : Eq K⦄ ⦃v : Eq V⦄ where
  unfoldable pub dict_within : Dict K V → Dict K V → Bool
  dict_within [] d = true
  dict_within ((key, value) ∷ c) d =
      (elim (Dict.lookup key d) [ none ↦ false | some other ↦ value == other ]) && dict_within c d

abbrev pub same_store : Option String → Option String → Bool
same_store none none = true
same_store (some a) (some b) = a == b
same_store none (some b) = false
same_store (some a) none = false

-- `==` of two refs of one directory; `stat` and `stat_epoch` are not compared.
unfoldable pub same_ref : FileRef → FileRef → Bool
same_ref a b =
    a.uid == b.uid
    || (a.message_id == b.message_id
        && (a.name == b.name
            && ((length a.mirrors == length b.mirrors && dict_within a.mirrors b.mirrors)
                && same_store a.store b.store)))

-- `list.remove`: the first equal item goes; `ValueError` is `none`.
unfoldable pub remove_first : FileRef → List FileRef → Option (List FileRef)
remove_first ref [] = none
remove_first ref (r ∷ refs) =
    let rest = remove_first ref refs in
    if same_ref r ref then some refs else elim rest [ none ↦ none | some kept ↦ some (r ∷ kept) ]

unfoldable pub remove : FileRef → FileRefList → Option FileRefList
remove ref l = elim (remove_first ref l.items) [
  | none ↦ none
  | some kept ↦ some (record { items = kept; by_name = unindex ref l.by_name })
]

-- `IndexError` is `none`. An index counts from the front: the default of -1 is the last one's.
unfoldable pub pop : ℕ → FileRefList → Option (FileRef × FileRefList)
pop at l = elim (get_elem? l.items at) [
  | none ↦ none
  | some ref ↦ some (
    ref,
    record { items = take at l.items ++ drop (at + 1) l.items; by_name = unindex ref l.by_name },
  )
]

unfoldable pub clear : FileRefList → FileRefList
clear l = record { items = []; by_name = [] }

-- Of one item, as `del_item`: no slice is assigned or deleted.
unfoldable pub set_item : ℕ → FileRef → FileRefList → Option FileRefList
set_item at ref l =
    if ltb at (length l.items)
    then some (of_refs (take at l.items ++ (ref ∷ drop (at + 1) l.items)))
    else none

unfoldable pub del_item : ℕ → FileRefList → Option FileRefList
del_item at l =
    if ltb at (length l.items)
    then some (of_refs (take at l.items ++ drop (at + 1) l.items))
    else none

unfoldable pub repeat : ℕ → List FileRef → List FileRef
repeat zero refs = []
repeat (suc n) refs = refs ++ repeat n refs

unfoldable pub imul : ℕ → FileRefList → FileRefList
imul n l = of_refs (repeat n l.items)
