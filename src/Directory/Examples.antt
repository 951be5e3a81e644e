-- ===== src/Directory/Examples.antt =====
-- tgdcfs/core/model/directory.py: a root with two directories, of which one has a directory and a file.
use tgdcfs.Base.{
  ◌⊎◌, ℕ, zero, suc, ◌+◌, ◌≤◌, ◌<◌, ◌≡◌, refl, sym, ap, Bool, true, false, if◌then◌else◌, ◌==◌,
  ◌&&◌, nat_eq, string_eq, Option, none, some, List, [], ◌∷◌, String, arith, All,
}
use tgdcfs.Base.Result.{Result, ok, err}
use tgdcfs.Base.Dict
use tgdcfs.Directory
use tgdcfs.Directory.{FileRef, FileRefList, named, of_refs, is_empty, repeat}
use tgdcfs.Directory.Index.{of_name}
use tgdcfs.Directory.Changes.{Change, Changed, change, Sound, Changed-named, of_refs-Sound}
use tgdcfs.Directory.Tree.{
  Dir, Tree, DirError, or_name, move_to, is_ancestor_of, ascend, find_dirs, validate_name,
  remove_child, detach, attach, put_dir, same_dir, move_from, with_names,
}
use tgdcfs.Directory.Tree.{create_dir, delete}
use tgdcfs.Directory.Rooted.{Rooted, Below, is_ancestor_of-Below}
use tgdcfs.Directory.Siblings.{IsTree, names, NodupNames}
use tgdcfs.Directory.Whole.{Whole, removed}
use tgdcfs.Directory.Growth.{Grows, Grows-IsTree}
use tgdcfs.Directory.Listing.{lists, move_to-lists}
use tgdcfs.Directory.Refs.{drop_old, attach_ref, find_files, moved_ref, relocate_file_ref}
use tgdcfs.Directory.Relocating.{relocate_file_ref-find_files}

abbrev file_ref : ℕ → String → FileRef
file_ref uid name = record {
  uid = uid;
  message_id = 70 + uid;
  name = name;
  mirrors = ("discord:1", 5) ∷ [];
  store = none;
  stat = none;
  stat_epoch = 0;
}

abbrev folder : String → Option ℕ → List ℕ → List FileRef → Dir
folder name parent children refs = record {
  name = name;
  parent = parent;
  children = children;
  files = of_refs refs;
  created_at = 0;
  modified_at = 0;
}

abbrev places : ℕ → Dir
places zero = folder "root" none (1 ∷ 2 ∷ []) []
places (suc zero) = folder "a" (some 0) (3 ∷ []) (file_ref 0 "f" ∷ file_ref 1 "g" ∷ [])
places (suc (suc zero)) = folder "b" (some 0) [] (file_ref 2 "g" ∷ [])
places (suc (suc (suc zero))) = folder "c" (some 1) [] []
places (suc (suc (suc (suc i)))) = folder "" none [] []

abbrev small : Tree
small = record { dirs = places; count = 4; next_uid = 3 }

small-linked : (i : ℕ) → All (λ (c : ℕ). (places c).parent ≡ some i) (places i).children
small-linked zero = (refl, (refl, tt))
small-linked (suc zero) = (refl, tt)
small-linked (suc (suc zero)) = tt
small-linked (suc (suc (suc zero))) = tt
small-linked (suc (suc (suc (suc i)))) = tt

small-siblings : (i : ℕ) → NodupNames (names small (places i).children)
small-siblings zero = (refl, (refl, tt))
small-siblings (suc zero) = (refl, tt)
small-siblings (suc (suc zero)) = tt
small-siblings (suc (suc (suc zero))) = tt
small-siblings (suc (suc (suc (suc i)))) = tt

small-Rooted : (i : ℕ) → Rooted small i
small-Rooted zero = Rooted.top refl
small-Rooted (suc zero) = Rooted.under 0 refl (Rooted.top refl)
small-Rooted (suc (suc zero)) = Rooted.under 0 refl (Rooted.top refl)
small-Rooted (suc (suc (suc zero))) = Rooted.under 1 refl (Rooted.under 0 refl (Rooted.top refl))
small-Rooted (suc (suc (suc (suc i)))) = Rooted.top refl

small-fresh : (i : ℕ) → 4 ≤ i → ((places i).parent ≡ none) × ((places i).children ≡ [])
small-fresh zero le = absurd (omega arith)
small-fresh (suc zero) le = absurd (omega arith)
small-fresh (suc (suc zero)) le = absurd (omega arith)
small-fresh (suc (suc (suc zero))) le = absurd (omega arith)
small-fresh (suc (suc (suc (suc i)))) le = (refl, refl)

small-bound : (i p : ℕ) → (places i).parent ≡ some p → p < 4
small-bound zero p e = cc
small-bound (suc zero) p e = ground (arith, e)
small-bound (suc (suc zero)) p e = ground (arith, e)
small-bound (suc (suc (suc zero))) p e = ground (arith, e)
small-bound (suc (suc (suc (suc i)))) p e = cc

small-IsTree : IsTree small
small-IsTree = record {
  linked = small-linked;
  siblings = small-siblings;
  rooted = small-Rooted;
  fresh = small-fresh;
  bound = small-bound;
}

small-Whole : Whole [] small
small-Whole zero p still e = cc
small-Whole (suc zero) p still e =
    ap (λ (k : Option ℕ). elim k [ none ↦ true | some i ↦ lists small i 1 ]) (sym e)
small-Whole (suc (suc zero)) p still e =
    ap (λ (k : Option ℕ). elim k [ none ↦ true | some i ↦ lists small i 2 ]) (sym e)
small-Whole (suc (suc (suc zero))) p still e =
    ap (λ (k : Option ℕ). elim k [ none ↦ true | some i ↦ lists small i 3 ]) (sym e)
small-Whole (suc (suc (suc (suc i)))) p still e = cc

small-Sound : (i : ℕ) → Sound (places i).files
small-Sound zero = of_refs-Sound [] tt
small-Sound (suc zero) = of_refs-Sound (file_ref 0 "f" ∷ file_ref 1 "g" ∷ []) (refl, (refl, tt))
small-Sound (suc (suc zero)) = of_refs-Sound (file_ref 2 "g" ∷ []) (refl, tt)
small-Sound (suc (suc (suc zero))) = of_refs-Sound [] tt
small-Sound (suc (suc (suc (suc i)))) = of_refs-Sound [] tt

abbrev never_equal : Tree → ℕ → ℕ → Bool
never_equal t a b = false

abbrev tree_of : Result DirError Tree → Tree
tree_of (ok t) = t
tree_of (err e) = small

abbrev made_tree : Result DirError (ℕ × Tree) → Tree
made_tree (ok (c, t)) = t
made_tree (err e) = small

abbrev after_move : Tree
after_move = tree_of (move_to never_equal 4 9 2 (some "d") small 1)

move_to-ok : move_to never_equal 4 9 2 (some "d") small 1 ≡ ok after_move
unfolding move_to move_from validate_name is_ancestor_of ascend find_dirs with_names detach
    remove_child same_dir put_dir attach
move_to-ok = refl

-- Into itself, or to a name that is taken.
move_to-refused :
    (move_to never_equal 4 9 3 none small 1 ≡ err DirError.invalid_path)
    × (move_to never_equal 4 9 0 (some "b") small 3 ≡ err (DirError.already_exists "b"))
unfolding move_to move_from validate_name is_ancestor_of ascend find_dirs with_names detach
    remove_child same_dir put_dir attach
move_to-refused = (refl, refl)

move_to-lists_example :
    IsTree after_move
    × ((after_move.dirs 1).parent ≡ some 2)
    × ((after_move.dirs 1).name ≡ or_name (some "d") (small.dirs 1).name)
    × ((i c : ℕ) → lists after_move i c ≡ (if c == 1 then 2 == i else lists small i c))
    × ((c : ℕ) → (c == 1) ≡ false → (after_move.dirs c).parent ≡ (small.dirs c).parent)
    × ((i : ℕ) → (after_move.dirs i).files ≡ (small.dirs i).files)
move_to-lists_example =
    move_to-lists never_equal 4 9 2 (some "d") small 1 0 after_move small-IsTree refl refl
      (omega arith) move_to-ok

is_ancestor_of-Below_example :
    (enough : ℕ) × ((fuel : ℕ)
      → enough ≤ fuel
      → ((is_ancestor_of fuel small 1 3 ≡ some true) × Below small 1 3)
        ⊎ ((is_ancestor_of fuel small 1 3 ≡ some false) × (Below small 1 3 → ⊥)))
is_ancestor_of-Below_example = is_ancestor_of-Below small 1 3 (small-Rooted 3)

-- "g" is taken in the other directory, "h" is free there.
relocate_file_ref-find_files_example :
    let name = or_name (some "h") "g" in
    let moved = moved_ref (file_ref 1 "g") name small in
    ((is_empty (find_files (name ∷ []) small 2) ≡ false)
      × (relocate_file_ref 9 (file_ref 1 "g") 2 (some "h") small 1
          ≡ (small, err (DirError.already_exists name))))
    ⊎ ((t' : Tree) × (relocate_file_ref 9 (file_ref 1 "g") 2 (some "h") small 1 ≡ (t', ok moved))
        × ((n : String) (i : ℕ)
            → find_files (n ∷ []) t' i ≡ (
                if 2 == i && name == n
                then moved ∷ []
                else if 1 == i && "g" == n
                then []
                else find_files (n ∷ []) small i))
        × ((i : ℕ) → Sound (t'.dirs i).files))
unfolding find_files named of_refs Directory.index_all Directory.index Dict.lookup Dict.insert
relocate_file_ref-find_files_example =
    relocate_file_ref-find_files 9 (file_ref 1 "g") 2 (some "h") small 1 refl small-Sound refl refl

relocate_file_ref-taken :
    relocate_file_ref 9 (file_ref 1 "g") 2 none small 1 ≡ (small, err (DirError.already_exists "g"))
unfolding relocate_file_ref drop_old attach_ref find_files named of_refs Directory.index_all
    Directory.index Dict.lookup Dict.insert
relocate_file_ref-taken = refl

abbrev listing : List FileRef
listing = file_ref 0 "f" ∷ file_ref 1 "g" ∷ []

abbrev longer : FileRefList
longer = Directory.append (file_ref 2 "f") (of_refs listing)

abbrev shorter : FileRefList
shorter = record {
  items = file_ref 1 "g" ∷ file_ref 2 "f" ∷ [];
  by_name = Directory.unindex (file_ref 0 "f") longer.by_name;
}

-- The ref that is taken out has the name of one that stays.
Changed-named_example : named "f" shorter ≡ of_name "f" shorter.items
unfolding change Directory.pop Directory.append of_refs
Changed-named_example =
    Changed-named listing shorter (refl, (refl, tt))
      (Changed.then_changed {n = shorter}
        (Changed.then_changed {n = longer} Changed.unchanged (Change.appended (file_ref 2 "f")) refl
          refl)
        (Change.popped 0) tt refl)
      "f"

-- An inserted ref of a name that is there stands last in the index, first in the list.
insert-last :
    (Directory.named "f" (Directory.insert 0 (file_ref 2 "f") (of_refs listing))
      ≡ file_ref 0 "f" ∷ file_ref 2 "f" ∷ [])
    × (of_name "f" (Directory.insert 0 (file_ref 2 "f") (of_refs listing)).items
        ≡ file_ref 2 "f" ∷ file_ref 0 "f" ∷ [])
unfolding Directory.insert named of_refs Directory.index_all Directory.index Dict.lookup Dict.insert
insert-last = (refl, refl)

abbrev with_child : Tree
with_child = made_tree (create_dir "e" 9 small 2)

abbrev without_child : Tree
without_child = tree_of (delete never_equal 9 with_child 4)

-- A directory is created under the second one and deleted again.
Grows-IsTree_example : IsTree without_child × Whole (4 ∷ []) without_child
unfolding move_to move_from validate_name is_ancestor_of ascend find_dirs with_names detach
    remove_child same_dir put_dir attach create_dir delete removed
Grows-IsTree_example =
    Grows-IsTree never_equal small without_child (4 ∷ []) small-IsTree small-Whole (
      Grows.deletes (Grows.creates Grows.unchanged "e" 9 2 4 with_child (omega arith) refl) 9 4
        without_child refl refl)
