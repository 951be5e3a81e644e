-- ===== src/Directory/Growth.antt =====
-- tgdcfs/core/model/directory.py: directories that are created, moved and deleted, one after another.
use tgdcfs.Base.{
  ℕ, ◌<◌, ◌≡◌, nat_eq, string_eq, Bool, false, Option, String, List, [], ◌++◌, contains,
}
use tgdcfs.Base.Result.{ok}
use tgdcfs.Directory.Tree.{Tree, create_dir, delete, move_to}
use tgdcfs.Directory.Siblings.{IsTree}
use tgdcfs.Directory.Moves.{move_to-IsTree}
use tgdcfs.Directory.Growing.{create_dir-IsTree}
use tgdcfs.Directory.Shrinking.{delete-IsTree}
use tgdcfs.Directory.Whole.{Whole, removed, create_dir-Whole, move_to-Whole, delete-Whole}

-- The methods that change the directories of a tree, and the directories that were deleted. The new parent is one
-- of the tree, and what was deleted is neither moved nor deleted again.
pub data Grows (others_equal : Tree → ℕ → ℕ → Bool) (t : Tree) : List ℕ → Tree → Type 0 where
  unchanged : Grows others_equal t [] t
  creates :
      {gone : List ℕ} {u : Tree}
      → Grows others_equal t gone u
      → (name : String) (now d c : ℕ) (v : Tree) → d < u.count
      → create_dir name now u d ≡ ok (c, v)
      → Grows others_equal t gone v
  moves :
      {gone : List ℕ} {u : Tree}
      → Grows others_equal t gone u
      → (fuel now np : ℕ) (new_name : Option String) (s : ℕ) (v : Tree) → np < u.count
      → contains gone s ≡ false
      → move_to others_equal fuel now np new_name u s ≡ ok v
      → Grows others_equal t gone v
  deletes :
      {gone : List ℕ} {u : Tree}
      → Grows others_equal t gone u
      → (now self : ℕ) (v : Tree) → contains gone self ≡ false
      → delete others_equal now u self ≡ ok v
      → Grows others_equal t (removed u self ++ gone) v

-- Whatever directories are created, moved and deleted, in any order: every directory that was not deleted is among
-- the children of its parent, every child names the directory that lists it as its parent, siblings have
-- different names, and every directory leads up to a root. The tree is such a one before. New directories
-- and new parents are among those of the tree, and a directory that was deleted, or one that a root listed
-- when the root was deleted, is neither moved nor deleted after that.
pub Grows-IsTree :
    (others_equal : Tree → ℕ → ℕ → Bool) (t u : Tree) (gone : List ℕ)
    → IsTree t
    → Whole [] t
    → Grows others_equal t gone u
    → IsTree u × Whole gone u
Grows-IsTree others_equal t u gone tree whole unchanged = (tree, whole)
Grows-IsTree others_equal t u gone tree whole (creates {u = w} before name now d c v here e) =
    let (tree', whole') = Grows-IsTree others_equal t w gone tree whole before in
    (
      create_dir-IsTree name now w d c v tree' here e,
      create_dir-Whole gone name now w d c v tree' here e whole',
    )
Grows-IsTree others_equal t u gone tree whole
      (moves {u = w} before fuel now np new_name s v here still e) =
    let (tree', whole') = Grows-IsTree others_equal t w gone tree whole before in
    (
      (move_to-IsTree others_equal fuel now np new_name w s v tree' here e).0,
      move_to-Whole others_equal gone fuel now np new_name w s v tree' here still e whole',
    )
Grows-IsTree others_equal t u gone tree whole
      (deletes {gone = before_gone} {u = w} before now self v still e) =
    let (tree', whole') = Grows-IsTree others_equal t w before_gone tree whole before in
    (
      delete-IsTree others_equal now w self v tree' e,
      delete-Whole others_equal before_gone now w self v tree' still e whole',
    )
