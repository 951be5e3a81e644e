-- ===== src/Directory/Tree.antt =====
-- tgdcfs/core/model/directory.py, `TGFSDirectory`: directories are objects, numbered in a store.
use Prim.Native.Char.{code}
use tgdcfs.Base.{
  ℕ, zero, suc, ◌+◌, ◌==◌, nat_eq, string_eq, Bool, true, false, ◌&&◌, ◌||◌, if◌then◌else◌, Option,
  none, some, List, [], ◌∷◌, ◌++◌, String, contains,
}
use tgdcfs.Base.Result.{Result, ok, err, ◌>>=◌, ◌>>◌, require}
use tgdcfs.Directory
use tgdcfs.Directory.{FileRef, FileRefList, is_empty}

pub record Dir : Type 0 where
  pub name : String
  pub parent : Option ℕ
  pub children : List ℕ
  pub files : FileRefList
  pub created_at : ℕ
  pub modified_at : ℕ

-- `count` directories were made, and `next_uid` refs.
pub record Tree : Type 0 where
  pub dirs : ℕ → Dir
  pub count : ℕ
  pub next_uid : ℕ

pub data DirError : Type 0 where
  already_exists : String → DirError
  does_not_exist : String → DirError
  invalid_name : String → DirError
  invalid_path : DirError
  root_moved : DirError
  index_error : DirError
  value_error : DirError
  out_of_fuel : DirError

abbrev pub Outcome : Type 0 → Type 0
Outcome A = Result DirError A

abbrev pub codes : String → List ℕ
codes String.[] = []
codes (String.◌∷◌ c s) = code c ∷ codes s

-- `name[0]` raises for an empty name.
unfoldable pub validate_name : String → Outcome (Unit {0})
validate_name name = elim (codes name) [
  | [] ↦ err index_error
  | first ∷ rest ↦
      if first == b'-' || contains (first ∷ rest) b'/' then err (invalid_name name) else ok tt
]

unfoldable pub put_dir : ℕ → Dir → Tree → Tree
put_dir i dir t = record t { dirs = λ (j : ℕ). if i == j then dir else t.dirs j }

unfoldable pub with_names : List String → Tree → List ℕ → List ℕ
with_names names t [] = []
with_names names t (c ∷ children) =
    let rest = with_names names t children in
    if contains names (t.dirs c).name then c ∷ rest else rest

unfoldable pub find_dirs : List String → Tree → ℕ → List ℕ
find_dirs names t d =
    if is_empty names then (t.dirs d).children else with_names names t (t.dirs d).children

unfoldable pub find_dir : String → Tree → ℕ → Outcome ℕ
find_dir name t d = elim (find_dirs (name ∷ []) t d) [
  | [] ↦ err (does_not_exist name)
  | c ∷ cs ↦ ok c
]

-- `TGFSDirectory(name=…)` validates the name.
unfoldable pub create_dir : String → ℕ → Tree → ℕ → Outcome (ℕ × Tree)
create_dir name now t d = do
  require (is_empty (find_dirs (name ∷ []) t d)) (already_exists name)
  validate_name name
  let child : Dir = record {
    name = name;
    parent = some d;
    children = [];
    files = Directory.of_refs [];
    created_at = now;
    modified_at = now;
  }
  let made : Tree = record (put_dir t.count child t) { count = t.count + 1 }
  let under : Dir = made.dirs d
  ok (
    t.count,
    put_dir d (record under { children = under.children ++ (t.count ∷ []); modified_at = now })
        made,
  )

-- The loop of `is_ancestor_of`, from a node upwards; `none` when the fuel is spent.
unfoldable pub ascend : ℕ → Tree → ℕ → Option ℕ → Option Bool
ascend fuel t ancestor none = some false
ascend zero t ancestor (some node) = none
ascend (suc fuel) t ancestor (some node) =
    let rest = ascend fuel t ancestor (t.dirs node).parent in
    if node == ancestor then some true else rest

unfoldable pub is_ancestor_of : ℕ → Tree → ℕ → ℕ → Option Bool
is_ancestor_of fuel t self other = ascend fuel t self (some other)

-- `new_name or self.name`
abbrev pub or_name : Option String → String → String
or_name none name = name
or_name (some new_name) name = if is_empty (codes new_name) then name else new_name

-- The new place; `_touch_modified`.
unfoldable pub attach : ℕ → String → ℕ → ℕ → Tree → Tree
attach now name p self t =
    let moved : Tree = put_dir self (record (t.dirs self) { name = name; parent = some p }) t in
    put_dir p
      (record (moved.dirs p) {
        children = (moved.dirs p).children ++ (self ∷ []);
        modified_at = now;
      })
      moved

abbrev pub below : Option Bool → Outcome (Unit {0})
below none = err out_of_fuel
below (some true) = err invalid_path
below (some false) = ok tt

-- `list.remove` compares two directories by `==`: the same object, or the same name and equal otherwise.
module _ (others_equal : Tree → ℕ → ℕ → Bool) where
  unfoldable pub same_dir : Tree → ℕ → ℕ → Bool
  same_dir t a b = a == b || ((t.dirs a).name == (t.dirs b).name && others_equal t a b)

  -- The children without the first that equals the directory; `none` where none does.
  unfoldable pub remove_child : Tree → ℕ → List ℕ → Option (List ℕ)
  remove_child t self [] = none
  remove_child t self (c ∷ children) =
      let rest = remove_child t self children in
      if same_dir t c self
      then some children
      else elim rest [ none ↦ none | some kept ↦ some (c ∷ kept) ]

  -- `self.parent.children.remove(self)` and `_touch_modified`.
  unfoldable pub detach : ℕ → ℕ → ℕ → Tree → Outcome Tree
  detach now p self t = elim (remove_child t self (t.dirs p).children) [
    | none ↦ err value_error
    | some kept ↦ ok (put_dir p (record (t.dirs p) { children = kept; modified_at = now }) t)
  ]

  -- What `move_to` does once it knows the old parent and the name.
  unfoldable pub move_from : ℕ → ℕ → ℕ → String → ℕ → Tree → ℕ → Outcome Tree
  move_from fuel now new_parent name old_parent t self =
      validate_name name
      >> (if new_parent == old_parent && name == (t.dirs self).name
          then ok t
          else (below (is_ancestor_of fuel t self new_parent)
              >> (require (is_empty (find_dirs (name ∷ []) t new_parent)) (already_exists name)
                  >> (detach now old_parent self t >>= λ (detached : Tree).
                      ok (attach now name new_parent self detached)))))

  unfoldable pub move_to : ℕ → ℕ → ℕ → Option String → Tree → ℕ → Outcome Tree
  move_to fuel now new_parent new_name t self = elim (t.dirs self).parent [
    | none ↦ err root_moved
    | some old_parent ↦
        move_from fuel now new_parent (or_name new_name (t.dirs self).name) old_parent t self
  ]

  unfoldable pub delete : ℕ → Tree → ℕ → Outcome Tree
  delete now t self = elim (t.dirs self).parent [
    | some p ↦ detach now p self t
    | none ↦ ok (
        put_dir self
          (record (t.dirs self) {
            children = [];
            files = Directory.clear (t.dirs self).files;
            modified_at = now;
          })
          t)
  ]
