-- ===== src/Directory/Refs.antt =====
-- tgdcfs/core/model/directory.py, `TGFSDirectory`: the refs of a directory. An operation that may raise after
-- a change returns what the tree is then.
use tgdcfs.Base.{
  ℕ, ◌+◌, ◌==◌, nat_eq, string_eq, ◌&&◌, if◌then◌else◌, Option, none, some, List, [], ◌∷◌, String,
  contains,
}
use tgdcfs.Base.Result.{ok, err}
use tgdcfs.Directory
use tgdcfs.Directory.{FileRef, FileRefList, is_empty}
use tgdcfs.Directory.Tree.{Tree, DirError, Outcome, put_dir, or_name}

unfoldable pub of_names : List String → List FileRef → List FileRef
of_names names [] = []
of_names names (r ∷ refs) =
    let rest = of_names names refs in if contains names r.name then r ∷ rest else rest

-- One name is served from the index.
unfoldable pub find_files : List String → Tree → ℕ → List FileRef
find_files [] t d = (t.dirs d).files.items
find_files (name ∷ []) t d = Directory.named name (t.dirs d).files
find_files (name ∷ (other ∷ names)) t d = of_names (name ∷ (other ∷ names)) (t.dirs d).files.items

unfoldable pub find_file : String → Tree → ℕ → Outcome FileRef
find_file name t d = elim (find_files (name ∷ []) t d) [
  | [] ↦ err (DirError.does_not_exist name)
  | r ∷ rs ↦ ok r
]

-- A new ref at the end of the list, its fields as they are set by the caller before anyone reads them.
unfoldable pub attach_ref : FileRef → Tree → ℕ → Outcome Tree
attach_ref ref t d =
    if is_empty (find_files (ref.name ∷ []) t d)
    then ok
        (record (put_dir d (record (t.dirs d) { files = Directory.append ref (t.dirs d).files })
          t) { next_uid = t.next_uid + 1 })
    else err (DirError.already_exists ref.name)

abbrev pub new_ref : String → ℕ → Tree → FileRef
new_ref name fd_message_id t = record {
  uid = t.next_uid;
  message_id = fd_message_id;
  name = name;
  mirrors = [];
  store = none;
  stat = none;
  stat_epoch = 0;
}

unfoldable pub attach_file_ref : String → ℕ → Tree → ℕ → Outcome Tree
attach_file_ref name fd_message_id t d = attach_ref (new_ref name fd_message_id t) t d

unfoldable pub touch_modified : ℕ → ℕ → Tree → Tree
touch_modified now d t = put_dir d (record (t.dirs d) { modified_at = now }) t

abbrev pub touched : ℕ → ℕ → Outcome Tree → Outcome Tree
touched now d (err reason) = err reason
touched now d (ok t) = ok (touch_modified now d t)

unfoldable pub create_file_ref : ℕ → String → ℕ → Tree → ℕ → Outcome Tree
create_file_ref now name fd_message_id t d = touched now d (attach_file_ref name fd_message_id t d)

unfoldable pub delete_file_ref : ℕ → FileRef → Tree → ℕ → Outcome Tree
delete_file_ref now ref t d = elim (Directory.remove ref (t.dirs d).files) [
  | none ↦ err DirError.value_error
  | some files ↦ ok (put_dir d (record (t.dirs d) { files = files; modified_at = now }) t)
]

-- The handler of a failed deletion takes the new ref back; its own failure replaces the first.
unfoldable pub undo : DirError → Tree → Outcome Tree → Tree × Outcome FileRef
undo reason t (ok t') = (t', err reason)
undo reason t (err other) = (t, err other)

-- After the old ref was deleted, or was not.
unfoldable pub finish : ℕ → FileRef → ℕ → Tree → Outcome Tree → Tree × Outcome FileRef
finish now moved to t (ok t') = (t', ok moved)
finish now moved to t (err reason) = undo reason t (delete_file_ref now moved t to)

-- After the new ref was created, or was not.
unfoldable pub drop_old :
    ℕ → FileRef → FileRef → ℕ → ℕ → Tree → Outcome Tree → Tree × Outcome FileRef
drop_old now ref moved to self t (ok t') = finish now moved to t' (delete_file_ref now ref t' self)
drop_old now ref moved to self t (err reason) = (t, err reason)

-- The new ref has what the old one has: the message of the descriptor, its mirrors, its store, its stat.
abbrev pub moved_ref : FileRef → String → Tree → FileRef
moved_ref ref name t = record ref { uid = t.next_uid; name = name }

unfoldable pub relocate_file_ref :
    ℕ → FileRef → ℕ → Option String → Tree → ℕ → Tree × Outcome FileRef
relocate_file_ref now ref to new_name t self =
    let name = or_name new_name ref.name in
    if to == self && name == ref.name
    then (t, ok ref)
    else drop_old now ref (moved_ref ref name t) to self t
        (touched now to (attach_ref (moved_ref ref name t) t to))
