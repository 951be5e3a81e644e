-- ===== src/Directory/Relocating.antt =====
-- tgdcfs/core/model/directory.py, `relocate_file_ref`: where a moved ref is found.
use tgdcfs.Base.{
  Bool, ◌⊎◌, ℕ, ◌+◌, ◌≡◌, refl, ◌∙◌, sym, ap, subst, ◌==◌, nat_eq, string_eq, true, false, ◌&&◌,
  if◌then◌else◌, Option, some, List, [], ◌∷◌, ◌++◌, String, arith, Bool-cases, inl, inr, append-nil,
  if_both,
}
use tgdcfs.Base.Result.{ok, err}
use tgdcfs.Directory
use tgdcfs.Directory.{FileRef, FileRefList, is_empty}
use tgdcfs.Directory.Index.{has_uid, of_name, of_name-append}
use tgdcfs.Directory.Changes.{Sound, append-Sound}
use tgdcfs.Directory.Tree.{Tree, DirError, put_dir, or_name}
use tgdcfs.Directory.Unique.{take_out}
use tgdcfs.Directory.Refs.{
  find_files, finish, attach_ref, touch_modified, touched, delete_file_ref, drop_old, moved_ref,
  relocate_file_ref,
}

is_empty-nil : (refs : List FileRef) → is_empty refs ≡ true → refs ≡ []
is_empty-nil [] e = refl
is_empty-nil (r ∷ refs) e = cc

-- Two tests that do not hold together can be made in either order.
ifs_swap :
    (q c : Bool) (xs ys us vs : List FileRef)
    → (q ≡ true → c ≡ false)
    → us ≡ vs
    → (if q then xs else if c then ys else us) ≡ (if c then ys else if q then xs else vs)
ifs_swap true c xs ys us vs h e = rw (h refl) refl
ifs_swap false c xs ys us vs h e = rw e refl

delete-ok :
    (now : ℕ) (ref : FileRef) (t : Tree) (d : ℕ) (files : FileRefList)
    → Directory.remove ref (t.dirs d).files ≡ some files
    → delete_file_ref now ref t d
      ≡ ok (put_dir d (record (t.dirs d) { files = files; modified_at = now }) t)
unfolding delete_file_ref
delete-ok now ref t d files e = rw (e, delete_file_ref) refl

module _ (now : ℕ) (ref : FileRef) (to : ℕ) (new_name : Option String) (t : Tree) (self : ℕ) where
  abbrev name : String
  name = or_name new_name ref.name

  abbrev moved : FileRef
  moved = moved_ref ref name t

  abbrev attached : Tree
  attached =
      record (put_dir to (record (t.dirs to) { files = Directory.append moved (t.dirs to).files })
        t) { next_uid = t.next_uid + 1 }

  abbrev created : Tree
  created = touch_modified now to attached

  created-ok :
      is_empty (find_files (name ∷ []) t to) ≡ true
      → touched now to (attach_ref moved t to) ≡ ok created
  unfolding attach_ref
  created-ok e = rw e refl

  created-err :
      is_empty (find_files (name ∷ []) t to) ≡ false
      → touched now to (attach_ref moved t to) ≡ err (DirError.already_exists name)
  unfolding attach_ref
  created-err e = rw e refl

  created-files :
      (i : ℕ)
      → (created.dirs i).files
        ≡ (if to == i then Directory.append moved (t.dirs to).files else (t.dirs i).files)
  unfolding touch_modified put_dir
  created-files i = ground (arith, nat_eq.eqb_iff to i)

  relocate-elsewhere :
      (to == self && name == ref.name) ≡ false
      → relocate_file_ref now ref to new_name t self
        ≡ drop_old now ref moved to self t (touched now to (attach_ref moved t to))
  unfolding relocate_file_ref
  relocate-elsewhere e = rw e refl

  module _ (elsewhere : (to == self && name == ref.name) ≡ false)
      (sound : (i : ℕ) → Sound (t.dirs i).files)
      (fresh : has_uid t.next_uid (t.dirs to).files.items ≡ false)
      (known : find_files (ref.name ∷ []) t self ≡ ref ∷ [])
      (free : is_empty (find_files (name ∷ []) t to) ≡ true) where
    created-Sound : Sound (created.dirs self).files
    created-Sound = subst Sound (sym (created-files self)) (
        if_both Sound (to == self) _ _
          (λ here. append-Sound moved (t.dirs to).files fresh (sound to)) (λ apart. sound self))

    here : of_name ref.name (t.dirs self).files.items ≡ ref ∷ []
    unfolding find_files
    here = sym ((sound self).0 ref.name) ∙ known

    appended :
        (n : String)
        → of_name n (Directory.append moved (t.dirs to).files).items
          ≡ of_name n (t.dirs to).files.items ++ of_name n (moved ∷ [])
    unfolding Directory.append
    appended n = of_name-append n (t.dirs to).files.items (moved ∷ [])

    still_here : of_name ref.name (created.dirs self).files.items ≡ ref ∷ []
    still_here = elim (Bool-cases (to == self)) [
      | inr apart ↦
          ap (λ (l : FileRefList). of_name ref.name l.items) (created-files self) ∙ rw apart here
      | inl same ↦
          let is : to ≡ self = (nat_eq.eqb_iff to self).0 same in
          let other : (name == ref.name) ≡ false = ground (arith, elsewhere, same) in
          ap (λ (l : FileRefList). of_name ref.name l.items) (created-files self)
          ∙ rw same (
              appended ref.name
              ∙ rw other (
                  append-nil (of_name ref.name (t.dirs to).files.items)
                  ∙ ap (λ (i : ℕ). of_name ref.name (t.dirs i).files.items) is
                  ∙ here))
    ]

    absent : of_name name (t.dirs to).files.items ≡ []
    unfolding find_files
    absent = sym ((sound to).0 name) ∙ is_empty-nil (find_files (name ∷ []) t to) free

    created-names :
        (n : String) (i : ℕ)
        → of_name n (created.dirs i).files.items
          ≡ (if to == i && name == n then moved ∷ [] else of_name n (t.dirs i).files.items)
    created-names n i = elim (Bool-cases (to == i)) [
      | inr apart ↦ ap (λ (l : FileRefList). of_name n l.items) (created-files i) ∙ rw apart refl
      | inl at_to ↦
          let is : to ≡ i = (nat_eq.eqb_iff to i).0 at_to in
          let back = ap (λ (j : ℕ). of_name n (t.dirs j).files.items) is in
          ap (λ (l : FileRefList). of_name n l.items) (created-files i)
          ∙ rw at_to (
              appended n ∙ elim (Bool-cases (name == n)) [
                | inl same ↦
                    let named : name ≡ n = (string_eq.eqb_iff name n).0 same in
                    rw same (
                      ap (λ (k : String). of_name k (t.dirs to).files.items ++ (moved ∷ []))
                        (sym named)
                      ∙ ap (λ (rs : List FileRef). rs ++ (moved ∷ [])) absent)
                | inr other ↦ rw other (append-nil (of_name n (t.dirs to).files.items) ∙ back)
              ])
    ]

    created-all_Sound : (i : ℕ) → Sound (created.dirs i).files
    created-all_Sound i = subst Sound (sym (created-files i)) (
        if_both Sound (to == i) _ _ (λ here. append-Sound moved (t.dirs to).files fresh (sound to))
          (λ apart. sound i))

    renamed-elsewhere :
        (n : String) (i : ℕ) → (self == i && ref.name == n) ≡ true → (to == i && name == n) ≡ false
    renamed-elsewhere n i at_old = elim (Bool-cases (to == i && name == n)) [
      | inr apart ↦ apart
      | inl at_new ↦
          let met : (to == self && name == ref.name) ≡ true = ground (
            arith,
            at_old,
            at_new,
            nat_eq.eqb_iff self i,
            nat_eq.eqb_iff to i,
            nat_eq.eqb_iff to self,
            string_eq.eqb_iff ref.name n,
            string_eq.eqb_iff name n,
            string_eq.eqb_iff name ref.name,
          ) in
          cc (sym elsewhere ∙ met)
    ]

    relocated :
        (t' : Tree) × (relocate_file_ref now ref to new_name t self ≡ (t', ok moved))
        × ((n : String) (i : ℕ)
            → find_files (n ∷ []) t' i ≡ (
                if to == i && name == n
                then moved ∷ []
                else if self == i && ref.name == n
                then []
                else find_files (n ∷ []) t i))
        × ((i : ℕ) → Sound (t'.dirs i).files)
    unfolding find_files drop_old finish put_dir
    relocated =
        let out = take_out ref (created.dirs self).files created-Sound still_here in
        let t' : Tree =
          put_dir self (record (created.dirs self) { files = out.0; modified_at = now }) created in
        let sound' : (i : ℕ) → Sound (t'.dirs i).files = λ i. elim (Bool-cases (self == i)) [
          | inl at_self ↦ rw at_self out.2
          | inr apart ↦ rw apart (created-all_Sound i)
        ] in
        (
          t',
          relocate-elsewhere elsewhere
              ∙ ap (drop_old now ref moved to self t) (created-ok free)
              ∙ ap (finish now moved to created) (delete-ok now ref created self out.0 out.1),
          (λ n i. (sound' i).0 n ∙ elim (Bool-cases (self == i)) [
            | inl at_self ↦
                let is : self ≡ i = (nat_eq.eqb_iff self i).0 at_self in
                rw at_self (
                  out.3 n
                  ∙ ap (λ (rs : List FileRef). if ref.name == n then [] else rs)
                      (ap (λ (j : ℕ). of_name n (created.dirs j).files.items) is
                        ∙ created-names n i)
                  ∙ ifs_swap (ref.name == n) (to == i && name == n) [] (moved ∷ []) _ _
                      (λ q. renamed-elsewhere n i (ground (arith, at_self, q)))
                      (sym ((sound i).0 n)))
            | inr apart ↦ rw apart (
                created-names n i
                ∙ ap (λ (rs : List FileRef). if to == i && name == n then moved ∷ [] else rs)
                    (sym ((sound i).0 n)))
          ]),
          sound',
        )

-- A ref that is the only one of its name in its directory moves to a directory or a name, or both, where it
-- was not. It raises `already_exists`, and changes nothing, where the new name is taken; else it returns the
-- moved ref, which has what the old one had. The new name then stands for the moved ref alone, the old name
-- for nothing, and every other name in every directory for what it did: no file is lost, no name is
-- double. The listings agree with their indices before and after, and `t.next_uid` is a new object.
pub relocate_file_ref-find_files :
    (now : ℕ) (ref : FileRef) (to : ℕ) (new_name : Option String) (t : Tree) (self : ℕ)
    → (to == self && or_name new_name ref.name == ref.name) ≡ false
    → ((i : ℕ) → Sound (t.dirs i).files)
    → has_uid t.next_uid (t.dirs to).files.items ≡ false
    → find_files (ref.name ∷ []) t self ≡ ref ∷ []
    → let name = or_name new_name ref.name in
      let moved = moved_ref ref name t in
      ((is_empty (find_files (name ∷ []) t to) ≡ false)
        × (relocate_file_ref now ref to new_name t self ≡ (t, err (DirError.already_exists name))))
      ⊎ ((t' : Tree) × (relocate_file_ref now ref to new_name t self ≡ (t', ok moved))
          × ((n : String) (i : ℕ)
              → find_files (n ∷ []) t' i ≡ (
                  if to == i && name == n
                  then moved ∷ []
                  else if self == i && ref.name == n
                  then []
                  else find_files (n ∷ []) t i))
          × ((i : ℕ) → Sound (t'.dirs i).files))
unfolding drop_old
relocate_file_ref-find_files now ref to new_name t self elsewhere sound fresh known =
    elim (Bool-cases (is_empty (find_files (or_name new_name ref.name ∷ []) t to))) [
      | inr taken ↦ inl (
        taken,
        relocate-elsewhere now ref to new_name t self elsewhere
            ∙ ap (drop_old now ref _ to self t) (created-err now ref to new_name t self taken),
      )
      | inl free ↦ inr (relocated now ref to new_name t self elsewhere sound fresh known free)
    ]
