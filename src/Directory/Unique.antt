-- ===== src/Directory/Unique.antt =====
-- tgdcfs/core/model/directory.py: taking out of a list the only ref of a name.
use tgdcfs.Base.{
  ◌++◌, if◌then◌else◌, ℕ, ◌≡◌, ◌≢◌, refl, ◌∙◌, sym, ap, ◌==◌, nat_eq, string_eq, true, false, some,
  List, [], ◌∷◌, String, arith, Bool-cases, inl, inr, All, All-map, ==_refl, subst,
}
use tgdcfs.Directory
use tgdcfs.Directory.{FileRef, same_ref, remove_first, FileRefList}
use tgdcfs.Directory.Changes.{Sound, remove-Sound, removed_eq}
use tgdcfs.Directory.Index.{Apart, has_uid, of_name, remove_first-Removed, of_name-append, Removed}

clash : (a b : String) → (a == b) ≡ false → a ≡ b → ⊥
clash a b other same = ground (arith, other, string_eq.eqb_iff a b, same)

-- Equal refs have one name.
same_ref-name :
    (a b : FileRef) → (a.uid ≡ b.uid → a.name ≡ b.name) → same_ref a b ≡ true → a.name ≡ b.name
unfolding same_ref
same_ref-name a b one e = elim (Bool-cases (a.uid == b.uid)) [
  | inl same ↦ one ((nat_eq.eqb_iff a.uid b.uid).0 same)
  | inr other ↦ ground (arith, e, other, string_eq.eqb_iff a.name b.name)
]

head_eq : (a b : FileRef) (as' bs : List FileRef) → a ∷ as' ≡ b ∷ bs → a ≡ b
head_eq a b as' bs e = ground (arith, e)

tail_eq : (a b : FileRef) (as' bs : List FileRef) → a ∷ as' ≡ b ∷ bs → as' ≡ bs
tail_eq a b as' bs e = ground (arith, e)

none_named :
    (name : String) (items : List FileRef)
    → of_name name items ≡ []
    → All (λ (q : FileRef). (q.name == name) ≡ false) items
none_named name [] e = tt
none_named name (q ∷ items) e = elim (Bool-cases (q.name == name)) [
  | inl same ↦ cc (rw same at e)
  | inr other ↦ (other, none_named name items (rw other at e))
]

-- The only ref of a name is the one that is found.
only_one :
    (r : FileRef) (items : List FileRef)
    → of_name r.name items ≡ r ∷ []
    → All (λ (q : FileRef). q.name ≡ r.name → q ≡ r) items
only_one r [] e = tt
only_one r (q ∷ items) e = elim (Bool-cases (q.name == r.name)) [
  | inl same ↦
      let f : q ∷ of_name r.name items ≡ r ∷ [] = rw same at e in
      (
        (λ n. head_eq q r (of_name r.name items) [] f),
        All-map _ _ (λ x other n. absurd (clash x.name r.name other n)) items
            (none_named r.name items (tail_eq q r (of_name r.name items) [] f)),
      )
  | inr other ↦ ((λ n. absurd (clash q.name r.name other n)), only_one r items (rw other at e))
]

found_uid :
    (r : FileRef) (rest items : List FileRef)
    → of_name r.name items ≡ r ∷ rest
    → has_uid r.uid items ≡ true
found_uid r rest [] e = cc
found_uid r rest (q ∷ items) e = elim (Bool-cases (q.name == r.name)) [
  | inl same ↦
      let is : q ≡ r = head_eq q r (of_name r.name items) rest (rw same at e) in
      ground (arith, ap (λ (x : FileRef). x.uid) is, nat_eq.eqb_iff q.uid r.uid)
  | inr other ↦ ground (arith, found_uid r rest items (rw other at e))
]

absent_uid :
    (u : ℕ) (items : List FileRef)
    → has_uid u items ≡ false
    → All (λ (q : FileRef). q.uid ≢ u) items
absent_uid u [] h = tt
absent_uid u (q ∷ items) h = (
  (λ same. ground (arith, h, same, nat_eq.eqb_iff q.uid u)),
  absent_uid u items (ground (arith, h)),
)

one_object :
    (r : FileRef) (items : List FileRef)
    → Apart items
    → of_name r.name items ≡ r ∷ []
    → All (λ (q : FileRef). q.uid ≡ r.uid → q ≡ r) items
one_object r [] apart e = tt
one_object r (q ∷ items) (fresh, apart) e = elim (Bool-cases (q.name == r.name)) [
  | inl same ↦
      let is : q ≡ r = head_eq q r (of_name r.name items) [] (rw same at e) in
      (
        (λ u. is),
        All-map _ _ (λ x other u. absurd (other (u ∙ sym (ap (λ (y : FileRef). y.uid) is)))) items
            (absent_uid q.uid items fresh),
      )
  | inr other ↦
      let f : of_name r.name items ≡ r ∷ [] = rw other at e in
      (
        (λ u. cc (sym (found_uid r [] items f) ∙ sym (ap (λ (k : ℕ). has_uid k items) u) ∙ fresh)),
        one_object r items apart f,
      )
]

same_self : (r : FileRef) → same_ref r r ≡ true
unfolding same_ref
same_self r = ground (arith, nat_eq.eqb_iff r.uid r.uid)

remove_first-found :
    (r : FileRef) (rest items : List FileRef)
    → of_name r.name items ≡ r ∷ rest
    → (kept : List FileRef) × (remove_first r items ≡ some kept)
unfolding remove_first
remove_first-found r rest [] e = cc
remove_first-found r rest (q ∷ items) e = elim (Bool-cases (same_ref q r)) [
  | inl same ↦ (items, rw same refl)
  | inr other ↦ elim (Bool-cases (q.name == r.name)) [
    | inl alike ↦
        let is : q ≡ r = head_eq q r (of_name r.name items) rest (rw alike at e) in
        cc (sym (ap (λ (x : FileRef). same_ref x r) is ∙ same_self r) ∙ other)
    | inr differ ↦
        let ih = remove_first-found r rest items (rw differ at e) in
        (q ∷ ih.0, rw (other, ih.1) refl)
  ]
]

nonempty : (x : FileRef) (xs : List FileRef) → x ∷ xs ≡ [] → ⊥
nonempty x xs e = ground (arith, e)

All-map2 :
    (P Q R : FileRef → Type 0)
    → ((x : FileRef) → P x → Q x → R x)
    → (xs : List FileRef) → All P xs
    → All Q xs
    → All R xs
All-map2 P Q R f [] h k = tt
All-map2 P Q R f (x ∷ xs) (p, h) (q, k) = (f x p q, All-map2 P Q R f xs h k)

All-nth :
    (P : FileRef → Type 0) (before : List FileRef) (q : FileRef) (after : List FileRef)
    → All P (before ++ (q ∷ after))
    → P q
All-nth P [] q after (p, h) = p
All-nth P (x ∷ before) q after (p, h) = All-nth P before q after h

-- Two lists about a ref that are together one ref are empty.
alone : (q : FileRef) (xs ys : List FileRef) (r : FileRef) → xs ++ (q ∷ ys) ≡ r ∷ [] → xs ++ ys ≡ []
alone q [] ys r e = tail_eq q r ys [] e
alone q (x ∷ []) ys r e = absurd (nonempty q ys (tail_eq x r (q ∷ ys) [] e))
alone q (x ∷ (z ∷ xs)) ys r e =
    absurd (nonempty z (xs ++ (q ∷ ys)) (tail_eq x r (z ∷ (xs ++ (q ∷ ys))) [] e))

names_out :
    (r q : FileRef) (before after : List FileRef) (n : String)
    → q ≡ r
    → of_name r.name (before ++ (q ∷ after)) ≡ r ∷ []
    → of_name n (before ++ after) ≡ (if r.name == n then [] else of_name n (before ++ (q ∷ after)))
names_out r q before after n is e = elim (Bool-cases (r.name == n)) [
  | inl same ↦
      let name : r.name ≡ n = (string_eq.eqb_iff r.name n).0 same in
      let here : of_name r.name (q ∷ after) ≡ q ∷ of_name r.name after =
        ap (λ (x : FileRef). of_name x.name (q ∷ after)) (sym is)
        ∙ rw (==_refl q.name) refl
        ∙ ap (λ (x : FileRef). q ∷ of_name x.name after) is in
      rw same (
        ap (λ (k : String). of_name k (before ++ after)) (sym name)
        ∙ of_name-append r.name before after
        ∙ alone q (of_name r.name before) (of_name r.name after) r (
            ap (λ (rs : List FileRef). of_name r.name before ++ rs) (sym here)
            ∙ sym (of_name-append r.name before (q ∷ after))
            ∙ e))
  | inr other ↦
      let gone : of_name n (q ∷ after) ≡ of_name n after =
        ground (arith, other, ap (λ (x : FileRef). x.name) is) in
      rw other (
        of_name-append n before after
        ∙ ap (λ (rs : List FileRef). of_name n before ++ rs) (sym gone)
        ∙ sym (of_name-append n before (q ∷ after)))
]

-- The only ref of its name can be taken out, and the others stay.
pub take_out :
    (r : FileRef) (l : FileRefList)
    → Sound l
    → of_name r.name l.items ≡ r ∷ []
    → (l' : FileRefList) × (Directory.remove r l ≡ some l')
      × Sound l'
      × ((n : String) → of_name n l'.items ≡ (if r.name == n then [] else of_name n l.items))
take_out r l h e =
    let f = remove_first-found r [] l.items e in
    let m = remove_first-Removed r l.items f.0 f.1 in
    let l' : FileRefList = record { items = f.0; by_name = Directory.unindex r l.by_name } in
    let done : Directory.remove r l ≡ some l' = sym (removed_eq r l f.0 f.1) in
    let one = one_object r l.items h.1 e in
    let only = only_one r l.items e in
    let allowed : All (λ (q : FileRef). same_ref q r ≡ true → (q.uid ≡ r.uid) × (q.name ≡ r.name))
        l.items =
      All-map2 _ _ _
        (λ q o n s.
          let is : q ≡ r = n (same_ref-name q r (λ u. ap (λ (x : FileRef). x.name) (o u)) s) in
          (ap (λ (x : FileRef). x.uid) is, ap (λ (x : FileRef). x.name) is))
        l.items one only in
    let at_item = λ (P : FileRef → Type 0) (a : All P l.items).
      All-nth P (Removed.before m) (Removed.item m) (Removed.after m)
        (subst (All P) (Removed.stood m) a) in
    let is : Removed.item m ≡ r = at_item _ only (
      same_ref-name (Removed.item m) r (λ u. ap (λ (x : FileRef). x.name) (at_item _ one u))
        (Removed.equal m)) in
    (
      l',
      done,
      remove-Sound r l l' allowed done h,
      λ n.
          ap (of_name n) (Removed.left m)
          ∙ names_out r (Removed.item m) (Removed.before m) (Removed.after m) n is
              (ap (of_name r.name) (sym (Removed.stood m)) ∙ e)
          ∙ ap (λ (rs : List FileRef). if r.name == n then [] else of_name n rs)
              (sym (Removed.stood m)),
    )
