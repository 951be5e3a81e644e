-- ===== src/Content/Range.antt =====
-- tgdcfs/core/repository/impl/file_content/__init__.py: the pieces cover the range exactly.
use tgdcfs.Base.{
  if◌then◌else◌, ℕ, zero, suc, ◌+◌, ◌-◌, ◌≤◌, ◌<◌, ◌≡◌, refl, ◌∙◌, sym, ap, true, false, List, [],
  ◌∷◌, ◌++◌, ltb, leb, length, take, drop, map, min, arith, Bool-cases, inl, inr, append_assoc,
  length-zero, length-drop, Bool, drop-append_ge, take-min, length-take, length-append, ℤ, pos,
  pos_part, is_negative, drop-append, take-append,
}
use tgdcfs.Base.Result.{Result, ok, err, ◌>>=◌}
use tgdcfs.Content.{
  Bytes, RangeError, Piece, seek, cut, message_at, map_from, joined, invalid_range, map_range,
  begin_exceeds, clamp_end, invalid_begin,
}

-- The bytes of one piece, and of all, of a file that is stored as these parts.
abbrev pub part_at : List Bytes → ℕ → Bytes
part_at [] i = []
part_at (p ∷ ps) zero = p
part_at (p ∷ ps) (suc i) = part_at ps i

abbrev pub piece_bytes : List Bytes → Piece → Bytes
piece_bytes parts q = take (q.end + 1 - q.begin) (drop q.begin (part_at parts q.part))

unfoldable pub bytes_of : List Bytes → List Piece → Bytes
bytes_of parts [] = []
bytes_of parts (q ∷ qs) = piece_bytes parts q ++ bytes_of parts qs

part_at-append :
    (pre : List Bytes) (p : Bytes) (ps : List Bytes) → part_at (pre ++ (p ∷ ps)) (length pre) ≡ p
part_at-append [] p ps = refl
part_at-append (x ∷ pre) p ps = part_at-append pre p ps

module _ (begin end offset : ℕ) (p rest : Bytes) where
  abbrev first : ℕ
  first = begin - offset

  abbrev count : ℕ
  count = end + 1 - offset - first

  -- What the range takes of one part, and of the parts after it.
  take_part :
      take count (drop first (p ++ rest))
      ≡ take count (drop first p)
        ++ take
            (end + 1 - (offset + length p) - (begin - (offset + length p)))
            (drop (begin - (offset + length p)) rest)
  take_part =
      let size : length (drop first p) ≡ length p - first = length-drop first p in
      let later : first - length p ≡ begin - (offset + length p) = omega arith in
      let fewer : count - length (drop first p)
          ≡ end + 1 - (offset + length p) - (begin - (offset + length p)) =
        omega (arith, size) in
      rw
        (
          drop-append first p rest,
          take-append count (drop first p) (drop (first - length p) rest),
          later,
          fewer,
        )
        refl

  take_yielded :
      offset ≤ end
      → first < min (length p) (end - offset + 1)
      → take (min (length p) (end - offset + 1) - 1 + 1 - first) (drop first p)
        ≡ take count (drop first p)
  take_yielded h k =
      let same : min (length p) (end - offset + 1) - 1 + 1 - first
          ≡ min count (length (drop first p)) =
        omega (arith, length-drop first p, h, k) in
      rw same (take-min count (drop first p))

  take_skipped :
      offset ≤ end → min (length p) (end - offset + 1) ≤ first → take count (drop first p) ≡ []
  take_skipped h k =
      length-zero (take count (drop first p))
        (omega (arith, length-take count (drop first p), length-drop first p, h, k))

-- The ways in which one round of the second loop returns.
data Round (a b : Bool) (m : Result RangeError ℕ) (rest : Result RangeError (List Piece))
    (mk : ℕ → Piece) (qs : List Piece) : Type 0 where
  stopped : a ≡ false → qs ≡ [] → Round a b m rest mk qs
  passed : a ≡ true → b ≡ false → rest ≡ ok qs → Round a b m rest mk qs
  yielded :
      a ≡ true
      → b ≡ true
      → (mid : ℕ) (ps : List Piece) → rest ≡ ok ps
      → qs ≡ mk mid ∷ ps
      → Round a b m rest mk qs

round :
    (a b : Bool) (m : Result RangeError ℕ) (rest : Result RangeError (List Piece)) (mk : ℕ → Piece)
    (qs : List Piece)
    → (if a then (if b then (m >>= λ mid. rest >>= λ ps. ok (mk mid ∷ ps)) else rest) else ok [])
      ≡ ok qs
    → Round a b m rest mk qs
round false b m rest mk qs h = stopped refl cc
round true false m rest mk qs h = passed refl refl h
round true true (ok mid) (ok ps) mk qs h = yielded refl refl mid ps refl cc
round true true (ok mid) (err e) mk qs h = cc
round true true (err e) rest mk qs h = cc

of_nil : (n k : ℕ) → take n (drop {A = ℕ} k []) ≡ []
of_nil n k =
    length-zero (take n (drop k []))
      (omega (arith, length-take n (drop {A = ℕ} k []), length-drop {A = ℕ} k []))

abbrev ok_pieces : List Piece → Result RangeError (List Piece)
ok_pieces qs = ok qs

ok-injective : (a b : List Piece) → ok_pieces a ≡ ok_pieces b → a ≡ b
ok-injective a b h = cc

length-snoc : (xs : List Bytes) (x : Bytes) → length (xs ++ (x ∷ [])) ≡ length xs + 1
length-snoc xs x = omega (arith, length-append xs (x ∷ []))

module _ (ids : List ℕ) (begin end : ℕ) where
  cut-bytes :
      (pre rest : List Bytes) (offset : ℕ) (qs : List Piece)
      → cut ids begin end (length pre) offset (map length rest) ≡ ok qs
      → bytes_of (pre ++ rest) qs
        ≡ take (end + 1 - offset - (begin - offset)) (drop (begin - offset) (joined rest))
  unfolding cut bytes_of
  cut-bytes pre [] offset qs h =
      rw (← ok-injective [] qs h)
        (sym (of_nil (end + 1 - offset - (begin - offset)) (begin - offset)))
  cut-bytes pre (p ∷ rest) offset qs h =
      let tail =
        λ (ps : List Piece)
            (r : cut ids begin end (length pre + 1) (offset + length p) (map length rest) ≡ ok ps).
          ap (λ (parts : List Bytes). bytes_of parts ps) (sym (append_assoc pre (p ∷ []) rest))
          ∙ cut-bytes (pre ++ (p ∷ [])) rest (offset + length p) ps (rw (length-snoc pre p) r) in
      elim (round (leb offset end) (ltb (begin - offset) (min (length p) (end - offset + 1)))
        (message_at ids (length pre))
        (cut ids begin end (length pre + 1) (offset + length p) (map length rest))
        (λ mid. record {
          part = length pre;
          message_id = mid;
          begin = begin - offset;
          end = min (length p) (end - offset + 1) - 1;
        })
        qs h) [
          | stopped a e ↦
              let none_left : end + 1 - offset - (begin - offset) ≡ 0 = ground arith in
              rw (e, none_left) refl
          | passed a b r ↦
              let past : min (length p) (end - offset + 1) ≤ begin - offset = ground arith in
              let inside : offset ≤ end = ground arith in
              tail qs r
              ∙ sym (
                  take_part begin end offset p (joined rest)
                  ∙ rw (take_skipped begin end offset p (joined rest) inside past) refl)
          | yielded a b mid ps r e ↦
              let some_of_it : begin - offset < min (length p) (end - offset + 1) = ground arith in
              let inside : offset ≤ end = ground arith in
              rw
                (
                  e,
                  part_at-append pre p rest,
                  tail ps r,
                  take_yielded begin end offset p (joined rest) inside some_of_it,
                )
                (sym (take_part begin end offset p (joined rest)))
        ]

-- Where the first loop stops, in terms of the parts themselves.
record Found (begin : ℕ) (parts rest : List Bytes) (offset : ℕ) (found : ℕ × ℕ × List ℕ)
    : Type 0 where
  before : List Bytes
  after : List Bytes
  split : parts ≡ before ++ after
  index : found.0 ≡ length before
  sizes : found.2 ≡ map length after
  reached : found.1 ≤ begin
  same : drop (begin - found.1) (joined after) ≡ drop (begin - offset) (joined rest)

module _ (begin : ℕ) where
  seek-Found :
      (pre rest : List Bytes) (offset : ℕ)
      → offset ≤ begin
      → Found begin (pre ++ rest) rest offset (seek begin (length pre) offset (map length rest))
  unfolding seek
  seek-Found pre [] offset h = record {
    before = pre;
    after = [];
    split = refl;
    index = refl;
    sizes = refl;
    reached = h;
    same = refl;
  }
  seek-Found pre (p ∷ rest) offset h = elim (Bool-cases (leb (offset + length p) begin)) [
    | inr here ↦ rw here (record {
      before = pre;
      after = p ∷ rest;
      split = refl;
      index = refl;
      sizes = refl;
      reached = h;
      same = refl;
    })
    | inl further ↦
        let r = seek-Found (pre ++ (p ∷ [])) rest (offset + length p) (ground arith) in
        let size : length (pre ++ (p ∷ [])) ≡ length pre + 1 = length-snoc pre p in
        let beyond : length p ≤ begin - offset = ground arith in
        let later : begin - offset - length p ≡ begin - (offset + length p) = omega arith in
        rw (further, ← size)
          (record {
            before = r.before;
            after = r.after;
            split = sym (append_assoc pre (p ∷ []) rest) ∙ r.split;
            index = r.index;
            sizes = r.sizes;
            reached = r.reached;
            same =
                r.same
                ∙ sym (drop-append_ge (begin - offset) p (joined rest) beyond ∙ rw later refl);
          })
  ]

-- The bytes of a file from `begin` to `last`, both inclusive.
abbrev pub range : Bytes → ℕ → ℕ → Bytes
range content begin last = take (last + 1 - begin) (drop begin content)

after_seek :
    (ids : List ℕ) (begin last : ℕ) (qs : List Piece) (test : Bool) (i offset : ℕ) (sizes : List ℕ)
    → (if test
        then err invalid_range
        else elim sizes [ [] ↦ err begin_exceeds | p ∷ ps ↦ cut ids begin last i offset (p ∷ ps) ])
      ≡ ok_pieces qs
    → cut ids begin last i offset sizes ≡ ok qs
after_seek ids begin last qs true i offset sizes h = cc
after_seek ids begin last qs false i offset [] h = cc
after_seek ids begin last qs false i offset (p ∷ ps) h = h

map_from-bytes :
    (ids : List ℕ) (parts : List Bytes) (begin last : ℕ) (qs : List Piece)
    → map_from ids begin last (map length parts) ≡ ok qs
    → bytes_of parts qs ≡ range (joined parts) begin last
unfolding map_from
map_from-bytes ids parts begin last qs h =
    let found : ℕ × ℕ × List ℕ = seek begin 0 0 (map length parts) in
    let r : Found begin parts parts 0 found = seek-Found begin [] parts 0 (omega arith) in
    let same_cut : cut ids begin last (length r.before) found.1 (map length r.after) ≡ ok qs =
      rw (← r.index, ← r.sizes)
        (after_seek ids begin last qs (ltb last begin) found.0 found.1 found.2 h) in
    let count : last + 1 - found.1 - (begin - found.1) ≡ last + 1 - begin =
      omega (arith, r.reached) in
    let whole : begin - 0 ≡ begin = omega arith in
    ap (λ (xs : List Bytes). bytes_of xs qs) r.split
    ∙ cut-bytes ids begin last r.before r.after found.1 qs same_cut
    ∙ rw (count, r.same, whole) refl

mapped :
    (ids : List ℕ) (parts : List Bytes) (begin last : ℕ) (qs : List Piece) (some_bytes below : Bool)
    → ltb 0 (length (joined parts)) ≡ some_bytes
    → (if some_bytes
        then (if below then err invalid_begin else map_from ids begin last (map length parts))
        else ok_pieces [])
      ≡ ok_pieces qs
    → bytes_of parts qs ≡ range (joined parts) begin last
unfolding bytes_of
mapped ids parts begin last qs false below e h =
    let empty : joined parts ≡ [] = length-zero (joined parts) (ground arith) in
    rw (← ok-injective [] qs h, empty) (sym (of_nil (last + 1 - begin) begin))
mapped ids parts begin last qs true true e h = cc
mapped ids parts begin last qs true false e h = map_from-bytes ids parts begin last qs h

-- For any numbers of parts and bytes, whenever the mapping of a requested range of a file onto its
-- parts succeeds, on a size that is the number of bytes, the pieces it yields hold exactly the bytes
-- of the file from `begin` to `end`, in order, nothing missing and nothing twice; a negative `end`, or
-- one past the file, stands for its last byte, and a file without bytes has no pieces.
pub map_range-bytes :
    (ids : List ℕ) (parts : List Bytes) (begin end : ℤ) (qs : List Piece)
    → map_range ids (map length parts) (pos (length (joined parts))) begin end ≡ ok qs
    → bytes_of parts qs
      ≡ range (joined parts) (pos_part begin) (clamp_end (length (joined parts)) end)
unfolding map_range
map_range-bytes ids parts begin end qs h =
    mapped ids parts (pos_part begin) (clamp_end (length (joined parts)) end) qs
      (ltb 0 (length (joined parts))) (is_negative begin) refl h
