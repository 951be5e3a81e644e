-- ===== src/MultiSource/Places.antt =====
-- tgdcfs/core/multisource.py: where a piece is: not claimed, at a worker, or among the results.
use tgdcfs.Base.{
  ℕ, ◌+◌, ◌≤◌, ◌<◌, ◌≡◌, refl, ◌∙◌, ap, false, if◌then◌else◌, Option, none, some, List, [], ◌∷◌,
  ◌++◌, leb, ◌==◌, nat_eq, string_eq, arith, All, Bool-cases, inl, inr, String, contains, subst,
}
use tgdcfs.Base.Dict
use tgdcfs.Base.Dict.{Dict}
use tgdcfs.Crypto.Bytes.{Bytes}
use tgdcfs.MultiSource.{
  Piece, Worker, idle, fetching, done, claim_below, keep_piece, insert_piece, sort_pieces,
}

abbrev pub one : ℕ → ℕ → ℕ
one i j = if i == j then 1 else 0

abbrev pub count_pieces : ℕ → List Piece → ℕ
count_pieces i [] = 0
count_pieces i (p ∷ ps) = one p.index i + count_pieces i ps

abbrev pub count_workers : ℕ → List Worker → ℕ
count_workers i [] = 0
count_workers i (idle key ∷ ws) = count_workers i ws
count_workers i (fetching key p ∷ ws) = one p.index i + count_workers i ws
count_workers i (done key ∷ ws) = count_workers i ws

abbrev pub count_keys : ℕ → Dict ℕ Bytes → ℕ
count_keys i [] = 0
count_keys i ((j, content) ∷ d) = one j i + count_keys i d

-- What is asked of the piece that a worker fetches.
abbrev pub InFlight : (Piece → Type 0) → Worker → Type 0
InFlight P (idle key) = Unit {0}
InFlight P (fetching key p) = P p
InFlight P (done key) = Unit {0}

pub count_pieces-append :
    (i : ℕ) (ps qs : List Piece) → count_pieces i (ps ++ qs) ≡ count_pieces i ps + count_pieces i qs
count_pieces-append i [] qs = omega arith
count_pieces-append i (p ∷ ps) qs = omega (arith, count_pieces-append i ps qs)

pub count_workers-append :
    (i : ℕ) (ws vs : List Worker)
    → count_workers i (ws ++ vs) ≡ count_workers i ws + count_workers i vs
count_workers-append i [] vs = omega arith
count_workers-append i (idle key ∷ ws) vs = count_workers-append i ws vs
count_workers-append i (fetching key p ∷ ws) vs = omega (arith, count_workers-append i ws vs)
count_workers-append i (done key ∷ ws) vs = count_workers-append i ws vs

count-insert_piece :
    (i : ℕ) (p : Piece) (ps : List Piece)
    → count_pieces i (insert_piece p ps) ≡ one p.index i + count_pieces i ps
unfolding insert_piece
count-insert_piece i p [] = refl
count-insert_piece i p (q ∷ qs) = elim (Bool-cases (leb p.index q.index)) [
  | inl le ↦ rw le refl
  | inr gt ↦ rw gt (omega (arith, count-insert_piece i p qs))
]

pub count-sort_pieces :
    (i : ℕ) (ps : List Piece) → count_pieces i (sort_pieces ps) ≡ count_pieces i ps
unfolding sort_pieces
count-sort_pieces i [] = refl
count-sort_pieces i (p ∷ ps) =
    omega (arith, count-insert_piece i p (sort_pieces ps), count-sort_pieces i ps)

pub count_keys-append :
    (i : ℕ) (c d : Dict ℕ Bytes) → count_keys i (c ++ d) ≡ count_keys i c + count_keys i d
count_keys-append i [] d = omega arith
count_keys-append i ((j, content) ∷ c) d = omega (arith, count_keys-append i c d)

pub count_keys-erase :
    (i k : ℕ) (d : Dict ℕ Bytes)
    → count_keys i (Dict.erase k d) ≡ (if k == i then 0 else count_keys i d)
unfolding Dict.erase
count_keys-erase i k [] = ground arith
count_keys-erase i k ((j, content) ∷ d) = ground (arith, count_keys-erase i k d)

pub absent : (k : ℕ) (d : Dict ℕ Bytes) → count_keys k d ≡ 0 → Dict.has_key k d ≡ false
unfolding Dict.has_key
absent k [] h = refl
absent k ((j, content) ∷ d) h = ground (arith, absent k d)

pub found :
    (P : ℕ → Bytes → Type 0) (k : ℕ) (v : Bytes) (d : Dict ℕ Bytes)
    → Dict.lookup k d ≡ some v
    → All (λ (e : ℕ × Bytes). P e.0 e.1) d
    → P k v × (1 ≤ count_keys k d)
unfolding Dict.lookup
found P k v [] e h = cc
found P k v ((j, w) ∷ d) e (p, h) = elim (Bool-cases (j == k)) [
  | inl same ↦
      let key : j ≡ k = (nat_eq.eqb_iff j k).0 same in
      let value : w ≡ v = ground arith in
      (subst (λ (m : ℕ). P m v) key (subst (P j) value p), ground arith)
  | inr other ↦ let r = found P k v d (ground arith) h in (r.0, ground (arith, r.1))
]

pub not_found : (k : ℕ) (d : Dict ℕ Bytes) → Dict.lookup k d ≡ none → count_keys k d ≡ 0
unfolding Dict.lookup
not_found k [] e = refl
not_found k ((j, w) ∷ d) e = ground (arith, not_found k d)

module _ {ℓ} {A : Type ℓ} (P : A → Type 0) where
  pub All-append : (xs ys : List A) → All P xs → All P ys → All P (xs ++ ys)
  All-append [] ys h k = k
  All-append (x ∷ xs) ys (p, h) k = (p, All-append xs ys h k)

  pub All-split :
      (xs : List A) (y : A) (ys : List A) → All P (xs ++ (y ∷ ys)) → All P xs × P y × All P ys
  All-split [] y ys (p, h) = (tt, p, h)
  All-split (x ∷ xs) y ys (p, h) = let r = All-split xs y ys h in ((p, r.0), r.1, r.2)

  -- One element is another.
  pub All-replace :
      (xs : List A) (y z : A) (ys : List A) → All P (xs ++ (y ∷ ys)) → P z → All P (xs ++ (z ∷ ys))
  All-replace xs y z ys h p = let r = All-split xs y ys h in All-append xs (z ∷ ys) r.0 (p, r.2)

pub All-erase :
    (P : ℕ × Bytes → Type 0) (k : ℕ) (d : Dict ℕ Bytes) → All P d → All P (Dict.erase k d)
unfolding Dict.erase
All-erase P k [] h = tt
All-erase P k ((j, w) ∷ d) (p, h) = elim (Bool-cases (j == k)) [
  | inl same ↦ rw same (All-erase P k d h)
  | inr other ↦ rw other (p, All-erase P k d h)
]

module _ (P : Piece → Type 0) where
  All-insert_piece : (p : Piece) (ps : List Piece) → P p → All P ps → All P (insert_piece p ps)
  unfolding insert_piece
  All-insert_piece p [] h hs = (h, tt)
  All-insert_piece p (q ∷ qs) h (k, hs) = elim (Bool-cases (leb p.index q.index)) [
    | inl le ↦ rw le (h, (k, hs))
    | inr gt ↦ rw gt (k, All-insert_piece p qs h hs)
  ]

  pub All-sort_pieces : (ps : List Piece) → All P ps → All P (sort_pieces ps)
  unfolding sort_pieces
  All-sort_pieces [] h = tt
  All-sort_pieces (p ∷ ps) (h, hs) = All-insert_piece p (sort_pieces ps) h (All-sort_pieces ps hs)

  pub All-merge :
      (xs : List Piece) (y : Piece) (ys : List Piece) → All P (xs ++ (y ∷ ys)) → All P (xs ++ ys)
  All-merge [] y ys (p, h) = h
  All-merge (x ∷ xs) y ys (p, h) = (p, All-merge xs y ys h)

-- Where the claimed piece stood.
pub record Claimed (limit : ℕ) (key : String) (ps : List Piece) (piece : Piece) (rest : List Piece)
    : Type 0 where
  pub before : List Piece
  pub after : List Piece
  pub stood : ps ≡ before ++ (piece ∷ after)
  pub left : rest ≡ before ++ after
  pub untried : contains piece.tried key ≡ false
  pub inside : piece.index < limit

keep_piece-some :
    (p : Piece) (o : Option (Piece × List Piece)) (piece : Piece) (rest : List Piece)
    → keep_piece p o ≡ some (piece, rest)
    → (r : List Piece) × (o ≡ some (piece, r)) × (rest ≡ p ∷ r)
keep_piece-some p none piece rest e = cc
keep_piece-some p (some (q, r)) piece rest e = (r, ground (arith, e), ground (arith, e))

pub claim-Claimed :
    (limit : ℕ) (key : String) (ps : List Piece) (piece : Piece) (rest : List Piece)
    → claim_below limit key ps ≡ some (piece, rest)
    → Claimed limit key ps piece rest
unfolding claim_below
claim-Claimed limit key [] piece rest e = cc
claim-Claimed limit key (p ∷ ps) piece rest e = elim (Bool-cases (leb limit p.index)) [
  | inl out ↦ cc (rw out at e)
  | inr in_window ↦ elim (Bool-cases (contains p.tried key)) [
    | inl tried ↦
        let k =
          keep_piece-some p (claim_below limit key ps) piece rest (rw (in_window, tried) at e) in
        let c = claim-Claimed limit key ps piece k.0 k.1 in
        record {
          before = p ∷ c.before;
          after = c.after;
          stood = ap (λ (qs : List Piece). p ∷ qs) c.stood;
          left = k.2 ∙ ap (λ (qs : List Piece). p ∷ qs) c.left;
          untried = c.untried;
          inside = c.inside;
        }
    | inr untried ↦
        let found : some (p, ps) ≡ some (piece, rest) = rw (in_window, untried) at e in
        let same : p ≡ piece = ground (arith, found) in
        let others : rest ≡ ps = ground (arith, found) in
        record {
          before = [];
          after = ps;
          stood = ap (λ (q : Piece). q ∷ ps) same;
          left = others;
          untried = subst (λ (q : Piece). contains q.tried key ≡ false) same untried;
          inside = subst (λ (q : Piece). q.index < limit) same (ground arith);
        }
  ]
]
