-- ===== src/MultiSource/Invariant.antt =====
-- tgdcfs/core/multisource.py: whatever the interleaving, every piece that was not emitted is in one place.
use tgdcfs.Base.{
  ℕ, zero, suc, ◌+◌, ◌-◌, ◌≤◌, ◌<◌, ◌≡◌, refl, ◌∙◌, ap, Bool, true, false, if◌then◌else◌, none,
  some, List, [], ◌∷◌, ◌++◌, ltb, leb, nat_eq, string_eq, ◌&&◌, arith, All, length, take, drop,
  get_elem?, String,
}
use tgdcfs.Base.Dict
use tgdcfs.Base.Dict.{Dict}
use tgdcfs.Crypto.Bytes.{Bytes}
use tgdcfs.MultiSource.{
  MultiSourceRead, Piece, Worker, idle, fetching, done, Turn, Consumer, worker_turn, consumer_turn,
  claim, claim_below,
}
use tgdcfs.MultiSource.Places.{one, count_pieces, count_workers, count_keys, InFlight}
use tgdcfs.MultiSource.Pieces.{slice, slices, Held}

-- Whether the piece `i` is still to be emitted.
abbrev pub due : ℕ → MultiSourceRead → ℕ
due i r = if leb r.next_to_emit i && ltb i (length r.pieces) then 1 else 0

-- In how many places the piece `i` is.
abbrev pub places : ℕ → MultiSourceRead → ℕ
places i r = count_pieces i r.pending + count_workers i r.workers + count_keys i r.results

-- Claimed pieces lie in the window.
abbrev pub Inside : ℕ → List Piece → Piece → Type 0
Inside limit pieces p = (p.index < limit) × Held pieces p

-- A result is its piece's bytes.
abbrev pub Fetched : Bytes → ℕ → List Piece → ℕ × Bytes → Type 0
Fetched content limit pieces (i, b) =
    (i < limit)
    × ((p : Piece) × (get_elem? pieces i ≡ some p) × (b ≡ slice content p) × (p.begin < p.past))

pub record IsSound (content : Bytes) (r : MultiSourceRead) : Type 0 where
  pub counted : (i : ℕ) → places i r ≤ due i r
  pub complete : r.fatal ≡ none → (i : ℕ) → due i r ≤ places i r
  pub waiting : All (Held r.pieces) r.pending
  pub flying : All (InFlight (Inside (r.next_to_emit + r.window) r.pieces)) r.workers
  pub fetched : All (Fetched content (r.next_to_emit + r.window) r.pieces) r.results
  pub emitted : r.emitted ≡ slices content (take r.next_to_emit r.pieces)
  pub solid : All (λ (p : Piece). p.begin < p.past) (take r.next_to_emit r.pieces)
  pub within : r.next_to_emit ≤ length r.pieces

-- A turn that takes a piece claims it.
pub turn-claim :
    (key : String) (r : MultiSourceRead) (piece : Piece) (pending : List Piece)
    → worker_turn key r ≡ Turn.take_piece piece pending
    → claim_below (r.next_to_emit + r.window) key r.pending ≡ some (piece, pending)
unfolding worker_turn claim
turn-claim key r piece pending e = ground arith

pub one_self : (i : ℕ) → one i i ≡ 1
one_self i = ground arith

pub free-count :
    (i : ℕ) (ended : Bool) (key : String) (ws : List Worker)
    → count_workers i ((if ended then done key else idle key) ∷ ws) ≡ count_workers i ws
free-count i true key ws = refl
free-count i false key ws = refl

pub free-InFlight :
    (P : Piece → Type 0) (ended : Bool) (key : String)
    → InFlight P (if ended then done key else idle key)
free-InFlight P true key = tt
free-InFlight P false key = tt

pub due-le : (i : ℕ) (r : MultiSourceRead) → due i r ≤ 1
due-le i r = ground arith

pub slices-take :
    (content : Bytes) (n : ℕ) (ps : List Piece) (p : Piece)
    → get_elem? ps n ≡ some p
    → slices content (take (n + 1) ps) ≡ slices content (take n ps) ++ (slice content p ∷ [])
slices-take content n [] p e = cc
slices-take content zero (q ∷ ps) p e =
    let same : q ≡ p = ground arith in ap (λ (x : Piece). slice content x ∷ []) same
slices-take content (suc n) (q ∷ ps) p e =
    let up : suc n + 1 ≡ suc (n + 1) = omega arith in
    rw up (ap (λ (bs : List Bytes). slice content q ∷ bs) (slices-take content n ps p e))

get_elem?-lt : (n : ℕ) (ps : List Piece) (p : Piece) → get_elem? ps n ≡ some p → n < length ps
get_elem?-lt n [] p e = cc
get_elem?-lt zero (q ∷ ps) p e = omega arith
get_elem?-lt (suc n) (q ∷ ps) p e = omega (arith, get_elem?-lt n ps p e)

pub slice-eq :
    (content : Bytes) (p q : Piece)
    → p.begin ≡ q.begin
    → p.past ≡ q.past
    → slice content p ≡ slice content q
slice-eq content p q b l =
    ap (λ (n : ℕ). take (p.past - n) (drop n content)) b
    ∙ ap (λ (n : ℕ). take (n - q.begin) (drop q.begin content)) l

pub turn-yields :
    (r : MultiSourceRead) (b : Bytes)
    → consumer_turn r ≡ Consumer.yields b
    → (Dict.lookup r.next_to_emit r.results ≡ some b) × (r.next_to_emit < length r.pieces)
unfolding consumer_turn
turn-yields r b e = ground arith

pub wider :
    (n w : ℕ) (pieces : List Piece) (worker : Worker)
    → InFlight (Inside (n + w) pieces) worker
    → InFlight (Inside (n + 1 + w) pieces) worker
wider n w pieces (idle key) h = tt
wider n w pieces (fetching key p) (inside, held) = (omega (arith, inside), held)
wider n w pieces (done key) h = tt
