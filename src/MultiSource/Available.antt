-- ===== src/MultiSource/Available.antt =====
-- tgdcfs/core/multisource.py: what a store that never fails can do next.
use tgdcfs.Base.{
  ℕ, ◌+◌, ◌≤◌, ◌<◌, ◌≡◌, ◌⊎◌, refl, sym, ap, subst, true, false, some, List, [], ◌∷◌, ◌++◌, leb,
  ◌==◌, nat_eq, string_eq, arith, All, Bool-cases, inl, inr, length, String, contains,
}
use tgdcfs.Base.Dict
use tgdcfs.Crypto.Bytes.{Bytes}
use tgdcfs.MultiSource.{
  MultiSourceRead, Piece, Worker, idle, fetching, done, Turn, Consumer, worker_turn, consumer_turn,
  claim, claim_below,
}
use tgdcfs.MultiSource.Steps.{Stores, Reach, here, next}
use tgdcfs.MultiSource.Places.{count_pieces, count_workers}
use tgdcfs.MultiSource.Invariant.{IsSound}
use tgdcfs.MultiSource.Reaching.{Reach-IsSound}
use tgdcfs.MultiSource.Output.{Reach-Fixed}
use tgdcfs.MultiSource.Good.{IsGood, Works, Sorted}
use tgdcfs.MultiSource.Progress.{Fits, Step-IsGood}

-- A worker in the list that is awaiting a piece, and one of the store before its turn.
abbrev pub Awaiting : List Worker → Type 0
Awaiting ws =
    (key : String) × (p : Piece) × (before : List Worker) × (after : List Worker) × (ws
      ≡ before ++ (fetching key p ∷ after))

abbrev pub Idle : String → List Worker → Type 0
Idle v ws = (before : List Worker) × (after : List Worker) × (ws ≡ before ++ (idle v ∷ after))

Awaiting-cons : (w : Worker) (ws : List Worker) → Awaiting ws → Awaiting (w ∷ ws)
Awaiting-cons w ws (key, p, before, after, e) =
    (key, p, w ∷ before, after, ap (λ (l : List Worker). w ∷ l) e)

pub awaits : (ws : List Worker) → Awaiting ws ⊎ ((i : ℕ) → count_workers i ws ≡ 0)
awaits [] = inr (λ i. refl)
awaits (idle key ∷ ws) = elim (awaits ws) [
  | inl a ↦ inl (Awaiting-cons (idle key) ws a)
  | inr n ↦ inr n
]
awaits (fetching key p ∷ ws) = inl (key, p, [], ws, refl)
awaits (done key ∷ ws) = elim (awaits ws) [
  | inl a ↦ inl (Awaiting-cons (done key) ws a)
  | inr n ↦ inr n
]

Idle-cons : (v : String) (w : Worker) (ws : List Worker) → Idle v ws → Idle v (w ∷ ws)
Idle-cons v w ws (before, after, e) = (w ∷ before, after, ap (λ (l : List Worker). w ∷ l) e)

pub idles :
    (v : String) (ws : List Worker) → Works v ws → ((i : ℕ) → count_workers i ws ≡ 0) → Idle v ws
idles v [] h n = absurd h
idles v (idle key ∷ ws) (inl same) n = ([], ws, ap (λ (k : String). idle k ∷ ws) same)
idles v (idle key ∷ ws) (inr h) n = Idle-cons v (idle key) ws (idles v ws h n)
idles v (fetching key p ∷ ws) h n = absurd (ground (arith, n p.index))
idles v (done key ∷ ws) h n = Idle-cons v (done key) ws (idles v ws h n)

least :
    (n i : ℕ) (ps : List Piece)
    → All (λ (q : Piece). n ≤ q.index) ps
    → 1 ≤ count_pieces i ps
    → n ≤ i
least n i [] h c = absurd (omega arith)
least n i (p ∷ ps) (a, h) c = elim (Bool-cases (p.index == i)) [
  | inl same ↦ ground arith
  | inr other ↦ least n i ps h (ground arith)
]

-- The store that has tried nothing takes the first pending piece, if one of the window is pending.
pub takes :
    (v : String) (i limit : ℕ) (ps : List Piece)
    → Sorted ps
    → All (λ (p : Piece). contains p.tried v ≡ false) ps
    → 1 ≤ count_pieces i ps
    → i < limit
    → (p : Piece) × (rest : List Piece) × (claim_below limit v ps ≡ some (p, rest))
unfolding claim_below
takes v i limit [] s u c lt = absurd (omega arith)
takes v i limit (p ∷ ps) (a, s) (u, us) c lt =
    let first : p.index ≤ i = least p.index i (p ∷ ps) (omega arith, a) c in
    let inside : leb limit p.index ≡ false = ground arith in (p, ps, rw (inside, u) refl)

pub turn-takes :
    (v : String) (r : MultiSourceRead) (p : Piece) (rest : List Piece)
    → IsGood v r
    → leb (length r.pieces) r.next_to_emit ≡ false
    → claim_below (r.next_to_emit + r.window) v r.pending ≡ some (p, rest)
    → worker_turn v r ≡ Turn.take_piece p rest
unfolding worker_turn claim
turn-takes v r p rest g left e = ground (arith, g.alive, g.unbenched, left, e)

pub turn-next :
    (v : String) (r : MultiSourceRead) (b : Bytes)
    → IsGood v r
    → leb (length r.pieces) r.next_to_emit ≡ false
    → Dict.lookup r.next_to_emit r.results ≡ some b
    → consumer_turn r ≡ Consumer.yields b
unfolding consumer_turn
turn-next v r b g left e = ground (arith, g.alive, left, e)

pub turn-last :
    (r : MultiSourceRead)
    → leb (length r.pieces) r.next_to_emit ≡ true
    → consumer_turn r ≡ Consumer.finished
unfolding consumer_turn
turn-last r e = rw e refl

pub Reach-IsGood :
    (stores : Stores) (v : String)
    → stores.fails v ≡ false
    → (start r : MultiSourceRead) → IsGood v start
    → IsSound stores.content start
    → All (Fits stores.content) start.pieces
    → Reach stores start r
    → IsGood v r
Reach-IsGood stores v never start r g h fits here = g
Reach-IsGood stores v never start r g h fits (next {s = m} reached step) =
    Step-IsGood stores v never m r (Reach-IsSound stores start m h reached)
      (subst (All (Fits stores.content)) (sym (Reach-Fixed stores start m reached).pieces) fits)
      step (Reach-IsGood stores v never start m g h fits reached)
