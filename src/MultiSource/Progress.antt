-- ===== src/MultiSource/Progress.antt =====
-- tgdcfs/core/multisource.py: every step keeps a store that never fails in the game.
use tgdcfs.Base.{
  ℕ, zero, suc, ◌+◌, ◌-◌, ◌≤◌, ◌<◌, ◌≡◌, ◌≢◌, refl, ◌∙◌, sym, ap, subst, true, false, some, List,
  [], ◌∷◌, ◌++◌, leb, ◌==◌, nat_eq, string_eq, arith, All, Bool-cases, inl, inr, length, drop,
  get_elem?, String, if_both, contains, length-take, length-drop, max,
}
use tgdcfs.Crypto.Bytes.{Bytes}
use tgdcfs.MultiSource.{
  is_whole, MultiSourceRead, Piece, Worker, fetching, answered, init, Views, start_workers,
  slot_workers, keys_of, make_pieces, pieces_from,
}
use tgdcfs.MultiSource.Steps.{Stores, Answers, Step}
use tgdcfs.MultiSource.Places.{InFlight, All-split}
use tgdcfs.MultiSource.Pieces.{slice, make_pieces-Numbered}
use tgdcfs.MultiSource.Invariant.{IsSound, Inside}
use tgdcfs.MultiSource.Reaching.{start-InFlight}
use tgdcfs.MultiSource.Good.{
  IsGood, Works, Numbered-Sorted, turn-raises, claims-IsGood, stops-IsGood, failed-IsGood,
  succeeded-IsGood, yields-IsGood,
}

-- A piece lies within the bytes that the stores hold.
abbrev pub Fits : Bytes → Piece → Type 0
Fits content p = (p.begin < p.past) × (p.past ≤ length content)

length-slice :
    (content : Bytes) (p : Piece) → Fits content p → length (slice content p) ≡ p.past - p.begin
length-slice content p (a, b) =
    omega
      (arith, length-take (p.past - p.begin) (drop p.begin content), length-drop p.begin content)

pieces_from-Fits :
    (content : Bytes) (fuel k begin last step : ℕ)
    → 1 ≤ step
    → last < length content
    → All (Fits content) (pieces_from fuel k begin last step)
unfolding pieces_from
pieces_from-Fits content zero k begin last step s h = tt
pieces_from-Fits content (suc fuel) k begin last step s h =
    if_both (All (Fits content)) (leb begin last) _ _
      (λ more. (
        (ground arith, ground arith),
        pieces_from-Fits content fuel (k + 1) (begin + max 1 step) last step s h,
      ))
      (λ ended. tt)

Held-Fits :
    (content : Bytes) (i : ℕ) (ps : List Piece) (q : Piece)
    → All (Fits content) ps
    → get_elem? ps i ≡ some q
    → Fits content q
Held-Fits content i [] q h e = cc
Held-Fits content zero (p ∷ ps) q (f, h) e =
    let same : p ≡ q = ground arith in subst (Fits content) same f
Held-Fits content (suc i) (p ∷ ps) q (f, h) e = Held-Fits content i ps q h e

-- The pieces in flight lie there too.
flying-Fits :
    (content : Bytes) (r : MultiSourceRead) (key : String) (piece : Piece)
    (before after : List Worker)
    → IsSound content r
    → All (Fits content) r.pieces
    → r.workers ≡ before ++ (fetching key piece ∷ after)
    → Fits content piece
flying-Fits content r key piece before after h fits w =
    let held =
      (All-split (InFlight (Inside (r.next_to_emit + r.window) r.pieces)) before
        (fetching key piece) after (subst (All _) w h.flying)).1.1 in
    let f = Held-Fits content piece.index r.pieces held.0 fits held.1 in
    (omega (arith, f.0, held.2, held.3), omega (arith, f.1, held.3))

module _ (stores : Stores) (v : String) (never : stores.fails v ≡ false) where
  blames :
      (key : String) (piece : Piece) (out : Bytes)
      → Answers stores key piece out
      → Fits stores.content piece
      → is_whole piece out ≡ false
      → key ≢ v
  blames key piece out (Answers.whole e) fits short same =
      ground (arith, short, ap (λ (b : Bytes). length b) e, length-slice stores.content piece fits)
  blames key piece out (Answers.short n f le e) fits short same =
      cc (sym (subst (λ (k : String). stores.fails k ≡ true) same f) ∙ never)

  answered-IsGood :
      (r : MultiSourceRead) (key : String) (piece : Piece) (out : Bytes)
      (before after : List Worker)
      → r.workers ≡ before ++ (fetching key piece ∷ after)
      → Answers stores key piece out
      → Fits stores.content piece
      → IsGood v r
      → IsGood v (answered key piece out before after r)
  unfolding answered
  answered-IsGood r key piece out before after w a fits g =
      if_both (IsGood v) (is_whole piece out) _ _
        (λ full. succeeded-IsGood v r g key piece out before after w)
        (λ short. failed-IsGood v r g key piece before after w (blames key piece out a fits short))

  pub Step-IsGood :
      (r s : MultiSourceRead)
      → IsSound stores.content r
      → All (Fits stores.content) r.pieces
      → Step stores r s
      → IsGood v r
      → IsGood v s
  Step-IsGood r s h fits (Step.claims key piece pending before after on w e same) g =
      subst (IsGood v) (sym same) (claims-IsGood v r g key piece pending before after w e)
  Step-IsGood r s h fits (Step.stops key before after on w e same) g =
      subst (IsGood v) (sym same) (stops-IsGood v r g key before after w e)
  Step-IsGood r s h fits (Step.raises key piece before after on w f same) g =
      subst (IsGood v) (sym same) (
        failed-IsGood v r g key piece before after w
          (λ is. cc (sym (subst (λ (k : String). stores.fails k ≡ true) is f) ∙ never)))
  Step-IsGood r s h fits (Step.answers key piece out before after on w a same) g =
      subst (IsGood v) (sym same) (
        answered-IsGood r key piece out before after w a
          (flying-Fits stores.content r key piece before after h fits w) g)
  Step-IsGood r s h fits (Step.yields b on e same) g =
      subst (IsGood v) (sym same) (yields-IsGood v r g b)
  Step-IsGood r s h fits (Step.gives_up on e same) g = absurd (turn-raises v r g e)

slots-Works : (v : String) (n : ℕ) (ws : List Worker) → 0 < n → Works v (slot_workers n v ws)
unfolding slot_workers
slots-Works v zero ws h = absurd (omega arith)
slots-Works v (suc n) ws h = inl refl

behind-Works :
    (v key : String) (n : ℕ) (ws : List Worker) → Works v ws → Works v (slot_workers n key ws)
unfolding slot_workers
behind-Works v key zero ws h = h
behind-Works v key (suc n) ws h = inr (behind-Works v key n ws h)

start-Works :
    (v : String) (views : Views) → contains (keys_of views) v ≡ true → Works v (start_workers views)
unfolding start_workers
start-Works v [] h = cc
start-Works v ((key, slots) ∷ views) h = elim (Bool-cases (v == key)) [
  | inl same ↦
      let is : v ≡ key = (string_eq.eqb_iff v key).0 same in
      subst (λ (k : String). Works v (slot_workers (max 1 slots) k (start_workers views))) is
        (slots-Works v (max 1 slots) (start_workers views) (omega arith))
  | inr other ↦
      behind-Works v key (max 1 slots) (start_workers views)
        (start-Works v views (ground (arith, h, other)))
]

untried-start :
    (v : String) (fuel k begin last step : ℕ)
    → All (λ (p : Piece). contains p.tried v ≡ false) (pieces_from fuel k begin last step)
unfolding pieces_from
untried-start v zero k begin last step = tt
untried-start v (suc fuel) k begin last step =
    if_both (All _) (leb begin last) _ _
      (λ more. (refl, untried-start v fuel (k + 1) (begin + max 1 step) last step)) (λ ended. tt)

pub init-IsGood :
    (v : String) (views : Views) (begin last size window : ℕ)
    → contains (keys_of views) v ≡ true
    → IsGood v (init views begin last size window)
unfolding init make_pieces
init-IsGood v views begin last size window h = record {
  known = h;
  numbered = make_pieces-Numbered begin last size;
  sorted =
      (Numbered-Sorted 0 (make_pieces begin last size) (make_pieces-Numbered begin last size)).1;
  untried = untried-start v (last + 1 - begin) 0 begin last size;
  in_flight = start-InFlight _ views;
  unbenched = refl;
  alive = refl;
  running = refl;
  works = inl (start-Works v views h);
}

pub make_pieces-Fits :
    (content : Bytes) (begin last size : ℕ)
    → 1 ≤ size
    → last < length content
    → All (Fits content) (make_pieces begin last size)
unfolding make_pieces
make_pieces-Fits content begin last size positive h =
    pieces_from-Fits content (last + 1 - begin) 0 begin last size positive h
