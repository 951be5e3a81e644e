-- ===== src/MultiSource/Ending.antt =====
-- tgdcfs/core/multisource.py: no schedule of a read goes on for ever.
use tgdcfs.Base.{
  ℕ, zero, suc, ◌+◌, ◌-◌, ◌*◌, ◌≤◌, ◌<◌, ◌≡◌, refl, ◌∙◌, sym, ap, subst, Bool, true, false, ◌||◌,
  if◌then◌else◌, some, List, [], ◌∷◌, ◌++◌, leb, ◌==◌, nat_eq, string_eq, arith, All, Bool-cases,
  inl, inr, length, String, contains, max, if_both, ==_refl, append_assoc,
}
use native.Mathlib.Nat.{suc-mul}
use tgdcfs.Base.Dict
use tgdcfs.Base.Dict.{Dict}
use tgdcfs.Crypto.Bytes.{Bytes}
use tgdcfs.MultiSource.{
  is_whole, MultiSourceRead, Piece, Worker, idle, fetching, done, Turn, Consumer, worker_turn,
  consumer_turn, failed, succeeded, answered, init, Views, keys_of, make_pieces, emit, remaining,
  add_key, sort_pieces, insert_piece, null, or_zero, bench_after, start_workers, slot_workers,
  pieces_from,
}
use tgdcfs.MultiSource.Steps.{Stores, Step, Reach, here, next}
use tgdcfs.MultiSource.Places.{All-append, All-split, All-replace, claim-Claimed}
use tgdcfs.MultiSource.Invariant.{turn-claim}

-- The stores that have not tried the piece.
abbrev pub untried : List String → Piece → ℕ
untried keys p = length (remaining p.tried [] keys)

abbrev pub pending_work : List String → List Piece → ℕ
pending_work keys [] = 0
pending_work keys (p ∷ ps) = 3 + 2 * untried keys p + pending_work keys ps

abbrev pub worker_work : List String → List Worker → ℕ
worker_work keys [] = 0
worker_work keys (idle key ∷ ws) = 1 + worker_work keys ws
worker_work keys (fetching key p ∷ ws) = 3 + 2 * untried keys p + worker_work keys ws
worker_work keys (done key ∷ ws) = worker_work keys ws

-- What is left to do, every failure included that can still come.
abbrev pub work : MultiSourceRead → ℕ
work r =
    pending_work r.keys r.pending
    + worker_work r.keys r.workers
    + length r.results
    + (if r.raised then 0 else 1)

-- A worker belongs to a store of the read, and what it fetches it has not tried.
abbrev pub Fair : List String → Worker → Type 0
Fair keys (idle key) = contains keys key ≡ true
Fair keys (fetching key p) = (contains keys key ≡ true) × (contains p.tried key ≡ false)
Fair keys (done key) = Unit {0}

pending-append :
    (keys : List String) (ps qs : List Piece)
    → pending_work keys (ps ++ qs) ≡ pending_work keys ps + pending_work keys qs
pending-append keys [] qs = omega arith
pending-append keys (p ∷ ps) qs = omega (arith, pending-append keys ps qs)

worker-append :
    (keys : List String) (ws vs : List Worker)
    → worker_work keys (ws ++ vs) ≡ worker_work keys ws + worker_work keys vs
worker-append keys [] vs = omega arith
worker-append keys (idle key ∷ ws) vs = omega (arith, worker-append keys ws vs)
worker-append keys (fetching key p ∷ ws) vs = omega (arith, worker-append keys ws vs)
worker-append keys (done key ∷ ws) vs = worker-append keys ws vs

pending-insert :
    (keys : List String) (p : Piece) (ps : List Piece)
    → pending_work keys (insert_piece p ps) ≡ pending_work keys (p ∷ ps)
unfolding insert_piece
pending-insert keys p [] = refl
pending-insert keys p (q ∷ qs) = elim (Bool-cases (leb p.index q.index)) [
  | inl le ↦ rw le refl
  | inr gt ↦ rw gt (omega (arith, pending-insert keys p qs))
]

pending-sort :
    (keys : List String) (ps : List Piece)
    → pending_work keys (sort_pieces ps) ≡ pending_work keys ps
unfolding sort_pieces
pending-sort keys [] = refl
pending-sort keys (p ∷ ps) =
    omega (arith, pending-insert keys p (sort_pieces ps), pending-sort keys ps)

contains-append :
    (xs ys : List String) (v : String) → contains (xs ++ ys) v ≡ (contains xs v || contains ys v)
contains-append [] ys v = refl
contains-append (x ∷ xs) ys v = ground (arith, contains-append xs ys v)

contains-add :
    (key k : String) (tried : List String)
    → contains tried key ≡ false
    → contains (add_key key tried) k ≡ (contains tried k || (k == key))
contains-add key k tried h = rw h (ground (arith, contains-append tried (key ∷ []) k))

-- A store that tries a piece is one fewer.
remaining-le :
    (key : String) (tried keys : List String)
    → contains tried key ≡ false
    → length (remaining (add_key key tried) [] keys) ≤ length (remaining tried [] keys)
unfolding remaining
remaining-le key tried [] h = omega arith
remaining-le key tried (k ∷ keys) h =
    ground (arith, contains-add key k tried h, remaining-le key tried keys h)

remaining-lt :
    (key : String) (tried keys : List String)
    → contains tried key ≡ false
    → contains keys key ≡ true
    → length (remaining (add_key key tried) [] keys) < length (remaining tried [] keys)
unfolding remaining
remaining-lt key tried [] h c = cc
remaining-lt key tried (k ∷ keys) h c = elim (Bool-cases (key == k)) [
  | inl same ↦
      let is : key ≡ k = (string_eq.eqb_iff key k).0 same in
      let fresh : contains tried k ≡ false =
        subst (λ (s : String). contains tried s ≡ false) is h in
      let now : contains (add_key key tried) k ≡ true =
        contains-add key k tried h ∙ ground (arith, is, ==_refl k) in
      rw (now, fresh) (omega (arith, remaining-le key tried keys h))
  | inr other ↦
      ground (
        arith,
        contains-add key k tried h,
        remaining-lt key tried keys h (ground (arith, c, other)),
      )
]

length-insert : (k : ℕ) (b : Bytes) (d : Dict ℕ Bytes) → length (Dict.insert k b d) ≤ length d + 1
unfolding Dict.insert
length-insert k b [] = omega arith
length-insert k b ((j, c) ∷ d) = ground (arith, length-insert k b d)

length-erase_le : (k : ℕ) (d : Dict ℕ Bytes) → length (Dict.erase k d) ≤ length d
unfolding Dict.erase
length-erase_le k [] = omega arith
length-erase_le k ((j, c) ∷ d) = ground (arith, length-erase_le k d)

length-erase :
    (k : ℕ) (b : Bytes) (d : Dict ℕ Bytes)
    → Dict.lookup k d ≡ some b
    → length (Dict.erase k d) < length d
unfolding Dict.erase Dict.lookup
length-erase k b [] e = cc
length-erase k b ((j, c) ∷ d) e = ground (arith, length-erase_le k d, length-erase k b d)

turn-lookup :
    (r : MultiSourceRead) (b : Bytes)
    → consumer_turn r ≡ Consumer.yields b
    → Dict.lookup r.next_to_emit r.results ≡ some b
unfolding consumer_turn
turn-lookup r b e = ground arith

ended-work :
    (keys : List String) (ended : Bool) (key : String) (ws : List Worker)
    → worker_work keys ((if ended then done key else idle key) ∷ ws) ≤ 1 + worker_work keys ws
ended-work keys true key ws = omega arith
ended-work keys false key ws = omega arith

ended-Fair :
    (keys : List String) (ended : Bool) (key : String)
    → contains keys key ≡ true
    → Fair keys (if ended then done key else idle key)
ended-Fair keys true key h = tt
ended-Fair keys false key h = h

-- A step leaves less to do, and the workers fair.
abbrev Smaller : MultiSourceRead → MultiSourceRead → Type 0
Smaller r s = (work s < work r) × All (Fair s.keys) s.workers

module _ (r : MultiSourceRead) (running : r.raised ≡ false)
    (fair : All (Fair r.keys) r.workers) where
  claims-Smaller :
      (key : String) (piece : Piece) (pending : List Piece) (before after : List Worker)
      → r.workers ≡ before ++ (idle key ∷ after)
      → worker_turn key r ≡ Turn.take_piece piece pending
      → Smaller r (record r { pending = pending; workers = before ++ (fetching key piece ∷ after) })
  claims-Smaller key piece pending before after w e =
      let c =
        claim-Claimed (r.next_to_emit + r.window) key r.pending piece pending
          (turn-claim key r piece pending e) in
      let at = subst (All (Fair r.keys)) w fair in
      (
        omega (
          arith,
          ap (pending_work r.keys) c.stood,
          ap (pending_work r.keys) c.left,
          ap (worker_work r.keys) w,
          pending-append r.keys c.before (piece ∷ c.after),
          pending-append r.keys c.before c.after,
          worker-append r.keys before (idle key ∷ after),
          worker-append r.keys before (fetching key piece ∷ after),
        ),
        All-replace (Fair r.keys) before (idle key) (fetching key piece) after at
            ((All-split (Fair r.keys) before (idle key) after at).1, c.untried),
      )

  stops-Smaller :
      (key : String) (before after : List Worker)
      → r.workers ≡ before ++ (idle key ∷ after)
      → Smaller r (record r { workers = before ++ (done key ∷ after) })
  stops-Smaller key before after w = (
    omega (
      arith,
      ap (worker_work r.keys) w,
      worker-append r.keys before (idle key ∷ after),
      worker-append r.keys before (done key ∷ after),
    ),
    All-replace (Fair r.keys) before (idle key) (done key) after (subst (All (Fair r.keys)) w fair)
        tt,
  )

  failed-Smaller :
      (key : String) (piece : Piece) (before after : List Worker)
      → r.workers ≡ before ++ (fetching key piece ∷ after)
      → Smaller r (failed key piece before after r)
  unfolding failed
  failed-Smaller key piece before after w =
      let tried = add_key key piece.tried in
      let count = or_zero (Dict.lookup key r.failures) + 1 in
      let benched = if leb bench_after count then add_key key r.benched else r.benched in
      let ended = contains benched key in
      let piece' : Piece = record piece { tried = tried } in
      let at =
        All-split (Fair r.keys) before (fetching key piece) after
          (subst (All (Fair r.keys)) w fair) in
      let fair' =
        All-append (Fair r.keys) before ((if ended then done key else idle key) ∷ after) at.0
          (ended-Fair r.keys ended key at.1.0, at.2) in
      let less = remaining-lt key piece.tried r.keys at.1.1 at.1.0 in
      let ws = worker-append r.keys before (fetching key piece ∷ after) in
      let vs = worker-append r.keys before ((if ended then done key else idle key) ∷ after) in
      elim (Bool-cases (null (remaining tried benched r.keys))) [
        | inl nobody ↦ rw nobody (
          omega (arith, ap (worker_work r.keys) w, ws, vs, ended-work r.keys ended key after),
          fair',
        )
        | inr somebody ↦ rw somebody (
          omega (
            arith,
            ap (worker_work r.keys) w,
            ws,
            vs,
            ended-work r.keys ended key after,
            less,
            pending-sort r.keys (r.pending ++ (piece' ∷ [])),
            pending-append r.keys r.pending (piece' ∷ []),
          ),
          fair',
        )
      ]

  succeeded-Smaller :
      (key : String) (piece : Piece) (out : Bytes) (before after : List Worker)
      → r.workers ≡ before ++ (fetching key piece ∷ after)
      → Smaller r (succeeded key piece out before after r)
  unfolding succeeded
  succeeded-Smaller key piece out before after w =
      let at = subst (All (Fair r.keys)) w fair in
      (
        omega (
          arith,
          ap (worker_work r.keys) w,
          length-insert piece.index out r.results,
          worker-append r.keys before (fetching key piece ∷ after),
          worker-append r.keys before (idle key ∷ after),
        ),
        All-replace (Fair r.keys) before (fetching key piece) (idle key) after at
            (All-split (Fair r.keys) before (fetching key piece) after at).1.0,
      )

Step-Smaller :
    (stores : Stores) (r s : MultiSourceRead)
    → All (Fair r.keys) r.workers
    → Step stores r s
    → Smaller r s
unfolding answered emit
Step-Smaller stores r s fair (Step.claims key piece pending before after on w e same) =
    subst (Smaller r) (sym same) (claims-Smaller r on fair key piece pending before after w e)
Step-Smaller stores r s fair (Step.stops key before after on w e same) =
    subst (Smaller r) (sym same) (stops-Smaller r on fair key before after w)
Step-Smaller stores r s fair (Step.raises key piece before after on w f same) =
    subst (Smaller r) (sym same) (failed-Smaller r on fair key piece before after w)
Step-Smaller stores r s fair (Step.answers key piece out before after on w a same) =
    subst (Smaller r) (sym same) (
      if_both (Smaller r) (is_whole piece out) _ _
        (λ full. succeeded-Smaller r on fair key piece out before after w)
        (λ short. failed-Smaller r on fair key piece before after w))
Step-Smaller stores r s fair (Step.yields b on e same) =
    subst (Smaller r) (sym same)
      (omega (arith, length-erase r.next_to_emit b r.results (turn-lookup r b e)), fair)
Step-Smaller stores r s fair (Step.gives_up on e same) =
    subst (Smaller r) (sym same) (ground (arith, on), fair)

-- The number of steps of a run.
abbrev pub steps : {stores : Stores} {r s : MultiSourceRead} → Reach stores r s → ℕ
steps here = 0
steps (next reached step) = steps reached + 1

Reach-steps :
    (stores : Stores) (start r : MultiSourceRead) (reached : Reach stores start r)
    → All (Fair start.keys) start.workers
    → (steps reached + work r ≤ work start) × All (Fair r.keys) r.workers
Reach-steps stores start r here fair = (omega arith, fair)
Reach-steps stores start r (next {s = m} reached step) fair =
    let h = Reach-steps stores start m reached fair in
    let smaller = Step-Smaller stores m r h.1 step in (omega (arith, h.0, smaller.0), smaller.1)

nobody_tried : (keys : List String) → remaining [] [] keys ≡ keys
unfolding remaining
nobody_tried [] = refl
nobody_tried (k ∷ keys) = ap (λ (ks : List String). k ∷ ks) (nobody_tried keys)

fresh-work :
    (keys : List String) (fuel k begin last step : ℕ)
    → pending_work keys (pieces_from fuel k begin last step)
      ≡ length (pieces_from fuel k begin last step) * (3 + 2 * length keys)
unfolding pieces_from
fresh-work keys zero k begin last step = omega arith
fresh-work keys (suc fuel) k begin last step = elim (Bool-cases (leb begin last)) [
  | inr ended ↦ rw ended (omega arith)
  | inl more ↦ rw more (
      let n = length (pieces_from fuel (k + 1) (begin + max 1 step) last step) in
      omega (
        arith,
        ap (λ (ks : List String). length ks) (nobody_tried keys),
        fresh-work keys fuel (k + 1) (begin + max 1 step) last step,
        suc-mul n (3 + 2 * length keys),
      ))
]

slots-work :
    (keys : List String) (n : ℕ) (key : String) (ws : List Worker)
    → worker_work keys ws ≡ length ws
    → worker_work keys (slot_workers n key ws) ≡ length (slot_workers n key ws)
unfolding slot_workers
slots-work keys zero key ws h = h
slots-work keys (suc n) key ws h = omega (arith, slots-work keys n key ws h)

start-work :
    (keys : List String) (views : Views)
    → worker_work keys (start_workers views) ≡ length (start_workers views)
unfolding start_workers
start-work keys [] = refl
start-work keys ((key, slots) ∷ views) =
    slots-work keys (max 1 slots) key (start_workers views) (start-work keys views)

slots-Fair :
    (keys : List String) (n : ℕ) (key : String) (ws : List Worker)
    → contains keys key ≡ true
    → All (Fair keys) ws
    → All (Fair keys) (slot_workers n key ws)
unfolding slot_workers
slots-Fair keys zero key ws c h = h
slots-Fair keys (suc n) key ws c h = (c, slots-Fair keys n key ws c h)

start-Fair :
    (seen : List String) (views : Views) → All (Fair (seen ++ keys_of views)) (start_workers views)
unfolding start_workers
start-Fair seen [] = tt
start-Fair seen ((key, slots) ∷ views) =
    let keys = seen ++ (key ∷ keys_of views) in
    let known : contains keys key ≡ true =
      ground (arith, contains-append seen (key ∷ keys_of views) key, ==_refl key) in
    let same : (seen ++ (key ∷ [])) ++ keys_of views ≡ keys =
      append_assoc seen (key ∷ []) (keys_of views) in
    slots-Fair keys (max 1 slots) key (start_workers views) known (
      subst (λ (ks : List String). All (Fair ks) (start_workers views)) same
        (start-Fair (seen ++ (key ∷ [])) views))

-- Whatever the stores answer, a run of a read has at most three steps for each piece, two more for each
-- piece and store, one for each worker and one for giving up: no schedule goes on for ever.
pub steps-le :
    (stores : Stores) (views : Views) (begin last size window : ℕ) (r : MultiSourceRead)
    (reached : Reach stores (init views begin last size window) r)
    → steps reached
      ≤ length (make_pieces begin last size) * (3 + 2 * length (keys_of views))
        + length (start_workers views)
        + 1
unfolding init make_pieces
steps-le stores views begin last size window r reached = omega (
  arith,
  (Reach-steps stores (init views begin last size window) r reached (start-Fair [] views)).0,
  fresh-work (keys_of views) (last + 1 - begin) 0 begin last size,
  start-work (keys_of views) views,
)
