-- ===== src/MultiSource/Awake.antt =====
-- tgdcfs/core/multisource.py: what a task of a read that sleeps waits for.
use tgdcfs.Base.{
  ℕ, zero, suc, ◌+◌, ◌==◌, nat_eq, string_eq, true, false, ◌≡◌, ◌⊎◌, inl, inr, refl, ◌∙◌, sym, ap,
  subst, Option, none, some, List, [], ◌∷◌, ◌++◌, String, length, leb, contains, get_elem?, arith,
  Bool-cases, Option-cases,
}
use tgdcfs.Base.Dict
use tgdcfs.MultiSource.{
  MultiSourceRead, Piece, Worker, idle, fetching, done, Turn, Consumer, Views, worker_turn,
  consumer_turn, failed, answered, emit, claim, claim_below, keep_piece,
}
use tgdcfs.MultiSource.Steps.{Stores, Step, Reach}
use tgdcfs.MultiSource.Invariant.{turn-claim}
use tgdcfs.MultiSource.Waiting.{
  Tasks, start, notify_all, worker_waits, consumer_waits, fail_turn, answer_turn, emit_turn, Acts,
  Runs,
}

-- No piece for a worker that sleeps, and not the next result for a consumer that does.
pub record IsWaiting (w : Tasks) : Type 0 where
  pub workers :
      (i : ℕ) (key : String)
      → get_elem? w.read.workers i ≡ some (idle key)
      → w.worker_asleep i ≡ true
      → claim_below (w.read.next_to_emit + w.read.window) key w.read.pending ≡ none
  pub consumer : w.consumer_asleep ≡ true → Dict.lookup w.read.next_to_emit w.read.results ≡ none

pub this_place :
    (before : List Worker) (x : Worker) (after : List Worker)
    → get_elem? (before ++ (x ∷ after)) (length before) ≡ some x
this_place [] x after = refl
this_place (b ∷ before) x after = this_place before x after

other_place :
    (before : List Worker) (x y : Worker) (after : List Worker) (i : ℕ)
    → (length before == i) ≡ false
    → get_elem? (before ++ (x ∷ after)) i ≡ get_elem? (before ++ (y ∷ after)) i
other_place [] x y after zero other = cc
other_place [] x y after (suc i) other = refl
other_place (b ∷ before) x y after zero other = refl
other_place (b ∷ before) x y after (suc i) other =
    other_place before x y after i (ground (arith, other))

keep_piece-none : (q : Piece) (o : Option (Piece × List Piece)) → keep_piece q o ≡ none → o ≡ none
keep_piece-none q none e = refl
keep_piece-none q (some (p, rest)) e = cc

-- A store that finds no piece finds none after another store took one.
claim_below-none :
    (limit : ℕ) (key taker : String) (ps : List Piece) (p : Piece) (rest : List Piece)
    → claim_below limit key ps ≡ none
    → claim_below limit taker ps ≡ some (p, rest)
    → claim_below limit key rest ≡ none
unfolding claim_below
claim_below-none limit key taker [] p rest nothing took = cc
claim_below-none limit key taker (q ∷ ps) p rest nothing took =
    elim (Bool-cases (leb limit q.index)) [
      | inl past ↦ cc (rw past at took)
      | inr inside ↦ elim (Bool-cases (contains q.tried key)) [
        | inr fresh ↦ cc (rw (inside, fresh) at nothing)
        | inl tried ↦
            let later : claim_below limit key ps ≡ none =
              keep_piece-none q (claim_below limit key ps) (rw (inside, tried) at nothing) in
            elim (Bool-cases (contains q.tried taker)) [
              | inr takes ↦
                  let same : ps ≡ rest = ground (arith, rw (inside, takes) at took) in
                  subst (λ (l : List Piece). claim_below limit key l ≡ none) same later
              | inl passes ↦ elim (Option-cases (claim_below limit taker ps)) [
                | inl empty ↦ cc (rw (inside, passes, empty) at took)
                | inr ((p', rest'), found) ↦
                    let same : q ∷ rest' ≡ rest =
                      ground (arith, rw (inside, passes, found) at took) in
                    subst (λ (l : List Piece). claim_below limit key l ≡ none) same
                      (rw (inside, tried, claim_below-none limit key taker ps p' rest' later found)
                        refl)
              ]
            ]
      ]
    ]

turn-wait :
    (key : String) (r : MultiSourceRead)
    → worker_turn key r ≡ Turn.wait
    → claim_below (r.next_to_emit + r.window) key r.pending ≡ none
unfolding worker_turn claim
turn-wait key r e = ground (arith, e)

turn-waits :
    (r : MultiSourceRead)
    → consumer_turn r ≡ Consumer.waits
    → Dict.lookup r.next_to_emit r.results ≡ none
unfolding consumer_turn
turn-waits r e = ground (arith, e)

notify_all-IsWaiting : (w : Tasks) → IsWaiting (notify_all w)
unfolding notify_all
notify_all-IsWaiting w = record { workers = λ i key at asleep. cc; consumer = λ asleep. cc }

pub start-IsWaiting :
    (views : Views) (begin last size window : ℕ) → IsWaiting (start views begin last size window)
unfolding start
start-IsWaiting views begin last size window = record {
  workers = λ i key at asleep. cc;
  consumer = λ asleep. cc;
}

-- A worker that was awake is now something else, and the store of no other worker finds more.
module _ (w : Tasks) (h : IsWaiting w) (pending : List Piece) (before : List Worker) (x y : Worker)
    (after : List Worker) (at : w.read.workers ≡ before ++ (x ∷ after))
    (awake : w.worker_asleep (length before) ≡ false)
    (less : (key : String)
      → claim_below (w.read.next_to_emit + w.read.window) key w.read.pending ≡ none
      → claim_below (w.read.next_to_emit + w.read.window) key pending ≡ none) where
  moved-IsWaiting :
      IsWaiting
        (record w { read = record w.read { pending = pending; workers = before ++ (y ∷ after) } })
  moved-IsWaiting = record {
    workers = λ i key here asleep. elim (Bool-cases (length before == i)) [
      | inl same ↦
          cc (sym (ap w.worker_asleep ((nat_eq.eqb_iff (length before) i).0 same)) ∙ awake, asleep)
      | inr other ↦ less key (
          h.workers i key
            (ap (λ (ws : List Worker). get_elem? ws i) at
              ∙ other_place before x y after i other
              ∙ here)
            asleep)
    ];
    consumer = h.consumer;
  }

worker_waits-IsWaiting :
    (w : Tasks) (key : String) (before after : List Worker)
    → w.read.workers ≡ before ++ (idle key ∷ after)
    → worker_turn key w.read ≡ Turn.wait
    → IsWaiting w
    → IsWaiting (worker_waits (length before) w)
unfolding worker_waits
worker_waits-IsWaiting w key before after at e h = record {
  workers = λ i k here asleep. elim (Bool-cases (length before == i)) [
    | inr other ↦ h.workers i k here (rw other at asleep)
    | inl same ↦
        let found : get_elem? w.read.workers i ≡ some (idle key) =
          ap (get_elem? w.read.workers) (sym ((nat_eq.eqb_iff (length before) i).0 same))
          ∙ ap (λ (ws : List Worker). get_elem? ws (length before)) at
          ∙ this_place before (idle key) after in
        let both : some (idle key) ≡ some (idle k) = sym found ∙ here in
        let is : key ≡ k = ground (arith, both) in
        subst
          (λ (n : String).
            claim_below (w.read.next_to_emit + w.read.window) n w.read.pending ≡ none)
          is (turn-wait key w.read e)
  ];
  consumer = h.consumer;
}

Acts-IsWaiting : (stores : Stores) (w v : Tasks) → Acts stores w v → IsWaiting w → IsWaiting v
unfolding fail_turn answer_turn emit_turn consumer_waits
Acts-IsWaiting stores w v (Acts.claims key piece pending before after on at awake e same) h =
    subst IsWaiting (sym same) (
      moved-IsWaiting w h pending before (idle key) (fetching key piece) after at awake
        (λ k none_before.
          claim_below-none (w.read.next_to_emit + w.read.window) k key w.read.pending piece pending
            none_before (turn-claim key w.read piece pending e)))
Acts-IsWaiting stores w v (Acts.stops key before after on at awake e same) h =
    subst IsWaiting (sym same) (
      moved-IsWaiting w h w.read.pending before (idle key) (done key) after at awake
        (λ k none_before. none_before))
Acts-IsWaiting stores w v (Acts.sleeps key before after on at awake e same) h =
    subst IsWaiting (sym same) (worker_waits-IsWaiting w key before after at e h)
Acts-IsWaiting stores w v (Acts.raises key piece before after on at f same) h =
    subst IsWaiting (sym same)
      (notify_all-IsWaiting (record w { read = failed key piece before after w.read }))
Acts-IsWaiting stores w v (Acts.answers key piece out before after on at a same) h =
    subst IsWaiting (sym same)
      (notify_all-IsWaiting (record w { read = answered key piece out before after w.read }))
Acts-IsWaiting stores w v (Acts.yields content on awake e same) h =
    subst IsWaiting (sym same) (notify_all-IsWaiting (record w { read = emit content w.read }))
Acts-IsWaiting stores w v (Acts.gives_up on awake e same) h =
    subst IsWaiting (sym same) (record { workers = h.workers; consumer = h.consumer })
Acts-IsWaiting stores w v (Acts.rests on awake e same) h =
    subst IsWaiting (sym same)
      (record { workers = h.workers; consumer = λ asleep. turn-waits w.read e })

pub Runs-IsWaiting : (stores : Stores) (w v : Tasks) → Runs stores w v → IsWaiting w → IsWaiting v
Runs-IsWaiting stores w v Runs.none_yet h = h
Runs-IsWaiting stores w v (Runs.then_acts {v = u} before act) h =
    Acts-IsWaiting stores u v act (Runs-IsWaiting stores w u before h)

-- What the tasks do is a way in which the read may go.
pub Acts-Step :
    (stores : Stores) (w v : Tasks)
    → Acts stores w v
    → (v.read ≡ w.read) ⊎ Step stores w.read v.read
unfolding fail_turn answer_turn emit_turn notify_all worker_waits consumer_waits
Acts-Step stores w v (Acts.claims key piece pending before after on at awake e same) =
    inr (Step.claims key piece pending before after on at e (ap (λ (x : Tasks). x.read) same))
Acts-Step stores w v (Acts.stops key before after on at awake e same) =
    inr (Step.stops key before after on at e (ap (λ (x : Tasks). x.read) same))
Acts-Step stores w v (Acts.sleeps key before after on at awake e same) =
    inl (ap (λ (x : Tasks). x.read) same)
Acts-Step stores w v (Acts.raises key piece before after on at f same) =
    inr (Step.raises key piece before after on at f (ap (λ (x : Tasks). x.read) same))
Acts-Step stores w v (Acts.answers key piece out before after on at a same) =
    inr (Step.answers key piece out before after on at a (ap (λ (x : Tasks). x.read) same))
Acts-Step stores w v (Acts.yields content on awake e same) =
    inr (Step.yields content on e (ap (λ (x : Tasks). x.read) same))
Acts-Step stores w v (Acts.gives_up on awake e same) =
    inr (Step.gives_up on e (ap (λ (x : Tasks). x.read) same))
Acts-Step stores w v (Acts.rests on awake e same) = inl (ap (λ (x : Tasks). x.read) same)

pub Runs-Reach : (stores : Stores) (w v : Tasks) → Runs stores w v → Reach stores w.read v.read
Runs-Reach stores w v Runs.none_yet = Reach.here
Runs-Reach stores w v (Runs.then_acts {v = u} before act) = elim (Acts-Step stores u v act) [
  | inl same ↦ subst (Reach stores w.read) (sym same) (Runs-Reach stores w u before)
  | inr step ↦ Reach.next {s = u.read} (Runs-Reach stores w u before) step
]
