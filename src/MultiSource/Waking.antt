-- ===== src/MultiSource/Waking.antt =====
-- tgdcfs/core/multisource.py: the tasks that are awake, in a read with one store that never fails.
use tgdcfs.Base.{
  ℕ, ◌+◌, ◌≤◌, ◌<◌, ◌≡◌, ◌⊎◌, refl, ◌∙◌, sym, ap, true, false, none, some, List, ◌∷◌, ◌++◌, leb,
  nat_eq, string_eq, arith, Bool-cases, inl, inr, length, String, contains, get_elem?, Option-cases,
}
use tgdcfs.Base.Dict
use tgdcfs.MultiSource.{
  Piece, Worker, idle, fetching, Consumer, consumer_turn, Views, claim_below, keys_of, init,
}
use tgdcfs.MultiSource.Steps.{Stores, Answers, Step}
use tgdcfs.MultiSource.Places.{count_pieces, not_found}
use tgdcfs.MultiSource.Pieces.{slice}
use tgdcfs.MultiSource.Invariant.{IsSound}
use tgdcfs.MultiSource.Reaching.{init-IsSound, Reach-IsSound}
use tgdcfs.MultiSource.Output.{Reach-Fixed}
use tgdcfs.MultiSource.Good.{IsGood, Works}
use tgdcfs.MultiSource.Progress.{init-IsGood, make_pieces-Fits}
use tgdcfs.MultiSource.Available.{
  awaits, idles, takes, turn-takes, turn-next, turn-last, Reach-IsGood,
}
use tgdcfs.MultiSource.Waiting.{Tasks, start, emit_turn, answer_turn, notify_all, Acts, Runs}
use tgdcfs.MultiSource.Awake.{IsWaiting, this_place, start-IsWaiting, Runs-IsWaiting, Runs-Reach}

-- A task that is awake takes a step of the read.
abbrev pub Goes : Stores → Tasks → Type 0
Goes stores w = (u : Tasks) × Acts stores w u × Step stores w.read u.read

consumer_up :
    (w : Tasks)
    → IsWaiting w
    → (b : List ℕ) → Dict.lookup w.read.next_to_emit w.read.results ≡ some b
    → w.consumer_asleep ≡ false
consumer_up w h b there = elim (Bool-cases w.consumer_asleep) [
  | inl asleep ↦ cc (sym (h.consumer asleep) ∙ there)
  | inr awake ↦ awake
]

worker_up :
    (w : Tasks) (key : String) (before after : List Worker) (p : Piece) (rest : List Piece)
    → IsWaiting w
    → w.read.workers ≡ before ++ (idle key ∷ after)
    → claim_below (w.read.next_to_emit + w.read.window) key w.read.pending ≡ some (p, rest)
    → w.worker_asleep (length before) ≡ false
worker_up w key before after p rest h at found =
    elim (Bool-cases (w.worker_asleep (length before))) [
      | inr awake ↦ awake
      | inl asleep ↦ cc (
          sym (
            h.workers (length before) key
              (ap (λ (ws : List Worker). get_elem? ws (length before)) at
                ∙ this_place before (idle key) after)
              asleep)
          ∙ found)
    ]

goes :
    (stores : Stores) (v : String) (w : Tasks)
    → IsWaiting w
    → IsGood v w.read
    → IsSound stores.content w.read
    → 1 ≤ w.read.window
    → (consumer_turn w.read ≡ Consumer.finished) ⊎ Goes stores w
unfolding emit_turn answer_turn notify_all
goes stores v w awake g h wide =
    let r = w.read in
    elim (Bool-cases (leb (length r.pieces) r.next_to_emit)) [
      | inl finished ↦ inl (turn-last r finished)
      | inr left ↦ inr (elim (Option-cases (Dict.lookup r.next_to_emit r.results)) [
        | inr (b, e) ↦
            let turn = turn-next v r b g left e in
            (
              emit_turn b w,
              Acts.yields b g.running (consumer_up w awake b e) turn refl,
              Step.yields b g.running turn refl,
            )
        | inl absent ↦ elim (awaits r.workers) [
          | inl (key, p, before, after, at) ↦
              let out = slice stores.content p in
              (
                answer_turn key p out before after w,
                Acts.answers key p out before after g.running at (Answers.whole refl) refl,
                Step.answers key p out before after g.running at (Answers.whole refl) refl,
              )
          | inr nobody ↦
              let works : Works v r.workers = elim g.works [
                | inl k ↦ k
                | inr finished ↦ absurd (ground arith)
              ] in
              let (before, after, at) = idles v r.workers works nobody in
              let pending : 1 ≤ count_pieces r.next_to_emit r.pending = ground (
                arith,
                h.complete g.alive r.next_to_emit,
                nobody r.next_to_emit,
                not_found r.next_to_emit r.results absent,
              ) in
              let (p, rest, found) =
                takes v r.next_to_emit (r.next_to_emit + r.window) r.pending g.sorted g.untried
                  pending (omega (arith, wide)) in
              let turn = turn-takes v r p rest g left found in
              (
                record w {
                  read = record r { pending = rest; workers = before ++ (fetching v p ∷ after) };
                },
                Acts.claims v p rest before after g.running at
                    (worker_up w v before after p rest awake at found) turn refl,
                Step.claims v p rest before after g.running at turn refl,
              )
        ]
      ])
    ]

-- If one of the stores never fails, then whatever the others do and however the tasks interleave, the read never
-- raises, and no task sleeps for want of a notification: at every moment the read is finished, or a task
-- that is awake brings it a step further, as a fetch comes back, a worker takes a piece, or the next piece is
-- yielded. Pieces hold a byte at least, and the range ends within the bytes that the stores hold.
pub Runs-progress :
    (stores : Stores) (views : Views) (v : String) (begin last size window : ℕ) (w : Tasks)
    → contains (keys_of views) v ≡ true
    → stores.fails v ≡ false
    → 1 ≤ size
    → last < length stores.content
    → Runs stores (start views begin last size window) w
    → (w.read.fatal ≡ none)
      × (w.read.raised ≡ false)
      × ((consumer_turn w.read ≡ Consumer.finished)
          ⊎ ((u : Tasks) × Acts stores w u × Step stores w.read u.read))
unfolding start init
Runs-progress stores views v begin last size window w known never positive inside runs =
    let first = init views begin last size window in
    let reached = Runs-Reach stores (start views begin last size window) w runs in
    let sound = init-IsSound stores.content views begin last size window in
    let awake =
      Runs-IsWaiting stores (start views begin last size window) w runs
        (start-IsWaiting views begin last size window) in
    let g =
      Reach-IsGood stores v never first w.read (init-IsGood v views begin last size window known)
        sound (make_pieces-Fits stores.content begin last size positive inside) reached in
    (
      g.alive,
      g.running,
      goes stores v w awake g (Reach-IsSound stores first w.read sound reached)
          (omega (arith, (Reach-Fixed stores first w.read reached).window)),
    )
