-- ===== src/MultiSource/Examples.antt =====
-- tgdcfs/core/multisource.py: two bytes in pieces of one, from a store that fails once and one that does not.
use tgdcfs.Base.{
  ℕ, ◌+◌, ◌*◌, ◌≤◌, ◌≡◌, ◌⊎◌, refl, true, false, none, List, [], ◌∷◌, ◌++◌, String, arith, nat_eq,
  string_eq, ◌==◌, length, max,
}
use tgdcfs.Base.Dict
use tgdcfs.Crypto.Bytes.{Bytes, joined}
use tgdcfs.Content.Range.{range}
use tgdcfs.MultiSource.{
  MultiSourceRead, Piece, idle, fetching, Consumer, init, Views, failed, succeeded, answered,
  worker_turn, consumer_turn, remaining, sort_pieces, insert_piece, claim, claim_below, make_pieces,
  pieces_from, init_failures, start_workers, slot_workers, emit, keys_of,
}
use tgdcfs.MultiSource.Steps.{Stores, Answers, Step, Reach, here, next}
use tgdcfs.MultiSource.Output.{Reach-prefix}
use tgdcfs.MultiSource.Window.{held_indices, Reach-window}
use tgdcfs.MultiSource.Hang.{held_by_both, two_views, Reach-stuck}
use tgdcfs.MultiSource.Waiting.{
  Tasks, start, notify_all, worker_waits, consumer_waits, fail_turn, answer_turn, Acts, Runs,
  none_yet, then_acts,
}
use tgdcfs.MultiSource.Waking.{Runs-progress}
use tgdcfs.MultiSource.Ending.{steps, steps-le}

abbrev flaky : Stores
flaky = record { content = 7 ∷ 8 ∷ 9 ∷ []; fails = λ key. key == "b" }

abbrev views : Views
views = ("a", 1) ∷ ("b", 1) ∷ []

abbrev opening : MultiSourceRead
opening = init views 1 2 1 2

abbrev piece : ℕ → List String → Piece
piece i tried = record { index = i; begin = i + 1; past = i + 2; tried = tried }

-- The other store takes the first piece and fails; the first byte comes from the good one.
abbrev first_byte : MultiSourceRead
first_byte = record opening {
  pending = [];
  failures = ("b", 1) ∷ ("a", 0) ∷ [];
  next_to_emit = 1;
  emitted = (8 ∷ []) ∷ [];
  workers = idle "a" ∷ fetching "b" (piece 1 []) ∷ [];
}

run : Reach flaky opening first_byte
unfolding init worker_turn consumer_turn claim claim_below make_pieces pieces_from init_failures
    start_workers slot_workers failed succeeded answered remaining sort_pieces insert_piece emit
    Dict.insert Dict.lookup Dict.erase
run =
    next
      (next
        (next
          (next
            (next
              (next here (
                Step.claims "b" (piece 0 []) (piece 1 [] ∷ []) (idle "a" ∷ []) [] refl refl refl
                  refl))
              (Step.raises "b" (piece 0 []) (idle "a" ∷ []) [] refl refl refl refl))
            (Step.claims "b" (piece 1 []) (piece 0 ("b" ∷ []) ∷ []) (idle "a" ∷ []) [] refl refl
              refl refl))
          (Step.claims "a" (piece 0 ("b" ∷ [])) [] [] (fetching "b" (piece 1 []) ∷ []) refl refl
            refl refl))
        (Step.answers "a" (piece 0 ("b" ∷ [])) (8 ∷ []) [] (fetching "b" (piece 1 []) ∷ []) refl
          refl (Answers.whole refl) refl))
      (Step.yields (8 ∷ []) refl refl refl)

Reach-prefix_example :
    (rest : Bytes) × (range flaky.content 1 2 ≡ joined first_byte.emitted ++ rest)
    × (consumer_turn first_byte ≡ Consumer.finished → rest ≡ [])
Reach-prefix_example = Reach-prefix flaky views 1 2 1 2 first_byte run

Reach-window_example : length (held_indices first_byte) ≤ max 1 2
Reach-window_example = Reach-window flaky views 1 2 1 2 first_byte run

-- A worker and the consumer sleep, and a fetch that fails wakes both.
abbrev tasks0 : Tasks
tasks0 = start views 1 2 1 2

abbrev tasks1 : Tasks
tasks1 = record tasks0 {
  read = record tasks0.read {
    pending = piece 1 [] ∷ [];
    workers = idle "a" ∷ fetching "b" (piece 0 []) ∷ [];
  };
}

abbrev tasks2 : Tasks
tasks2 = record tasks1 {
  read = record tasks1.read {
    pending = [];
    workers = fetching "a" (piece 1 []) ∷ fetching "b" (piece 0 []) ∷ [];
  };
}

abbrev tasks3 : Tasks
tasks3 = answer_turn "a" (piece 1 []) (9 ∷ []) [] (fetching "b" (piece 0 []) ∷ []) tasks2

abbrev tasks4 : Tasks
tasks4 = consumer_waits (worker_waits 0 tasks3)

abbrev tasks5 : Tasks
tasks5 = fail_turn "b" (piece 0 []) (idle "a" ∷ []) [] tasks4

to_wake : Runs flaky tasks0 tasks5
unfolding start init worker_turn consumer_turn claim claim_below make_pieces pieces_from
    init_failures start_workers slot_workers failed succeeded answered remaining sort_pieces
    insert_piece Dict.insert Dict.lookup answer_turn fail_turn notify_all worker_waits
    consumer_waits
to_wake =
    then_acts {v = tasks4}
      (then_acts {v = worker_waits 0 tasks3}
        (then_acts {v = tasks3}
          (then_acts {v = tasks2}
            (then_acts {v = tasks1}
              (then_acts {v = tasks0} none_yet (
                Acts.claims "b" (piece 0 []) (piece 1 [] ∷ []) (idle "a" ∷ []) [] refl refl refl
                  refl refl))
              (Acts.claims "a" (piece 1 []) [] [] (fetching "b" (piece 0 []) ∷ []) refl refl refl
                refl refl))
            (Acts.answers "a" (piece 1 []) (9 ∷ []) [] (fetching "b" (piece 0 []) ∷ []) refl refl
              (Answers.whole refl) refl))
          (Acts.sleeps "a" [] (fetching "b" (piece 0 []) ∷ []) refl refl refl refl refl))
        (Acts.rests refl refl refl refl))
      (Acts.raises "b" (piece 0 []) (idle "a" ∷ []) [] refl refl refl refl)

Runs-progress_example :
    (tasks5.read.fatal ≡ none)
    × (tasks5.read.raised ≡ false)
    × ((consumer_turn tasks5.read ≡ Consumer.finished)
        ⊎ ((u : Tasks) × Acts flaky tasks5 u × Step flaky tasks5.read u.read))
Runs-progress_example =
    Runs-progress flaky views "a" 1 2 1 2 tasks5 refl refl (omega arith) (omega arith) to_wake

steps-le_example :
    steps run
    ≤ length (make_pieces 1 2 1) * (3 + 2 * length (keys_of views))
      + length (start_workers views)
      + 1
steps-le_example = steps-le flaky views 1 2 1 2 first_byte run

Reach-stuck_example :
    (r : MultiSourceRead) × Reach (held_by_both 5 6 7 8 [] (λ key. true)) (init two_views 0 3 1 4) r
    × (r.fatal ≡ none)
    × (r.raised ≡ false)
    × (consumer_turn r ≡ Consumer.waits)
    × ((s : MultiSourceRead) → Step (held_by_both 5 6 7 8 [] (λ key. true)) r s → ⊥)
Reach-stuck_example = Reach-stuck 5 6 7 8 [] (λ key. true) refl refl
