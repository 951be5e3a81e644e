-- ===== src/Tee/Examples.antt =====
-- tgdcfs/core/tee.py: three bytes for one mirror, over a branch of two.
use tgdcfs.Base.{
  false, nat_eq, ◌⊎◌, ℕ, ◌≤◌, ◌<◌, ◌≡◌, ◌≢◌, refl, max, none, some, Option, [], ◌∷◌, ◌++◌, arith,
  length, take, true,
}
use tgdcfs.Crypto.Bytes.{Bytes, joined}
use tgdcfs.Tee.{
  TeeBranch, idle, feeding, closing, Phase, Tee, init, feed, must_wait, finish, put_branch,
  put_mirror, waits, yields, next_round, wrap, read, round_of, producer_round, mirror_round,
}
use tgdcfs.Tee.Steps.{Step, Reach}
use tgdcfs.Tee.Flow.{is_closed}
use tgdcfs.Tee.Delivery.{Reach-delivers, Reach-bounded}
use tgdcfs.Tee.Waiting.{
  Tasks, start, turn_of, feed_turn, notify_all, producer_waits, producer_turn, mirror_turn,
  detach_turn, Turn, Runs,
}
use tgdcfs.Tee.Waking.{Runs-wakes}

abbrev after : Option Tee → Tee
after none = wrap 2 1 3
after (some t) = t

abbrev message : Bytes
message = 7 ∷ 8 ∷ 9 ∷ []

abbrev state0 : Tee
state0 = wrap 2 1 3

abbrev state1 : Tee
state1 = read (7 ∷ 8 ∷ []) state0

abbrev state2 : Tee
state2 = after (producer_round state1)

abbrev state3 : Tee
state3 = after (producer_round state2)

abbrev state4 : Tee
state4 = read (9 ∷ []) state3

abbrev state5 : Tee
state5 = after (mirror_round 0 state4)

abbrev state6 : Tee
state6 = after (producer_round state5)

abbrev state7 : Tee
state7 = after (producer_round state6)

abbrev state8 : Tee
state8 = after (producer_round state7)

abbrev state9 : Tee
state9 = after (producer_round state8)

abbrev state10 : Tee
state10 = after (mirror_round 0 state9)

abbrev state11 : Tee
state11 = after (mirror_round 0 state10)

to_full : Reach message state0 state4
unfolding wrap init read round_of feed must_wait finish put_branch put_mirror mirror_round
    next_round
to_full =
    Reach.next {s = state3}
      (Reach.next {s = state2}
        (Reach.next {s = state1} (Reach.next {s = state0} Reach.here (Step.reads 2 refl refl))
          (Step.goes_on refl))
        (Step.goes_on refl))
      (Step.reads 1 refl refl)

to_end : Reach message state0 state11
unfolding wrap init read round_of feed must_wait finish put_branch put_mirror mirror_round
    next_round
to_end =
    Reach.next {s = state10}
      (Reach.next {s = state9}
        (Reach.next {s = state8}
          (Reach.next {s = state7}
            (Reach.next {s = state6}
              (Reach.next {s = state5}
                (Reach.next {s = state4} to_full (Step.takes 0 (omega arith) refl refl))
                (Step.goes_on refl))
              (Step.goes_on refl))
            (Step.goes_on refl))
          (Step.goes_on refl))
        (Step.takes 0 (omega arith) refl refl))
      (Step.takes 0 (omega arith) refl refl)

at_end : ((state11.mirrors 0).phase ≡ Phase.ended) × ((state11.mirrors 0).got ≡ message)
unfolding wrap init read round_of feed must_wait finish put_branch put_mirror mirror_round
    next_round
at_end = (refl, refl)

Reach-delivers_example :
    ((rest : Bytes) × ((state11.mirrors 0).got ++ rest ≡ message))
    × ((state11.mirrors 0).phase ≡ Phase.ended
        → ((state11.mirrors 0).got ≡ take state11.fed message)
          × (is_closed 3 state11.producer state11.fed ≡ true))
unfolding wrap init read round_of feed must_wait finish put_branch put_mirror mirror_round
    next_round
Reach-delivers_example = Reach-delivers message 2 1 3 (omega arith) state11 0 to_end (omega arith)

Reach-bounded_example :
    ((state4.branches 0).buffered ≡ length (joined (state4.branches 0).chunks))
    × (((state4.branches 0).buffered ≤ max 1 2) ⊎ (length (state4.branches 0).chunks ≡ 1))
Reach-bounded_example = Reach-bounded message 2 1 3 (omega arith) state4 0 to_full (omega arith)

-- The producer sleeps on the full branch.
abbrev next_of : Option Tasks → Tasks
next_of none = start 2 1 3
next_of (some w) = w

abbrev tasks0 : Tasks
tasks0 = start 2 1 3

abbrev tasks1 : Tasks
tasks1 = record tasks0 { tee = read (7 ∷ 8 ∷ []) tasks0.tee }

abbrev tasks2 : Tasks
tasks2 = next_of (producer_turn tasks1)

abbrev tasks3 : Tasks
tasks3 = next_of (producer_turn tasks2)

abbrev tasks4 : Tasks
tasks4 = record tasks3 { tee = read (9 ∷ []) tasks3.tee }

abbrev tasks5 : Tasks
tasks5 = next_of (producer_turn tasks4)

to_sleep : Runs message tasks0 tasks5
unfolding start wrap init read turn_of feed_turn notify_all producer_waits feed must_wait put_branch
to_sleep =
    Runs.next {v = tasks4}
      (Runs.next {v = tasks3}
        (Runs.next {v = tasks2}
          (Runs.next {v = tasks1} (Runs.next {v = tasks0} Runs.here (Turn.reads 2 refl refl))
            (Turn.goes_on refl))
          (Turn.goes_on refl))
        (Turn.reads 1 refl refl))
      (Turn.goes_on refl)

sleeping : tasks5.producer_asleep 0 ≡ true
unfolding start wrap init read turn_of feed_turn notify_all producer_waits feed must_wait put_branch
sleeping = refl

Runs-wakes_example :
    (tasks5.tee.producer ≡ idle)
    ⊎ ((tasks5.tee.producer ≡ closing 1)
        × ((j : ℕ)
            → j < 1
            → (tasks5.mirror_asleep j ≡ false) × (next_round (tasks5.tee.branches j) ≢ waits)))
    ⊎ ((bytes : Bytes) × (i : ℕ) × (tasks5.tee.producer ≡ feeding bytes i)
        × (i < 1)
        × (tasks5.mirror_asleep i ≡ false)
        × ((c : Bytes) × (b : TeeBranch) × (next_round (tasks5.tee.branches i) ≡ yields c b))
        × ((v : Tasks) × (producer_turn (mirror_turn i tasks5) ≡ some v))
        × ((v : Tasks) × (producer_turn (detach_turn i tasks5) ≡ some v)))
unfolding start wrap init read turn_of feed_turn notify_all producer_waits feed must_wait put_branch
Runs-wakes_example = Runs-wakes message 2 1 3 tasks5 (omega arith) to_sleep refl
