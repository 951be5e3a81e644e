-- ===== src/Tee/Following.antt =====
-- tgdcfs/core/tee.py: what the tasks do, asleep or awake, is a way in which the upload may go.
use tgdcfs.Base.{
  if_both, ◌⊎◌, inl, inr, ℕ, ◌≡◌, refl, ◌∙◌, sym, ap, subst, ◌==◌, nat_eq, not, ◌||◌, some, Option,
  Bool-cases, Option-cases, length, ltb,
}
use tgdcfs.Crypto.Bytes.{Bytes}
use tgdcfs.Tee.{
  Producer, idle, feeding, finishing, closing, Tee, Round, feed, waits, raises, returns, yields,
  next_round, round_of, mirror_round, taken, fed_branch,
}
use tgdcfs.Tee.Steps.{Step, Reach}
use tgdcfs.Tee.Feeding.{some_eq}
use tgdcfs.Tee.Waiting.{
  Tasks, notify_all, producer_waits, mirror_waits, feed_turn, finish_turn, turn_of, took,
  mirror_turn, detach_turn, Turn, Runs,
}
use tgdcfs.Tee.Awake.{feed_turn-none, feed_turn-some}

-- Where the upload is after a turn: as before, or a round on.
module _ (bytes : Bytes) (i : ℕ) (w : Tasks) where
  abbrev Follows : Option Tee → Tasks → Type 0
  Follows o v = (v.tee ≡ w.tee) ⊎ (o ≡ some v.tee)

  feed_turn-tee :
      Follows (fed_branch bytes i w.tee (feed bytes (w.tee.branches i))) (feed_turn bytes i w)
  unfolding producer_waits notify_all
  feed_turn-tee = elim (Option-cases (feed bytes (w.tee.branches i))) [
    | inl full ↦ inl (ap (λ (x : Tasks). x.tee) (feed_turn-none bytes i w full))
    | inr (b, f) ↦
        subst (Follows (fed_branch bytes i w.tee (feed bytes (w.tee.branches i))))
          (sym (feed_turn-some bytes i w b f))
          (if_both (Follows (fed_branch bytes i w.tee (feed bytes (w.tee.branches i))))
            (not (ltb 0 (length bytes)) || (w.tee.branches i).detached) _ _
            (λ skips. inr (ap (fed_branch bytes i w.tee) f))
            (λ asks. inr (ap (fed_branch bytes i w.tee) f)))
  ]

turn_of-tee :
    (p : Producer) (w v : Tasks)
    → turn_of p w ≡ some v
    → (v.tee ≡ w.tee) ⊎ (round_of p w.tee ≡ some v.tee)
unfolding turn_of round_of finish_turn notify_all
turn_of-tee idle w v e = cc
turn_of-tee (feeding bytes i) w v e = elim (Bool-cases (i == w.tee.count)) [
  | inl over ↦ inr (rw over (ap (λ (x : Tasks). some x.tee) (some_eq (rw over at e))))
  | inr inside ↦ elim (Bool-cases (w.producer_asleep i)) [
    | inl asleep ↦ cc (rw (inside, asleep) at e)
    | inr awake ↦ rw inside (
        subst
          (λ (x : Tasks).
            (x.tee ≡ w.tee)
            ⊎ (fed_branch bytes i w.tee (feed bytes (w.tee.branches i)) ≡ some x.tee))
          (some_eq (rw (inside, awake) at e)) (feed_turn-tee bytes i w))
  ]
]
turn_of-tee (finishing i) w v e = elim (Bool-cases (i == w.tee.count)) [
  | inl over ↦ inr (rw over (ap (λ (x : Tasks). some x.tee) (some_eq (rw over at e))))
  | inr inside ↦ inr (rw inside (ap (λ (x : Tasks). some x.tee) (some_eq (rw inside at e))))
]
turn_of-tee (closing i) w v e = elim (Bool-cases (i == w.tee.count)) [
  | inl over ↦ cc (rw over at e)
  | inr inside ↦ inr (rw inside (ap (λ (x : Tasks). some x.tee) (some_eq (rw inside at e))))
]

took-tee :
    (j : ℕ) (w : Tasks) (r : Round)
    → ((took j w r).tee ≡ w.tee) ⊎ (taken j w.tee r ≡ some (took j w r).tee)
unfolding mirror_waits notify_all
took-tee j w waits = inl refl
took-tee j w raises = inr refl
took-tee j w returns = inr refl
took-tee j w (yields bytes b) = inr refl

-- Every turn of the tasks is a step of the upload, or leaves it as it is.
Turn-Step :
    (content : Bytes) (w v : Tasks) → Turn content w v → (v.tee ≡ w.tee) ⊎ Step content w.tee v.tee
unfolding mirror_turn mirror_round detach_turn notify_all
Turn-Step content w v (Turn.reads k at e) = inr (Step.reads k at (ap (λ (x : Tasks). x.tee) e))
Turn-Step content w v (Turn.goes_on e) = elim (turn_of-tee w.tee.producer w v e) [
  | inl same ↦ inl same
  | inr round ↦ inr (Step.goes_on round)
]
Turn-Step content w v (Turn.collects at e) = inr (Step.collects at (ap (λ (x : Tasks). x.tee) e))
Turn-Step content w v (Turn.takes j lt runs awake e) =
    elim (took-tee j w (next_round (w.tee.branches j))) [
      | inl same ↦ inl (ap (λ (x : Tasks). x.tee) e ∙ same)
      | inr round ↦ inr (Step.takes j lt runs (round ∙ ap (λ (x : Tasks). some x.tee) (sym e)))
    ]
Turn-Step content w v (Turn.drops j e) = inr (Step.drops j (ap (λ (x : Tasks). x.tee) e))

pub Runs-Reach : (content : Bytes) (w v : Tasks) → Runs content w v → Reach content w.tee v.tee
Runs-Reach content w v Runs.here = Reach.here
Runs-Reach content w v (Runs.next {v = u} before turn) = elim (Turn-Step content u v turn) [
  | inl same ↦ subst (Reach content w.tee) (sym same) (Runs-Reach content w u before)
  | inr step ↦ Reach.next {s = u.tee} (Runs-Reach content w u before) step
]
