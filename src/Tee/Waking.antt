-- ===== src/Tee/Waking.antt =====
-- tgdcfs/core/tee.py: who is awake where the producer has no turn.
use tgdcfs.Base.{
  ◌⊎◌, inl, inr, ℕ, ◌≤◌, ◌<◌, ◌≡◌, ◌≢◌, refl, ◌∙◌, sym, ap, subst, ◌==◌, nat_eq, true, false, none,
  some, ◌++◌, arith, Bool-cases, length,
}
use tgdcfs.Crypto.Bytes.{Bytes}
use tgdcfs.Tee.{
  TeeBranch, Producer, idle, feeding, finishing, closing, feed, put_branch, put_mirror, waits,
  yields, next_round, round_of, drop_branch, fed_branch,
}
use tgdcfs.Tee.Waiting.{
  Tasks, start, notify_all, feed_turn, turn_of, producer_turn, took, mirror_turn, detach_turn, Runs,
}
use tgdcfs.Tee.Delivery.{waiting, flowing}
use tgdcfs.Tee.Safety.{IsFlowing}
use tgdcfs.Tee.Awake.{IsWaiting, Runs-IsWaiting, start-IsWaiting}
use tgdcfs.Tee.Following.{Runs-Reach}

-- A producer that feeds a branch goes on once the branch notified.
notified-turn :
    (bytes : Bytes) (i : ℕ) (x : Tasks)
    → x.tee.producer ≡ feeding bytes i
    → (i == x.tee.count) ≡ false
    → (v : Tasks) × (producer_turn (notify_all i x) ≡ some v)
unfolding notify_all turn_of
notified-turn bytes i x at inside =
    let same : (i == i) ≡ true = (nat_eq.eqb_iff i i).1 refl in
    (
      feed_turn bytes i (notify_all i x),
      ap (λ (p : Producer). turn_of p (notify_all i x)) at ∙ rw (inside, same) refl,
    )

after_take :
    (bytes : Bytes) (i : ℕ) (w : Tasks) (c : Bytes) (b : TeeBranch)
    → w.tee.producer ≡ feeding bytes i
    → (i == w.tee.count) ≡ false
    → next_round (w.tee.branches i) ≡ yields c b
    → (v : Tasks) × (producer_turn (mirror_turn i w) ≡ some v)
unfolding mirror_turn put_mirror put_branch
after_take bytes i w c b at inside found =
    subst (λ (x : Tasks). (v : Tasks) × (producer_turn x ≡ some v)) (sym (ap (took i w) found))
      (notified-turn bytes i
        (record w {
          tee =
              put_mirror i (record (w.tee.mirrors i) { got = (w.tee.mirrors i).got ++ c })
                (put_branch i b w.tee);
        })
        at inside)

after_detach :
    (bytes : Bytes) (i : ℕ) (w : Tasks)
    → w.tee.producer ≡ feeding bytes i
    → (i == w.tee.count) ≡ false
    → (v : Tasks) × (producer_turn (detach_turn i w) ≡ some v)
unfolding detach_turn drop_branch put_branch
after_detach bytes i w at inside =
    notified-turn bytes i (record w { tee = drop_branch i w.tee }) at inside

-- Where the producer has no turn, the round of the upload waits, or the producer sleeps on the branch it feeds.
stopped :
    (p : Producer) (w : Tasks)
    → IsWaiting w
    → w.tee.producer ≡ p
    → turn_of p w ≡ none
    → round_of p w.tee ≡ none
unfolding turn_of round_of
stopped idle w h at e = refl
stopped (feeding bytes i) w h at e = elim (Bool-cases (i == w.tee.count)) [
  | inl over ↦ cc (rw over at e)
  | inr inside ↦ elim (Bool-cases (w.producer_asleep i)) [
    | inr awake ↦ cc (rw (inside, awake) at e)
    | inl asleep ↦
        let (bytes', feeds, full, there) = h.producers i asleep in
        let is : feeding bytes i ≡ feeding bytes' i = sym at ∙ feeds in
        let same : bytes' ≡ bytes = ground (arith, is) in
        rw inside (
          ap (fed_branch bytes i w.tee)
            (ap (λ (k : Bytes). feed k (w.tee.branches i)) (sym same) ∙ full))
  ]
]
stopped (finishing i) w h at e = elim (Bool-cases (i == w.tee.count)) [
  | inl over ↦ cc (rw over at e)
  | inr inside ↦ cc (rw inside at e)
]
stopped (closing i) w h at e = elim (Bool-cases (i == w.tee.count)) [
  | inl over ↦ rw over refl
  | inr inside ↦ cc (rw inside at e)
]

awake_mirror :
    (w : Tasks) (j : ℕ)
    → IsWaiting w
    → next_round (w.tee.branches j) ≢ waits
    → w.mirror_asleep j ≡ false
awake_mirror w j h goes = elim (Bool-cases (w.mirror_asleep j)) [
  | inl asleep ↦ absurd (goes (h.mirrors j asleep))
  | inr awake ↦ awake
]

pub Runs-wakes :
    (content : Bytes) (capacity count total : ℕ) (w : Tasks)
    → length content ≤ total
    → Runs content (start capacity count total) w
    → producer_turn w ≡ none
    → (w.tee.producer ≡ idle)
      ⊎ ((w.tee.producer ≡ closing count)
          × ((j : ℕ)
              → j < count
              → (w.mirror_asleep j ≡ false) × (next_round (w.tee.branches j) ≢ waits)))
      ⊎ ((bytes : Bytes) × (i : ℕ) × (w.tee.producer ≡ feeding bytes i)
          × (i < count)
          × (w.mirror_asleep i ≡ false)
          × ((c : Bytes) × (b : TeeBranch) × (next_round (w.tee.branches i) ≡ yields c b))
          × ((v : Tasks) × (producer_turn (mirror_turn i w) ≡ some v))
          × ((v : Tasks) × (producer_turn (detach_turn i w) ≡ some v)))
unfolding start
Runs-wakes content capacity count total w declared runs e =
    let h =
      Runs-IsWaiting content (start capacity count total) w runs
        (start-IsWaiting capacity count total) in
    let reached = Runs-Reach content (start capacity count total) w runs in
    let flows = flowing content capacity count total declared w.tee reached in
    elim (waiting content capacity count total declared w.tee.producer w.tee refl flows
      (stopped w.tee.producer w h refl e)) [
        | inl rests ↦ inl rests
        | inr (inl (over, all)) ↦
            inr (inl (over, λ j lt. (awake_mirror w j h (all j lt), all j lt)))
        | inr (inr (bytes, i, at, lt, c, b, found)) ↦
            let inside : (i == w.tee.count) ≡ false = ground (arith, lt, IsFlowing.counts flows) in
            inr (
              inr (
                bytes,
                i,
                at,
                lt,
                awake_mirror w i h (λ waits_too. cc (sym found ∙ waits_too)),
                (c, b, found),
                after_take bytes i w c b at inside found,
                after_detach bytes i w at inside,
              ))
      ]
