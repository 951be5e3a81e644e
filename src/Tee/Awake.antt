-- ===== src/Tee/Awake.antt =====
-- tgdcfs/core/tee.py: what a task that sleeps on a branch waits for.
use tgdcfs.Base.{
  if_both, ◌⊎◌, inl, inr, ℕ, ◌+◌, ◌≡◌, refl, ◌∙◌, sym, ap, subst, ◌==◌, nat_eq, true, false, not,
  ◌||◌, if◌then◌else◌, none, some, ◌++◌, arith, Bool-cases, Option-cases, length, ltb, leb, take,
  drop,
}
use tgdcfs.Crypto.Bytes.{Bytes}
use tgdcfs.Tee.{
  TeeBranch, Producer, idle, feeding, finishing, closing, Phase, Tee, Round, feed, finish,
  put_branch, put_mirror, waits, raises, returns, yields, next_round, read, drop_branch,
}
use tgdcfs.Tee.Feeding.{some_eq}
use tgdcfs.Tee.Waiting.{
  Tasks, start, notify_all, producer_waits, mirror_waits, feed_turn, finish_turn, turn_of, took,
  mirror_turn, detach_turn, Turn, Runs,
}

-- A task that sleeps on the condition of a branch has nothing to go on with.
pub record IsWaiting (w : Tasks) : Type 0 where
  pub producers :
      (i : ℕ)
      → w.producer_asleep i ≡ true
      → (bytes : Bytes) × (w.tee.producer ≡ feeding bytes i)
        × (feed bytes (w.tee.branches i) ≡ none)
        × ((i == w.tee.count) ≡ false)
  pub mirrors : (j : ℕ) → w.mirror_asleep j ≡ true → next_round (w.tee.branches j) ≡ waits

abbrev IsUp : Tasks → Type 0
IsUp w = (i : ℕ) → w.producer_asleep i ≡ true → ⊥

-- The branches that are not notified did not change; a producer that moved on was awake.
module _ (w : Tasks) (u : Tee) (h : IsWaiting w) (counts : u.count ≡ w.tee.count)
    (up : (u.producer ≡ w.tee.producer) ⊎ IsUp w) where
  producers_same :
      (i : ℕ)
      → u.branches i ≡ w.tee.branches i
      → w.producer_asleep i ≡ true
      → (bytes : Bytes) × (u.producer ≡ feeding bytes i)
        × (feed bytes (u.branches i) ≡ none)
        × ((i == u.count) ≡ false)
  producers_same i same asleep = elim up [
    | inr awake ↦ absurd (awake i asleep)
    | inl still ↦
        let (bytes, at, full, inside) = h.producers i asleep in
        (bytes, still ∙ at, ap (feed bytes) same ∙ full, ap (λ (n : ℕ). i == n) counts ∙ inside)
  ]

  still-IsWaiting : ((j : ℕ) → u.branches j ≡ w.tee.branches j) → IsWaiting (record w { tee = u })
  still-IsWaiting same = record {
    producers = λ i asleep. producers_same i (same i) asleep;
    mirrors = λ j asleep. ap next_round (same j) ∙ h.mirrors j asleep;
  }

  notify_all-IsWaiting :
      (i : ℕ)
      → ((j : ℕ) → (i == j) ≡ false → u.branches j ≡ w.tee.branches j)
      → IsWaiting (notify_all i (record w { tee = u }))
  unfolding notify_all
  notify_all-IsWaiting i same = record {
    producers = λ j asleep. elim (Bool-cases (i == j)) [
      | inl is ↦ cc (rw is at asleep)
      | inr other ↦ producers_same j (same j other) (rw other at asleep)
    ];
    mirrors = λ j asleep. elim (Bool-cases (i == j)) [
      | inl is ↦ cc (rw is at asleep)
      | inr other ↦ ap next_round (same j other) ∙ h.mirrors j (rw other at asleep)
    ];
  }

producer_waits-IsWaiting :
    (bytes : Bytes) (i : ℕ) (w : Tasks)
    → w.tee.producer ≡ feeding bytes i
    → feed bytes (w.tee.branches i) ≡ none
    → (i == w.tee.count) ≡ false
    → IsWaiting w
    → IsWaiting (producer_waits i w)
unfolding producer_waits
producer_waits-IsWaiting bytes i w at full inside h = record {
  producers = λ j asleep. elim (Bool-cases (i == j)) [
    | inl is ↦
        subst
          (λ (k : ℕ).
            (bytes : Bytes) × (w.tee.producer ≡ feeding bytes k)
            × (feed bytes (w.tee.branches k) ≡ none)
            × ((k == w.tee.count) ≡ false))
          ((nat_eq.eqb_iff i j).0 is) (bytes, at, full, inside)
    | inr other ↦ h.producers j (rw other at asleep)
  ];
  mirrors = h.mirrors;
}

mirror_waits-IsWaiting :
    (i : ℕ) (w : Tasks)
    → next_round (w.tee.branches i) ≡ waits
    → IsWaiting w
    → IsWaiting (mirror_waits i w)
unfolding mirror_waits
mirror_waits-IsWaiting i w empty h = record {
  producers = h.producers;
  mirrors = λ j asleep. elim (Bool-cases (i == j)) [
    | inl is ↦
        subst (λ (k : ℕ). next_round (w.tee.branches k) ≡ waits) ((nat_eq.eqb_iff i j).0 is) empty
    | inr other ↦ h.mirrors j (rw other at asleep)
  ];
}

-- The producer sleeps only where it feeds.
is_up :
    (w : Tasks) (p : Producer)
    → IsWaiting w
    → w.tee.producer ≡ p
    → ((bytes : Bytes) (i : ℕ) → p ≡ feeding bytes i → w.producer_asleep i ≡ false)
    → IsUp w
is_up w p h at awake i asleep =
    let (bytes, feeds, full, inside) = h.producers i asleep in
    cc (sym (awake bytes i (sym at ∙ feeds)) ∙ asleep)

put_other :
    (i j : ℕ) (b : TeeBranch) (t : Tee)
    → (i == j) ≡ false
    → (put_branch i b t).branches j ≡ t.branches j
unfolding put_branch
put_other i j b t other = rw other refl

put_same :
    (i j : ℕ) (b : TeeBranch) (t : Tee)
    → t.branches i ≡ b
    → (put_branch i b t).branches j ≡ t.branches j
unfolding put_branch
put_same i j b t same = elim (Bool-cases (i == j)) [
  | inl is ↦ rw is (sym same ∙ ap t.branches ((nat_eq.eqb_iff i j).0 is))
  | inr other ↦ rw other refl
]

feed-skips :
    (bytes : Bytes) (b : TeeBranch)
    → (not (ltb 0 (length bytes)) || b.detached) ≡ true
    → feed bytes b ≡ some b
unfolding feed
feed-skips bytes b skips = rw skips refl

module _ (bytes : Bytes) (i : ℕ) (w : Tasks) where
  abbrev fed_tee : TeeBranch → Tee
  fed_tee b = record (put_branch i b w.tee) { producer = feeding bytes (i + 1) }

  pub feed_turn-none :
      feed bytes (w.tee.branches i) ≡ none → feed_turn bytes i w ≡ producer_waits i w
  unfolding feed_turn
  feed_turn-none full = rw (full, feed_turn) refl

  pub feed_turn-some :
      (b : TeeBranch)
      → feed bytes (w.tee.branches i) ≡ some b
      → feed_turn bytes i w ≡ (
          if not (ltb 0 (length bytes)) || (w.tee.branches i).detached
          then record w { tee = fed_tee b }
          else notify_all i (record w { tee = fed_tee b }))
  unfolding feed_turn
  feed_turn-some b f = rw (f, feed_turn) refl

  feed_turn-IsWaiting :
      w.tee.producer ≡ feeding bytes i
      → (i == w.tee.count) ≡ false
      → w.producer_asleep i ≡ false
      → IsWaiting w
      → IsWaiting (feed_turn bytes i w)
  unfolding put_branch
  feed_turn-IsWaiting at inside awake h =
      let up : IsUp w =
        is_up w (feeding bytes i) h at (λ bytes' j e.
          subst (λ (k : ℕ). w.producer_asleep k ≡ false) (ground (arith, e)) awake) in
      elim (Option-cases (feed bytes (w.tee.branches i))) [
        | inl full ↦
            subst IsWaiting (sym (feed_turn-none full))
              (producer_waits-IsWaiting bytes i w at full inside h)
        | inr (b, f) ↦ subst IsWaiting (sym (feed_turn-some b f)) (
            if_both IsWaiting (not (ltb 0 (length bytes)) || (w.tee.branches i).detached) _ _
              (λ skips.
                let same : w.tee.branches i ≡ b =
                  ground (arith, sym (feed-skips bytes (w.tee.branches i) skips) ∙ f) in
                still-IsWaiting w (fed_tee b) h refl (inr up) (λ j. put_same i j b w.tee same))
              (λ asks.
                notify_all-IsWaiting w (fed_tee b) h refl (inr up) i
                  (λ j other. put_other i j b w.tee other)))
      ]

finish_turn-IsWaiting :
    (i : ℕ) (next : Producer) (w : Tasks) → IsUp w → IsWaiting w → IsWaiting (finish_turn i next w)
unfolding finish_turn put_branch
finish_turn-IsWaiting i next w up h =
    notify_all-IsWaiting w
      (record (put_branch i (finish (w.tee.branches i)) w.tee) { producer = next }) h refl (inr up)
      i (λ j other. put_other i j (finish (w.tee.branches i)) w.tee other)

turn_of-IsWaiting :
    (p : Producer) (w v : Tasks)
    → w.tee.producer ≡ p
    → turn_of p w ≡ some v
    → IsWaiting w
    → IsWaiting v
unfolding turn_of
turn_of-IsWaiting idle w v at e h = cc
turn_of-IsWaiting (feeding bytes i) w v at e h = elim (Bool-cases (i == w.tee.count)) [
  | inl over ↦ subst IsWaiting (some_eq (rw over at e)) (
      still-IsWaiting w
        (record w.tee { producer = if leb w.tee.total w.tee.fed then finishing 0 else idle }) h refl
        (inr (λ j asleep.
          let (bytes', feeds, full, inside) = h.producers j asleep in
          let is : feeding bytes i ≡ feeding bytes' j = sym at ∙ feeds in
          let same : i ≡ j = ground (arith, is) in absurd (ground (arith, over, inside, same))))
        (λ j. refl))
  | inr inside ↦ elim (Bool-cases (w.producer_asleep i)) [
    | inl asleep ↦ cc (rw (inside, asleep) at e)
    | inr awake ↦
        subst IsWaiting (some_eq (rw (inside, awake) at e))
          (feed_turn-IsWaiting bytes i w at inside awake h)
  ]
]
turn_of-IsWaiting (finishing i) w v at e h =
    let up : IsUp w = is_up w (finishing i) h at (λ bytes j is. cc) in
    elim (Bool-cases (i == w.tee.count)) [
      | inl over ↦
          subst IsWaiting (some_eq (rw over at e))
            (still-IsWaiting w (record w.tee { producer = idle }) h refl (inr up) (λ j. refl))
      | inr inside ↦
          subst IsWaiting (some_eq (rw inside at e))
            (finish_turn-IsWaiting i (finishing (i + 1)) w up h)
    ]
turn_of-IsWaiting (closing i) w v at e h =
    let up : IsUp w = is_up w (closing i) h at (λ bytes j is. cc) in
    elim (Bool-cases (i == w.tee.count)) [
      | inl over ↦ cc (rw over at e)
      | inr inside ↦
          subst IsWaiting (some_eq (rw inside at e))
            (finish_turn-IsWaiting i (closing (i + 1)) w up h)
    ]

put_mirror-branches : (j k : ℕ) (m : Tee) → (put_mirror j (m.mirrors j) m).branches k ≡ m.branches k
unfolding put_mirror
put_mirror-branches j k m = refl

took-IsWaiting :
    (j : ℕ) (w : Tasks) (r : Round)
    → next_round (w.tee.branches j) ≡ r
    → IsWaiting w
    → IsWaiting (took j w r)
unfolding put_mirror put_branch
took-IsWaiting j w waits e h = mirror_waits-IsWaiting j w e h
took-IsWaiting j w raises e h =
    still-IsWaiting w (put_mirror j (record (w.tee.mirrors j) { phase = Phase.failed }) w.tee) h
      refl (inl refl) (λ k. refl)
took-IsWaiting j w returns e h =
    still-IsWaiting w (put_mirror j (record (w.tee.mirrors j) { phase = Phase.ended }) w.tee) h refl
      (inl refl) (λ k. refl)
took-IsWaiting j w (yields bytes b) e h =
    notify_all-IsWaiting w
      (put_mirror j (record (w.tee.mirrors j) { got = (w.tee.mirrors j).got ++ bytes })
        (put_branch j b w.tee))
      h refl (inl refl) j (λ k other. put_other j k b w.tee other)

read-IsWaiting :
    (bytes : Bytes) (w : Tasks)
    → w.tee.producer ≡ idle
    → IsWaiting w
    → IsWaiting (record w { tee = read bytes w.tee })
unfolding read
read-IsWaiting bytes w at h =
    let up : IsUp w = is_up w idle h at (λ b j is. cc) in
    elim (Bool-cases (ltb 0 (length bytes))) [
      | inr nothing ↦ rw nothing h
      | inl some_bytes ↦ rw some_bytes (
          still-IsWaiting w
            (record w.tee { fed = w.tee.fed + length bytes; producer = feeding bytes 0 }) h refl
            (inr up) (λ j. refl))
    ]

Turn-IsWaiting : (content : Bytes) (w v : Tasks) → Turn content w v → IsWaiting w → IsWaiting v
unfolding mirror_turn detach_turn drop_branch put_branch
Turn-IsWaiting content w v (Turn.reads k at e) h =
    subst IsWaiting (sym e) (read-IsWaiting (take k (drop w.tee.fed content)) w at h)
Turn-IsWaiting content w v (Turn.goes_on e) h = turn_of-IsWaiting w.tee.producer w v refl e h
Turn-IsWaiting content w v (Turn.collects at e) h = subst IsWaiting (sym e) (
    still-IsWaiting w (record w.tee { producer = closing 0 }) h refl
      (inr (is_up w idle h at (λ b j is. cc))) (λ j. refl))
Turn-IsWaiting content w v (Turn.takes j lt runs awake e) h =
    subst IsWaiting (sym e) (took-IsWaiting j w (next_round (w.tee.branches j)) refl h)
Turn-IsWaiting content w v (Turn.drops j e) h = subst IsWaiting (sym e) (
    notify_all-IsWaiting w (drop_branch j w.tee) h refl (inl refl) j
      (λ k other. put_other j k _ w.tee other))

pub Runs-IsWaiting : (content : Bytes) (w v : Tasks) → Runs content w v → IsWaiting w → IsWaiting v
Runs-IsWaiting content w v Runs.here h = h
Runs-IsWaiting content w v (Runs.next {v = u} before turn) h =
    Turn-IsWaiting content u v turn (Runs-IsWaiting content w u before h)

pub start-IsWaiting : (capacity count total : ℕ) → IsWaiting (start capacity count total)
unfolding start
start-IsWaiting capacity count total = record {
  producers = λ i asleep. cc;
  mirrors = λ j asleep. cc;
}
