-- ===== src/Tee/Delivery.antt =====
-- tgdcfs/core/tee.py: what a mirror gets, what a branch holds, and what the producer waits for.
use tgdcfs.Base.{
  ◌-◌, ◌||◌, ◌⊎◌, inl, inr, ℕ, ◌≤◌, ◌<◌, ◌≡◌, ◌≢◌, refl, ◌∙◌, ap, subst, ◌==◌, nat_eq, Bool, true,
  false, not, none, some, Option, List, ◌∷◌, ◌++◌, arith, Bool-cases, length, ltb, max, take,
}
use tgdcfs.Crypto.Bytes.{Bytes, joined}
use tgdcfs.Tee.{
  TeeBranch, Producer, idle, feeding, finishing, closing, Phase, Tee, init, feed, waits, yields,
  next_round, wrap, round_of, fed_branch, must_wait,
}
use tgdcfs.Tee.Steps.{Reach}
use tgdcfs.Tee.Flow.{Flows, is_closed}
use tgdcfs.Tee.Taking.{chunk_cases}
use tgdcfs.Tee.Reaching.{Reach-IsFlowing}
use tgdcfs.Tee.Safety.{IsFlowing, Flows-at, Reading-at}

next_round-chunk :
    (b : TeeBranch) (bytes : Bytes) (rest : List Bytes)
    → b.detached ≡ false
    → b.chunks ≡ bytes ∷ rest
    → (b' : TeeBranch) × (next_round b ≡ yields bytes b')
unfolding next_round
next_round-chunk b bytes rest there f = (
  record b { chunks = rest; buffered = b.buffered - length bytes; detached = false },
  rw (there, f)
      (ap
        (λ (d : Bool).
          yields bytes
            (record b { chunks = rest; buffered = b.buffered - length bytes; detached = d }))
        there),
)

next_round-eof : (b : TeeBranch) → b.eof ≡ true → next_round b ≢ waits
unfolding next_round
next_round-eof b over e = elim (Bool-cases b.detached) [
  | inl gone ↦ cc (rw gone at e)
  | inr there ↦ elim (chunk_cases b.chunks) [
    | inl none_left ↦ cc (rw (there, none_left, over) at e)
    | inr (c, rest, f) ↦ cc (rw (there, f) at e)
  ]
]

-- A branch that makes the producer wait holds a chunk.
feed-none :
    (bytes : Bytes) (b : TeeBranch)
    → b.buffered ≡ length (joined b.chunks)
    → feed bytes b ≡ none
    → (c : Bytes) × (b' : TeeBranch) × (next_round b ≡ yields c b')
unfolding feed must_wait
feed-none bytes b counted e = elim (Bool-cases (not (ltb 0 (length bytes)) || b.detached)) [
  | inl skips ↦ cc (rw skips at e)
  | inr asks ↦ elim (Bool-cases (must_wait bytes b)) [
    | inr fits ↦ cc (rw (asks, fits) at e)
    | inl full ↦ elim (chunk_cases b.chunks) [
      | inl none_left ↦
          absurd
            (ground (arith, full, counted, ap (λ (cs : List Bytes). length (joined cs)) none_left))
      | inr (c, rest, f) ↦
          let (b', found) = next_round-chunk b c rest (ground (arith, asks)) f in (c, b', found)
    ]
  ]
]

fed_branch-none :
    (bytes : Bytes) (i : ℕ) (t : Tee) (o : Option TeeBranch)
    → fed_branch bytes i t o ≡ none
    → o ≡ none
fed_branch-none bytes i t none e = refl
fed_branch-none bytes i t (some b) e = cc

module _ (content : Bytes) (capacity count total : ℕ) (declared : length content ≤ total) where
  start-IsFlowing : IsFlowing content total (max 1 capacity) count (wrap capacity count total)
  unfolding wrap init
  start-IsFlowing = record {
    totals = refl;
    counts = refl;
    within = omega arith;
    reading = tt;
    flows = λ j lt. record {
      sized = refl;
      counted = refl;
      bounded = inl (omega arith);
      prefix = (content, refl);
      whole = λ _. refl;
      closed = λ e. cc;
      ended = λ e. ground (arith, e);
      shut = tt;
      solid = tt;
    };
  }

  pub flowing :
      (t : Tee)
      → Reach content (wrap capacity count total) t
      → IsFlowing content total (max 1 capacity) count t
  flowing t r =
      Reach-IsFlowing content total (max 1 capacity) count (wrap capacity count total) t declared r
        start-IsFlowing

  -- At every moment of a tee'd upload, and however the tasks interleave and fail, a mirror has taken a beginning
  -- of the bytes, none missing, repeated or out of order. A mirror whose stream came to its end has taken
  -- every byte that the primary store read, and the primary store reads no more: it read all that was
  -- declared, or the upload into it is over. The message is no longer than it declares.
  pub Reach-delivers :
      (t : Tee) (j : ℕ)
      → Reach content (wrap capacity count total) t
      → j < count
      → ((rest : Bytes) × ((t.mirrors j).got ++ rest ≡ content))
        × ((t.mirrors j).phase ≡ Phase.ended
            → ((t.mirrors j).got ≡ take t.fed content) × (is_closed total t.producer t.fed ≡ true))
  Reach-delivers t j r lt =
      let f = IsFlowing.flows (flowing t r) j lt in
      (Flows.prefix f, λ over. let (eof, all) = Flows.ended f over in (all, Flows.closed f eof))

  -- A branch never holds more bytes than its capacity, unless it holds one chunk alone, and its count of them is
  -- exact. The message is no longer than it declares.
  pub Reach-bounded :
      (t : Tee) (j : ℕ)
      → Reach content (wrap capacity count total) t
      → j < count
      → ((t.branches j).buffered ≡ length (joined (t.branches j).chunks))
        × (((t.branches j).buffered ≤ max 1 capacity) ⊎ (length (t.branches j).chunks ≡ 1))
  Reach-bounded t j r lt =
      let f = IsFlowing.flows (flowing t r) j lt in
      (
        Flows.counted f,
        elim (Flows.bounded f) [
          | inl le ↦ inl (subst (λ (n : ℕ). (t.branches j).buffered ≤ n) (Flows.sized f) le)
          | inr one ↦ inr one
        ],
      )

  -- What the producer is at when it has no round.
  pub waiting :
      (p : Producer) (t : Tee)
      → t.producer ≡ p
      → IsFlowing content total (max 1 capacity) count t
      → round_of p t ≡ none
      → (p ≡ idle)
        ⊎ ((p ≡ closing count) × ((j : ℕ) → j < count → next_round (t.branches j) ≢ waits))
        ⊎ ((bytes : Bytes) × (i : ℕ) × (p ≡ feeding bytes i)
            × (i < count)
            × (c : Bytes) × (b : TeeBranch) × (next_round (t.branches i) ≡ yields c b))
  unfolding round_of
  waiting idle t is h e = inl refl
  waiting (finishing i) t is h e = elim (Bool-cases (i == t.count)) [
    | inl over ↦ cc (rw over at e)
    | inr more ↦ cc (rw more at e)
  ]
  waiting (closing i) t is h e = elim (Bool-cases (i == t.count)) [
    | inr more ↦ cc (rw more at e)
    | inl over ↦
        let all : i ≡ count = (nat_eq.eqb_iff i t.count).0 over ∙ IsFlowing.counts h in
        inr (
          inl (
            ap closing all,
            λ j lt. next_round-eof (t.branches j) (
                Flows.shut (Flows-at content total (max 1 capacity) count t (closing i) is h j lt)
                  (ground (arith, lt, all))),
          ))
  ]
  waiting (feeding bytes i) t is h e = elim (Bool-cases (i == t.count)) [
    | inl over ↦ cc (rw over at e)
    | inr more ↦
        let r = Reading-at content total (max 1 capacity) count t (feeding bytes i) is h in
        let lt : i < count = ground (arith, more, r.2, IsFlowing.counts h) in
        let (c, b, found) =
          feed-none bytes (t.branches i) (Flows.counted (IsFlowing.flows h i lt))
            (fed_branch-none bytes i t (feed bytes (t.branches i)) (rw more at e)) in
        inr (inr (bytes, i, refl, lt, c, b, found))
  ]
