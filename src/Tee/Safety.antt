-- ===== src/Tee/Safety.antt =====
-- tgdcfs/core/tee.py: what holds in every state that a tee'd upload comes to, whatever the interleaving.
use tgdcfs.Base.{
  Option, inl, inr, ℕ, ◌+◌, ◌-◌, ◌≤◌, ◌<◌, ◌≡◌, refl, ◌∙◌, sym, ap, subst, ◌==◌, nat_eq, true,
  false, if◌then◌else◌, none, some, ◌++◌, arith, Bool-cases, length, ltb, leb, min, take, drop,
  length-take, length-drop, take_split, take-min, if_both,
}
use tgdcfs.Crypto.Bytes.{Bytes}
use tgdcfs.Tee.{
  TeeBranch, Producer, idle, feeding, finishing, closing, Tee, feed, finish, read, round_of,
  put_branch, fed_branch,
}
use tgdcfs.Tee.Flow.{Flows}
use tgdcfs.Tee.Feeding.{read-Flows, fed-Flows, past-Flows, feed-Flows, finish-Flows, still-Flows}

pub some_eq : {A : Type 0} {x y : A} → some x ≡ some y → x ≡ y
some_eq e = ground (arith, e)

-- Where the producer is: what it feeds are the last bytes that were read.
abbrev pub Reading : Bytes → ℕ → ℕ → ℕ → Producer → Type 0
Reading content total count fed idle = Unit {0}
Reading content total count fed (feeding bytes i) =
    (0 < length bytes)
    × (take fed content ≡ take (fed - length bytes) content ++ bytes)
    × (i ≤ count)
Reading content total count fed (finishing i) = (leb total fed ≡ true) × (i ≤ count)
Reading content total count fed (closing i) = i ≤ count

module _ (content : Bytes) (total size count : ℕ) where
  pub record IsFlowing (t : Tee) : Type 0 where
    pub totals : t.total ≡ total
    pub counts : t.count ≡ count
    pub within : t.fed ≤ length content
    pub reading : Reading content total count t.fed t.producer
    pub flows :
        (j : ℕ)
        → j < count
        → Flows content total size t.producer t.fed j (t.branches j) (t.mirrors j)

  pub reads-IsFlowing :
      (k : ℕ) (t : Tee)
      → length content ≤ total
      → t.producer ≡ idle
      → IsFlowing t
      → IsFlowing (read (take k (drop t.fed content)) t)
  unfolding read
  reads-IsFlowing k t le e h =
      let bytes = take k (drop t.fed content) in
      let n = length bytes in
      let counted : n ≡ min k (length content - t.fed) =
        length-take k (drop t.fed content) ∙ ap (min k) (length-drop t.fed content) in
      let whole : take n (drop t.fed content) ≡ bytes =
        ap (λ (i : ℕ). take i (drop t.fed content)) (length-take k (drop t.fed content))
        ∙ take-min k (drop t.fed content) in
      elim (Bool-cases (ltb 0 n)) [
        | inr nothing ↦ rw nothing h
        | inl got ↦ rw got (record {
          totals = h.totals;
          counts = h.counts;
          within = ground (arith, counted, h.within);
          reading = (
            ground (arith, got),
            sym (take_split t.fed n (t.fed + n) content refl)
                ∙ ap (λ (k : Bytes). take t.fed content ++ k) whole
                ∙ ap (λ (i : ℕ). take i content ++ bytes) (omega arith),
            omega arith,
          );
          flows = λ j lt.
              read-Flows content total size t.fed j bytes (t.branches j) (t.mirrors j)
                (λ over. ground (arith, counted, got, over, le))
                (subst
                  (λ (p : Producer).
                    Flows content total size p t.fed j (t.branches j) (t.mirrors j))
                  e (h.flows j lt));
        })
      ]

  pub Flows-at :
      (t : Tee) (p : Producer)
      → t.producer ≡ p
      → IsFlowing t
      → (j : ℕ) → j < count
      → Flows content total size p t.fed j (t.branches j) (t.mirrors j)
  Flows-at t p e h j lt =
      subst (λ (q : Producer). Flows content total size q t.fed j (t.branches j) (t.mirrors j)) e
        (h.flows j lt)

  pub Reading-at :
      (t : Tee) (p : Producer) → t.producer ≡ p → IsFlowing t → Reading content total count t.fed p
  Reading-at t p e h = subst (Reading content total count t.fed) e h.reading

  -- One branch changes, and the producer goes on.
  pub put-IsFlowing :
      (t : Tee) (p : Producer) (i : ℕ) (b : TeeBranch)
      → IsFlowing t
      → Reading content total count t.fed p
      → (i < count → Flows content total size p t.fed i b (t.mirrors i))
      → ((j : ℕ)
          → (i == j) ≡ false
          → j < count
          → Flows content total size p t.fed j (t.branches j) (t.mirrors j))
      → IsFlowing (record (put_branch i b t) { producer = p })
  unfolding put_branch
  put-IsFlowing t p i b h r at_i others = record {
    totals = h.totals;
    counts = h.counts;
    within = h.within;
    reading = r;
    flows = λ j lt. elim (Bool-cases (i == j)) [
      | inr other ↦ rw other (others j other lt)
      | inl same ↦
          let is : i ≡ j = (nat_eq.eqb_iff i j).0 same in
          rw same (
            subst (λ (k : ℕ). Flows content total size p t.fed k b (t.mirrors k)) is
              (at_i (subst (λ (k : ℕ). k < count) (sym is) lt)))
    ];
  }

  -- The producer goes on by itself.
  pub move-IsFlowing :
      (t : Tee) (p : Producer)
      → IsFlowing t
      → Reading content total count t.fed p
      → ((j : ℕ) → j < count → Flows content total size p t.fed j (t.branches j) (t.mirrors j))
      → IsFlowing (record t { producer = p })
  move-IsFlowing t p h r all = record {
    totals = h.totals;
    counts = h.counts;
    within = h.within;
    reading = r;
    flows = all;
  }

  feeds-IsFlowing :
      (bytes : Bytes) (i : ℕ) (t s : Tee) (o : Option TeeBranch)
      → t.producer ≡ feeding bytes i
      → (i == count) ≡ false
      → feed bytes (t.branches i) ≡ o
      → fed_branch bytes i t o ≡ some s
      → IsFlowing t
      → IsFlowing s
  feeds-IsFlowing bytes i t s none is more f e h = cc
  feeds-IsFlowing bytes i t s (some b) is more f e h =
      let (some_bytes, slice, le) = Reading-at t (feeding bytes i) is h in
      subst IsFlowing (some_eq e) (
        put-IsFlowing t (feeding bytes (i + 1)) i b h (some_bytes, slice, ground (arith, more, le))
          (λ lt.
            feed-Flows content total size t.fed i bytes (t.branches i) b (t.mirrors i) some_bytes
              slice f (Flows-at t (feeding bytes i) is h i lt))
          (λ j other lt.
            past-Flows content total size t.fed j bytes i (t.branches j) (t.mirrors j) other
              (Flows-at t (feeding bytes i) is h j lt)))

  pub round-IsFlowing :
      (p : Producer) (t s : Tee)
      → t.producer ≡ p
      → round_of p t ≡ some s
      → IsFlowing t
      → IsFlowing s
  unfolding round_of
  round-IsFlowing idle t s is e h = cc
  round-IsFlowing (feeding bytes i) t s is e h =
      let r = Reading-at t (feeding bytes i) is h in
      elim (Bool-cases (i == t.count)) [
        | inr more ↦
            feeds-IsFlowing bytes i t s (feed bytes (t.branches i)) is
              (ap (λ (n : ℕ). i == n) (sym h.counts) ∙ more) refl (rw more at e) h
        | inl over ↦
            let all : i ≡ count = (nat_eq.eqb_iff i t.count).0 over ∙ h.counts in
            subst IsFlowing (some_eq (rw over at e)) (
              move-IsFlowing t (if leb t.total t.fed then finishing 0 else idle) h
                (if_both (Reading content total count t.fed) (leb t.total t.fed) (finishing 0) idle
                  (λ enough. (ap (λ (n : ℕ). leb n t.fed) (sym h.totals) ∙ enough, omega arith))
                  (λ _. tt))
                (λ j lt.
                  subst
                    (λ (n : ℕ).
                      Flows content total size (if leb n t.fed then finishing 0 else idle) t.fed j
                        (t.branches j) (t.mirrors j))
                    (sym h.totals)
                    (fed-Flows content total size t.fed j bytes i (t.branches j) (t.mirrors j)
                      (omega (arith, all, lt)) (Flows-at t (feeding bytes i) is h j lt))))
      ]
  round-IsFlowing (finishing i) t s is e h =
      let (enough, le) = Reading-at t (finishing i) is h in
      elim (Bool-cases (i == t.count)) [
        | inl over ↦ subst IsFlowing (some_eq (rw over at e)) (
            move-IsFlowing t idle h tt (λ j lt.
              still-Flows content total size t.fed j (finishing i) idle (t.branches j) (t.mirrors j)
                refl (λ c. c) tt (Flows-at t (finishing i) is h j lt)))
        | inr more ↦ subst IsFlowing (some_eq (rw more at e)) (
            put-IsFlowing t (finishing (i + 1)) i (finish (t.branches i)) h
              (enough, ground (arith, more, le, h.counts))
              (λ lt.
                finish-Flows content total size t.fed i (finishing i) (finishing (i + 1))
                  (t.branches i) (t.mirrors i) enough enough tt
                  (Flows-at t (finishing i) is h i lt))
              (λ j other lt.
                still-Flows content total size t.fed j (finishing i) (finishing (i + 1))
                  (t.branches j) (t.mirrors j) refl (λ c. c) tt
                  (Flows-at t (finishing i) is h j lt)))
      ]
  round-IsFlowing (closing i) t s is e h =
      let le = Reading-at t (closing i) is h in
      elim (Bool-cases (i == t.count)) [
        | inl over ↦ cc (rw over at e)
        | inr more ↦ subst IsFlowing (some_eq (rw more at e)) (
            put-IsFlowing t (closing (i + 1)) i (finish (t.branches i)) h
              (ground (arith, more, le, h.counts))
              (λ lt.
                finish-Flows content total size t.fed i (closing i) (closing (i + 1)) (t.branches i)
                  (t.mirrors i) refl refl (λ _. refl) (Flows-at t (closing i) is h i lt))
              (λ j other lt.
                let f = Flows-at t (closing i) is h j lt in
                still-Flows content total size t.fed j (closing i) (closing (i + 1)) (t.branches j)
                  (t.mirrors j) refl (λ c. c) (λ below. Flows.shut f (ground (arith, below, other)))
                  f))
      ]
