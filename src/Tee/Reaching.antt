-- ===== src/Tee/Reaching.antt =====
-- tgdcfs/core/tee.py: every step of a tee'd upload keeps what holds of its branches.
use tgdcfs.Base.{
  inl, inr, ℕ, ◌≤◌, ◌<◌, ◌≡◌, refl, sym, subst, ◌==◌, nat_eq, some, arith, Bool-cases, length,
}
use tgdcfs.Crypto.Bytes.{Bytes}
use tgdcfs.Tee.{
  TeeBranch, idle, closing, running, Mirror, Tee, detach, Round, waits, raises, returns, yields,
  next_round, mirror_round, taken, drop_branch, put_branch, put_mirror,
}
use tgdcfs.Tee.Steps.{Step, Reach}
use tgdcfs.Tee.Flow.{Flows}
use tgdcfs.Tee.Feeding.{still-Flows, detach-Flows}
use tgdcfs.Tee.Taking.{yields-Flows, raises-Flows, returns-Flows}
use tgdcfs.Tee.Safety.{
  IsFlowing, reads-IsFlowing, Flows-at, put-IsFlowing, move-IsFlowing, round-IsFlowing, some_eq,
}

module _ (content : Bytes) (total size count : ℕ) where
  abbrev AllFlowing : Tee → Type 0
  AllFlowing t = IsFlowing content total size count t

  -- A mirror changes, and its branch.
  mirror-IsFlowing :
      (t : Tee) (i : ℕ) (m : Mirror) (b : TeeBranch)
      → AllFlowing t
      → (i < count → Flows content total size t.producer t.fed i b m)
      → AllFlowing (put_mirror i m (put_branch i b t))
  unfolding put_branch put_mirror
  mirror-IsFlowing t i m b h at_i = record {
    totals = h.totals;
    counts = h.counts;
    within = h.within;
    reading = h.reading;
    flows = λ j lt. elim (Bool-cases (i == j)) [
      | inr other ↦ rw other (h.flows j lt)
      | inl same ↦
          let is : i ≡ j = (nat_eq.eqb_iff i j).0 same in
          rw same (
            subst (λ (k : ℕ). Flows content total size t.producer t.fed k b m) is
              (at_i (subst (λ (k : ℕ). k < count) (sym is) lt)))
    ];
  }

  only_mirror-IsFlowing :
      (t : Tee) (i : ℕ) (m : Mirror)
      → AllFlowing t
      → (i < count → Flows content total size t.producer t.fed i (t.branches i) m)
      → AllFlowing (put_mirror i m t)
  unfolding put_mirror
  only_mirror-IsFlowing t i m h at_i = record {
    totals = h.totals;
    counts = h.counts;
    within = h.within;
    reading = h.reading;
    flows = λ j lt. elim (Bool-cases (i == j)) [
      | inr other ↦ rw other (h.flows j lt)
      | inl same ↦
          let is : i ≡ j = (nat_eq.eqb_iff i j).0 same in
          rw same (
            subst (λ (k : ℕ). Flows content total size t.producer t.fed k (t.branches k) m) is
              (at_i (subst (λ (k : ℕ). k < count) (sym is) lt)))
    ];
  }

  taken-IsFlowing :
      (r : Round) (j : ℕ) (t s : Tee)
      → (t.mirrors j).phase ≡ running
      → next_round (t.branches j) ≡ r
      → taken j t r ≡ some s
      → AllFlowing t
      → AllFlowing s
  taken-IsFlowing waits j t s run f e h = cc
  taken-IsFlowing raises j t s run f e h = subst AllFlowing (some_eq e) (
      only_mirror-IsFlowing t j _ h (λ lt.
        raises-Flows content total size t.fed j t.producer (t.branches j) (t.mirrors j)
          (h.flows j lt)))
  taken-IsFlowing returns j t s run f e h = subst AllFlowing (some_eq e) (
      only_mirror-IsFlowing t j _ h (λ lt.
        returns-Flows content total size t.fed j t.producer (t.branches j) (t.mirrors j) f
          (h.flows j lt)))
  taken-IsFlowing (yields bytes b) j t s run f e h = subst AllFlowing (some_eq e) (
      mirror-IsFlowing t j _ b h (λ lt.
        yields-Flows content total size t.fed j t.producer (t.branches j) b (t.mirrors j) bytes run
          f (h.flows j lt)))

  takes-IsFlowing :
      (j : ℕ) (t s : Tee)
      → (t.mirrors j).phase ≡ running
      → mirror_round j t ≡ some s
      → AllFlowing t
      → AllFlowing s
  unfolding mirror_round
  takes-IsFlowing j t s run e h = taken-IsFlowing (next_round (t.branches j)) j t s run refl e h

  drops-IsFlowing : (i : ℕ) (t : Tee) → AllFlowing t → AllFlowing (drop_branch i t)
  unfolding drop_branch put_branch
  drops-IsFlowing i t h =
      put-IsFlowing content total size count t t.producer i (detach (t.branches i)) h h.reading
        (λ lt.
          detach-Flows content total size t.fed i t.producer (t.branches i) (t.mirrors i)
            (h.flows i lt))
        (λ j other lt. h.flows j lt)

  collects-IsFlowing :
      (t : Tee) → t.producer ≡ idle → AllFlowing t → AllFlowing (record t { producer = closing 0 })
  collects-IsFlowing t is h =
      move-IsFlowing content total size count t (closing 0) h (omega arith) (λ j lt.
        still-Flows content total size t.fed j idle (closing 0) (t.branches j) (t.mirrors j) refl
          (λ _. refl) (λ below. ground (arith, below))
          (Flows-at content total size count t idle is h j lt))

  Step-IsFlowing :
      (t s : Tee) → length content ≤ total → Step content t s → AllFlowing t → AllFlowing s
  Step-IsFlowing t s le (Step.reads k is e) h =
      subst AllFlowing (sym e) (reads-IsFlowing content total size count k t le is h)
  Step-IsFlowing t s le (Step.goes_on e) h =
      round-IsFlowing content total size count t.producer t s refl e h
  Step-IsFlowing t s le (Step.collects is e) h =
      subst AllFlowing (sym e) (collects-IsFlowing t is h)
  Step-IsFlowing t s le (Step.takes j lt run e) h = takes-IsFlowing j t s run e h
  Step-IsFlowing t s le (Step.drops j e) h = subst AllFlowing (sym e) (drops-IsFlowing j t h)

  pub Reach-IsFlowing :
      (t s : Tee) → length content ≤ total → Reach content t s → AllFlowing t → AllFlowing s
  Reach-IsFlowing t s le Reach.here h = h
  Reach-IsFlowing t s le (Reach.next {s = u} before step) h =
      Step-IsFlowing u s le step (Reach-IsFlowing t u le before h)
