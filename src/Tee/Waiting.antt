-- ===== src/Tee/Waiting.antt =====
-- tgdcfs/core/tee.py: who sleeps on the `asyncio.Condition` of a branch, and who is woken.
use tgdcfs.Base.{
  ℕ, ◌+◌, ◌<◌, ◌≡◌, ◌==◌, nat_eq, Bool, true, false, not, ◌||◌, if◌then◌else◌, none, some, Option,
  ◌++◌, length, ltb, leb, take, drop,
}
use tgdcfs.Crypto.Bytes.{Bytes}
use tgdcfs.Tee.{
  Producer, idle, feeding, finishing, closing, Phase, Tee, Round, feed, finish, put_branch,
  put_mirror, waits, raises, returns, yields, next_round, wrap, read, drop_branch,
}

-- A tee'd upload, the branches on whose condition the producer sleeps, and the mirrors that sleep on theirs.
pub record Tasks : Type 0 where
  pub tee : Tee
  pub producer_asleep : ℕ → Bool
  pub mirror_asleep : ℕ → Bool

unfoldable pub start : ℕ → ℕ → ℕ → Tasks
start capacity count total = record {
  tee = wrap capacity count total;
  producer_asleep = λ (j : ℕ). false;
  mirror_asleep = λ (j : ℕ). false;
}

-- `self._changed.notify_all()` of a branch
unfoldable pub notify_all : ℕ → Tasks → Tasks
notify_all i w = record w {
  producer_asleep = λ (j : ℕ). if i == j then false else w.producer_asleep j;
  mirror_asleep = λ (j : ℕ). if i == j then false else w.mirror_asleep j;
}

-- `await self._changed.wait()` in `feed` and in `stream`
unfoldable pub producer_waits : ℕ → Tasks → Tasks
producer_waits i w = record w {
  producer_asleep = λ (j : ℕ). if i == j then true else w.producer_asleep j;
}

unfoldable pub mirror_waits : ℕ → Tasks → Tasks
mirror_waits i w = record w {
  mirror_asleep = λ (j : ℕ). if i == j then true else w.mirror_asleep j;
}

-- `branch.feed(data)`: it notifies where it queued the chunk.
unfoldable pub feed_turn : Bytes → ℕ → Tasks → Tasks
feed_turn bytes i w = elim (feed bytes (w.tee.branches i)) [
  | none ↦ producer_waits i w
  | some b ↦
      let fed : Tasks = record w {
        tee = record (put_branch i b w.tee) { producer = feeding bytes (i + 1) };
      } in
      if not (ltb 0 (length bytes)) || (w.tee.branches i).detached then fed else notify_all i fed
]

-- `branch.finish()`
unfoldable pub finish_turn : ℕ → Producer → Tasks → Tasks
finish_turn i next w =
    notify_all i (record w {
      tee = record (put_branch i (finish (w.tee.branches i)) w.tee) { producer = next };
    })

-- What the producer does next; `none` where it sleeps, or has nothing to do.
unfoldable pub turn_of : Producer → Tasks → Option Tasks
turn_of idle w = none
turn_of (feeding bytes i) w =
    if i == w.tee.count
    then some (record w {
      tee = record w.tee { producer = if leb w.tee.total w.tee.fed then finishing 0 else idle };
    })
    else if w.producer_asleep i
    then none
    else some (feed_turn bytes i w)
turn_of (finishing i) w =
    if i == w.tee.count
    then some (record w { tee = record w.tee { producer = idle } })
    else some (finish_turn i (finishing (i + 1)) w)
turn_of (closing i) w = if i == w.tee.count then none else some (finish_turn i (closing (i + 1)) w)

abbrev pub producer_turn : Tasks → Option Tasks
producer_turn w = turn_of w.tee.producer w

-- A round of `stream`, which notifies where it took a chunk.
abbrev pub took : ℕ → Tasks → Round → Tasks
took j w waits = mirror_waits j w
took j w raises = record w {
  tee = put_mirror j (record (w.tee.mirrors j) { phase = Phase.failed }) w.tee;
}
took j w returns = record w {
  tee = put_mirror j (record (w.tee.mirrors j) { phase = Phase.ended }) w.tee;
}
took j w (yields bytes b) = notify_all j (record w {
  tee =
      put_mirror j (record (w.tee.mirrors j) { got = (w.tee.mirrors j).got ++ bytes })
        (put_branch j b w.tee);
})

unfoldable pub mirror_turn : ℕ → Tasks → Tasks
mirror_turn j w = took j w (next_round (w.tee.branches j))

-- `branch.detach()`
unfoldable pub detach_turn : ℕ → Tasks → Tasks
detach_turn j w = notify_all j (record w { tee = drop_branch j w.tee })

-- The steps of `Steps`, of tasks that are not asleep.
pub data Turn (content : Bytes) (w v : Tasks) : Type 0 where
  reads :
      (k : ℕ)
      → w.tee.producer ≡ idle
      → v ≡ record w { tee = read (take k (drop w.tee.fed content)) w.tee }
      → Turn content w v
  goes_on : producer_turn w ≡ some v → Turn content w v
  collects :
      w.tee.producer ≡ idle
      → v ≡ record w { tee = record w.tee { producer = closing 0 } }
      → Turn content w v
  takes :
      (j : ℕ)
      → j < w.tee.count
      → (w.tee.mirrors j).phase ≡ Phase.running
      → w.mirror_asleep j ≡ false
      → v ≡ mirror_turn j w
      → Turn content w v
  drops : (j : ℕ) → v ≡ detach_turn j w → Turn content w v

pub data Runs (content : Bytes) (w : Tasks) : Tasks → Type 0 where
  here : Runs content w w
  next : {v u : Tasks} → Runs content w v → Turn content v u → Runs content w u
