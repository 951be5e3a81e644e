-- ===== src/Tee.antt =====
-- tgdcfs/core/tee.py: an upload that is split into one bounded queue of chunks for every mirror. What runs
-- between two awaits is a function each: a `feed`, a `finish`, a `detach`, one round of `stream`.
pub mod Steps
pub mod Flow
pub mod Feeding
pub mod Taking
pub mod Safety
pub mod Reaching
pub mod Delivery
pub mod Waiting
pub mod Awake
pub mod Following
pub mod Waking
mod Examples
use tgdcfs.Base.{
  ℕ, ◌+◌, ◌-◌, ◌==◌, nat_eq, Bool, true, false, not, ◌&&◌, ◌||◌, if◌then◌else◌, Option, none, some,
  List, [], ◌∷◌, ◌++◌, String, length, ltb, leb, max,
}
use tgdcfs.Crypto.Bytes.{Bytes}

pub record TeeBranch : Type 0 where
  pub capacity : ℕ
  pub chunks : List Bytes
  pub buffered : ℕ
  pub eof : Bool
  pub detached : Bool

unfoldable pub init : ℕ → TeeBranch
init capacity = record {
  capacity = max 1 capacity;
  chunks = [];
  buffered = 0;
  eof = false;
  detached = false;
}

-- The producer waits where the branch holds something and the chunk does not fit beside it.
unfoldable pub must_wait : Bytes → TeeBranch → Bool
must_wait bytes b =
    ltb 0 b.buffered && (ltb b.capacity (b.buffered + length bytes) && not b.detached)

-- `none` where it waits.
unfoldable pub feed : Bytes → TeeBranch → Option TeeBranch
feed bytes b =
    if not (ltb 0 (length bytes)) || b.detached
    then some b
    else if must_wait bytes b
    then none
    else some (record b { chunks = b.chunks ++ (bytes ∷ []); buffered = b.buffered + length bytes })

unfoldable pub finish : TeeBranch → TeeBranch
finish b = record b { eof = true }

unfoldable pub detach : TeeBranch → TeeBranch
detach b = record b { detached = true; chunks = []; buffered = 0 }

-- A round of `stream`.
pub data Round : Type 0 where
  waits : Round
  raises : Round
  returns : Round
  yields : Bytes → TeeBranch → Round

unfoldable pub next_round : TeeBranch → Round
next_round b = if b.detached then raises else elim b.chunks [
  | [] ↦ if b.eof then returns else waits
  | bytes ∷ rest ↦ yields bytes (record b { chunks = rest; buffered = b.buffered - length bytes })
]

-- Where the upload into the primary store is: between two reads, in the loop of `read` over the branches with
-- the bytes that were read, in that of `finish` within the read, or in the one of `collect`.
pub data Producer : Type 0 where
  idle : Producer
  feeding : Bytes → ℕ → Producer
  finishing : ℕ → Producer
  closing : ℕ → Producer

pub data Phase : Type 0 where
  running : Phase
  ended : Phase
  failed : Phase

-- The upload into a mirror, and the bytes it took.
pub record Mirror : Type 0 where
  pub got : Bytes
  pub phase : Phase

-- A tee'd upload: `count` branches, each with its mirror, numbered.
pub record Tee : Type 0 where
  pub branches : ℕ → TeeBranch
  pub mirrors : ℕ → Mirror
  pub count : ℕ
  pub total : ℕ
  pub fed : ℕ
  pub producer : Producer

-- `TeeFileMessage.wrap`, and a task for each branch.
unfoldable pub wrap : ℕ → ℕ → ℕ → Tee
wrap capacity count total = record {
  branches = λ (j : ℕ). init capacity;
  mirrors = λ (j : ℕ). record { got = []; phase = running };
  count = count;
  total = total;
  fed = 0;
  producer = idle;
}

unfoldable pub put_branch : ℕ → TeeBranch → Tee → Tee
put_branch i b t = record t { branches = λ (j : ℕ). if i == j then b else t.branches j }

unfoldable pub put_mirror : ℕ → Mirror → Tee → Tee
put_mirror i m t = record t { mirrors = λ (j : ℕ). if i == j then m else t.mirrors j }

-- What `read` does once the message below gave bytes.
unfoldable pub read : Bytes → Tee → Tee
read bytes t =
    if ltb 0 (length bytes)
    then record t { fed = t.fed + length bytes; producer = feeding bytes 0 }
    else t

abbrev pub fed_branch : Bytes → ℕ → Tee → Option TeeBranch → Option Tee
fed_branch bytes i t none = none
fed_branch bytes i t (some b) =
    some (record (put_branch i b t) { producer = feeding bytes (i + 1) })

-- One round of the producer's loop; `none` where it waits, or has none to run.
unfoldable pub round_of : Producer → Tee → Option Tee
round_of idle t = none
round_of (feeding bytes i) t =
    if i == t.count
    then some (record t { producer = if leb t.total t.fed then finishing 0 else idle })
    else fed_branch bytes i t (feed bytes (t.branches i))
round_of (finishing i) t =
    if i == t.count
    then some (record t { producer = idle })
    else some (record (put_branch i (finish (t.branches i)) t) { producer = finishing (i + 1) })
round_of (closing i) t =
    if i == t.count
    then none
    else some (record (put_branch i (finish (t.branches i)) t) { producer = closing (i + 1) })

abbrev pub producer_round : Tee → Option Tee
producer_round t = round_of t.producer t

abbrev pub taken : ℕ → Tee → Round → Option Tee
taken j t waits = none
taken j t raises = some (put_mirror j (record (t.mirrors j) { phase = failed }) t)
taken j t returns = some (put_mirror j (record (t.mirrors j) { phase = ended }) t)
taken j t (yields bytes b) =
    some
      (put_mirror j (record (t.mirrors j) { got = (t.mirrors j).got ++ bytes }) (put_branch j b t))

-- The mirror asks for the next chunk.
unfoldable pub mirror_round : ℕ → Tee → Option Tee
mirror_round j t = taken j t (next_round (t.branches j))

-- The mirror's upload ends one way or another, or the upload into the primary failed and all are aborted.
unfoldable pub drop_branch : ℕ → Tee → Tee
drop_branch j t = put_branch j (detach (t.branches j)) t
