-- ===== src/Tee/Steps.antt =====
-- tgdcfs/core/tee.py: the interleavings of the upload into the primary store and those into the mirrors.
use tgdcfs.Base.{ℕ, ◌<◌, ◌≡◌, some, take, drop}
use tgdcfs.Crypto.Bytes.{Bytes}
use tgdcfs.Tee.{Tee, Producer, Phase, read, producer_round, mirror_round, drop_branch}

-- `content` is what the message below holds; a read gives any number of its next bytes, `collect` follows the
-- last read, and a branch may be dropped at any time. Here a task that could go on may do so whenever it
-- could; who sleeps on the condition of a branch, and who is notified, is added in Waiting.
pub data Step (content : Bytes) (t s : Tee) : Type 0 where
  reads :
      (k : ℕ)
      → t.producer ≡ Producer.idle
      → s ≡ read (take k (drop t.fed content)) t
      → Step content t s
  goes_on : producer_round t ≡ some s → Step content t s
  collects :
      t.producer ≡ Producer.idle → s ≡ record t { producer = Producer.closing 0 } → Step content t s
  takes :
      (j : ℕ)
      → j < t.count
      → (t.mirrors j).phase ≡ Phase.running
      → mirror_round j t ≡ some s
      → Step content t s
  drops : (j : ℕ) → s ≡ drop_branch j t → Step content t s

pub data Reach (content : Bytes) (t : Tee) : Tee → Type 0 where
  here : Reach content t t
  next : {s u : Tee} → Reach content t s → Step content s u → Reach content t u
