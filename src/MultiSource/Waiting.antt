-- ===== src/MultiSource/Waiting.antt =====
-- tgdcfs/core/multisource.py: who sleeps on the `asyncio.Condition` of a read, and who is woken.
use tgdcfs.Base.{
  ℕ, ◌==◌, nat_eq, string_eq, Bool, true, false, if◌then◌else◌, ◌≡◌, List, ◌∷◌, ◌++◌, String,
  length,
}
use tgdcfs.Crypto.Bytes.{Bytes}
use tgdcfs.MultiSource.{
  MultiSourceRead, Piece, Worker, idle, fetching, done, Turn, Consumer, Views, worker_turn,
  consumer_turn, failed, answered, emit, init,
}
use tgdcfs.MultiSource.Steps.{Stores, Answers}

-- A read, the workers that sleep, by their place in the list, and whether the consumer sleeps.
pub record Tasks : Type 0 where
  pub read : MultiSourceRead
  pub worker_asleep : ℕ → Bool
  pub consumer_asleep : Bool

unfoldable pub start : Views → ℕ → ℕ → ℕ → ℕ → Tasks
start views begin last piece_size window = record {
  read = init views begin last piece_size window;
  worker_asleep = λ (i : ℕ). false;
  consumer_asleep = false;
}

-- `self._changed.notify_all()`
unfoldable pub notify_all : Tasks → Tasks
notify_all w = record w { worker_asleep = λ (i : ℕ). false; consumer_asleep = false }

-- `await self._changed.wait()` of a worker and of the consumer
unfoldable pub worker_waits : ℕ → Tasks → Tasks
worker_waits at w = record w {
  worker_asleep = λ (i : ℕ). if at == i then true else w.worker_asleep i;
}

unfoldable pub consumer_waits : Tasks → Tasks
consumer_waits w = record w { consumer_asleep = true }

-- What a worker does once its fetch raised, or gave some bytes, and what the consumer does with the next result.
unfoldable pub fail_turn : String → Piece → List Worker → List Worker → Tasks → Tasks
fail_turn key piece before after w =
    notify_all (record w { read = failed key piece before after w.read })

unfoldable pub answer_turn : String → Piece → Bytes → List Worker → List Worker → Tasks → Tasks
answer_turn key piece out before after w =
    notify_all (record w { read = answered key piece out before after w.read })

unfoldable pub emit_turn : Bytes → Tasks → Tasks
emit_turn content w = notify_all (record w { read = emit content w.read })

-- The steps of `Steps`, of tasks that are not asleep, and those that put a task to sleep.
pub data Acts (stores : Stores) (w v : Tasks) : Type 0 where
  claims :
      (key : String) (piece : Piece) (pending : List Piece) (before after : List Worker)
      → w.read.raised ≡ false
      → w.read.workers ≡ before ++ (idle key ∷ after)
      → w.worker_asleep (length before) ≡ false
      → worker_turn key w.read ≡ Turn.take_piece piece pending
      → v ≡ record w {
        read = record w.read {
          pending = pending;
          workers = before ++ (fetching key piece ∷ after);
        };
      }
      → Acts stores w v
  stops :
      (key : String) (before after : List Worker)
      → w.read.raised ≡ false
      → w.read.workers ≡ before ++ (idle key ∷ after)
      → w.worker_asleep (length before) ≡ false
      → worker_turn key w.read ≡ Turn.stop
      → v ≡ record w { read = record w.read { workers = before ++ (done key ∷ after) } }
      → Acts stores w v
  sleeps :
      (key : String) (before after : List Worker)
      → w.read.raised ≡ false
      → w.read.workers ≡ before ++ (idle key ∷ after)
      → w.worker_asleep (length before) ≡ false
      → worker_turn key w.read ≡ Turn.wait
      → v ≡ worker_waits (length before) w
      → Acts stores w v
  raises :
      (key : String) (piece : Piece) (before after : List Worker)
      → w.read.raised ≡ false
      → w.read.workers ≡ before ++ (fetching key piece ∷ after)
      → stores.fails key ≡ true
      → v ≡ fail_turn key piece before after w
      → Acts stores w v
  answers :
      (key : String) (piece : Piece) (out : Bytes) (before after : List Worker)
      → w.read.raised ≡ false
      → w.read.workers ≡ before ++ (fetching key piece ∷ after)
      → Answers stores key piece out
      → v ≡ answer_turn key piece out before after w
      → Acts stores w v
  yields :
      (content : Bytes)
      → w.read.raised ≡ false
      → w.consumer_asleep ≡ false
      → consumer_turn w.read ≡ Consumer.yields content
      → v ≡ emit_turn content w
      → Acts stores w v
  gives_up :
      w.read.raised ≡ false
      → w.consumer_asleep ≡ false
      → consumer_turn w.read ≡ Consumer.raises
      → v ≡ record w { read = record w.read { raised = true } }
      → Acts stores w v
  rests :
      w.read.raised ≡ false
      → w.consumer_asleep ≡ false
      → consumer_turn w.read ≡ Consumer.waits
      → v ≡ consumer_waits w
      → Acts stores w v

pub data Runs (stores : Stores) (w : Tasks) : Tasks → Type 0 where
  none_yet : Runs stores w w
  then_acts : {v u : Tasks} → Runs stores w v → Acts stores v u → Runs stores w u
