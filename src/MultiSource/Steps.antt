-- ===== src/MultiSource/Steps.antt =====
-- tgdcfs/core/multisource.py: the interleavings of the workers and the consumer, with stores that may raise
-- or answer short.
use tgdcfs.Base.{ℕ, Bool, true, false, ◌-◌, ◌≡◌, List, ◌∷◌, ◌++◌, String, take, drop, ◌≤◌}
use tgdcfs.Crypto.Bytes.{Bytes}
use tgdcfs.MultiSource.{
  MultiSourceRead, Piece, Worker, idle, fetching, done, Turn, Consumer, worker_turn, consumer_turn,
  failed, answered, emit,
}

-- The bytes that every store holds, and the stores that may fail.
pub record Stores : Type 0 where
  pub content : Bytes
  pub fails : String → Bool

-- What a store may answer to a request for a piece: its beginning, and all of it if the store never fails.
pub data Answers (stores : Stores) (key : String) (piece : Piece) (out : Bytes) : Type 0 where
  whole :
      out ≡ take (piece.past - piece.begin) (drop piece.begin stores.content)
      → Answers stores key piece out
  short :
      (n : ℕ)
      → stores.fails key ≡ true
      → n ≤ piece.past - piece.begin
      → out ≡ take n (drop piece.begin stores.content)
      → Answers stores key piece out

-- Between two awaits one worker or the consumer takes a step. A read that raised takes none. Here a task that
-- could go on may do so whenever it could; who sleeps, and who is notified, is added in Waiting.
pub data Step (stores : Stores) (r s : MultiSourceRead) : Type 0 where
  claims :
      (key : String) (piece : Piece) (pending : List Piece) (before after : List Worker)
      → r.raised ≡ false
      → r.workers ≡ before ++ (idle key ∷ after)
      → worker_turn key r ≡ Turn.take_piece piece pending
      → s ≡ record r { pending = pending; workers = before ++ (fetching key piece ∷ after) }
      → Step stores r s
  stops :
      (key : String) (before after : List Worker)
      → r.raised ≡ false
      → r.workers ≡ before ++ (idle key ∷ after)
      → worker_turn key r ≡ Turn.stop
      → s ≡ record r { workers = before ++ (done key ∷ after) }
      → Step stores r s
  raises :
      (key : String) (piece : Piece) (before after : List Worker)
      → r.raised ≡ false
      → r.workers ≡ before ++ (fetching key piece ∷ after)
      → stores.fails key ≡ true
      → s ≡ failed key piece before after r
      → Step stores r s
  answers :
      (key : String) (piece : Piece) (out : Bytes) (before after : List Worker)
      → r.raised ≡ false
      → r.workers ≡ before ++ (fetching key piece ∷ after)
      → Answers stores key piece out
      → s ≡ answered key piece out before after r
      → Step stores r s
  yields :
      (content : Bytes)
      → r.raised ≡ false
      → consumer_turn r ≡ Consumer.yields content
      → s ≡ emit content r
      → Step stores r s
  gives_up :
      r.raised ≡ false
      → consumer_turn r ≡ Consumer.raises
      → s ≡ record r { raised = true }
      → Step stores r s

pub data Reach (stores : Stores) (r : MultiSourceRead) : MultiSourceRead → Type 0 where
  here : Reach stores r r
  next : {s t : MultiSourceRead} → Reach stores r s → Step stores s t → Reach stores r t
