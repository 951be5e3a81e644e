-- ===== src/MultiSource.antt =====
-- tgdcfs/core/multisource.py: several stores share one download. A worker's turn, a fetch that comes back
-- and the consumer's turn each run under the condition's lock, and are a function each.
pub mod Steps
pub mod Places
pub mod Pieces
pub mod Invariant
pub mod Keeping
pub mod Reaching
pub mod Output
pub mod Hang
pub mod Good
pub mod Progress
pub mod Available
pub mod Waiting
pub mod Awake
pub mod Waking
pub mod Ending
mod Examples
pub mod Window
use tgdcfs.Base.{
  ℕ, ◌+◌, ◌-◌, ◌==◌, nat_eq, string_eq, Bool, true, false, not, ◌&&◌, ◌||◌, if◌then◌else◌, Option,
  none, some, List, [], ◌∷◌, ◌++◌, String, length, ltb, leb, contains, max, min, zero, suc,
}
use tgdcfs.Base.Dict
use tgdcfs.Base.Dict.{Dict}
use tgdcfs.Crypto.Bytes.{Bytes}

-- `BENCH_AFTER`
abbrev pub bench_after : ℕ
bench_after = 2

-- `past` is `end + 1`, as `end` may be -1.
pub record Piece : Type 0 where
  pub index : ℕ
  pub begin : ℕ
  pub past : ℕ
  pub tried : List String

-- What a worker is at: before its turn, awaiting its fetch, or returned.
pub data Worker : Type 0 where
  idle : String → Worker
  fetching : String → Piece → Worker
  done : String → Worker

-- `keys` are those of the views. `fatal` holds the piece that no store can serve, and `emitted` the
-- chunks that were yielded.
pub record MultiSourceRead : Type 0 where
  pub keys : List String
  pub pieces : List Piece
  pub window : ℕ
  pub results : Dict ℕ Bytes
  pub next_to_emit : ℕ
  pub pending : List Piece
  pub failures : Dict String ℕ
  pub benched : List String
  pub fatal : Option Piece
  pub workers : List Worker
  pub emitted : List Bytes
  pub raised : Bool

-- `enumerate(range(begin, end + 1, max(1, piece_size)))`. There are not more pieces than bytes, the fuel.
unfoldable pub pieces_from : ℕ → ℕ → ℕ → ℕ → ℕ → List Piece
pieces_from zero index begin last piece_size = []
pieces_from (suc fuel) index begin last piece_size =
    let rest = pieces_from fuel (index + 1) (begin + max 1 piece_size) last piece_size in
    if leb begin last
    then record {
      index = index;
      begin = begin;
      past = min (begin + piece_size) (last + 1);
      tried = [];
    }
      ∷ rest
    else []

unfoldable pub make_pieces : ℕ → ℕ → ℕ → List Piece
make_pieces begin last piece_size = pieces_from (last + 1 - begin) 0 begin last piece_size

unfoldable pub init_failures : List String → Dict String ℕ
init_failures [] = []
init_failures (key ∷ keys) = Dict.insert key 0 (init_failures keys)

-- The views come with their number of workers.
unfoldable pub slot_workers : ℕ → String → List Worker → List Worker
slot_workers zero key rest = rest
slot_workers (suc slots) key rest = idle key ∷ slot_workers slots key rest

abbrev pub Views : Type 0
Views = List (String × ℕ)

unfoldable pub start_workers : Views → List Worker
start_workers [] = []
start_workers ((key, slots) ∷ views) = slot_workers (max 1 slots) key (start_workers views)

abbrev pub keys_of : Views → List String
keys_of [] = []
keys_of ((key, slots) ∷ views) = key ∷ keys_of views

unfoldable pub init : Views → ℕ → ℕ → ℕ → ℕ → MultiSourceRead
init views begin last piece_size window =
    let pieces = make_pieces begin last piece_size in
    record {
      keys = keys_of views;
      pieces = pieces;
      window = max 1 window;
      results = [];
      next_to_emit = 0;
      pending = pieces;
      failures = init_failures (keys_of views);
      benched = [];
      fatal = none;
      workers = start_workers views;
      emitted = [];
      raised = false;
    }

abbrev pub keep_piece : Piece → Option (Piece × List Piece) → Option (Piece × List Piece)
keep_piece p none = none
keep_piece p (some (piece, rest)) = some (piece, p ∷ rest)

-- The first piece below the limit that the store has not tried, and the others.
unfoldable pub claim_below : ℕ → String → List Piece → Option (Piece × List Piece)
claim_below limit key [] = none
claim_below limit key (p ∷ ps) =
    let later = claim_below limit key ps in
    if leb limit p.index
    then none
    else if contains p.tried key
    then keep_piece p later
    else some (p, ps)

unfoldable pub claim : String → MultiSourceRead → Option (Piece × List Piece)
claim key r = claim_below (r.next_to_emit + r.window) key r.pending

pub data Turn : Type 0 where
  stop : Turn
  take_piece : Piece → List Piece → Turn
  wait : Turn

abbrev pub is_some {ℓ} : {A : Type ℓ} → Option A → Bool
is_some none = false
is_some (some a) = true

abbrev pub null {ℓ} : {A : Type ℓ} → List A → Bool
null [] = true
null (x ∷ xs) = false

-- `any(p.index >= next_to_emit for p in self._pieces)`
abbrev pub any_left : ℕ → List Piece → Bool
any_left next [] = false
any_left next (p ∷ ps) = leb next p.index || any_left next ps

-- `_worker`, from one wait to the next.
unfoldable pub worker_turn : String → MultiSourceRead → Turn
worker_turn key r =
    if is_some r.fatal || leb (length r.pieces) r.next_to_emit
    then stop
    else if contains r.benched key
    then stop
    else elim (claim key r) [
      | some (piece, pending) ↦ take_piece piece pending
      | none ↦ if null r.pending && not (any_left r.next_to_emit r.pieces) then stop else wait
    ]

-- `set.add`
abbrev pub add_key : String → List String → List String
add_key key keys = if contains keys key then keys else keys ++ (key ∷ [])

-- `pending.sort(key=index)`, which is stable.
unfoldable pub insert_piece : Piece → List Piece → List Piece
insert_piece p [] = p ∷ []
insert_piece p (q ∷ qs) =
    let rest = insert_piece p qs in if leb p.index q.index then p ∷ (q ∷ qs) else q ∷ rest

unfoldable pub sort_pieces : List Piece → List Piece
sort_pieces [] = []
sort_pieces (p ∷ ps) = insert_piece p (sort_pieces ps)

-- The stores that may still take the piece.
unfoldable pub remaining : List String → List String → List String → List String
remaining tried benched [] = []
remaining tried benched (key ∷ keys) =
    let rest = remaining tried benched keys in
    if not (contains tried key) && not (contains benched key) then key ∷ rest else rest

abbrev pub or_zero : Option ℕ → ℕ
or_zero none = 0
or_zero (some n) = n

-- The handler of an exception of `_fetch`, for a worker between `before` and `after`.
unfoldable pub failed :
    String → Piece → List Worker → List Worker → MultiSourceRead → MultiSourceRead
failed key piece before after r =
    let piece' : Piece = record piece { tried = add_key key piece.tried } in
    let count = or_zero (Dict.lookup key r.failures) + 1 in
    let benched = if leb bench_after count then add_key key r.benched else r.benched in
    let worker = if contains benched key then done key else idle key in
    let nobody = null (remaining piece'.tried benched r.keys) in
    record r {
      failures = Dict.insert key count r.failures;
      benched = benched;
      fatal = if nobody then some piece' else r.fatal;
      pending = if nobody then r.pending else sort_pieces (r.pending ++ (piece' ∷ []));
      workers = before ++ (worker ∷ after);
    }

unfoldable pub succeeded :
    String → Piece → Bytes → List Worker → List Worker → MultiSourceRead → MultiSourceRead
succeeded key piece content before after r = record r {
  failures = Dict.insert key 0 r.failures;
  results = Dict.insert piece.index content r.results;
  workers = before ++ (idle key ∷ after);
}

-- `_fetch` raises on an answer of another length. It raises for a piece without bytes too, whose range the mapper
-- refuses, or, where the range ends at -1, takes to the end of the version.
abbrev pub is_whole : Piece → Bytes → Bool
is_whole piece out = ltb piece.begin piece.past && length out == piece.past - piece.begin

unfoldable pub answered :
    String → Piece → Bytes → List Worker → List Worker → MultiSourceRead → MultiSourceRead
answered key piece out before after r =
    if is_whole piece out
    then succeeded key piece out before after r
    else failed key piece before after r

pub data Consumer : Type 0 where
  finished : Consumer
  yields : Bytes → Consumer
  raises : Consumer
  waits : Consumer

abbrev pub all_done : List Worker → Bool
all_done [] = true
all_done (idle key ∷ ws) = false
all_done (fetching key piece ∷ ws) = false
all_done (done key ∷ ws) = all_done ws

-- `stream`, from one wait to the next.
unfoldable pub consumer_turn : MultiSourceRead → Consumer
consumer_turn r =
    if leb (length r.pieces) r.next_to_emit
    then finished
    else if is_some r.fatal
    then raises
    else elim (Dict.lookup r.next_to_emit r.results) [
      | some content ↦ yields content
      | none ↦ if all_done r.workers && null r.results then raises else waits
    ]

unfoldable pub emit : Bytes → MultiSourceRead → MultiSourceRead
emit content r = record r {
  results = Dict.erase r.next_to_emit r.results;
  next_to_emit = r.next_to_emit + 1;
  emitted = r.emitted ++ (content ∷ []);
}
