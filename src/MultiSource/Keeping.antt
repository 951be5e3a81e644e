-- ===== src/MultiSource/Keeping.antt =====
-- tgdcfs/core/multisource.py: each step of a worker or of the consumer keeps every piece in one place.
use tgdcfs.Base.{
  suc, zero, ◌<◌, ℕ, ◌+◌, ◌-◌, ◌≡◌, ◌∙◌, sym, ap, subst, Bool, true, if◌then◌else◌, some, List, [],
  ◌∷◌, ◌++◌, leb, nat_eq, string_eq, arith, All, Bool-cases, inl, inr, length, take, drop,
  get_elem?, String, contains, length-take, All-map,
}
use tgdcfs.Base.Dict
use tgdcfs.Base.Dict.{Dict}
use tgdcfs.Crypto.Bytes.{Bytes}
use tgdcfs.MultiSource.{
  is_whole, MultiSourceRead, Piece, Worker, idle, fetching, done, Turn, Consumer, worker_turn,
  consumer_turn, failed, succeeded, emit, remaining, sort_pieces, null, add_key, or_zero,
  bench_after,
}
use tgdcfs.MultiSource.Steps.{Stores, Answers}
use tgdcfs.MultiSource.Places.{
  count_pieces, count_workers, count_keys, InFlight, count_pieces-append, count_workers-append,
  count-sort_pieces, count_keys-append, count_keys-erase, absent, found, All-append, All-split,
  All-replace, All-erase, All-sort_pieces, All-merge, claim-Claimed,
}
use tgdcfs.MultiSource.Pieces.{slice, slices, Held}
use tgdcfs.MultiSource.Invariant.{
  IsSound, Inside, Fetched, turn-claim, one_self, free-count, free-InFlight, due-le, slices-take,
  slice-eq, turn-yields, wider,
}

All-take_next :
    (P : Piece → Type 0) (n : ℕ) (ps : List Piece) (p : Piece)
    → get_elem? ps n ≡ some p
    → P p
    → All P (take n ps)
    → All P (take (n + 1) ps)
All-take_next P n [] p e q h = cc
All-take_next P zero (x ∷ ps) p e q h =
    let same : x ≡ p = ground arith in (subst P (sym same) q, tt)
All-take_next P (suc n) (x ∷ ps) p e q (a, h) =
    let up : suc n + 1 ≡ suc (n + 1) = omega arith in rw up (a, All-take_next P n ps p e q h)

module _ (content : Bytes) where
  pub claims-IsSound :
      (r : MultiSourceRead) (key : String) (piece : Piece) (pending : List Piece)
      (before after : List Worker)
      → r.workers ≡ before ++ (idle key ∷ after)
      → worker_turn key r ≡ Turn.take_piece piece pending
      → IsSound content r
      → IsSound content
          (record r { pending = pending; workers = before ++ (fetching key piece ∷ after) })
  claims-IsSound r key piece pending before after w e h =
      let c =
        claim-Claimed (r.next_to_emit + r.window) key r.pending piece pending
          (turn-claim key r piece pending e) in
      let ps : All (Held r.pieces) (c.before ++ (piece ∷ c.after)) =
        subst (All (Held r.pieces)) c.stood h.waiting in
      let split = All-split (Held r.pieces) c.before piece c.after ps in
      record {
        counted = λ i. omega (
          arith,
          h.counted i,
          ap (count_pieces i) c.stood,
          ap (count_pieces i) c.left,
          ap (count_workers i) w,
          count_pieces-append i c.before (piece ∷ c.after),
          count_pieces-append i c.before c.after,
          count_workers-append i before (idle key ∷ after),
          count_workers-append i before (fetching key piece ∷ after),
        );
        complete = λ alive i. omega (
          arith,
          h.complete alive i,
          ap (count_pieces i) c.stood,
          ap (count_pieces i) c.left,
          ap (count_workers i) w,
          count_pieces-append i c.before (piece ∷ c.after),
          count_pieces-append i c.before c.after,
          count_workers-append i before (idle key ∷ after),
          count_workers-append i before (fetching key piece ∷ after),
        );
        waiting =
            subst (All (Held r.pieces)) (sym c.left)
              (All-merge (Held r.pieces) c.before piece c.after ps);
        flying =
            All-replace (InFlight (Inside (r.next_to_emit + r.window) r.pieces)) before (idle key)
              (fetching key piece) after (subst (All _) w h.flying) (c.inside, split.1);
        fetched = h.fetched;
        emitted = h.emitted;
        solid = h.solid;
        within = h.within;
      }

  -- A worker that holds no piece ends or goes on.
  pub rests-IsSound :
      (r : MultiSourceRead) (key : String) (before after : List Worker)
      → r.workers ≡ before ++ (idle key ∷ after)
      → IsSound content r
      → IsSound content (record r { workers = before ++ (done key ∷ after) })
  rests-IsSound r key before after w h = record {
    counted = λ i. omega (
      arith,
      h.counted i,
      ap (count_workers i) w,
      count_workers-append i before (idle key ∷ after),
      count_workers-append i before (done key ∷ after),
    );
    complete = λ alive i. omega (
      arith,
      h.complete alive i,
      ap (count_workers i) w,
      count_workers-append i before (idle key ∷ after),
      count_workers-append i before (done key ∷ after),
    );
    waiting = h.waiting;
    flying =
        All-replace (InFlight (Inside (r.next_to_emit + r.window) r.pieces)) before (idle key)
          (done key) after (subst (All _) w h.flying) tt;
    fetched = h.fetched;
    emitted = h.emitted;
    solid = h.solid;
    within = h.within;
  }

  -- After a failure the worker returns or goes on, without a piece.
  lost-IsSound :
      (r : MultiSourceRead) (key : String) (piece piece' : Piece) (failures : Dict String ℕ)
      (benched : List String) (ended : Bool) (before after : List Worker)
      → r.workers ≡ before ++ (fetching key piece ∷ after)
      → IsSound content r
      → IsSound content (record r {
        failures = failures;
        benched = benched;
        fatal = some piece';
        workers = before ++ ((if ended then done key else idle key) ∷ after);
      })
  lost-IsSound r key piece piece' failures benched ended before after w h =
      let split =
        All-split (InFlight (Inside (r.next_to_emit + r.window) r.pieces)) before
          (fetching key piece) after (subst (All _) w h.flying) in
      record {
        counted = λ i. omega (
          arith,
          h.counted i,
          ap (count_workers i) w,
          free-count i ended key after,
          count_workers-append i before (fetching key piece ∷ after),
          count_workers-append i before ((if ended then done key else idle key) ∷ after),
        );
        complete = λ dead. cc;
        waiting = h.waiting;
        flying =
            All-append _ before ((if ended then done key else idle key) ∷ after) split.0
              (free-InFlight _ ended key, split.2);
        fetched = h.fetched;
        emitted = h.emitted;
        solid = h.solid;
        within = h.within;
      }

  requeued-IsSound :
      (r : MultiSourceRead) (key : String) (piece : Piece) (tried : List String)
      (failures : Dict String ℕ) (benched : List String) (ended : Bool) (before after : List Worker)
      → r.workers ≡ before ++ (fetching key piece ∷ after)
      → IsSound content r
      → IsSound content (record r {
        failures = failures;
        benched = benched;
        pending = sort_pieces (r.pending ++ (record piece { tried = tried } ∷ []));
        workers = before ++ ((if ended then done key else idle key) ∷ after);
      })
  requeued-IsSound r key piece tried failures benched ended before after w h =
      let piece' : Piece = record piece { tried = tried } in
      let split =
        All-split (InFlight (Inside (r.next_to_emit + r.window) r.pieces)) before
          (fetching key piece) after (subst (All _) w h.flying) in
      record {
        counted = λ i. omega (
          arith,
          h.counted i,
          ap (count_workers i) w,
          free-count i ended key after,
          count-sort_pieces i (r.pending ++ (piece' ∷ [])),
          count_pieces-append i r.pending (piece' ∷ []),
          count_workers-append i before (fetching key piece ∷ after),
          count_workers-append i before ((if ended then done key else idle key) ∷ after),
        );
        complete = λ alive i. omega (
          arith,
          h.complete alive i,
          ap (count_workers i) w,
          free-count i ended key after,
          count-sort_pieces i (r.pending ++ (piece' ∷ [])),
          count_pieces-append i r.pending (piece' ∷ []),
          count_workers-append i before (fetching key piece ∷ after),
          count_workers-append i before ((if ended then done key else idle key) ∷ after),
        );
        waiting =
            All-sort_pieces _ (r.pending ++ (piece' ∷ []))
              (All-append _ r.pending (piece' ∷ []) h.waiting ((split.1).1, tt));
        flying =
            All-append _ before ((if ended then done key else idle key) ∷ after) split.0
              (free-InFlight _ ended key, split.2);
        fetched = h.fetched;
        emitted = h.emitted;
        solid = h.solid;
        within = h.within;
      }

  pub failed-IsSound :
      (r : MultiSourceRead) (key : String) (piece : Piece) (before after : List Worker)
      → r.workers ≡ before ++ (fetching key piece ∷ after)
      → IsSound content r
      → IsSound content (failed key piece before after r)
  unfolding failed
  failed-IsSound r key piece before after w h =
      let tried = add_key key piece.tried in
      let count = or_zero (Dict.lookup key r.failures) + 1 in
      let benched = if leb bench_after count then add_key key r.benched else r.benched in
      elim (Bool-cases (null (remaining tried benched r.keys))) [
        | inl nobody ↦ rw nobody (
            lost-IsSound r key piece (record piece { tried = tried })
              (Dict.insert key count r.failures) benched (contains benched key) before after w h)
        | inr somebody ↦ rw somebody (
            requeued-IsSound r key piece tried (Dict.insert key count r.failures) benched
              (contains benched key) before after w h)
      ]

  pub succeeded-IsSound :
      (r : MultiSourceRead) (key : String) (piece : Piece) (out : Bytes)
      (before after : List Worker)
      → r.workers ≡ before ++ (fetching key piece ∷ after)
      → out ≡ slice content piece
      → piece.begin < piece.past
      → IsSound content r
      → IsSound content (succeeded key piece out before after r)
  unfolding succeeded
  succeeded-IsSound r key piece out before after w full bytes_in h =
      let split =
        All-split (InFlight (Inside (r.next_to_emit + r.window) r.pieces)) before
          (fetching key piece) after (subst (All _) w h.flying) in
      let fresh : Dict.insert piece.index out r.results ≡ r.results ++ ((piece.index, out) ∷ []) =
        Dict.insert-fresh piece.index out r.results (
          absent piece.index r.results (
            omega (
              arith,
              h.counted piece.index,
              due-le piece.index r,
              ap (count_workers piece.index) w,
              count_workers-append piece.index before (fetching key piece ∷ after),
              one_self piece.index,
            ))) in
      let bytes : (p : Piece) × (get_elem? r.pieces piece.index ≡ some p)
          × (out ≡ slice content p)
          × (p.begin < p.past) =
        (
          ((split.1).1).0,
          ((split.1).1).1,
          full ∙ slice-eq content piece (((split.1).1).0) (((split.1).1).2) (((split.1).1).3),
          omega (arith, bytes_in, ((split.1).1).2, ((split.1).1).3),
        ) in
      record {
        counted = λ i. omega (
          arith,
          h.counted i,
          ap (count_workers i) w,
          ap (count_keys i) fresh,
          count_keys-append i r.results ((piece.index, out) ∷ []),
          count_workers-append i before (fetching key piece ∷ after),
          count_workers-append i before (idle key ∷ after),
        );
        complete = λ alive i. omega (
          arith,
          h.complete alive i,
          ap (count_workers i) w,
          ap (count_keys i) fresh,
          count_keys-append i r.results ((piece.index, out) ∷ []),
          count_workers-append i before (fetching key piece ∷ after),
          count_workers-append i before (idle key ∷ after),
        );
        waiting = h.waiting;
        flying = All-append _ before (idle key ∷ after) split.0 (tt, split.2);
        fetched =
            subst (All (Fetched content (r.next_to_emit + r.window) r.pieces)) (sym fresh) (
              All-append _ r.results ((piece.index, out) ∷ []) h.fetched
                (((split.1).0, bytes), tt));
        emitted = h.emitted;
        solid = h.solid;
        within = h.within;
      }

  pub yields-IsSound :
      (r : MultiSourceRead) (b : Bytes)
      → consumer_turn r ≡ Consumer.yields b
      → IsSound content r
      → IsSound content (emit b r)
  unfolding emit
  yields-IsSound r b e h =
      let t = turn-yields r b e in
      let f =
        found (λ i c. Fetched content (r.next_to_emit + r.window) r.pieces (i, c)) r.next_to_emit b
          r.results t.0 h.fetched in
      record {
        counted =
            λ i. ground (arith, h.counted i, count_keys-erase i r.next_to_emit r.results, f.1);
        complete = λ alive i.
            ground
              (arith, h.complete alive i, h.counted i, count_keys-erase i r.next_to_emit r.results);
        waiting = h.waiting;
        flying = All-map _ _ (wider r.next_to_emit r.window r.pieces) r.workers h.flying;
        fetched =
            All-map (Fetched content (r.next_to_emit + r.window) r.pieces)
              (Fetched content (r.next_to_emit + 1 + r.window) r.pieces)
              (λ e g. (omega (arith, g.0), g.1)) (Dict.erase r.next_to_emit r.results)
              (All-erase _ r.next_to_emit r.results h.fetched);
        emitted =
            ap (λ (bs : List Bytes). bs ++ (b ∷ [])) h.emitted
            ∙ ap (λ (c : Bytes). slices content (take r.next_to_emit r.pieces) ++ (c ∷ [])) f.0.1.2
            ∙ sym (slices-take content r.next_to_emit r.pieces f.0.1.0 f.0.1.1);
        solid = All-take_next _ r.next_to_emit r.pieces f.0.1.0 f.0.1.1 f.0.1.3 h.solid;
        within = omega (arith, t.1);
      }

  pub whole-bytes :
      (piece : Piece) (out : Bytes) → is_whole piece out ≡ true → piece.begin < piece.past
  whole-bytes piece out e = ground (arith, e)

  -- An answer that has the length of the piece is the piece.
  pub Answers-full :
      (stores : Stores) (key : String) (piece : Piece) (out : Bytes)
      → Answers stores key piece out
      → is_whole piece out ≡ true
      → out ≡ slice stores.content piece
  Answers-full stores key piece out (Answers.whole e) full = e
  Answers-full stores key piece out (Answers.short n f le e) full =
      let all : n ≡ piece.past - piece.begin = ground (
        arith,
        full,
        ap (λ (b : Bytes). length b) e,
        length-take n (drop piece.begin stores.content),
      ) in
      e ∙ ap (λ (k : ℕ). take k (drop piece.begin stores.content)) all
