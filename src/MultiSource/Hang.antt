-- ===== src/MultiSource/Hang.antt =====
-- tgdcfs/core/multisource.py: a piece that one store has failed, while the other store is benched, is left.
use tgdcfs.Base.{
  ◌+◌, ◌++◌, arith, subst, ℕ, ◌≡◌, refl, true, List, [], ◌∷◌, String, nat_eq, string_eq, Bool,
  subst, none, false,
}
use tgdcfs.Base.Dict
use tgdcfs.MultiSource.{
  MultiSourceRead, Piece, idle, fetching, init, Views, worker_turn, claim, claim_below, make_pieces,
  pieces_from, init_failures, start_workers, slot_workers, Bytes, done, failed, consumer_turn,
  succeeded, answered, remaining, Worker, sort_pieces, insert_piece, Turn, Consumer,
}
use tgdcfs.MultiSource.Steps.{Stores, Step, Reach, here, next, Answers}

abbrev pub two_views : Views
two_views = ("a", 1) ∷ ("b", 2) ∷ []

abbrev opening : MultiSourceRead
opening = init two_views 0 3 1 4

abbrev piece : ℕ → List String → Piece
piece i tried = record { index = i; begin = i; past = i + 1; tried = tried }

abbrev all_claimed : MultiSourceRead
all_claimed = record opening {
  pending = piece 3 [] ∷ [];
  workers = fetching "a" (piece 0 []) ∷ fetching "b" (piece 1 []) ∷ fetching "b" (piece 2 []) ∷ [];
}

-- The worker of the other store returned.
idle_of :
    (before after : List Worker) (key : String)
    → idle "a" ∷ done "b" ∷ done "b" ∷ [] ≡ before ++ (idle key ∷ after)
    → key ≡ "a"
idle_of [] after key e = ground (arith, e)
idle_of (x ∷ []) after key e = absurd (ground (arith, e))
idle_of (x ∷ y ∷ []) after key e = absurd (ground (arith, e))
idle_of (x ∷ y ∷ z ∷ []) after key e = absurd (ground (arith, e))
idle_of (x ∷ y ∷ z ∷ w ∷ before) after key e = absurd (ground (arith, e))

fetching_none :
    (before after : List Worker) (key : String) (p : Piece)
    → idle "a" ∷ done "b" ∷ done "b" ∷ [] ≡ before ++ (fetching key p ∷ after)
    → ⊥
fetching_none [] after key p e = ground (arith, e)
fetching_none (x ∷ []) after key p e = ground (arith, e)
fetching_none (x ∷ y ∷ []) after key p e = ground (arith, e)
fetching_none (x ∷ y ∷ z ∷ []) after key p e = ground (arith, e)
fetching_none (x ∷ y ∷ z ∷ w ∷ before) after key p e = ground (arith, e)

module _ (c0 c1 c2 c3 : ℕ) (more : Bytes) (fails : String → Bool) where
  abbrev pub held_by_both : Stores
  held_by_both = record { content = c0 ∷ c1 ∷ c2 ∷ c3 ∷ more; fails = fails }

  abbrev stuck : MultiSourceRead
  stuck = record opening {
    pending = piece 0 ("a" ∷ []) ∷ [];
    results = (3, c3 ∷ []) ∷ (1, c1 ∷ []) ∷ (2, c2 ∷ []) ∷ [];
    failures = ("b", 0) ∷ ("a", 0) ∷ [];
    benched = "b" ∷ [];
    workers = idle "a" ∷ done "b" ∷ done "b" ∷ [];
  }

  claimed : Reach held_by_both opening all_claimed
  unfolding init worker_turn claim claim_below make_pieces pieces_from init_failures start_workers
      slot_workers
  claimed =
      next
        (next
          (next here (
            Step.claims "a" (piece 0 []) (piece 1 [] ∷ piece 2 [] ∷ piece 3 [] ∷ []) []
              (idle "b" ∷ idle "b" ∷ []) refl refl refl refl))
          (Step.claims "b" (piece 1 []) (piece 2 [] ∷ piece 3 [] ∷ [])
            (fetching "a" (piece 0 []) ∷ []) (idle "b" ∷ []) refl refl refl refl))
        (Step.claims "b" (piece 2 []) (piece 3 [] ∷ [])
          (fetching "a" (piece 0 []) ∷ fetching "b" (piece 1 []) ∷ []) [] refl refl refl refl)

  -- A worker's failure and its next turn are not parted, as in the event loop.
  reached_stuck : fails "a" ≡ true → fails "b" ≡ true → Reach held_by_both opening stuck
  unfolding init worker_turn claim claim_below make_pieces pieces_from init_failures start_workers
      slot_workers failed succeeded answered remaining sort_pieces insert_piece Dict.insert
      Dict.lookup
  reached_stuck a b =
      next
        (next
          (next
            (next
              (next
                (next
                  (next
                    (next
                      (next
                        (next claimed (
                          Step.raises "b" (piece 1 []) (fetching "a" (piece 0 []) ∷ [])
                            (fetching "b" (piece 2 []) ∷ []) refl refl b refl))
                        (Step.claims "b" (piece 3 []) (piece 1 ("b" ∷ []) ∷ [])
                          (fetching "a" (piece 0 []) ∷ []) (fetching "b" (piece 2 []) ∷ []) refl
                          refl refl refl))
                      (Step.raises "a" (piece 0 []) []
                        (fetching "b" (piece 3 []) ∷ fetching "b" (piece 2 []) ∷ []) refl refl a
                        refl))
                    (Step.claims "a" (piece 1 ("b" ∷ [])) (piece 0 ("a" ∷ []) ∷ []) []
                      (fetching "b" (piece 3 []) ∷ fetching "b" (piece 2 []) ∷ []) refl refl refl
                      refl))
                  (Step.raises "b" (piece 2 [])
                    (fetching "a" (piece 1 ("b" ∷ [])) ∷ fetching "b" (piece 3 []) ∷ []) [] refl
                    refl b refl))
                (Step.answers "b" (piece 3 []) (c3 ∷ []) (fetching "a" (piece 1 ("b" ∷ [])) ∷ [])
                  (done "b" ∷ []) refl refl (Answers.whole refl) refl))
              (Step.stops "b" (fetching "a" (piece 1 ("b" ∷ [])) ∷ []) (done "b" ∷ []) refl refl
                refl refl))
            (Step.answers "a" (piece 1 ("b" ∷ [])) (c1 ∷ []) [] (done "b" ∷ done "b" ∷ []) refl refl
              (Answers.whole refl) refl))
          (Step.claims "a" (piece 2 ("b" ∷ [])) (piece 0 ("a" ∷ []) ∷ []) []
            (done "b" ∷ done "b" ∷ []) refl refl refl refl))
        (Step.answers "a" (piece 2 ("b" ∷ [])) (c2 ∷ []) [] (done "b" ∷ done "b" ∷ []) refl refl
          (Answers.whole refl) refl)

  nothing_moves : (s : MultiSourceRead) → Step held_by_both stuck s → ⊥
  unfolding init worker_turn claim claim_below consumer_turn Dict.lookup make_pieces pieces_from
  nothing_moves s (Step.claims key p pending before after on w e same) = cc (
      subst (λ (k : String). worker_turn k stuck ≡ Turn.take_piece p pending)
        (idle_of before after key w) e)
  nothing_moves s (Step.stops key before after on w e same) =
      cc (subst (λ (k : String). worker_turn k stuck ≡ Turn.stop) (idle_of before after key w) e)
  nothing_moves s (Step.raises key p before after on w f same) = fetching_none before after key p w
  nothing_moves s (Step.answers key p out before after on w a same) =
      fetching_none before after key p w
  nothing_moves s (Step.yields c on e same) = cc e
  nothing_moves s (Step.gives_up on e same) = cc e

-- Two stores hold four bytes, read as four pieces; one has one worker and one has two. If both may fail,
-- then, whatever the bytes, a state can be reached in which the read has neither failed nor finished and in
-- which nothing can happen any more: the consumer waits for the first piece, the store that failed it does
-- not take it again, and the other store is benched.
pub Reach-stuck :
    (c0 c1 c2 c3 : ℕ) (more : Bytes) (fails : String → Bool)
    → fails "a" ≡ true
    → fails "b" ≡ true
    → (r : MultiSourceRead) × Reach (held_by_both c0 c1 c2 c3 more fails) (init two_views 0 3 1 4) r
      × (r.fatal ≡ none)
      × (r.raised ≡ false)
      × (consumer_turn r ≡ Consumer.waits)
      × ((s : MultiSourceRead) → Step (held_by_both c0 c1 c2 c3 more fails) r s → ⊥)
unfolding init consumer_turn make_pieces pieces_from Dict.lookup
Reach-stuck c0 c1 c2 c3 more fails a b = (
  stuck c0 c1 c2 c3 more fails,
  reached_stuck c0 c1 c2 c3 more fails a b,
  refl,
  refl,
  refl,
  nothing_moves c0 c1 c2 c3 more fails,
)
