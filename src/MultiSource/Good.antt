-- ===== src/MultiSource/Good.antt =====
-- tgdcfs/core/multisource.py: the state of a read with a store that never fails.
use tgdcfs.Base.{
  ℕ, suc, ◌+◌, ◌≤◌, ◌<◌, ◌≡◌, ◌≢◌, ◌⊎◌, refl, sym, subst, Bool, true, false, not, ◌&&◌, ◌||◌,
  if◌then◌else◌, none, List, [], ◌∷◌, ◌++◌, leb, ◌==◌, nat_eq, string_eq, arith, All, Bool-cases,
  inl, inr, length, String, if_both, contains,
}
use tgdcfs.Base.Dict
use tgdcfs.Base.Dict.{Dict}
use tgdcfs.Crypto.Bytes.{Bytes}
use tgdcfs.MultiSource.{
  MultiSourceRead, Piece, Worker, idle, fetching, done, Turn, Consumer, worker_turn, consumer_turn,
  failed, succeeded, emit, remaining, sort_pieces, insert_piece, null, add_key, or_zero,
  bench_after, any_left, all_done,
}
use tgdcfs.MultiSource.Places.{
  InFlight, All-append, All-split, All-replace, All-merge, All-sort_pieces, claim-Claimed,
}
use tgdcfs.MultiSource.Pieces.{Numbered}
use tgdcfs.MultiSource.Invariant.{turn-claim}

abbrev pub Sorted : List Piece → Type 0
Sorted [] = Unit
Sorted (p ∷ ps) = All (λ (q : Piece). p.index ≤ q.index) ps × Sorted ps

insert-Sorted-above :
    (n : ℕ) (p : Piece) (ps : List Piece)
    → n ≤ p.index
    → All (λ (q : Piece). n ≤ q.index) ps
    → All (λ (q : Piece). n ≤ q.index) (insert_piece p ps)
unfolding insert_piece
insert-Sorted-above n p [] h k = (h, tt)
insert-Sorted-above n p (q ∷ qs) h (g, k) = elim (Bool-cases (leb p.index q.index)) [
  | inl le ↦ rw le (h, (g, k))
  | inr gt ↦ rw gt (g, insert-Sorted-above n p qs h k)
]

weaken_all :
    (m n : ℕ) (ps : List Piece)
    → m ≤ n
    → All (λ (q : Piece). n ≤ q.index) ps
    → All (λ (q : Piece). m ≤ q.index) ps
weaken_all m n [] le h = tt
weaken_all m n (p ∷ ps) le (a, h) = (omega (arith, a, le), weaken_all m n ps le h)

insert-Sorted : (p : Piece) (ps : List Piece) → Sorted ps → Sorted (insert_piece p ps)
unfolding insert_piece
insert-Sorted p [] h = (tt, tt)
insert-Sorted p (q ∷ qs) (a, h) = elim (Bool-cases (leb p.index q.index)) [
  | inl le ↦
      let small : p.index ≤ q.index = ground arith in
      rw le ((small, weaken_all p.index q.index qs small a), (a, h))
  | inr gt ↦ rw gt (insert-Sorted-above q.index p qs (ground arith) a, insert-Sorted p qs h)
]

sort-Sorted : (ps : List Piece) → Sorted (sort_pieces ps)
unfolding sort_pieces
sort-Sorted [] = tt
sort-Sorted (p ∷ ps) = insert-Sorted p (sort_pieces ps) (sort-Sorted ps)

merge-Sorted :
    (xs : List Piece) (y : Piece) (ys : List Piece) → Sorted (xs ++ (y ∷ ys)) → Sorted (xs ++ ys)
merge-Sorted [] y ys (a, h) = h
merge-Sorted (x ∷ xs) y ys (a, h) = (All-merge _ xs y ys a, merge-Sorted xs y ys h)

pub Numbered-Sorted :
    (k : ℕ) (ps : List Piece) → Numbered k ps → All (λ (q : Piece). k ≤ q.index) ps × Sorted ps
Numbered-Sorted k [] h = (tt, tt)
Numbered-Sorted k (p ∷ ps) (e, h) =
    let r = Numbered-Sorted (suc k) ps h in
    (
      (omega (arith, e), weaken_all k (suc k) ps (omega arith) r.0),
      (weaken_all p.index (suc k) ps (omega (arith, e)) r.0, r.1),
    )

any_left-Numbered :
    (k n : ℕ) (ps : List Piece)
    → Numbered k ps
    → n < k + length ps
    → 0 < length ps
    → any_left n ps ≡ true
any_left-Numbered k n [] h lt some_left = absurd (omega arith)
any_left-Numbered k n (p ∷ []) (e, h) lt some_left = ground arith
any_left-Numbered k n (p ∷ (q ∷ ps)) (e, h) lt some_left =
    ground (arith, any_left-Numbered (suc k) n (q ∷ ps) h (omega arith) (omega arith))

-- A worker of the store that has not returned.
abbrev pub Works : String → List Worker → Type 0
Works v [] = ⊥
Works v (idle key ∷ ws) = (key ≡ v) ⊎ Works v ws
Works v (fetching key p ∷ ws) = (key ≡ v) ⊎ Works v ws
Works v (done key ∷ ws) = Works v ws

-- The store has tried nothing, and is not benched.
pub record IsGood (v : String) (r : MultiSourceRead) : Type 0 where
  pub known : contains r.keys v ≡ true
  pub numbered : Numbered 0 r.pieces
  pub sorted : Sorted r.pending
  pub untried : All (λ (p : Piece). contains p.tried v ≡ false) r.pending
  pub in_flight : All (InFlight (λ (p : Piece). contains p.tried v ≡ false)) r.workers
  pub unbenched : contains r.benched v ≡ false
  pub alive : r.fatal ≡ none
  pub running : r.raised ≡ false
  pub works : Works v r.workers ⊎ (length r.pieces ≤ r.next_to_emit)

pub other_key : (key v : String) → key ≢ v → (v == key) ≡ false
other_key key v h = elim (Bool-cases (v == key)) [
  | inl same ↦ absurd (h (sym ((string_eq.eqb_iff v key).0 same)))
  | inr other ↦ other
]

contains-append :
    (xs ys : List String) (v : String) → contains (xs ++ ys) v ≡ (contains xs v || contains ys v)
contains-append [] ys v = refl
contains-append (x ∷ xs) ys v = ground (arith, contains-append xs ys v)

contains-add_key :
    (key v : String) (keys : List String)
    → key ≢ v
    → contains keys v ≡ false
    → contains (add_key key keys) v ≡ false
contains-add_key key v keys other h =
    if_both (λ (ks : List String). contains ks v ≡ false) (contains keys key) _ _ (λ there. h)
      (λ fresh. ground (arith, h, contains-append keys (key ∷ []) v, other_key key v other))

remaining-some :
    (v : String) (tried benched keys : List String)
    → contains tried v ≡ false
    → contains benched v ≡ false
    → contains keys v ≡ true
    → null (remaining tried benched keys) ≡ false
unfolding remaining
remaining-some v tried benched [] t b k = cc
remaining-some v tried benched (key ∷ keys) t b k = elim (Bool-cases (v == key)) [
  | inl same ↦
      let is : v ≡ key = (string_eq.eqb_iff v key).0 same in
      let t' : contains tried key ≡ false = subst (λ (u : String). contains tried u ≡ false) is t in
      let b' : contains benched key ≡ false =
        subst (λ (u : String). contains benched u ≡ false) is b in
      rw (t', b') refl
  | inr other ↦
      if_both (λ (ks : List String). null ks ≡ false)
        (not (contains tried key) && not (contains benched key)) _ _ (λ takes. refl)
        (λ passes. remaining-some v tried benched keys t b (ground (arith, k, other)))
]

Works-other :
    (v key : String) (x : Worker) (before after : List Worker) (y : Worker)
    → ((ws : List Worker) → Works v (x ∷ ws) → Works v (y ∷ ws))
    → Works v (before ++ (x ∷ after))
    → Works v (before ++ (y ∷ after))
Works-other v key x [] after y f h = f after h
Works-other v key x (idle k ∷ before) after y f (inl h) = inl h
Works-other v key x (idle k ∷ before) after y f (inr h) =
    inr (Works-other v key x before after y f h)
Works-other v key x (fetching k p ∷ before) after y f (inl h) = inl h
Works-other v key x (fetching k p ∷ before) after y f (inr h) =
    inr (Works-other v key x before after y f h)
Works-other v key x (done k ∷ before) after y f h = Works-other v key x before after y f h

not-all_done : (v : String) (ws : List Worker) → Works v ws → all_done ws ≡ false
not-all_done v [] h = absurd h
not-all_done v (idle k ∷ ws) h = refl
not-all_done v (fetching k p ∷ ws) h = refl
not-all_done v (done k ∷ ws) h = not-all_done v ws h

-- A worker whose turn it is to stop has a reason.
turn-stop :
    (v : String) (r : MultiSourceRead)
    → IsGood v r
    → worker_turn v r ≡ Turn.stop
    → length r.pieces ≤ r.next_to_emit
unfolding worker_turn
turn-stop v r g e = elim (Bool-cases (leb (length r.pieces) r.next_to_emit)) [
  | inl finished ↦ ground arith
  | inr left ↦ ground (
    arith,
    g.alive,
    g.unbenched,
    any_left-Numbered 0 r.next_to_emit r.pieces g.numbered (ground arith) (ground arith),
  )
]

pub turn-raises :
    (v : String) (r : MultiSourceRead) → IsGood v r → consumer_turn r ≡ Consumer.raises → ⊥
unfolding consumer_turn
turn-raises v r g e = elim g.works [
  | inr finished ↦ ground (arith, e)
  | inl works ↦ ground (arith, e, g.alive, not-all_done v r.workers works)
]

ended-Works :
    (v key : String) (ended : Bool) (ws : List Worker)
    → Works v ws
    → Works v ((if ended then done key else idle key) ∷ ws)
ended-Works v key true ws h = h
ended-Works v key false ws h = inr h

ended-InFlight :
    (P : Piece → Type 0) (ended : Bool) (key : String)
    → InFlight P (if ended then done key else idle key)
ended-InFlight P true key = tt
ended-InFlight P false key = tt

pub leaves :
    (key v : String) (ws : List Worker) → (key == v) ≡ false → Works v (idle key ∷ ws) → Works v ws
leaves key v ws other (inl same) = absurd (cc (rw other at ((string_eq.eqb_iff key v).1 same)))
leaves key v ws other (inr h) = h

module _ (v : String) (r : MultiSourceRead) (g : IsGood v r) where
  pub claims-IsGood :
      (key : String) (piece : Piece) (pending : List Piece) (before after : List Worker)
      → r.workers ≡ before ++ (idle key ∷ after)
      → worker_turn key r ≡ Turn.take_piece piece pending
      → IsGood v (record r { pending = pending; workers = before ++ (fetching key piece ∷ after) })
  claims-IsGood key piece pending before after w e =
      let c =
        claim-Claimed (r.next_to_emit + r.window) key r.pending piece pending
          (turn-claim key r piece pending e) in
      let P = λ (p : Piece). contains p.tried v ≡ false in
      let ps : All P (c.before ++ (piece ∷ c.after)) = subst (All P) c.stood g.untried in
      record {
        known = g.known;
        numbered = g.numbered;
        sorted =
            subst Sorted (sym c.left)
              (merge-Sorted c.before piece c.after (subst Sorted c.stood g.sorted));
        untried = subst (All P) (sym c.left) (All-merge P c.before piece c.after ps);
        in_flight =
            All-replace (InFlight P) before (idle key) (fetching key piece) after
              (subst (All _) w g.in_flight) (All-split P c.before piece c.after ps).1;
        unbenched = g.unbenched;
        alive = g.alive;
        running = g.running;
        works = elim g.works [
          | inl h ↦ inl (
              Works-other v key (idle key) before after (fetching key piece) (λ ws k. k)
                (subst (Works v) w h))
          | inr finished ↦ inr finished
        ];
      }

  pub stops-IsGood :
      (key : String) (before after : List Worker)
      → r.workers ≡ before ++ (idle key ∷ after)
      → worker_turn key r ≡ Turn.stop
      → IsGood v (record r { workers = before ++ (done key ∷ after) })
  stops-IsGood key before after w e = record {
    known = g.known;
    numbered = g.numbered;
    sorted = g.sorted;
    untried = g.untried;
    in_flight =
        All-replace (InFlight _) before (idle key) (done key) after (subst (All _) w g.in_flight)
          tt;
    unbenched = g.unbenched;
    alive = g.alive;
    running = g.running;
    works = elim (Bool-cases (key == v)) [
      | inl same ↦ inr (
          turn-stop v r g (
            subst (λ (k : String). worker_turn k r ≡ Turn.stop) ((string_eq.eqb_iff key v).0 same)
              e))
      | inr other ↦ elim g.works [
        | inr finished ↦ inr finished
        | inl h ↦ inl (
            Works-other v key (idle key) before after (done key) (λ ws k. leaves key v ws other k)
              (subst (Works v) w h))
      ]
    ];
  }

  pub failed-IsGood :
      (key : String) (piece : Piece) (before after : List Worker)
      → r.workers ≡ before ++ (fetching key piece ∷ after)
      → key ≢ v
      → IsGood v (failed key piece before after r)
  unfolding failed
  failed-IsGood key piece before after w other =
      let P = λ (p : Piece). contains p.tried v ≡ false in
      let split =
        All-split (InFlight P) before (fetching key piece) after (subst (All _) w g.in_flight) in
      let tried = add_key key piece.tried in
      let count = or_zero (Dict.lookup key r.failures) + 1 in
      let benched = if leb bench_after count then add_key key r.benched else r.benched in
      let ended = contains benched key in
      let still : contains tried v ≡ false = contains-add_key key v piece.tried other split.1 in
      let unbenched : contains benched v ≡ false =
        if_both (λ (ks : List String). contains ks v ≡ false) (leb bench_after count) _ _
          (λ b. contains-add_key key v r.benched other g.unbenched) (λ n. g.unbenched) in
      rw (remaining-some v tried benched r.keys still unbenched g.known) (record {
        known = g.known;
        numbered = g.numbered;
        sorted = sort-Sorted (r.pending ++ (record piece { tried = tried } ∷ []));
        untried =
            All-sort_pieces P (r.pending ++ (record piece { tried = tried } ∷ []))
              (All-append P r.pending (record piece { tried = tried } ∷ []) g.untried (still, tt));
        in_flight =
            All-append (InFlight P) before ((if ended then done key else idle key) ∷ after) split.0
              (ended-InFlight P ended key, split.2);
        unbenched = unbenched;
        alive = g.alive;
        running = g.running;
        works = elim g.works [
          | inr finished ↦ inr finished
          | inl h ↦ inl (
              Works-other v key (fetching key piece) before after
                (if ended then done key else idle key)
                (λ ws k.
                  ended-Works v key ended ws
                    (elim k [ inl same ↦ absurd (other same) | inr rest ↦ rest ]))
                (subst (Works v) w h))
        ];
      })

  pub succeeded-IsGood :
      (key : String) (piece : Piece) (out : Bytes) (before after : List Worker)
      → r.workers ≡ before ++ (fetching key piece ∷ after)
      → IsGood v (succeeded key piece out before after r)
  unfolding succeeded
  succeeded-IsGood key piece out before after w = record {
    known = g.known;
    numbered = g.numbered;
    sorted = g.sorted;
    untried = g.untried;
    in_flight =
        All-replace (InFlight _) before (fetching key piece) (idle key) after
          (subst (All _) w g.in_flight) tt;
    unbenched = g.unbenched;
    alive = g.alive;
    running = g.running;
    works = elim g.works [
      | inr finished ↦ inr finished
      | inl h ↦ inl (
          Works-other v key (fetching key piece) before after (idle key) (λ ws k. k)
            (subst (Works v) w h))
    ];
  }

  pub yields-IsGood : (b : Bytes) → IsGood v (emit b r)
  unfolding emit
  yields-IsGood b = record {
    known = g.known;
    numbered = g.numbered;
    sorted = g.sorted;
    untried = g.untried;
    in_flight = g.in_flight;
    unbenched = g.unbenched;
    alive = g.alive;
    running = g.running;
    works = elim g.works [ inl h ↦ inl h | inr finished ↦ inr (omega arith) ];
  }
