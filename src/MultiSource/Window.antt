-- ===== src/MultiSource/Window.antt =====
-- tgdcfs/core/multisource.py: the window bounds what a read holds.
use tgdcfs.Base.{
  ℕ, zero, suc, ◌+◌, ◌≤◌, ◌<◌, ◌≡◌, refl, List, [], ◌∷◌, ◌++◌, ◌==◌, nat_eq, arith, All, Bool-cases,
  inl, inr, length, max, if◌then◌else◌,
}
use tgdcfs.Base.Dict.{Dict}
use tgdcfs.Crypto.Bytes.{Bytes}
use tgdcfs.MultiSource.{MultiSourceRead, Piece, Worker, idle, fetching, done, init, Views}
use tgdcfs.MultiSource.Steps.{Stores, Reach}
use tgdcfs.MultiSource.Places.{count_workers, count_keys, one, InFlight, All-append}
use tgdcfs.MultiSource.Invariant.{IsSound, Inside, Fetched, due}
use tgdcfs.MultiSource.Reaching.{init-IsSound, Reach-IsSound}
use tgdcfs.MultiSource.Output.{Reach-Fixed}

-- The pieces that take memory: at a worker, or fetched and not yet emitted.
abbrev pub flying_indices : List Worker → List ℕ
flying_indices [] = []
flying_indices (idle key ∷ ws) = flying_indices ws
flying_indices (fetching key p ∷ ws) = p.index ∷ flying_indices ws
flying_indices (done key ∷ ws) = flying_indices ws

abbrev pub result_indices : Dict ℕ Bytes → List ℕ
result_indices [] = []
result_indices ((i, b) ∷ d) = i ∷ result_indices d

abbrev pub held_indices : MultiSourceRead → List ℕ
held_indices r = flying_indices r.workers ++ result_indices r.results

count : ℕ → List ℕ → ℕ
count i [] = 0
count i (j ∷ js) = one j i + count i js

without : ℕ → List ℕ → List ℕ
without i [] = []
without i (j ∷ js) = let rest = without i js in if j == i then rest else j ∷ rest

length-without : (i : ℕ) (js : List ℕ) → length js ≡ count i js + length (without i js)
unfolding count without
length-without i [] = omega arith
length-without i (j ∷ js) = ground (arith, length-without i js)

count-without : (i k : ℕ) (js : List ℕ) → count k (without i js) ≤ count k js
unfolding count without
count-without i k [] = omega arith
count-without i k (j ∷ js) = ground (arith, count-without i k js)

below-without :
    (n lo : ℕ) (js : List ℕ)
    → All (λ (j : ℕ). (lo ≤ j) × (j < lo + suc n)) js
    → All (λ (j : ℕ). (lo ≤ j) × (j < lo + n)) (without (lo + n) js)
unfolding without
below-without n lo [] h = tt
below-without n lo (j ∷ js) ((a, b), h) = elim (Bool-cases (j == lo + n)) [
  | inl top ↦ rw top (below-without n lo js h)
  | inr other ↦ rw other ((a, ground arith), below-without n lo js h)
]

-- Different numbers of an interval are not more than its length.
pigeonhole :
    (n lo : ℕ) (js : List ℕ)
    → ((i : ℕ) → count i js ≤ 1)
    → All (λ (j : ℕ). (lo ≤ j) × (j < lo + n)) js
    → length js ≤ n
pigeonhole n lo [] d h = omega arith
pigeonhole zero lo (j ∷ js) d ((a, b), h) = absurd (omega arith)
pigeonhole (suc n) lo (j ∷ js) d h = omega (
  arith,
  length-without (lo + n) (j ∷ js),
  d (lo + n),
  pigeonhole n lo (without (lo + n) (j ∷ js))
      (λ i. omega (arith, count-without (lo + n) i (j ∷ js), d i)) (below-without n lo (j ∷ js) h),
)

count-append : (i : ℕ) (js ks : List ℕ) → count i (js ++ ks) ≡ count i js + count i ks
unfolding count
count-append i [] ks = omega arith
count-append i (j ∷ js) ks = omega (arith, count-append i js ks)

count-flying : (i : ℕ) (ws : List Worker) → count i (flying_indices ws) ≡ count_workers i ws
unfolding count
count-flying i [] = refl
count-flying i (idle key ∷ ws) = count-flying i ws
count-flying i (fetching key p ∷ ws) = omega (arith, count-flying i ws)
count-flying i (done key ∷ ws) = count-flying i ws

count-result : (i : ℕ) (d : Dict ℕ Bytes) → count i (result_indices d) ≡ count_keys i d
unfolding count
count-result i [] = refl
count-result i ((j, b) ∷ d) = omega (arith, count-result i d)

All-counted : (P : ℕ → Type 0) (js : List ℕ) → ((i : ℕ) → 1 ≤ count i js → P i) → All P js
unfolding count
All-counted P [] h = tt
All-counted P (j ∷ js) h = (h j (ground arith), All-counted P js (λ i c. h i (omega (arith, c))))

All-pair : (P Q : ℕ → Type 0) (js : List ℕ) → All P js → All Q js → All (λ (j : ℕ). P j × Q j) js
All-pair P Q [] h k = tt
All-pair P Q (j ∷ js) (p, h) (q, k) = ((p, q), All-pair P Q js h k)

flying-below :
    (limit : ℕ) (pieces : List Piece) (ws : List Worker)
    → All (InFlight (Inside limit pieces)) ws
    → All (λ (j : ℕ). j < limit) (flying_indices ws)
flying-below limit pieces [] h = tt
flying-below limit pieces (idle key ∷ ws) (u, h) = flying-below limit pieces ws h
flying-below limit pieces (fetching key p ∷ ws) ((inside, held), h) =
    (inside, flying-below limit pieces ws h)
flying-below limit pieces (done key ∷ ws) (u, h) = flying-below limit pieces ws h

results-below :
    (content : Bytes) (limit : ℕ) (pieces : List Piece) (d : Dict ℕ Bytes)
    → All (Fetched content limit pieces) d
    → All (λ (j : ℕ). j < limit) (result_indices d)
results-below content limit pieces [] h = tt
results-below content limit pieces ((i, b) ∷ d) (f, h) =
    (f.0, results-below content limit pieces d h)

due-next : (i : ℕ) (r : MultiSourceRead) → 1 ≤ due i r → r.next_to_emit ≤ i
due-next i r h = ground arith

due-one : (i : ℕ) (r : MultiSourceRead) → due i r ≤ 1
due-one i r = ground arith

IsSound-window :
    (content : Bytes) (r : MultiSourceRead) → IsSound content r → length (held_indices r) ≤ r.window
IsSound-window content r h =
    let counted = λ (i : ℕ). count-append i (flying_indices r.workers) (result_indices r.results) in
    pigeonhole r.window r.next_to_emit (held_indices r)
      (λ i. omega (
        arith,
        h.counted i,
        due-one i r,
        counted i,
        count-flying i r.workers,
        count-result i r.results,
      ))
      (All-pair _ _ (held_indices r)
        (All-counted _ (held_indices r) (λ i c. due-next i r (
          omega (
            arith,
            h.counted i,
            c,
            counted i,
            count-flying i r.workers,
            count-result i r.results,
          ))))
        (All-append _ (flying_indices r.workers) (result_indices r.results)
          (flying-below (r.next_to_emit + r.window) r.pieces r.workers h.flying)
          (results-below content (r.next_to_emit + r.window) r.pieces r.results h.fetched)))

-- At every moment of a read, the pieces that are being fetched and those that wait to be emitted are
-- together at most as many as the window, or one for a window of zero.
pub Reach-window :
    (stores : Stores) (views : Views) (begin last size window : ℕ) (r : MultiSourceRead)
    → Reach stores (init views begin last size window) r
    → length (held_indices r) ≤ max 1 window
unfolding init
Reach-window stores views begin last size window r reached =
    let start = init views begin last size window in
    omega (
      arith,
      (Reach-Fixed stores start r reached).window,
      IsSound-window stores.content r (
          Reach-IsSound stores start r (init-IsSound stores.content views begin last size window)
            reached),
    )
