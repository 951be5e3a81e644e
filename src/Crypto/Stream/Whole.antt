-- ===== src/Crypto/Stream/Whole.antt =====
-- tgdcfs/crypto/stream.py: one read of any length, and any sequence of reads.
use tgdcfs.Base.{
  ℕ, zero, suc, ◌+◌, ◌-◌, ◌*◌, ◌≤◌, ◌<◌, ◌≡◌, ◌≢◌, ◌⊎◌, refl, ◌∙◌, sym, ap, true, List, [], ◌∷◌,
  ◌++◌, ltb, leb, length, take, drop, arith, Bool-cases, inl, inr, append-nil, append_assoc,
  length-append, min, length-take, ltb→lt, take-append-drop, take_all, sum, take-append_ge,
}
use tgdcfs.Base.Result.{Result, ok, ◌>>=◌}
use tgdcfs.Crypto.Bytes.{Bytes}
use tgdcfs.Crypto.Cipher.{Aead, IsAead}
use tgdcfs.Crypto.Cipher.Laws.{length-sealed}
use tgdcfs.Crypto.Cipher.Sizes.{n_chunks, n_chunks_least, blobs, blob, piece, length-piece}
use tgdcfs.Crypto.Stream.{Encrypting, State, StreamError, refill, read_loop, read}
use tgdcfs.Crypto.Stream.Laws.{read_plaintext_chunk-none}
use tgdcfs.Crypto.Stream.Reads.{
  IsFor, IsAt, remaining, read_plaintext_chunk-next, refill-next, index_lt, round_done, round_drain,
  round_end, round_refill,
}
use tgdcfs.Upload.{Source, IsSource}

nil-cases : (xs : Bytes) → (xs ≡ []) ⊎ ((x : ℕ) × (ys : Bytes) × (xs ≡ x ∷ ys))
nil-cases [] = inl refl
nil-cases (x ∷ xs) = inr (x, xs, refl)

-- A refill does not shorten what is missing, so it needs a round more than a drain.
abbrev cost : Bytes → ℕ
cost [] = 1
cost (x ∷ xs) = 0

cost_le : (xs : Bytes) → cost xs ≤ 1
cost_le [] = omega arith
cost_le (x ∷ xs) = omega arith

cost_zero : (xs : Bytes) → xs ≢ [] → cost xs ≡ 0
cost_zero [] h = absurd (h refl)
cost_zero (x ∷ xs) h = refl

take_given :
    (n k : ℕ) (given rest : Bytes)
    → length given ≡ min (n - 0) (length (given ++ rest))
    → given ++ take k rest ≡ take (n + k) (given ++ rest)
take_given n k given [] h =
    rw
      (
        take_all {A = ℕ} k [] (omega arith),
        take_all {A = ℕ} (n + k) (given ++ []) (omega (arith, h, length-append given [])),
      )
      refl
take_given n k given (x ∷ rest) h =
    let full : n + k - length given ≡ k = omega (arith, h, length-append given (x ∷ rest)) in
    rw (take-append_ge (n + k) given (x ∷ rest) (omega (arith, h)), full) refl

module _ (aead : Aead) (S : Source) (m : Encrypting) where
  -- Reads of these lengths, one after the other, and what they return together.
  unfoldable pub reads : List ℕ → State S.State → Result StreamError (Bytes × State S.State)
  reads [] st = ok ([], st)
  reads (n ∷ ns) st =
      read aead S m n st >>= λ got. reads ns got.1 >>= λ more. ok (got.0 ++ more.0, more.1)

module _ (aead : Aead) (law : IsAead aead) (S : Source) (left : S.State → Bytes)
    (Ready : S.State → Type 0) (source : IsSource S left Ready) (m : Encrypting) (plain : Bytes)
    (w : IsFor aead law S left Ready source m plain) where
  abbrev Good : State S.State → Type 0
  Good = IsAt aead law S left Ready source m plain

  abbrev rest : State S.State → Bytes
  rest = remaining aead law S left Ready source m plain

  abbrev total : ℕ
  total = n_chunks (length plain) m.cipher.chunk_size

  blobs-next :
      (j : ℕ)
      → j < total
      → blobs aead m.cipher plain j (total - j)
        ≡ blob aead m.cipher plain j ++ blobs aead m.cipher plain (j + 1) (total - (j + 1))
  unfolding blobs
  blobs-next j h = let k : total - j ≡ suc (total - (j + 1)) = omega (arith, h) in rw k

  no_chunk_left : (j : ℕ) → length plain ≤ j * m.cipher.chunk_size → total - j ≡ 0
  no_chunk_left j over =
      ground (arith, n_chunks_least (length plain) m.cipher.chunk_size j w.positive)

  nothing : (j : ℕ) → blobs aead m.cipher plain j 0 ≡ []
  unfolding blobs
  nothing j = refl

  -- What one call of `read` that still wants `n - length out` bytes gives.
  record Gave (run : Result StreamError (Bytes × State S.State)) (n : ℕ) (out : Bytes)
      (st : State S.State) : Type 0 where
    given : Bytes
    next : State S.State
    returns : run ≡ ok (out ++ given, next)
    good : Good next
    cut : rest st ≡ given ++ rest next
    count : length given ≡ min (n - length out) (length (rest st))

  refilled :
      (fuel n : ℕ) (out : Bytes) (st : State S.State)
      → Good st
      → ltb (length out) n ≡ true
      → st.pending ≡ []
      → st.chunk_index * m.cipher.chunk_size < length plain
      → (next : State S.State) × (read_loop aead S m (suc fuel) n out st
          ≡ read_loop aead S m fuel n out next)
        × Good next
        × (next.pending ≢ [])
        × (rest st ≡ rest next)
  refilled fuel n out st good h e more =
      let j : ℕ = st.chunk_index in
      let cs : ℕ = m.cipher.chunk_size in
      let (st', taken) =
        read_plaintext_chunk-next aead law S left Ready source m plain w st good more in
      let sealing : refill aead S m (piece aead m.cipher plain j) st'
          ≡ ok (record st' { pending = blob aead m.cipher plain j; chunk_index = j + 1 }) =
        rw (← taken.same_index)
          (refill-next aead law S left Ready source m plain w st' (rw taken.same_index more)) in
      let size : length (piece aead m.cipher plain j) ≡ min cs (length plain - j * cs) =
        length-piece aead m.cipher plain j in
      let size' : length (blob aead m.cipher plain j) ≡ length (piece aead m.cipher plain j) + 28 =
        length-sealed aead law m.cipher (piece aead m.cipher plain j) j w.salted in
      let next : State S.State = record st' {
        pending = blob aead m.cipher plain j;
        chunk_index = j + 1;
      } in
      elim (nil-cases (piece aead m.cipher plain j)) [
        | inl none_left ↦ absurd (omega (arith, size, ap length none_left, more, w.positive))
        | inr (b, bs, some_left) ↦ (
          next,
          round_refill aead law S left Ready source m plain fuel n out st st' next b bs h e
              (taken.returns ∙ rw some_left) (rw (← some_left) sealing),
          record { ready = taken.ready; unread = taken.unread; counted = taken.counted },
          λ empty. absurd (omega (arith, size', ap length empty)),
          rw e (blobs-next j (index_lt aead law S left Ready source m plain w j more)),
        )
      ]

  at_end :
      (fuel n : ℕ) (out : Bytes) (st : State S.State)
      → Good st
      → ltb (length out) n ≡ true
      → st.pending ≡ []
      → length plain ≤ st.chunk_index * m.cipher.chunk_size
      → Gave (read_loop aead S m (suc fuel) n out st) n out st
  at_end fuel n out st good h e over =
      let read_all : leb (m.inner_size - st.plaintext_read) 0 ≡ true =
        ground (arith, w.sized, good.counted) in
      let past : total - st.chunk_index ≡ 0 = no_chunk_left st.chunk_index over in
      let empty : rest st ≡ [] = rw (e, past) (nothing st.chunk_index) in
      record {
        given = [];
        next = st;
        returns =
            round_end aead law S left Ready source m plain fuel n out st st h e
              (read_plaintext_chunk-none aead S m st read_all)
            ∙ rw append-nil;
        good = good;
        cut = refl;
        count = omega (arith, ap length empty);
      }

  drained :
      (fuel n : ℕ) (out : Bytes) (st : State S.State) (p : ℕ) (ps : Bytes)
      → Good st
      → ltb (length out) n ≡ true
      → st.pending ≡ p ∷ ps
      → ((b : Bytes) (x : State S.State)
          → Good x
          → length out < length b
          → Gave (read_loop aead S m fuel n b x) n b x)
      → Gave (read_loop aead S m (suc fuel) n out st) n out st
  drained fuel n out st p ps good h e rec =
      let k : ℕ = min (n - length out) (length (p ∷ ps)) in
      let tail : Bytes = blobs aead m.cipher plain st.chunk_index (total - st.chunk_index) in
      let next : State S.State = record st { pending = drop k (p ∷ ps) } in
      let short : length (take k (p ∷ ps)) ≡ k = omega (arith, length-take k (p ∷ ps)) in
      let more : length out < n = ltb→lt (length out) n h in
      let split : rest st ≡ take k (p ∷ ps) ++ rest next = rw e (
        ap (λ (b : Bytes). b ++ tail) (sym (take-append-drop k (p ∷ ps)))
        ∙ append_assoc (take k (p ∷ ps)) (drop k (p ∷ ps)) tail) in
      let r =
        rec (out ++ take k (p ∷ ps)) next
          (record { ready = good.ready; unread = good.unread; counted = good.counted })
          (omega (arith, length-append out (take k (p ∷ ps)), short, more)) in
      record {
        given = take k (p ∷ ps) ++ r.given;
        next = r.next;
        returns =
            round_drain aead law S left Ready source m plain fuel n out st p ps h e k refl
            ∙ r.returns
            ∙ ap (λ (b : Bytes). ok (b, r.next)) (append_assoc out (take k (p ∷ ps)) r.given);
        good = r.good;
        cut =
            split
            ∙ ap (λ (b : Bytes). take k (p ∷ ps) ++ b) r.cut
            ∙ sym (append_assoc (take k (p ∷ ps)) r.given (rest r.next));
        count = omega (
          arith,
          length-append (take k (p ∷ ps)) r.given,
          r.count,
          short,
          length-append out (take k (p ∷ ps)),
          ap length split,
          length-append (take k (p ∷ ps)) (rest next),
        );
      }

  loop-ok :
      (fuel n : ℕ) (out : Bytes) (st : State S.State)
      → Good st
      → 2 * (n - length out) + 1 + cost st.pending ≤ fuel
      → Gave (read_loop aead S m fuel n out st) n out st
  loop-ok zero n out st good enough = absurd (omega arith)
  loop-ok (suc fuel) n out st good enough = elim (Bool-cases (ltb (length out) n)) [
    | inr done ↦ record {
      given = [];
      next = st;
      returns = round_done aead law S left Ready source m plain fuel n out st done ∙ rw append-nil;
      good = good;
      cut = refl;
      count = ground arith;
    }
    | inl h ↦ elim (nil-cases st.pending) [
      | inr (p, ps, e) ↦ drained fuel n out st p ps good h e λ b x good' longer.
          loop-ok fuel n b x good'
            (omega (arith, ltb→lt (length out) n h, enough, longer, cost_le x.pending))
      | inl e ↦ elim (Bool-cases (ltb (st.chunk_index * m.cipher.chunk_size) (length plain))) [
        | inr over ↦ at_end fuel n out st good h e (ground arith)
        | inl more ↦
            let (next, step, good', some_left, same) =
              refilled fuel n out st good h e
                (ltb→lt (st.chunk_index * m.cipher.chunk_size) (length plain) more) in
            let r =
              loop-ok fuel n out next good'
                (omega (arith, enough, ap cost e, cost_zero next.pending some_left)) in
            record {
              given = r.given;
              next = r.next;
              returns = step ∙ r.returns;
              good = r.good;
              cut = same ∙ r.cut;
              count = r.count ∙ ap (λ (b : Bytes). min (n - length out) (length b)) (sym same);
            }
      ]
    ]
  ]

  read-Gave : (n : ℕ) (st : State S.State) → Good st → Gave (read aead S m n st) n [] st
  unfolding read
  read-Gave n st good = loop-ok (2 * n + 2) n [] st good (omega (arith, cost_le st.pending))

  pub reads-ok :
      (ns : List ℕ) (st : State S.State)
      → Good st
      → (next : State S.State) × (reads aead S m ns st ≡ ok (take (sum ns) (rest st), next))
  unfolding reads
  reads-ok [] st good = (st, refl)
  reads-ok (n ∷ ns) st good =
      let r = read-Gave n st good in
      let (next, e) = reads-ok ns r.next r.good in
      (
        next,
        rw (r.returns, e)
            (ap (λ (b : Bytes). ok (b, next))
              (take_given n (sum ns) r.given (rest r.next)
                  (r.count ∙ ap (λ (b : Bytes). min (n - 0) (length b)) r.cut)
                ∙ ap (λ (b : Bytes). take (n + sum ns) b) (sym r.cut))),
      )
