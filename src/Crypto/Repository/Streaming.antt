-- ===== src/Crypto/Repository/Streaming.antt =====
-- tgdcfs/crypto/repository.py, `_decrypting_stream`: its loops, on any pieces of the ciphertext.
use tgdcfs.Base.{
  ℕ, zero, suc, ◌+◌, ◌-◌, ◌*◌, ◌≤◌, ◌<◌, ◌≡◌, refl, ◌∙◌, sym, ap, true, false, List, [], ◌∷◌, ◌++◌,
  leb, length, take, drop, arith, Bool-cases, inl, inr, append-nil, append_assoc, take-append_le,
  drop-append_le, take-append_of_length, drop-append_of_length,
}
use tgdcfs.Base.Result.{ok}
use tgdcfs.Crypto.Bytes.{Bytes}
use tgdcfs.Crypto.Cipher.{Aead, IsAead, ChunkedAesGcm, decrypt_chunk}
use tgdcfs.Crypto.Cipher.Sizes.{blobs, blob, piece}
use tgdcfs.Crypto.Repository.{Progress, emit, drain, feed}
use tgdcfs.Crypto.Repository.Decrypting.{
  concat, IsRequest, IsAt, wanted, kept, chunk_opens, placed, moved_on, stride_of, wire_next,
}

module _ (aead : Aead) (law : IsAead aead) (c : ChunkedAesGcm) (plain : Bytes)
    (first count head total : ℕ) (w : IsRequest aead law c plain first count head total) where
  abbrev At : Progress → Bytes → Type 0
  At = IsAt aead law c plain first count head total

  abbrev want : Bytes
  want = wanted aead law c plain first count head total

  -- What holds between two pieces: all was emitted, or no whole chunk is in the buffer but the last.
  pub data Settled (p : Progress) (rest : Bytes) : Type 0 where
    finished : total ≤ p.emitted → p.out ≡ want → Settled p rest
    waiting :
        At p rest
        → p.emitted < total
        → (p.chunks_done + 1 < count → length p.buf < c.chunk_size + 28)
        → Settled p rest

  abbrev advanced : Progress → Progress
  advanced p = record (emit aead c count total (piece aead c plain (first + p.chunks_done)) p) {
    buf = drop (c.chunk_size + 28) p.buf;
    chunk_index = p.chunk_index + 1;
    chunks_done = p.chunks_done + 1;
  }

  module _ (p : Progress) (rest : Bytes) (at : At p rest) (more : p.emitted < total)
      (inner : p.chunks_done + 1 < count) (full : c.chunk_size + 28 ≤ length p.buf) where
    first_blob : take (c.chunk_size + 28) p.buf ≡ blob aead c plain (first + p.chunks_done)
    first_blob =
        sym (take-append_le (c.chunk_size + 28) p.buf rest full)
        ∙ ap (λ (b : Bytes). take (c.chunk_size + 28) b)
            (at.wire ∙ wire_next aead law c plain first count head total w p rest at)
        ∙ take-append_of_length (blob aead c plain (first + p.chunks_done)) _ (c.chunk_size + 28)
            (stride_of aead law c plain first count head total w p rest at inner)

    wire_left :
        drop (c.chunk_size + 28) p.buf ++ rest
        ≡ blobs aead c plain (first + (p.chunks_done + 1)) (count - (p.chunks_done + 1))
    wire_left =
        sym (drop-append_le (c.chunk_size + 28) p.buf rest full)
        ∙ ap (λ (b : Bytes). drop (c.chunk_size + 28) b)
            (at.wire ∙ wire_next aead law c plain first count head total w p rest at)
        ∙ drop-append_of_length (blob aead c plain (first + p.chunks_done)) _ (c.chunk_size + 28)
            (stride_of aead law c plain first count head total w p rest at inner)
        ∙ ap (λ (k : ℕ). blobs aead c plain k (count - (p.chunks_done + 1))) (omega arith)

    advanced-At : At (advanced p) rest
    unfolding emit
    advanced-At =
        let next : first + p.chunks_done + 1 ≡ first + (p.chunks_done + 1) = omega arith in
        record {
          wire = wire_left;
          index = omega (arith, at.index);
          before_last = inner;
          place = rw (← next) (placed aead law c plain first count head total w p rest at more);
          position = λ again. rw (← next) (
              omega
                (arith, moved_on aead law c plain first count head total w p rest at more again));
          inside = w.positive;
        }

    opens :
        decrypt_chunk aead c (take (c.chunk_size + 28) p.buf) p.chunk_index
        ≡ ok (piece aead c plain (first + p.chunks_done))
    opens =
        rw (first_blob, at.index) (chunk_opens aead law c plain first count head total w p rest at)

    drain_step :
        (left : ℕ)
        → drain aead c count total (suc left) p ≡ elim (leb total (advanced p).emitted) [
          | true ↦ ok (advanced p)
          | false ↦ drain aead c count total left (advanced p)
        ]
    unfolding drain
    drain_step left =
        let long : leb (c.chunk_size + 28) (length p.buf) ≡ true = ground arith in
        rw (long, opens, drain) refl

    -- What ends the stream at the last byte.
    finished_out : total ≤ (advanced p).emitted → (advanced p).out ≡ want
    unfolding emit
    finished_out over =
        let none_left : total
              - (p.emitted + length (kept aead law c plain first count head total w p rest at))
            ≡ 0 =
          omega (arith, over) in
        sym (append-nil (advanced p).out)
        ∙ ap
            (λ (k : ℕ).
              (advanced p).out ++ take k (drop ((first + p.chunks_done + 1) * c.chunk_size) plain))
            (sym none_left)
        ∙ placed aead law c plain first count head total w p rest at more

  drain-Settled :
      (left : ℕ) (p : Progress) (rest : Bytes)
      → At p rest
      → p.emitted < total
      → left ≡ count - 1 - p.chunks_done
      → (q : Progress) × (drain aead c count total left p ≡ ok q) × Settled q rest
  unfolding drain
  drain-Settled zero p rest at more e =
      (p, refl, waiting at more (λ inner. absurd (omega (arith, e))))
  drain-Settled (suc left) p rest at more e =
      elim (Bool-cases (leb (c.chunk_size + 28) (length p.buf))) [
        | inr short ↦ (p, rw short refl, waiting at more (λ inner. ground arith))
        | inl long ↦
            let inner : p.chunks_done + 1 < count = omega (arith, e) in
            let full : c.chunk_size + 28 ≤ length p.buf = ground arith in
            let step = drain_step p rest at more inner full left in
            elim (Bool-cases (leb total (advanced p).emitted)) [
              | inl over ↦ (
                advanced p,
                step ∙ rw over refl,
                finished (ground arith) (finished_out p rest at more inner full (ground arith)),
              )
              | inr under ↦
                  let (q, run, settled) =
                    drain-Settled left (advanced p) rest (advanced-At p rest at more inner full)
                      (ground arith) (omega (arith, e)) in
                  (q, step ∙ rw under run, settled)
            ]
      ]

  Settled-done :
      (p : Progress) (rest rest' : Bytes) → total ≤ p.emitted → Settled p rest → Settled p rest'
  Settled-done p rest rest' over (finished h out) = finished h out
  Settled-done p rest rest' over (waiting at more short) = absurd (omega (arith, over, more))

  pub feed-Settled :
      (pieces : List Bytes) (p : Progress)
      → Settled p (concat pieces)
      → (q : Progress) × (feed aead c count total pieces p ≡ ok q) × Settled q []
  unfolding feed
  feed-Settled [] p h = (p, refl, h)
  feed-Settled (b ∷ pieces) p (finished over out) =
      let (q, run, settled) = feed-Settled pieces p (finished over out) in
      let all : leb total p.emitted ≡ true = ground arith in (q, rw (all, feed) run, settled)
  feed-Settled (b ∷ pieces) p (waiting at more short) =
      let not_all : leb total p.emitted ≡ false = ground arith in
      let p' : Progress = record p { buf = p.buf ++ b } in
      let at' : At p' (concat pieces) = record {
        wire = append_assoc p.buf b (concat pieces) ∙ at.wire;
        index = at.index;
        before_last = at.before_last;
        place = at.place;
        position = at.position;
        inside = at.inside;
      } in
      let (q, run, settled) =
        drain-Settled (count - 1 - p.chunks_done) p' (concat pieces) at' more refl in
      let (q', run', settled') = feed-Settled pieces q settled in
      (q', rw (not_all, run, feed) run', settled')
