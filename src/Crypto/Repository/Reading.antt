-- ===== src/Crypto/Repository/Reading.antt =====
-- tgdcfs/crypto/repository.py, `_decrypting_stream`: all that it yields.
use tgdcfs.Base.{
  drop-drop, ℕ, ◌+◌, ◌-◌, ◌*◌, ◌<◌, ◌≡◌, refl, ◌∙◌, sym, ap, Bool, true, false, ◌&&◌, List, [],
  ◌++◌, ltb, length, take, drop, arith, Bool-cases, inl, inr, append-nil, length-append,
}
use tgdcfs.Base.Result.{ok}
use tgdcfs.Crypto.Bytes.{Bytes}
use tgdcfs.Crypto.Cipher.{Aead, IsAead, ChunkedAesGcm, decrypt_chunk}
use tgdcfs.Crypto.Cipher.Laws.{length-sealed}
use tgdcfs.Crypto.Cipher.Sizes.{blobs, blob, piece}
use tgdcfs.Crypto.Repository.{Progress, emit, flush, decrypting_stream}
use tgdcfs.Crypto.Repository.Decrypting.{
  concat, IsRequest, IsAt, wanted, kept, chunk_opens, placed, all_emitted, stride_of, wire_next,
}
use tgdcfs.Crypto.Repository.Streaming.{Settled, finished, waiting, feed-Settled}

and_false : (a b : Bool) → a && (b && false) ≡ false
and_false true true = refl
and_false true false = refl
and_false false b = refl

module _ (aead : Aead) (law : IsAead aead) (c : ChunkedAesGcm) (plain : Bytes)
    (first count head total : ℕ) (w : IsRequest aead law c plain first count head total) where
  abbrev want : Bytes
  want = wanted aead law c plain first count head total

  -- The last chunk, which only the end of the stream completes.
  module _ (p : Progress) (at : IsAt aead law c plain first count head total p [])
      (more : p.emitted < total)
      (short : p.chunks_done + 1 < count → length p.buf < c.chunk_size + 28) where
    buffered :
        p.buf
        ≡ blob aead c plain (first + p.chunks_done)
          ++ blobs aead c plain (first + p.chunks_done + 1) (count - (p.chunks_done + 1))
    buffered =
        sym (append-nil p.buf)
        ∙ at.wire
        ∙ wire_next aead law c plain first count head total w p [] at

    is_last : p.chunks_done + 1 ≡ count
    is_last = elim (Bool-cases (ltb (p.chunks_done + 1) count)) [
      | inr last ↦ ground (arith, at.before_last)
      | inl inner ↦ absurd (
          omega (
            arith,
            short (ground arith),
            ap length buffered,
            length-append (blob aead c plain (first + p.chunks_done))
                (blobs aead c plain (first + p.chunks_done + 1) (count - (p.chunks_done + 1))),
            stride_of aead law c plain first count head total w p [] at (ground arith),
          ))
    ]

    is_blob : p.buf ≡ blob aead c plain (first + p.chunks_done)
    unfolding blobs
    is_blob =
        let none_left : count - (p.chunks_done + 1) ≡ 0 = omega (arith, is_last) in
        buffered ∙ rw none_left (append-nil (blob aead c plain (first + p.chunks_done)))

    flush_last :
        flush aead c count total p
        ≡ ok (emit aead c count total (piece aead c plain (first + p.chunks_done)) p)
    unfolding flush
    flush_last =
        let some_chunk : ltb p.chunks_done count ≡ true = ground (arith, at.before_last) in
        let some_buf : ltb 0 (length p.buf) ≡ true = ground (
          arith,
          ap length is_blob,
          length-sealed aead law c (piece aead c plain (first + p.chunks_done))
              (first + p.chunks_done) w.salted,
        ) in
        let some_bytes : ltb p.emitted total ≡ true = ground arith in
        let opens : decrypt_chunk aead c p.buf p.chunk_index
            ≡ ok (piece aead c plain (first + p.chunks_done)) =
          rw (is_blob, at.index) (chunk_opens aead law c plain first count head total w p [] at) in
        rw (some_chunk, some_buf, some_bytes, opens) refl

    flushed_out :
        (emit aead c count total (piece aead c plain (first + p.chunks_done)) p).out ≡ want
    unfolding emit
    flushed_out =
        let none_left : total
              - (p.emitted + length (kept aead law c plain first count head total w p [] at))
            ≡ 0 =
          omega
            (arith, all_emitted aead law c plain first count head total w p [] at more is_last) in
        sym (append-nil (p.out ++ kept aead law c plain first count head total w p [] at))
        ∙ ap
            (λ (k : ℕ).
              (p.out ++ kept aead law c plain first count head total w p [] at)
              ++ take k (drop ((first + p.chunks_done + 1) * c.chunk_size) plain))
            (sym none_left)
        ∙ placed aead law c plain first count head total w p [] at more

  flush-out :
      (p : Progress)
      → Settled aead law c plain first count head total w p []
      → (q : Progress) × (flush aead c count total p ≡ ok q) × (q.out ≡ want)
  unfolding flush
  flush-out p (finished over out) =
      let all : ltb p.emitted total ≡ false = ground arith in
      (p, rw (all, and_false (ltb p.chunks_done count) (ltb 0 (length p.buf))) refl, out)
  flush-out p (waiting at more short) = (_, flush_last p at more short, flushed_out p at more short)

  -- However the inner repository cuts the ciphertext of the chunks that hold a request into pieces,
  -- the stream decrypts it without an error, and yields exactly the requested bytes of the plaintext.
  pub decrypting_stream-wanted :
      (pieces : List Bytes)
      → concat pieces ≡ blobs aead c plain first count
      → decrypting_stream aead c count total first head pieces
        ≡ ok (take total (drop (first * c.chunk_size + head) plain))
  unfolding decrypting_stream
  decrypting_stream-wanted pieces h =
      let start : Progress = record {
        buf = [];
        chunk_index = first;
        chunks_done = 0;
        trim_head = head;
        emitted = 0;
        out = [];
      } in
      let same : first + 0 ≡ first = omega arith in
      let all : count - 0 ≡ count = omega arith in
      let whole : total - 0 ≡ total = omega arith in
      let at : IsAt aead law c plain first count head total start (concat pieces) = record {
        wire = rw (same, all) h;
        index = omega arith;
        before_last = w.some_chunk;
        place =
            rw (same, whole)
              (ap (λ (b : Bytes). take total b)
                (drop-drop (first * c.chunk_size) head (first * c.chunk_size + head) plain refl));
        position = λ more. omega arith;
        inside = w.in_first;
      } in
      let (p, run, settled) =
        feed-Settled aead law c plain first count head total w pieces start
          (waiting at w.some_bytes (λ inner. omega arith)) in
      let (q, run', out) = flush-out p settled in rw (run, run') (ap (λ (b : Bytes). ok b) out)
