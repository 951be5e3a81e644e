-- ===== src/Crypto/Stream/Reads.antt =====
-- tgdcfs/crypto/stream.py: the bytes that come out of the reads of an encrypting message.
use native.Mathlib.Nat.{mul-le-mul_right}
use tgdcfs.Base.{
  take-min, drop-min, ℕ, suc, ◌+◌, ◌-◌, ◌*◌, ◌^◌, ◌≤◌, ◌<◌, ◌≡◌, refl, ◌∙◌, ap, true, false, [],
  ◌∷◌, ◌++◌, ltb, leb, length, take, drop, arith, Bool-cases, inl, inr, min, length-drop, drop-drop,
  ltb→lt,
}
use tgdcfs.Base.Result.{ok}
use tgdcfs.Crypto.Bytes.{Bytes}
use tgdcfs.Crypto.Cipher.{Aead, IsAead}
use tgdcfs.Crypto.Cipher.Laws.{encrypt_chunk-ok}
use tgdcfs.Crypto.Cipher.Sizes.{n_chunks, n_chunks_covers, blobs, blob, piece, length-piece}
use tgdcfs.Crypto.Stream.{Encrypting, State, read_plaintext_chunk, refill, read_loop}
use tgdcfs.Crypto.Stream.Laws.{gather_all, read_plaintext_chunk-some}
use tgdcfs.Upload.{Source, IsSource}

module _ (aead : Aead) (law : IsAead aead) (S : Source) (left : S.State → Bytes)
    (Ready : S.State → Type 0) (source : IsSource S left Ready) (m : Encrypting)
    (plain : Bytes) where
  -- The message is well formed for this plaintext.
  pub record IsFor : Type 0 where
    pub positive : 0 < m.cipher.chunk_size
    pub salted : 4 ≤ length m.cipher.file_salt
    pub sized : m.inner_size ≡ length plain
    pub in_range : n_chunks (length plain) m.cipher.chunk_size ≤ 256 ^ 8

  -- The state is between two chunks of this plaintext.
  pub record IsAt (st : State S.State) : Type 0 where
    pub ready : Ready st.inner
    pub unread : left st.inner ≡ drop (st.chunk_index * m.cipher.chunk_size) plain
    pub counted : st.plaintext_read ≡ min (st.chunk_index * m.cipher.chunk_size) (length plain)

  abbrev pub chunks : ℕ
  chunks = n_chunks (length plain) m.cipher.chunk_size

  -- Every byte that a state has still to give.
  abbrev pub remaining : State S.State → Bytes
  remaining st = st.pending ++ blobs aead m.cipher plain st.chunk_index (chunks - st.chunk_index)

  -- The state once the next plaintext chunk is taken from the source.
  pub record Taken (st st' : State S.State) : Type 0 where
    pub returns :
        read_plaintext_chunk aead S m st ≡ ok (piece aead m.cipher plain st.chunk_index, st')
    pub ready : Ready st'.inner
    pub unread : left st'.inner ≡ drop ((st.chunk_index + 1) * m.cipher.chunk_size) plain
    pub counted :
        st'.plaintext_read ≡ min ((st.chunk_index + 1) * m.cipher.chunk_size) (length plain)
    pub same_index : st'.chunk_index ≡ st.chunk_index
    pub same_pending : st'.pending ≡ st.pending

  module _ (w : IsFor) (st : State S.State) (at : IsAt st) where
    pub read_plaintext_chunk-next :
        st.chunk_index * m.cipher.chunk_size < length plain → (st' : State S.State) × Taken st st'
    read_plaintext_chunk-next more =
        let cs : ℕ = m.cipher.chunk_size in
        let start : ℕ = st.chunk_index * cs in
        let want : ℕ = min cs (m.inner_size - st.plaintext_read) in
        let rest : Bytes = drop start plain in
        let size : length rest ≡ length plain - start = length-drop start plain in
        let exact : want ≡ min cs (length rest) = omega (arith, size, w.sized, at.counted, more) in
        let (t, e, l, ready) =
          gather_all aead S m left Ready source want st.inner at.ready
            (omega (arith, exact, ap length at.unread)) in
        let got : take want (left st.inner) ≡ piece aead m.cipher plain st.chunk_index =
          rw (at.unread, exact) (take-min cs rest) in
        let some_left : leb (m.inner_size - st.plaintext_read) 0 ≡ false =
          ground (arith, w.sized, at.counted, more) in
        let st' : State S.State = record st {
          inner = t;
          plaintext_read = st.plaintext_read + length (piece aead m.cipher plain st.chunk_index);
        } in
        (
          st',
          record {
            returns =
                read_plaintext_chunk-some aead S m st (piece aead m.cipher plain st.chunk_index) t
                  some_left (e ∙ ap (λ (x : Bytes). ok (x, t)) got);
            ready = ready;
            unread =
                l
                ∙ rw (at.unread, exact)
                    (drop-min cs rest
                      ∙ drop-drop start cs ((st.chunk_index + 1) * cs) plain (omega arith));
            counted =
                omega (arith, at.counted, length-piece aead m.cipher plain st.chunk_index, more);
            same_index = refl;
            same_pending = refl;
          },
        )

  pub index_lt : (w : IsFor) (j : ℕ) → j * m.cipher.chunk_size < length plain → j < chunks
  index_lt w j more =
      let cs : ℕ = m.cipher.chunk_size in
      elim (Bool-cases (ltb j chunks)) [
        | inl below ↦ ltb→lt j chunks below
        | inr above ↦ ground (
          arith,
          n_chunks_covers (length plain) cs w.positive,
          λ (q : chunks ≤ j). mul-le-mul_right cs q,
        )
      ]

  -- A chunk that is not past the end is sealed.
  pub refill-next :
      (w : IsFor) (st : State S.State)
      → st.chunk_index * m.cipher.chunk_size < length plain
      → refill aead S m (piece aead m.cipher plain st.chunk_index) st
        ≡ ok (record st {
          pending = blob aead m.cipher plain st.chunk_index;
          chunk_index = st.chunk_index + 1;
        })
  unfolding refill
  refill-next w st more = rw (
      encrypt_chunk-ok aead law m.cipher (piece aead m.cipher plain st.chunk_index) st.chunk_index
        (record {
          salted = w.salted;
          fits = omega (arith, length-piece aead m.cipher plain st.chunk_index);
          in_range = omega (arith, index_lt w st.chunk_index more, w.in_range);
        }))

  -- One round of the loop, on each of its branches.
  pub round_done :
      (fuel n : ℕ) (out : Bytes) (st : State S.State)
      → ltb (length out) n ≡ false
      → read_loop aead S m (suc fuel) n out st ≡ ok (out, st)
  unfolding read_loop
  round_done fuel n out st h = rw (h, read_loop)

  pub round_drain :
      (fuel n : ℕ) (out : Bytes) (st : State S.State) (p : ℕ) (ps : Bytes)
      → ltb (length out) n ≡ true
      → st.pending ≡ p ∷ ps
      → (k : ℕ) → k ≡ min (n - length out) (length (p ∷ ps))
      → read_loop aead S m (suc fuel) n out st
        ≡ read_loop aead S m fuel n
            (out ++ take k (p ∷ ps))
            (record st { pending = drop k (p ∷ ps) })
  unfolding read_loop
  round_drain fuel n out st p ps h e k ek = rw (h, e, ek, read_loop)

  pub round_end :
      (fuel n : ℕ) (out : Bytes) (st st' : State S.State)
      → ltb (length out) n ≡ true
      → st.pending ≡ []
      → read_plaintext_chunk aead S m st ≡ ok ([], st')
      → read_loop aead S m (suc fuel) n out st ≡ ok (out, st')
  unfolding read_loop
  round_end fuel n out st st' h e r = rw (h, e, r, read_loop)

  pub round_refill :
      (fuel n : ℕ) (out : Bytes) (st st' st'' : State S.State) (b : ℕ) (bs : Bytes)
      → ltb (length out) n ≡ true
      → st.pending ≡ []
      → read_plaintext_chunk aead S m st ≡ ok (b ∷ bs, st')
      → refill aead S m (b ∷ bs) st' ≡ ok st''
      → read_loop aead S m (suc fuel) n out st ≡ read_loop aead S m fuel n out st''
  unfolding read_loop
  round_refill fuel n out st st' st'' b bs h e r r' = rw (h, e, r, r', read_loop)
