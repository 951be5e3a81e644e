-- ===== src/Crypto/Stream/Laws.antt =====
-- tgdcfs/crypto/stream.py: how a plaintext chunk is gathered from reads that may be short.
use tgdcfs.Base.{
  ap, ltb→lt, ℕ, zero, suc, ◌+◌, ◌-◌, ◌≤◌, ◌<◌, ◌≡◌, ◌≢◌, refl, ◌∙◌, sym, true, false, some, [],
  ◌∷◌, ◌++◌, ltb, leb, length, take, drop, arith, Bool-cases, inl, inr, append-nil, append_assoc,
  length-append, take-append_ge, drop-append_ge, min,
}
use tgdcfs.Base.Result.{ok}
use tgdcfs.Crypto.Bytes.{Bytes}
use tgdcfs.Crypto.Cipher.{Aead}
use tgdcfs.Crypto.Stream.{Encrypting, State, gather, read_plaintext_chunk}
use tgdcfs.Upload.{Source, IsSource}

ne-nil_of_pos : (xs : Bytes) → 0 < length xs → xs ≢ []
ne-nil_of_pos [] h = absurd (omega arith)
ne-nil_of_pos (x ∷ xs) h = λ e. cc

pos_of_ne : (xs : Bytes) → xs ≢ [] → 0 < length xs
pos_of_ne [] h = absurd (h refl)
pos_of_ne (x ∷ xs) h = omega arith

module _ (aead : Aead) (S : Source) (m : Encrypting) where
  gather_done :
      (fuel want : ℕ) (buf : Bytes) (s : S.State)
      → ltb (length buf) want ≡ false
      → gather aead S m (suc fuel) want buf s ≡ ok (buf, s)
  unfolding gather
  gather_done fuel want buf s h = rw (h, gather)

  gather_next :
      (fuel want : ℕ) (buf : Bytes) (s t : S.State) (b : Bytes)
      → ltb (length buf) want ≡ true
      → S.read (want - length buf) s ≡ some (b, t)
      → b ≢ []
      → gather aead S m (suc fuel) want buf s ≡ gather aead S m fuel want (buf ++ b) t
  unfolding gather
  gather_next fuel want buf s t [] h e ne = absurd (ne refl)
  gather_next fuel want buf s t (x ∷ xs) h e ne = rw (h, e, gather)

module _ (aead : Aead) (S : Source) (m : Encrypting) (st : State S.State) where
  abbrev wanted : ℕ
  wanted = min m.cipher.chunk_size (m.inner_size - st.plaintext_read)

  pub read_plaintext_chunk-some :
      (b : Bytes) (t : S.State)
      → leb (m.inner_size - st.plaintext_read) 0 ≡ false
      → gather aead S m (wanted + 1) wanted [] st.inner ≡ ok (b, t)
      → read_plaintext_chunk aead S m st
        ≡ ok (b, record st { inner = t; plaintext_read = st.plaintext_read + length b })
  unfolding read_plaintext_chunk
  read_plaintext_chunk-some b t more e = rw (more, e)

  pub read_plaintext_chunk-none :
      leb (m.inner_size - st.plaintext_read) 0 ≡ true
      → read_plaintext_chunk aead S m st ≡ ok ([], st)
  unfolding read_plaintext_chunk
  read_plaintext_chunk-none done = rw done

module _ (aead : Aead) (S : Source) (m : Encrypting) (left : S.State → Bytes)
    (Ready : S.State → Type 0) (law : IsSource S left Ready) where
  -- Whatever the single reads return, the wanted bytes come together, in order.
  pub gather-ok :
      (fuel want : ℕ) (buf : Bytes) (s : S.State)
      → Ready s
      → length buf ≤ want
      → want < fuel + length buf
      → want ≤ length buf + length (left s)
      → (t : S.State) × (gather aead S m fuel want buf s
          ≡ ok (buf ++ take (want - length buf) (left s), t))
        × (left t ≡ drop (want - length buf) (left s))
        × Ready t
  gather-ok zero want buf s ready fits enough there = absurd (omega arith)
  gather-ok (suc fuel) want buf s ready fits enough there =
      elim (Bool-cases (ltb (length buf) want)) [
        | inr done ↦
            let zero_left : want - length buf ≡ 0 = ground arith in
            (
              s,
              gather_done aead S m fuel want buf s done ∙ rw (zero_left, append-nil),
              rw zero_left,
              ready,
            )
        | inl more ↦
            let k : ℕ = want - length buf in
            let (b, t, r, ready') = law.reads k s ready in
            let some_left : left s ≢ [] = ne-nil_of_pos (left s) (ground arith) in
            let ne : b ≢ [] = r.progress (ground arith) some_left in
            let rest : k - length b ≡ want - length (buf ++ b) =
              omega (arith, length-append buf b) in
            let cut_take : take k (left s) ≡ b ++ take (want - length (buf ++ b)) (left t) =
              rw (r.cut, take-append_ge k b (left t) r.short, rest) in
            let cut_drop : drop k (left s) ≡ drop (want - length (buf ++ b)) (left t) =
              rw (r.cut, drop-append_ge k b (left t) r.short, rest) in
            let (t', e, l, ready'') =
              gather-ok fuel want (buf ++ b) t ready'
                (omega (arith, length-append buf b, r.short, ltb→lt (length buf) want more))
                (omega (arith, length-append buf b, pos_of_ne b ne, ltb→lt (length buf) want more))
                (omega (arith, length-append buf b, length-append b (left t), ap length r.cut)) in
            (
              t',
              gather_next aead S m fuel want buf s t b more r.returns ne
                  ∙ e
                  ∙ ap (λ (x : Bytes). ok (x, t'))
                      (append_assoc buf b (take (want - length (buf ++ b)) (left t))
                        ∙ ap (λ (x : Bytes). buf ++ x) (sym cut_take)),
              l ∙ sym cut_drop,
              ready'',
            )
      ]

  pub gather_all :
      (want : ℕ) (s : S.State)
      → Ready s
      → want ≤ length (left s)
      → (t : S.State) × (gather aead S m (want + 1) want [] s ≡ ok (take want (left s), t))
        × (left t ≡ drop want (left s))
        × Ready t
  gather_all want s ready there =
      let (t, e, l, ready') =
        gather-ok (want + 1) want [] s ready (omega arith) (omega arith) (omega (arith, there)) in
      let all : want - 0 ≡ want = omega arith in
      (
        t,
        e ∙ ap (λ (k : ℕ). ok (take k (left s), t)) all,
        l ∙ ap (λ (k : ℕ). drop k (left s)) all,
        ready',
      )
