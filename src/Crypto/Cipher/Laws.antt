-- ===== src/Crypto/Cipher/Laws.antt =====
-- tgdcfs/crypto/cipher.py: one chunk, sealed and opened.
use mathlib.Core.List.{append_cancel_left}
use tgdcfs.Base.{
  take-append_of_length, drop-append_of_length, sym, ℕ, ◌+◌, ◌^◌, ◌≤◌, ◌<◌, ◌≡◌, ◌≢◌, ◌∙◌, ap, ◌++◌,
  ltb, false, if◌then◌else◌, length, take, drop, ◌==◌, arith, length-append, length-take, ==_refl,
  Bool-cases, inl, inr,
}
use tgdcfs.Base.Result.{ok, err}
use tgdcfs.Crypto.Bytes.{Bytes, big, of_big, bytes_eq, bytes_beq_iff, of_big-big, length-big}
use tgdcfs.Crypto.Cipher.{
  Aead, IsAead, ChunkedAesGcm, nonce_mismatch, chunk_overhead, nonce_size, chunk_nonce,
  encrypt_chunk, decrypt_chunk,
}

abbrev pub nonce_of : Bytes → ℕ → Bytes
nonce_of file_salt chunk_index = take 4 file_salt ++ big 8 chunk_index

-- The bytes of one chunk on the wire.
unfoldable pub sealed : Aead → ChunkedAesGcm → Bytes → ℕ → Bytes
sealed aead c plaintext i =
    nonce_of c.file_salt i ++ aead.encrypt c.file_key (nonce_of c.file_salt i) plaintext

-- What the constructor and the width of the nonce's counter ensure.
pub record CanSeal (c : ChunkedAesGcm) (plaintext : Bytes) (i : ℕ) : Type 0 where
  pub salted : 4 ≤ length c.file_salt
  pub fits : length plaintext ≤ c.chunk_size
  pub in_range : i < 256 ^ 8

pub chunk_nonce-ok :
    (salt : Bytes) (i : ℕ) → i < 256 ^ 8 → chunk_nonce salt i ≡ ok (nonce_of salt i)
unfolding chunk_nonce
chunk_nonce-ok salt i h = ground arith

length-nonce_of : (salt : Bytes) (i : ℕ) → 4 ≤ length salt → length (nonce_of salt i) ≡ nonce_size
length-nonce_of salt i h =
    omega (arith, length-append (take 4 salt) (big 8 i), length-take 4 salt, length-big 8 i)

-- Chunks at different places have different nonces.
nonce_of-injective :
    (salt : Bytes) (i j : ℕ) → i < 256 ^ 8 → j < 256 ^ 8 → nonce_of salt i ≡ nonce_of salt j → i ≡ j
nonce_of-injective salt i j hi hj e =
    sym (of_big-big 8 i hi)
    ∙ (ap of_big (append_cancel_left (take 4 salt) (big 8 i) (big 8 j) e) ∙ of_big-big 8 j hj)

module _ (aead : Aead) (law : IsAead aead) (c : ChunkedAesGcm) where
  pub encrypt_chunk-ok :
      (p : Bytes) (i : ℕ) → CanSeal c p i → encrypt_chunk aead c p i ≡ ok (sealed aead c p i)
  unfolding encrypt_chunk sealed
  encrypt_chunk-ok p i h =
      let small : ltb c.chunk_size (length p) ≡ false = ground (arith, h.fits) in
      rw (small, chunk_nonce-ok c.file_salt i h.in_range)

  pub length-sealed :
      (p : Bytes) (i : ℕ)
      → 4 ≤ length c.file_salt
      → length (sealed aead c p i) ≡ length p + chunk_overhead
  unfolding sealed
  length-sealed p i h =
      let nonce : Bytes = nonce_of c.file_salt i in
      omega (
        arith,
        length-append nonce (aead.encrypt c.file_key nonce p),
        length-nonce_of c.file_salt i h,
        law.length-encrypt c.file_key nonce p,
      )

  -- Opening a blob whose nonce is that of another place.
  pub decrypt_sealed :
      (p : Bytes) (i j : ℕ)
      → 4 ≤ length c.file_salt
      → j < 256 ^ 8
      → decrypt_chunk aead c (sealed aead c p i) j
        ≡ (if nonce_of c.file_salt i == nonce_of c.file_salt j then ok p else err nonce_mismatch)
  unfolding decrypt_chunk
  decrypt_sealed p i j salted hj =
      let nonce : Bytes = nonce_of c.file_salt i in
      let ct : Bytes = aead.encrypt c.file_key nonce p in
      let long : ltb (length (sealed aead c p i)) 28 ≡ false =
        ground (arith, length-sealed p i salted) in
      let twelve : length nonce ≡ 12 = length-nonce_of c.file_salt i salted in
      let head : take 12 (sealed aead c p i) ≡ nonce =
        unfold sealed in take-append_of_length nonce ct 12 twelve in
      let body : drop 12 (sealed aead c p i) ≡ ct =
        unfold sealed in drop-append_of_length nonce ct 12 twelve in
      rw (long, chunk_nonce-ok c.file_salt j hj, head, body, law.decrypt-encrypt c.file_key nonce p)

  decrypt-encrypt :
      (p : Bytes) (i : ℕ)
      → CanSeal c p i
      → (blob : Bytes) × (encrypt_chunk aead c p i ≡ ok blob)
        × (length blob ≡ length p + chunk_overhead)
        × (decrypt_chunk aead c blob i ≡ ok p)
  decrypt-encrypt p i h = (
    sealed aead c p i,
    encrypt_chunk-ok p i h,
    length-sealed p i h.salted,
    decrypt_sealed p i i h.salted h.in_range ∙ rw (==_refl (nonce_of c.file_salt i)),
  )

  decrypt-encrypt_ne :
      (p blob : Bytes) (i j : ℕ)
      → CanSeal c p i
      → j < 256 ^ 8
      → i ≢ j
      → encrypt_chunk aead c p i ≡ ok blob
      → decrypt_chunk aead c blob j ≡ err nonce_mismatch
  decrypt-encrypt_ne p blob i j h hj differ e =
      let same : sealed aead c p i ≡ blob = ground (arith, encrypt_chunk-ok p i h) in
      elim (Bool-cases (nonce_of c.file_salt i == nonce_of c.file_salt j)) [
        | inl eq ↦ absurd (
            differ (
              nonce_of-injective c.file_salt i j h.in_range hj
                ((bytes_beq_iff (nonce_of c.file_salt i) (nonce_of c.file_salt j)).0 eq)))
        | inr ne ↦ rw (← same) (decrypt_sealed p i j h.salted hj ∙ rw ne)
      ]

  -- A chunk that fits is sealed into exactly 28 bytes more. Opening the blob at the same place gives the
  -- plaintext back, and at every other place it is refused, before any decryption: chunks cannot be
  -- reordered.
  pub decrypt_chunk-encrypt_chunk :
      (p : Bytes) (i : ℕ)
      → CanSeal c p i
      → (blob : Bytes) × (encrypt_chunk aead c p i ≡ ok blob)
        × (length blob ≡ length p + chunk_overhead)
        × (decrypt_chunk aead c blob i ≡ ok p)
        × ((j : ℕ) → j < 256 ^ 8 → i ≢ j → decrypt_chunk aead c blob j ≡ err nonce_mismatch)
  decrypt_chunk-encrypt_chunk p i h =
      let (blob, sealed_as, long, opens) = decrypt-encrypt p i h in
      (
        blob,
        sealed_as,
        long,
        opens,
        λ j hj differ. decrypt-encrypt_ne p blob i j h hj differ sealed_as,
      )
