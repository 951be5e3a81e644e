-- ===== src/Crypto/Cipher.antt =====
-- tgdcfs/crypto/cipher.py: chunks of an encrypted file and where they lie. AES-GCM is a parameter.
-- Offsets and sizes are not negative: the guards against negative ones have no case here.
pub mod Laws
pub mod Sizes
pub mod Examples
use tgdcfs.Base.{
  ℕ, ◌+◌, ◌-◌, ◌*◌, ◌/◌, ◌%◌, ◌^◌, ◌≡◌, Bool, List, [], ◌∷◌, ◌++◌, Option, none, some, ltb, leb,
  if◌then◌else◌, length, take, drop, ◌==◌, nat_eq,
}
use tgdcfs.Base.Result.{Result, ok, err, ◌>>=◌}
use tgdcfs.Crypto.Bytes.{Bytes, big, bytes_eq}

abbrev pub nonce_size : ℕ
nonce_size = 12

abbrev pub tag_size : ℕ
tag_size = 16

abbrev pub chunk_overhead : ℕ
chunk_overhead = nonce_size + tag_size

pub data CipherError : Type 0 where
  bad_key bad_salt bad_chunk_size bad_index too_large too_short nonce_mismatch not_authentic :
      CipherError

-- `AESGCM`: key, nonce and text; `decrypt` gives `none` where it raises `InvalidTag`.
pub record Aead : Type 0 where
  pub encrypt : Bytes → Bytes → Bytes → Bytes
  pub decrypt : Bytes → Bytes → Bytes → Option Bytes

-- What its documentation promises.
pub record IsAead (aead : Aead) : Type 0 where
  pub decrypt-encrypt :
      (key nonce plain : Bytes) → aead.decrypt key nonce (aead.encrypt key nonce plain) ≡ some plain
  pub length-encrypt :
      (key nonce plain : Bytes) → length (aead.encrypt key nonce plain) ≡ length plain + tag_size

unfoldable pub chunk_nonce : Bytes → ℕ → Result CipherError Bytes
chunk_nonce file_salt chunk_index =
    if ltb (256 ^ 8 - 1) chunk_index
    then err bad_index
    else ok (take 4 file_salt ++ big 8 chunk_index)

pub record ChunkedAesGcm : Type 0 where
  pub file_key : Bytes
  pub file_salt : Bytes
  pub chunk_size : ℕ

-- The constructor with the checks of `__post_init__`
unfoldable pub new : Bytes → Bytes → ℕ → Result CipherError ChunkedAesGcm
new file_key file_salt chunk_size =
    if length file_key == 32
    then (if ltb (length file_salt) 4
        then err bad_salt
        else if leb chunk_size 0
        then err bad_chunk_size
        else ok (record { file_key = file_key; file_salt = file_salt; chunk_size = chunk_size }))
    else err bad_key

module _ (aead : Aead) where
  unfoldable pub encrypt_chunk : ChunkedAesGcm → Bytes → ℕ → Result CipherError Bytes
  encrypt_chunk c plaintext chunk_index =
      if ltb c.chunk_size (length plaintext)
      then err too_large
      else chunk_nonce c.file_salt chunk_index >>= λ nonce.
          ok (nonce ++ aead.encrypt c.file_key nonce plaintext)

  abbrev pub opened : Option Bytes → Result CipherError Bytes
  opened none = err not_authentic
  opened (some plaintext) = ok plaintext

  unfoldable pub decrypt_chunk : ChunkedAesGcm → Bytes → ℕ → Result CipherError Bytes
  decrypt_chunk c blob chunk_index =
      if ltb (length blob) chunk_overhead
      then err too_short
      else let nonce = take nonce_size blob in
        let ct_and_tag = drop nonce_size blob in
        chunk_nonce c.file_salt chunk_index >>= λ expected.
        if nonce == expected
        then opened (aead.decrypt c.file_key nonce ct_and_tag)
        else err nonce_mismatch

abbrev pub ciphertext_chunk_size : ℕ → ℕ
ciphertext_chunk_size plaintext_chunk_size = plaintext_chunk_size + chunk_overhead

-- `divmod` by a positive chunk size
unfoldable pub ciphertext_size_for_plaintext : ℕ → ℕ → ℕ
ciphertext_size_for_plaintext plaintext_size chunk_size =
    if plaintext_size == 0
    then 0
    else let n_chunks =
        plaintext_size / chunk_size + (if plaintext_size % chunk_size == 0 then 0 else 1) in
      plaintext_size + n_chunks * chunk_overhead

unfoldable pub plaintext_offset_to_chunk : ℕ → ℕ → ℕ × ℕ
plaintext_offset_to_chunk offset chunk_size = (offset / chunk_size, offset % chunk_size)

unfoldable pub chunk_to_ciphertext_offset : ℕ → ℕ → ℕ
chunk_to_ciphertext_offset chunk_index chunk_size = chunk_index * (chunk_size + chunk_overhead)
