-- ===== src/Crypto/Cipher/Examples.antt =====
-- tgdcfs/crypto/cipher.py: the theorems at concrete data, with a toy cipher that appends a tag.
use tgdcfs.Base.{
  ℕ, ◌<◌, ◌^◌, ◌≢◌, ◌+◌, ◌-◌, ◌≡◌, [], ◌∷◌, ◌++◌, some, arith, length, take, replicate,
  length-append, take-append_of_length, ap,
}
use tgdcfs.Base.Result.{ok, err}
use tgdcfs.Crypto.Bytes.{Bytes}
use tgdcfs.Crypto.Cipher.{
  Aead, IsAead, ChunkedAesGcm, encrypt_chunk, decrypt_chunk, chunk_overhead, nonce_mismatch,
  ciphertext_size_for_plaintext,
}
use tgdcfs.Crypto.Cipher.Laws.{CanSeal, decrypt_chunk-encrypt_chunk}
use tgdcfs.Crypto.Cipher.Sizes.{blobs, n_chunks, length-all_blobs}

abbrev pub toy : Aead
toy = record {
  encrypt = λ key nonce plain. plain ++ replicate 16 0;
  decrypt = λ key nonce text. some (take (length text - 16) text);
}

pub toy-IsAead : IsAead toy
toy-IsAead = record {
  decrypt-encrypt = λ key nonce plain.
      ap (λ (b : Bytes). some b)
        (take-append_of_length plain (replicate 16 0) (length (plain ++ replicate 16 0) - 16)
          (omega (arith, length-append plain (replicate 16 0))));
  length-encrypt = λ key nonce plain. length-append plain (replicate 16 0);
}

abbrev pub small : ChunkedAesGcm
small = record { file_key = replicate 32 7; file_salt = 1 ∷ 2 ∷ 3 ∷ 4 ∷ 5 ∷ []; chunk_size = 2 }

abbrev pub three_bytes : Bytes
three_bytes = 10 ∷ 20 ∷ 30 ∷ []

can_seal : CanSeal small (10 ∷ 20 ∷ []) 0
can_seal = record { salted = omega arith; fits = omega arith; in_range = omega arith }

decrypt_chunk-encrypt_chunk_example :
    (blob : Bytes) × (encrypt_chunk toy small (10 ∷ 20 ∷ []) 0 ≡ ok blob)
    × (length blob ≡ 2 + chunk_overhead)
    × (decrypt_chunk toy small blob 0 ≡ ok (10 ∷ 20 ∷ []))
    × ((j : ℕ) → j < 256 ^ 8 → 0 ≢ j → decrypt_chunk toy small blob j ≡ err nonce_mismatch)
decrypt_chunk-encrypt_chunk_example =
    decrypt_chunk-encrypt_chunk toy toy-IsAead small (10 ∷ 20 ∷ []) 0 can_seal

length-all_blobs_example :
    length (blobs toy small three_bytes 0 (n_chunks 3 2)) ≡ ciphertext_size_for_plaintext 3 2
length-all_blobs_example =
    length-all_blobs toy toy-IsAead small (omega arith) three_bytes (omega arith)
