-- ===== src/Crypto/Stream.antt =====
-- tgdcfs/crypto/stream.py: an upload message that encrypts the message that it wraps. A loop that
-- the source may run for long takes fuel; running out of it is an error of its own.
pub mod Laws
pub mod Reads
pub mod Whole
pub mod Sealing
mod Examples
use tgdcfs.Base.{
  ℕ, zero, suc, ◌+◌, ◌-◌, ◌*◌, Bool, true, false, Option, none, some, List, [], ◌∷◌, ◌++◌, ltb, leb,
  if◌then◌else◌, length, take, drop, min, ◌==◌, nat_eq,
}
use tgdcfs.Base.Result.{Result, ok, err, ◌>>=◌}
use tgdcfs.Crypto.Bytes.{Bytes}
use tgdcfs.Crypto.Header.{FileHeader, HeaderError, Mac, header_size, serialize}
use tgdcfs.Crypto.Cipher
use tgdcfs.Crypto.Cipher.{
  Aead, ChunkedAesGcm, CipherError, encrypt_chunk, ciphertext_size_for_plaintext,
}
use tgdcfs.Upload.{Source}

pub data StreamError : Type 0 where
  source_failed : StreamError
  out_of_fuel : StreamError
  bad_header_size : StreamError
  of_header : HeaderError → StreamError
  of_cipher : CipherError → StreamError

abbrev pub lift_cipher {ℓ} : {A : Type ℓ} → Result CipherError A → Result StreamError A
lift_cipher (ok a) = ok a
lift_cipher (err e) = err (of_cipher e)

abbrev pub lift_header {ℓ} : {A : Type ℓ} → Result HeaderError A → Result StreamError A
lift_header (ok a) = ok a
lift_header (err e) = err (of_header e)

-- What does not change while the message is read.
pub record Encrypting : Type 0 where
  pub cipher : ChunkedAesGcm
  pub header_bytes : Bytes
  pub size : ℕ
  pub inner_size : ℕ

unfoldable pub encrypted_size_for : ℕ → ℕ → ℕ
encrypted_size_for plaintext_size chunk_size =
    header_size + ciphertext_size_for_plaintext plaintext_size chunk_size

unfoldable pub wrap : Mac → ℕ → Bytes → FileHeader → Result StreamError Encrypting
wrap mac inner_size file_key header =
    lift_cipher (Cipher.new file_key header.file_salt header.chunk_size) >>= λ cipher.
    lift_header (serialize mac header file_key) >>= λ header_bytes.
    if length header_bytes == header_size
    then ok (record {
      cipher = cipher;
      header_bytes = header_bytes;
      size = header_size + ciphertext_size_for_plaintext inner_size header.chunk_size;
      inner_size = inner_size;
    })
    else err bad_header_size

-- What changes: the source, and the four fields of the streaming state.
pub record State (S : Type 0) : Type 0 where
  pub inner : S
  pub pending : Bytes
  pub chunk_index : ℕ
  pub plaintext_read : ℕ
  pub header_emitted : Bool

abbrev pub initial : {S : Type 0} → S → State S
initial s = record {
  inner = s;
  pending = [];
  chunk_index = 0;
  plaintext_read = 0;
  header_emitted = false;
}

module _ (aead : Aead) (S : Source) (m : Encrypting) where
  -- The call of `open` on the wrapped message is the source's.
  unfoldable pub open_message : State S.State → State S.State
  open_message st =
      if st.header_emitted
      then st
      else record st { pending = m.header_bytes; header_emitted = true }

  -- `while len(buf) < want: piece = await self.inner.read(want - len(buf)) …`
  unfoldable pub gather : ℕ → ℕ → Bytes → S.State → Result StreamError (Bytes × S.State)
  gather zero want buf s = err out_of_fuel
  gather (suc fuel) want buf s = elim (ltb (length buf) want) [
    | false ↦ ok (buf, s)
    | true ↦ elim (S.read (want - length buf) s) [
      | none ↦ err source_failed
      | some (piece, t) ↦ elim piece [
        | [] ↦ ok (buf, t)
        | b ∷ bs ↦ gather fuel want (buf ++ (b ∷ bs)) t
      ]
    ]
  ]

  unfoldable pub read_plaintext_chunk : State S.State → Result StreamError (Bytes × State S.State)
  read_plaintext_chunk st =
      let remaining = m.inner_size - st.plaintext_read in
      if leb remaining 0
      then ok ([], st)
      else let want = min m.cipher.chunk_size remaining in
        gather (want + 1) want [] st.inner >>= λ got.
        ok (got.0, record st { inner = got.1; plaintext_read = st.plaintext_read + length got.0 })

  unfoldable pub refill : Bytes → State S.State → Result StreamError (State S.State)
  refill plaintext_chunk st =
      lift_cipher (encrypt_chunk aead m.cipher plaintext_chunk st.chunk_index) >>= λ encrypted.
      ok (record st { pending = encrypted; chunk_index = st.chunk_index + 1 })

  -- `while len(out) < length`
  unfoldable pub read_loop :
      ℕ → ℕ → Bytes → State S.State → Result StreamError (Bytes × State S.State)
  read_loop zero n out st = err out_of_fuel
  read_loop (suc fuel) n out st = elim (ltb (length out) n) [
    | false ↦ ok (out, st)
    | true ↦ elim st.pending [
      | [] ↦ elim (read_plaintext_chunk st) [
        | err e ↦ err e
        | ok (plaintext_chunk, st') ↦ elim plaintext_chunk [
          | [] ↦ ok (out, st')
          | b ∷ bs ↦ elim (refill (b ∷ bs) st') [
            | err e ↦ err e
            | ok st'' ↦ read_loop fuel n out st''
          ]
        ]
      ]
      | p ∷ ps ↦
          let taken = min (n - length out) (length (p ∷ ps)) in
          read_loop fuel n (out ++ take taken (p ∷ ps))
            (record st { pending = drop taken (p ∷ ps) })
    ]
  ]

  -- A round that drains adds a byte at least, and after a refill the next round drains.
  unfoldable pub read : ℕ → State S.State → Result StreamError (Bytes × State S.State)
  read n st = read_loop (2 * n + 2) n [] st
