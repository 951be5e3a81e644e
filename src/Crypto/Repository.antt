-- ===== src/Crypto/Repository.antt =====
-- tgdcfs/crypto/repository.py: encryption around a file content repository. What the inner repository
-- streams is the list of its pieces; the derivation of keys is a parameter.
pub mod Sizes
pub mod Decrypting
pub mod Streaming
pub mod Reading
pub mod Ranges
pub mod Headers
mod Examples
use tgdcfs.Base.{
  ℕ, zero, suc, ◌+◌, ◌-◌, ◌*◌, ◌/◌, ◌%◌, Bool, true, false, not, ◌&&◌, ◌||◌, Option, none, some,
  List, [], ◌∷◌, ◌++◌, ltb, leb, if◌then◌else◌, length, take, drop, min, String, ◌==◌, nat_eq,
  string_eq, ℤ, pos, is_negative, pos_part,
}
use tgdcfs.Base.Result.{Result, ok, err, ◌>>=◌}
use tgdcfs.Base.Dict
use tgdcfs.Base.Dict.{Dict}
use tgdcfs.Crypto.Bytes.{Bytes, bytes_eq}
use tgdcfs.Crypto.Header.{FileHeader, HeaderError, Mac, header_size, magic, parse, verify}
use tgdcfs.Crypto.Cipher.{
  Aead, ChunkedAesGcm, CipherError, chunk_overhead, decrypt_chunk, plaintext_offset_to_chunk,
  chunk_to_ciphertext_offset,
}

-- A parsed header with its file key; `none` marks a file that is not encrypted.
abbrev pub Detected : Type 0
Detected = Option (FileHeader × Bytes)

pub record HeaderCache : Type 0 where
  pub capacity : ℕ
  pub store : Dict String Detected
  pub order : List String

unfoldable pub lookup_header : String → HeaderCache → Option Detected
lookup_header version_id c = Dict.lookup version_id c.store

-- `self._order.pop(0)` raises on an empty list: `none`.
unfoldable pub put_header : String → Detected → HeaderCache → Option HeaderCache
put_header version_id detected c =
    if Dict.has_key version_id c.store
    then some c
    else if leb c.capacity (length c.store)
    then elim c.order [
      | [] ↦ none
      | oldest ∷ order ↦ some (record c {
        store = Dict.insert version_id detected (Dict.erase oldest c.store);
        order = order ++ (version_id ∷ []);
      })
    ]
    else some (record c {
      store = Dict.insert version_id detected c.store;
      order = c.order ++ (version_id ∷ []);
    })

pub data RepositoryError : Type 0 where
  bad_size : RepositoryError
  short_header : RepositoryError
  bad_header : HeaderError → RepositoryError
  bad_chunk : CipherError → RepositoryError

abbrev pub lift_chunk {ℓ} : {A : Type ℓ} → Result CipherError A → Result RepositoryError A
lift_chunk (ok a) = ok a
lift_chunk (err e) = err (bad_chunk e)

abbrev pub lift_parse {ℓ} : {A : Type ℓ} → Result HeaderError A → Result RepositoryError A
lift_parse (ok a) = ok a
lift_parse (err e) = err (bad_header e)

unfoldable pub plaintext_size_from_ciphertext : ℕ → ℕ → Result RepositoryError ℕ
plaintext_size_from_ciphertext ciphertext_size chunk_size =
    if leb ciphertext_size header_size
    then ok 0
    else let payload = ciphertext_size - header_size in
      let full_stride = chunk_size + chunk_overhead in
      let full_chunks = payload / full_stride in
      let tail = payload % full_stride in
      if tail == 0
      then ok (full_chunks * chunk_size)
      else if ltb tail chunk_overhead
      then err bad_size
      else ok (full_chunks * chunk_size + (tail - chunk_overhead))

-- `async for piece in stream: buf += piece; if len(buf) >= probe_target: break`
unfoldable pub probe : ℕ → Bytes → List Bytes → Bytes
probe target buf [] = buf
probe target buf (piece ∷ pieces) =
    let onward = probe target (buf ++ piece) pieces in
    if leb target (length (buf ++ piece)) then buf ++ piece else onward

module _ (mac : Mac) (derive_file_key : Bytes → Bytes) where
  -- What `_detect` concludes from the bytes that it has read, when they start with the magic.
  unfoldable pub authenticate : Bytes → Result RepositoryError (FileHeader × Bytes)
  authenticate buf =
      if ltb (length buf) header_size
      then err short_header
      else lift_parse (parse (take header_size buf)) >>= λ header.
          lift_parse (verify mac (take header_size buf) (derive_file_key header.file_salt))
          >>= λ done. ok (header, derive_file_key header.file_salt)

  -- `_detect` without its cache: the size of the file, and the pieces that the inner repository streams.
  unfoldable pub detect : ℕ → List Bytes → Result RepositoryError Detected
  detect size pieces =
      if ltb size (length magic)
      then ok none
      else let buf = probe (min header_size size) [] pieces in
        if ltb (length buf) (length magic) || not (take (length magic) buf == magic)
        then ok none
        else authenticate buf >>= λ found. ok (some found)

-- The range of the ciphertext, and what is cut off the chunks that it holds.
pub record Translated : Type 0 where
  pub ct_begin : ℕ
  pub ct_end : ℕ
  pub start_chunk : ℕ
  pub n_chunks : ℕ
  pub trim_head : ℕ
  pub trim_total : ℕ

-- The second step of `get`; `none` is the empty stream. `begin` is not negative.
unfoldable pub translate : ℕ → ℕ → ℕ → ℕ → Option Translated
translate size chunk_size begin end =
    let start = plaintext_offset_to_chunk begin chunk_size in
    let last_chunk = (plaintext_offset_to_chunk end chunk_size).0 in
    some (record {
      ct_begin = header_size + chunk_to_ciphertext_offset start.0 chunk_size;
      ct_end = min (header_size + chunk_to_ciphertext_offset (last_chunk + 1) chunk_size) size - 1;
      start_chunk = start.0;
      n_chunks = last_chunk + 1 - start.0;
      trim_head = start.1;
      trim_total = end + 1 - begin;
    })

unfoldable pub get_range : ℕ → ℕ → ℕ → ℤ → Result RepositoryError (Option Translated)
get_range size chunk_size begin end =
    plaintext_size_from_ciphertext size chunk_size >>= λ plaintext_total.
    let last =
      if is_negative end || leb plaintext_total (pos_part end)
      then plaintext_total - 1
      else pos_part end in
    if leb plaintext_total begin || ltb last begin
    then ok none
    else ok (translate size chunk_size begin last)

-- What changes while the inner stream is decrypted; `out` is all that was yielded.
pub record Progress : Type 0 where
  pub buf : Bytes
  pub chunk_index : ℕ
  pub chunks_done : ℕ
  pub trim_head : ℕ
  pub emitted : ℕ
  pub out : Bytes

module _ (aead : Aead) (c : ChunkedAesGcm) (n_chunks trim_total : ℕ) where
  abbrev pub stride : ℕ
  stride = c.chunk_size + chunk_overhead

  -- `_trim_and_count`, and the yield of what it returns
  unfoldable pub emit : Bytes → Progress → Progress
  emit plaintext p =
      let kept = take (trim_total - p.emitted) (drop p.trim_head plaintext) in
      record p { trim_head = 0; emitted = p.emitted + length kept; out = p.out ++ kept }

  -- The inner loop, with as much fuel as there are chunks before the last one.
  unfoldable pub drain : ℕ → Progress → Result RepositoryError Progress
  drain zero p = ok p
  drain (suc left) p =
      if leb stride (length p.buf)
      then (lift_chunk (decrypt_chunk aead c (take stride p.buf) p.chunk_index) >>= λ plaintext.
          elim (leb trim_total (emit plaintext p).emitted) [
            | true ↦ ok (record (emit plaintext p) {
              buf = drop stride p.buf;
              chunk_index = p.chunk_index + 1;
              chunks_done = p.chunks_done + 1;
            })
            | false ↦ drain left (record (emit plaintext p) {
              buf = drop stride p.buf;
              chunk_index = p.chunk_index + 1;
              chunks_done = p.chunks_done + 1;
            })
          ])
      else ok p

  -- Once everything was emitted, the rest of the stream is read and dropped.
  unfoldable pub feed : List Bytes → Progress → Result RepositoryError Progress
  feed [] p = ok p
  feed (piece ∷ pieces) p = elim (leb trim_total p.emitted) [
    | true ↦ feed pieces p
    | false ↦ drain (n_chunks - 1 - p.chunks_done) (record p { buf = p.buf ++ piece }) >>= λ q.
        feed pieces q
  ]

  unfoldable pub flush : Progress → Result RepositoryError Progress
  flush p =
      if ltb p.chunks_done n_chunks && (ltb 0 (length p.buf) && ltb p.emitted trim_total)
      then (lift_chunk (decrypt_chunk aead c p.buf p.chunk_index) >>= λ plaintext.
          ok (emit plaintext p))
      else ok p

  unfoldable pub decrypting_stream : ℕ → ℕ → List Bytes → Result RepositoryError Bytes
  decrypting_stream start_chunk trim_head pieces =
      feed pieces (record {
        buf = [];
        chunk_index = start_chunk;
        chunks_done = 0;
        trim_head = trim_head;
        emitted = 0;
        out = [];
      })
      >>= λ p. flush p >>= λ q. ok q.out
