-- ===== src/Crypto/Header.antt =====
-- tgdcfs/crypto/header.py: the header at the start of an encrypted file. HMAC-SHA256 is a
-- parameter. Integers are unsigned; `struct.pack` raises an error for one that does not fit its field.
pub mod Laws
pub mod Roundtrip
pub mod Examples
use tgdcfs.Base.{
  ℕ, ◌+◌, ◌*◌, ◌^◌, Bool, ◌&&◌, List, [], ◌∷◌, ◌++◌, ltb, leb, if◌then◌else◌, length, take, drop,
  ◌==◌, Eq, nat_eq, ◌≡◌, ◌↔◌, true, false, arith,
}
use tgdcfs.Base.Result.{Result, ok, err, require, ◌>>=◌, ◌>>◌}
use tgdcfs.Crypto.Bytes.{Bytes, big, of_big, slice, pad, bytes_eq}

abbrev pub header_size : ℕ
header_size = 60

-- "TGFS"
abbrev pub magic : Bytes
magic = 0x54 ∷ 0x47 ∷ 0x46 ∷ 0x53 ∷ []

abbrev pub header_version : ℕ
header_version = 1

abbrev pub default_chunk_size : ℕ
default_chunk_size = 64 * 1024

abbrev pub max_chunk_size : ℕ
max_chunk_size = 16 * 1024 * 1024

abbrev pub file_salt_size : ℕ
file_salt_size = 32

abbrev pub header_mac_size : ℕ
header_mac_size = 16

abbrev pub body_size : ℕ
body_size = 44

pub data Algorithm : Type 0 where
  aes_256_gcm : Algorithm

pub data HeaderError : Type 0 where
  too_short bad_magic bad_version bad_algorithm bad_chunk_size mac_failed struct_error : HeaderError

abbrev pub algorithm_id : Algorithm → ℕ
algorithm_id aes_256_gcm = 1

-- `Algorithm(algo)`
abbrev pub of_algorithm_id : ℕ → Result HeaderError Algorithm
of_algorithm_id algo = if algo == 1 then ok aes_256_gcm else err bad_algorithm

pub record FileHeader : Type 0 where
  pub version : ℕ
  pub algorithm : Algorithm
  pub chunk_size : ℕ
  pub file_salt : Bytes

-- `FileHeader.new`, with the random salt as an argument
unfoldable pub new : Algorithm → ℕ → Bytes → FileHeader
new algorithm chunk_size salt = record {
  version = header_version;
  algorithm = algorithm;
  chunk_size = chunk_size;
  file_salt = salt;
}

-- `struct.pack(">4sHHI32s", …)`
unfoldable pub pack_body : FileHeader → Bytes
unfolding big
pack_body h =
    magic
    ++ (big 2 h.version
        ++ (big 2 (algorithm_id h.algorithm)
            ++ (big 4 h.chunk_size ++ pad file_salt_size h.file_salt)))

fits_fields : FileHeader → Bool
fits_fields h = ltb h.version (256 ^ 2) && ltb h.chunk_size (256 ^ 4)

-- The `hmac.new(file_key, body, sha256).digest()` of the standard library.
abbrev pub Mac : Type 0
Mac = Bytes → Bytes → Bytes

module _ (mac : Mac) where
  abbrev pub header_tag : Bytes → Bytes → Bytes
  header_tag file_key body = take header_mac_size (mac file_key body)

  unfoldable pub serialize : FileHeader → Bytes → Result HeaderError Bytes
  unfolding pack_body fits_fields
  serialize h file_key =
      if fits_fields h
      then (let body = pack_body h in ok (body ++ header_tag file_key body))
      else err struct_error

  unfoldable pub verify : Bytes → Bytes → Result HeaderError (Unit {0})
  verify raw file_key =
      if ltb (length raw) header_size
      then err too_short
      else let body = take body_size raw in
        let tag = slice body_size header_mac_size raw in
        if tag == header_tag file_key body then ok tt else err mac_failed

-- The checks that `parse` makes of the unpacked fields, in its order.
check_fields : Bytes → ℕ → ℕ → ℕ → Bytes → Result HeaderError FileHeader
check_fields magic' version algo chunk_size salt =
    if magic' == magic
    then (if version == header_version
        then (of_algorithm_id algo >>= λ algorithm.
            if leb chunk_size 0
            then err bad_chunk_size
            else if ltb max_chunk_size chunk_size
            then err bad_chunk_size
            else ok (record {
              version = version;
              algorithm = algorithm;
              chunk_size = chunk_size;
              file_salt = salt;
            }))
        else err bad_version)
    else err bad_magic

unfoldable pub parse : Bytes → Result HeaderError FileHeader
unfolding check_fields of_big
parse raw =
    if ltb (length raw) header_size
    then err too_short
    else let body = take body_size raw in
      check_fields (slice 0 4 body) (of_big (slice 4 2 body)) (of_big (slice 6 2 body))
        (of_big (slice 8 4 body)) (slice 12 file_salt_size body)
