-- ===== src/Crypto/Header/Examples.antt =====
-- tgdcfs/crypto/header.py: the theorems at concrete data, with a toy tag.
use tgdcfs.Base.{Bool, true, ◌&&◌, ltb, ◌≡◌, refl, [], ◌∷◌, ◌++◌, arith, length, take, replicate}
use tgdcfs.Base.Result.{ok}
use tgdcfs.Crypto.Bytes.{Bytes, IsBytes}
use tgdcfs.Crypto.Header.{
  FileHeader, Mac, header_size, header_version, aes_256_gcm, serialize, parse, verify, pack_body,
}
use tgdcfs.Crypto.Header.Laws.{IsValid}
use tgdcfs.Crypto.Header.Roundtrip.{parse-serialize, serialize-parse}

abbrev pub toy_mac : Mac
toy_mac = λ key body. replicate 32 5

abbrev pub header : FileHeader
header = record {
  version = header_version;
  algorithm = aes_256_gcm;
  chunk_size = 2;
  file_salt = replicate 32 9;
}

pub header-IsValid : IsValid header
header-IsValid = record {
  version_one = refl;
  positive = omega arith;
  sane = omega arith;
  salted = refl;
}

parse-serialize_example :
    (raw : Bytes) × (serialize toy_mac header (replicate 32 1) ≡ ok raw)
    × (length raw ≡ header_size)
    × ((rest : Bytes)
        → (parse (raw ++ rest) ≡ ok header)
          × (verify toy_mac (raw ++ rest) (replicate 32 1) ≡ ok tt))
parse-serialize_example =
    parse-serialize toy_mac (λ key body. refl) header (replicate 32 1) header-IsValid

abbrev raw_header : Bytes
raw_header = pack_body header ++ replicate 16 5

abbrev all_below : Bytes → Bool
all_below [] = true
all_below (b ∷ bs) = ltb b 256 && all_below bs

all_below-IsBytes : (bs : Bytes) → all_below bs ≡ true → IsBytes bs
all_below-IsBytes [] h = tt
all_below-IsBytes (b ∷ bs) h = (ground arith, all_below-IsBytes bs (ground arith))

raw_header-IsBytes : all_below raw_header ≡ true
unfolding pack_body
raw_header-IsBytes = refl

parses : parse raw_header ≡ ok header
unfolding parse pack_body
parses = refl

verifies : verify toy_mac raw_header (replicate 32 1) ≡ ok tt
unfolding verify pack_body
verifies = refl

serialize-parse_example :
    IsValid header × (serialize toy_mac header (replicate 32 1) ≡ ok (take header_size raw_header))
serialize-parse_example =
    serialize-parse toy_mac (λ key body. refl) raw_header (replicate 32 1) header
      (all_below-IsBytes raw_header raw_header-IsBytes) parses verifies
