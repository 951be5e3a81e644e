-- ===== src/Crypto/Repository/Examples.antt =====
-- tgdcfs/crypto/repository.py: three bytes in chunks of two, with the toy cipher.
use tgdcfs.Base.{
  ◌+◌, ◌-◌, ◌≡◌, refl, List, [], ◌∷◌, arith, take, drop, replicate, negsuc, some, none,
}
use tgdcfs.Base.Result.{ok}
use tgdcfs.Base.Dict
use tgdcfs.Crypto.Bytes.{Bytes}
use tgdcfs.Crypto.Cipher.Examples.{toy, toy-IsAead, small, three_bytes}
use tgdcfs.Crypto.Stream.{encrypted_size_for}
use tgdcfs.Crypto.Repository.{
  Translated, get_range, decrypting_stream, plaintext_size_from_ciphertext, HeaderCache,
  lookup_header, put_header,
}
use tgdcfs.Crypto.Repository.Headers.{IsFifo, put_header-IsFifo}
use tgdcfs.Crypto.Repository.Sizes.{plaintext_size-encrypted_size}
use tgdcfs.Crypto.Repository.Decrypting.{concat}
use tgdcfs.Crypto.Repository.Ranges.{file, get_range-decrypts}

plaintext_size-encrypted_size_example :
    plaintext_size_from_ciphertext (encrypted_size_for 3 2) 2 ≡ ok 3
plaintext_size-encrypted_size_example = plaintext_size-encrypted_size 3 2 (omega arith)

abbrev stored : Bytes
stored = file toy toy-IsAead small (omega arith) (omega arith) three_bytes (replicate 60 0) refl

get_range-decrypts_example :
    (t : Translated) × (get_range (encrypted_size_for 3 2) 2 1 (negsuc 0) ≡ ok (some t))
    × ((pieces : List Bytes)
        → concat pieces ≡ take (t.ct_end + 1 - t.ct_begin) (drop t.ct_begin stored)
        → decrypting_stream toy small t.n_chunks t.trim_total t.start_chunk t.trim_head pieces
          ≡ ok (20 ∷ 30 ∷ []))
get_range-decrypts_example =
    get_range-decrypts toy toy-IsAead small (omega arith) (omega arith) three_bytes (replicate 60 0)
      refl 1 (negsuc 0) (omega arith) (omega arith) (omega arith)

abbrev two_files : HeaderCache
two_files = record { capacity = 2; store = ("a", none) ∷ ("b", none) ∷ []; order = "a" ∷ "b" ∷ [] }

-- The entry that came first goes, although it was the last one that was asked for.
first_in_first_out :
    put_header "c" none two_files
    ≡ some (record { capacity = 2; store = ("b", none) ∷ ("c", none) ∷ []; order = "b" ∷ "c" ∷ [] })
unfolding put_header Dict.has_key Dict.insert Dict.erase
first_in_first_out = refl

put_header-IsFifo_example :
    (c : HeaderCache) × (put_header "c" none two_files ≡ some c)
    × IsFifo c
    × (lookup_header "c" c ≡ some none)
    × (c.order ≡ "b" ∷ "c" ∷ [])
unfolding Dict.has_key
put_header-IsFifo_example = put_header-IsFifo "c" none two_files (record {
  aligned = refl;
  nodup = (refl, (refl, tt));
  bounded = omega arith;
  roomy = omega arith;
})
