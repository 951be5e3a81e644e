-- ===== src/Crypto/Stream/Sealing.antt =====
-- tgdcfs/crypto/stream.py: the whole encrypted file, from `wrap` to the last byte.
use tgdcfs.Base.{
  ◌-◌, if◌then◌else◌, ℕ, ◌+◌, ◌*◌, ◌≤◌, ◌<◌, ◌≡◌, refl, ◌∙◌, ap, List, ◌++◌, length, take, sum,
  arith, ltb, leb, ◌==◌, nat_eq, true, false, length-append, Bool, ◌^◌,
}
use tgdcfs.Base.Result.{Result, ok, err, >>=-eq-ok}
use tgdcfs.Crypto.Bytes.{Bytes}
use tgdcfs.Crypto.Header.{FileHeader, HeaderError, Mac, header_size, serialize}
use tgdcfs.Crypto.Cipher
use tgdcfs.Crypto.Cipher.{
  Aead, IsAead, ChunkedAesGcm, CipherError, ciphertext_size_for_plaintext, bad_salt, bad_chunk_size,
  bad_key,
}
use tgdcfs.Crypto.Cipher.Sizes.{n_chunks, blobs, length-all_blobs}
use tgdcfs.Crypto.Stream.{
  Encrypting, State, lift_cipher, lift_header, wrap, encrypted_size_for, open_message, initial,
  bad_header_size,
}
use tgdcfs.Crypto.Stream.Reads.{IsFor, IsAt}
use tgdcfs.Crypto.Stream.Whole.{reads, reads-ok}
use tgdcfs.Upload.{Source, IsSource}

lift_cipher-eq-ok {ℓ} :
    {A : Type ℓ} (m : Result CipherError A) (a : A) → lift_cipher m ≡ ok a → m ≡ ok a
lift_cipher-eq-ok (ok x) a h = cc
lift_cipher-eq-ok (err e) a h = cc

lift_header-eq-ok {ℓ} :
    {A : Type ℓ} (m : Result HeaderError A) (a : A) → lift_header m ≡ ok a → m ≡ ok a
lift_header-eq-ok (ok x) a h = cc
lift_header-eq-ok (err e) a h = cc

-- What the constructor of the cipher has checked.
record Checked (salt : Bytes) (chunk_size : ℕ) (c : ChunkedAesGcm) : Type 0 where
  salted : 4 ≤ length c.file_salt
  positive : 0 < c.chunk_size
  same_size : c.chunk_size ≡ chunk_size

accepted :
    (a b d : Bool) (c c' : ChunkedAesGcm)
    → (if a
        then (if b then err bad_salt else if d then err bad_chunk_size else ok c)
        else err bad_key)
      ≡ ok c'
    → (b ≡ false) × (d ≡ false) × (c ≡ c')
accepted false b d c c' h = cc
accepted true true d c c' h = cc
accepted true false true c c' h = cc
accepted true false false c c' h = (refl, refl, cc)

new-Checked :
    (key salt : Bytes) (cs : ℕ) (c : ChunkedAesGcm)
    → Cipher.new key salt cs ≡ ok c
    → Checked salt cs c
unfolding Cipher.new
new-Checked key salt cs c h =
    let (long, positive, same) =
      accepted (length key == 32) (ltb (length salt) 4) (leb cs 0)
        (record { file_key = key; file_salt = salt; chunk_size = cs }) c h in
    record {
      salted = rw (← same) (ground arith);
      positive = rw (← same) (ground arith);
      same_size = rw (← same) refl;
    }

sized_header :
    (test : Bool) (m m' : Encrypting)
    → (if test then ok m else err bad_header_size) ≡ ok m'
    → (test ≡ true) × (m ≡ m')
sized_header true m m' h = (refl, cc)
sized_header false m m' h = cc

-- What a message that `wrap` returns has fixed.
record Wrapped (inner_size : ℕ) (header : FileHeader) (m : Encrypting) : Type 0 where
  checked : Checked header.file_salt header.chunk_size m.cipher
  header_length : length m.header_bytes ≡ header_size
  declared : m.size ≡ encrypted_size_for inner_size header.chunk_size
  inner : m.inner_size ≡ inner_size

wrap-Wrapped :
    (mac : Mac) (n : ℕ) (key : Bytes) (header : FileHeader) (m : Encrypting)
    → wrap mac n key header ≡ ok m
    → Wrapped n header m
unfolding wrap encrypted_size_for
wrap-Wrapped mac n key header m h =
    let (c, ec, h1) =
      >>=-eq-ok (lift_cipher (Cipher.new key header.file_salt header.chunk_size)) _ h in
    let (raw, er, h2) = >>=-eq-ok (lift_header (serialize mac header key)) _ h1 in
    let (same_length, same) =
      sized_header (length raw == header_size)
        (record {
          cipher = c;
          header_bytes = raw;
          size = header_size + ciphertext_size_for_plaintext n header.chunk_size;
          inner_size = n;
        })
        m h2 in
    record {
      checked = rw (← same) (
          new-Checked key header.file_salt header.chunk_size c
            (lift_cipher-eq-ok (Cipher.new key header.file_salt header.chunk_size) c ec));
      header_length = rw (← same) (ground arith);
      declared = rw (← same) refl;
      inner = rw (← same) refl;
    }

module _ (aead : Aead) (law : IsAead aead) (S : Source) (left : S.State → Bytes)
    (Ready : S.State → Type 0) (source : IsSource S left Ready) (mac : Mac) where
  -- A message that `wrap` returns for a source of `n` bytes, `n` the number of bytes that the source
  -- really has, and that the counter of the nonce can number, answers any sequence of reads, however
  -- short the reads of the source are: the reads never fail, and what they return together is the
  -- beginning, as long as they ask for, of one fixed file, which is the header and then every chunk of
  -- the plaintext in order; that file is exactly as long as the declared size.
  pub reads-wrap :
      (plain key : Bytes) (header : FileHeader) (m : Encrypting) (s : S.State) (ns : List ℕ)
      → wrap mac (length plain) key header ≡ ok m
      → n_chunks (length plain) header.chunk_size ≤ 256 ^ 8
      → Ready s
      → left s ≡ plain
      → (file : Bytes) × (file
          ≡ m.header_bytes
            ++ blobs aead m.cipher plain 0 (n_chunks (length plain) header.chunk_size))
        × (length file ≡ m.size)
        × (next : State S.State) × (reads aead S m ns (open_message aead S m (initial s))
            ≡ ok (take (sum ns) file, next))
  unfolding open_message encrypted_size_for
  reads-wrap plain key header m s ns h few ready all =
      let made = wrap-Wrapped mac (length plain) key header m h in
      let same : m.cipher.chunk_size ≡ header.chunk_size = made.checked.same_size in
      let zero_first : 0 * m.cipher.chunk_size ≡ 0 = omega arith in
      let st : State S.State = open_message aead S m (initial s) in
      let sealed_all : Bytes =
        blobs aead m.cipher plain 0 (n_chunks (length plain) header.chunk_size) in
      let file : Bytes = m.header_bytes ++ sealed_all in
      let good : IsAt aead law S left Ready source m plain st = record {
        ready = ready;
        unread = all ∙ (rw zero_first refl);
        counted = omega arith;
      } in
      let w : IsFor aead law S left Ready source m plain = record {
        positive = made.checked.positive;
        salted = made.checked.salted;
        sized = made.inner;
        in_range = rw same few;
      } in
      let count : n_chunks (length plain) m.cipher.chunk_size - 0
          ≡ n_chunks (length plain) header.chunk_size =
        rw same (omega arith) in
      let size : length sealed_all
          ≡ ciphertext_size_for_plaintext (length plain) header.chunk_size =
        rw (← same)
          (length-all_blobs aead law m.cipher made.checked.salted plain made.checked.positive) in
      let (next, e) = reads-ok aead law S left Ready source m plain w ns st good in
      (
        file,
        refl,
        omega (
          arith,
          length-append m.header_bytes sealed_all,
          made.header_length,
          made.declared,
          size,
        ),
        next,
        e
            ∙ ap
                (λ (k : ℕ).
                  ok (take (sum ns) (m.header_bytes ++ blobs aead m.cipher plain 0 k), next))
                count,
      )
