-- ===== src/Crypto/Repository/Ranges.antt =====
-- tgdcfs/crypto/repository.py, `get`: from a range of the plaintext to the ciphertext and back.
use native.Mathlib.Nat.{mul-add, div-add-mod', mod-lt, mul-le-mul_right, add-mul}
use tgdcfs.Base.{
  ltb→lt, ℕ, ◌+◌, ◌-◌, ◌*◌, ◌/◌, ◌%◌, ◌≤◌, ◌<◌, ◌≡◌, refl, ◌∙◌, sym, ap, false, List, ◌++◌, ltb,
  leb, length, take, drop, min, arith, Bool-cases, inl, inr, take-append_of_length,
  drop-append_of_length, drop-drop, ℤ, is_negative, pos_part, if◌then◌else◌, ◌||◌, ◌^◌, some,
}
use tgdcfs.Base.Result.{ok}
use tgdcfs.Crypto.Bytes.{Bytes}
use tgdcfs.Crypto.Cipher.{
  Aead, IsAead, ChunkedAesGcm, plaintext_offset_to_chunk, chunk_to_ciphertext_offset,
}
use tgdcfs.Crypto.Cipher.Sizes.{
  n_chunks, n_chunks_covers, n_chunks_least, blobs, blobs-append, length-blobs, length-all_blobs,
}
use tgdcfs.Crypto.Stream.{encrypted_size_for}
use tgdcfs.Crypto.Repository.{Translated, translate, get_range, decrypting_stream}
use tgdcfs.Crypto.Repository.Sizes.{plaintext_size-encrypted_size}
use tgdcfs.Crypto.Repository.Decrypting.{concat, IsRequest}
use tgdcfs.Crypto.Repository.Reading.{decrypting_stream-wanted}

-- The last byte of a request.
abbrev pub last_of : ℕ → ℤ → ℕ
last_of size end = if is_negative end || leb size (pos_part end) then size - 1 else pos_part end

last_of_lt : (size : ℕ) (end : ℤ) → 0 < size → last_of size end < size
last_of_lt size end h = ground arith

module _ (aead : Aead) (law : IsAead aead) (c : ChunkedAesGcm) (salted : 4 ≤ length c.file_salt)
    (positive : 0 < c.chunk_size) (plain header_bytes : Bytes)
    (sized : length header_bytes ≡ 60) where
  abbrev total : ℕ
  total = n_chunks (length plain) c.chunk_size

  abbrev pub file : Bytes
  file = header_bytes ++ blobs aead c plain 0 total

  length-start :
      (j : ℕ)
      → j * c.chunk_size ≤ length plain
      → length (blobs aead c plain 0 j) ≡ j * (c.chunk_size + 28)
  length-start j h =
      omega (arith, length-blobs aead law c salted plain 0 j, mul-add j c.chunk_size 28)

  -- The ciphertext between two chunks.
  slice :
      (j count : ℕ)
      → j * c.chunk_size ≤ length plain
      → j + count ≤ total
      → take (length (blobs aead c plain j count)) (drop (60 + j * (c.chunk_size + 28)) file)
        ≡ blobs aead c plain j count
  slice j count h fits =
      let start : Bytes = blobs aead c plain 0 j in
      let rest : Bytes = blobs aead c plain (j + count) (total - (j + count)) in
      let all : total ≡ j + (count + (total - (j + count))) = omega (arith, fits) in
      let cut : blobs aead c plain 0 total ≡ start ++ (blobs aead c plain j count ++ rest) =
        ap (λ (k : ℕ). blobs aead c plain 0 k) all
        ∙ blobs-append aead c plain 0 j (count + (total - (j + count)))
        ∙ ap (λ (k : ℕ). start ++ blobs aead c plain k (count + (total - (j + count))))
            (omega arith)
        ∙ ap (λ (b : Bytes). start ++ b)
            (blobs-append aead c plain j count (total - (j + count))) in
      ap (λ (b : Bytes). take (length (blobs aead c plain j count)) b)
        (sym (drop-drop 60 (j * (c.chunk_size + 28)) (60 + j * (c.chunk_size + 28)) file refl)
          ∙ ap (λ (b : Bytes). drop (j * (c.chunk_size + 28)) b)
              (drop-append_of_length header_bytes (blobs aead c plain 0 total) 60 sized ∙ cut)
          ∙ drop-append_of_length start (blobs aead c plain j count ++ rest)
              (j * (c.chunk_size + 28)) (length-start j h))
      ∙ take-append_of_length (blobs aead c plain j count) rest
          (length (blobs aead c plain j count)) refl

  -- A request for the bytes from `begin` to `last`.
  module _ (begin last : ℕ) (proper : begin ≤ last) (inside : last < length plain)
      (few : total ≤ 256 ^ 8) where
    abbrev j : ℕ
    j = begin / c.chunk_size

    abbrev count : ℕ
    count = last / c.chunk_size + 1 - j

    first_le : j * c.chunk_size + begin % c.chunk_size ≡ begin
    first_le = div-add-mod' begin c.chunk_size

    last_le : last / c.chunk_size * c.chunk_size + last % c.chunk_size ≡ last
    last_le = div-add-mod' last c.chunk_size

    ordered : j ≤ last / c.chunk_size
    ordered = grind arith

    last_in : last / c.chunk_size + 1 ≤ total
    last_in = elim (Bool-cases (ltb (last / c.chunk_size) total)) [
      | inl below ↦ ground arith
      | inr above ↦ ground (
        arith,
        n_chunks_covers (length plain) c.chunk_size positive,
        last_le,
        λ (q : total ≤ last / c.chunk_size). mul-le-mul_right c.chunk_size q,
      )
    ]

    chunks_end : (j + count) * c.chunk_size ≡ last / c.chunk_size * c.chunk_size + c.chunk_size
    chunks_end =
        ap (λ (k : ℕ). k * c.chunk_size) (omega (arith, ordered))
        ∙ add-mul (last / c.chunk_size) 1 c.chunk_size
        ∙ omega arith

    request : IsRequest aead law c plain j count (begin % c.chunk_size) (last + 1 - begin)
    request = record {
      salted = salted;
      positive = positive;
      some_chunk = omega (arith, ordered);
      within = omega (arith, ordered, last_in);
      in_range = few;
      in_first = mod-lt begin positive;
      in_file = omega (arith, first_le);
      in_chunks = omega (
        arith,
        first_le,
        last_le,
        mod-lt last positive,
        chunks_end,
        add-mul j count c.chunk_size,
      );
      some_bytes = omega arith;
    }

    -- The range of the ciphertext has as many bytes as the chunks on the wire.
    length-slice :
        min
            (60 + (last / c.chunk_size + 1) * (c.chunk_size + 28))
            (encrypted_size_for (length plain) c.chunk_size)
          - 1
          + 1
          - (60 + j * (c.chunk_size + 28))
        ≡ length (blobs aead c plain j count)
    length-slice =
        let k : ℕ = last / c.chunk_size + 1 in
        let size : encrypted_size_for (length plain) c.chunk_size
            ≡ 60 + length (blobs aead c plain 0 total) =
          unfold encrypted_size_for in
          ap (λ (x : ℕ). 60 + x) (sym (length-all_blobs aead law c salted plain positive)) in
        let same : j + count ≡ k = omega (arith, ordered) in
        let same_end : (j + count) * c.chunk_size ≡ k * c.chunk_size =
          ap (λ (x : ℕ). x * c.chunk_size) same in
        let whole = length-blobs aead law c salted plain 0 total in
        let part = length-blobs aead law c salted plain j count in
        elim (Bool-cases (ltb k total)) [
          | inl below ↦ omega (
            arith,
            size,
            whole,
            part,
            same,
            same_end,
            mul-add k c.chunk_size 28,
            mul-add j c.chunk_size 28,
            first_le,
            ordered,
            n_chunks_covers (length plain) c.chunk_size positive,
            n_chunks_least (length plain) c.chunk_size k positive (ground arith),
            ltb→lt k total below,
          )
          | inr equal ↦
              let all : k ≡ total = ground (arith, last_in) in
              omega (
                arith,
                size,
                whole,
                part,
                same,
                same_end,
                mul-add k c.chunk_size 28,
                mul-add j c.chunk_size 28,
                first_le,
                ordered,
                n_chunks_covers (length plain) c.chunk_size positive,
                ap (λ (x : ℕ). x * c.chunk_size) all,
                all,
              )
        ]

    decrypts :
        (pieces : List Bytes)
        → concat pieces
          ≡ take
              (min
                  (60 + (last / c.chunk_size + 1) * (c.chunk_size + 28))
                  (encrypted_size_for (length plain) c.chunk_size)
                - 1
                + 1
                - (60 + j * (c.chunk_size + 28)))
              (drop (60 + j * (c.chunk_size + 28)) file)
        → decrypting_stream aead c count (last + 1 - begin) j (begin % c.chunk_size) pieces
          ≡ ok (take (last + 1 - begin) (drop begin plain))
    decrypts pieces h =
        decrypting_stream-wanted aead law c plain j count (begin % c.chunk_size) (last + 1 - begin)
          request pieces
          (h
            ∙ ap (λ (k : ℕ). take k (drop (60 + j * (c.chunk_size + 28)) file)) length-slice
            ∙ slice j count (omega (arith, first_le)) (omega (arith, ordered, last_in)))
        ∙ ap (λ (k : ℕ). ok (take (last + 1 - begin) (drop k plain))) first_le

  -- A request that begins in the file and does not end before it begins is translated to a range of the
  -- encrypted file, such that, however the inner repository cuts the bytes of that range into pieces,
  -- decrypting them gives exactly the requested bytes of the plaintext; an end that is negative or past
  -- the file stands for the last byte. The size that is known is that of the encrypted file.
  pub get_range-decrypts :
      (begin : ℕ) (end : ℤ)
      → begin ≤ last_of (length plain) end
      → begin < length plain
      → total ≤ 256 ^ 8
      → (t : Translated) × (get_range
            (encrypted_size_for (length plain) c.chunk_size)
            c.chunk_size
            begin
            end
          ≡ ok (some t))
        × ((pieces : List Bytes)
            → concat pieces ≡ take (t.ct_end + 1 - t.ct_begin) (drop t.ct_begin file)
            → decrypting_stream aead c t.n_chunks t.trim_total t.start_chunk t.trim_head pieces
              ≡ ok (take (last_of (length plain) end + 1 - begin) (drop begin plain)))
  unfolding get_range translate plaintext_offset_to_chunk chunk_to_ciphertext_offset
  get_range-decrypts begin end proper inside few =
      let last : ℕ = last_of (length plain) end in
      let n : ℕ = length plain in
      let below : last < n = last_of_lt n end (omega (arith, inside)) in
      let not_empty : leb n begin ≡ false = ground arith in
      let not_before : ltb last begin ≡ false = ground arith in
      (
        record {
          ct_begin = 60 + begin / c.chunk_size * (c.chunk_size + 28);
          ct_end =
              min (60 + (last / c.chunk_size + 1) * (c.chunk_size + 28))
                (encrypted_size_for n c.chunk_size)
              - 1;
          start_chunk = begin / c.chunk_size;
          n_chunks = last / c.chunk_size + 1 - begin / c.chunk_size;
          trim_head = begin % c.chunk_size;
          trim_total = last + 1 - begin;
        },
        rw (plaintext_size-encrypted_size n c.chunk_size positive, not_empty, not_before) refl,
        decrypts begin last proper below few,
      )
