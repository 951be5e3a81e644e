-- ===== src/Crypto/Repository/Decrypting.antt =====
-- tgdcfs/crypto/repository.py, `_decrypting_stream`: what the stream yields, however it is cut.
use tgdcfs.Base.{
  take-append, ==_refl, ◌^◌, ℕ, suc, ◌+◌, ◌-◌, ◌*◌, ◌≤◌, ◌<◌, ◌≡◌, refl, ◌∙◌, sym, ap, List, [],
  ◌∷◌, ◌++◌, length, take, drop, min, arith, append_assoc, length-take, length-drop, drop-append_le,
  take-append-drop, drop-drop, ◌^◌,
}
use native.Mathlib.Nat.{add-mul}
use tgdcfs.Base.Result.{ok}
use tgdcfs.Crypto.Bytes.{Bytes}
use tgdcfs.Crypto.Cipher.{Aead, IsAead, ChunkedAesGcm, decrypt_chunk}
use tgdcfs.Crypto.Cipher.Laws.{length-sealed, decrypt_sealed, nonce_of}
use tgdcfs.Crypto.Cipher.Sizes.{n_chunks, n_chunks_least, blobs, blob, piece, length-piece}
use tgdcfs.Crypto.Repository.{Progress}

abbrev pub concat : List Bytes → Bytes
concat [] = []
concat (b ∷ bs) = b ++ concat bs

module _ (aead : Aead) (law : IsAead aead) (c : ChunkedAesGcm) (plain : Bytes)
    (first count head total : ℕ) where
  abbrev cs : ℕ
  cs = c.chunk_size

  -- The requested bytes lie in chunks `first` to `first + count - 1`, `head` bytes into the first one.
  pub record IsRequest : Type 0 where
    pub salted : 4 ≤ length c.file_salt
    pub positive : 0 < c.chunk_size
    pub some_chunk : 0 < count
    pub within : first + count ≤ n_chunks (length plain) c.chunk_size
    pub in_range : n_chunks (length plain) c.chunk_size ≤ 256 ^ 8
    pub in_first : head < c.chunk_size
    pub in_file : first * c.chunk_size + head + total ≤ length plain
    pub in_chunks : head + total ≤ count * c.chunk_size
    pub some_bytes : 0 < total

  abbrev pub wanted : Bytes
  wanted = take total (drop (first * c.chunk_size + head) plain)

  -- What is still to be emitted, from the start of the next chunk.
  abbrev ahead : Progress → Bytes
  ahead p =
      take (total - p.emitted)
        (drop p.trim_head (drop ((first + p.chunks_done) * c.chunk_size) plain))

  pub record IsAt (p : Progress) (rest : Bytes) : Type 0 where
    pub wire : p.buf ++ rest ≡ blobs aead c plain (first + p.chunks_done) (count - p.chunks_done)
    pub index : p.chunk_index ≡ first + p.chunks_done
    pub before_last : p.chunks_done < count
    pub place : p.out ++ ahead p ≡ wanted
    pub position :
        p.emitted < total
        → (first + p.chunks_done) * c.chunk_size + p.trim_head
          ≡ first * c.chunk_size + head + p.emitted
    pub inside : p.trim_head < c.chunk_size

  -- One chunk, decrypted and emitted.
  module _ (w : IsRequest) (p : Progress) (rest : Bytes) (at : IsAt p rest) where
    abbrev pub here : ℕ
    here = first + p.chunks_done

    abbrev tail : Bytes
    tail = drop (here * c.chunk_size) plain

    pub chunk_opens :
        decrypt_chunk aead c (blob aead c plain here) here ≡ ok (piece aead c plain here)
    chunk_opens =
        decrypt_sealed aead law c (piece aead c plain here) here here w.salted
          (omega (arith, at.before_last, w.within, w.in_range))
        ∙ rw (==_refl (nonce_of c.file_salt here)) refl

    -- The bytes ahead are those of this chunk and those after it.
    emitted_piece :
        p.emitted < total
        → ahead p
          ≡ take (total - p.emitted) (drop p.trim_head (piece aead c plain here))
            ++ take
                (total
                  - p.emitted
                  - length (take (total - p.emitted) (drop p.trim_head (piece aead c plain here))))
                (drop ((here + 1) * c.chunk_size) plain)
    emitted_piece more =
        let r : ℕ = total - p.emitted in
        let bytes : Bytes = piece aead c plain here in
        let after : Bytes = drop ((here + 1) * c.chunk_size) plain in
        let cut : tail ≡ bytes ++ after =
          sym (take-append-drop c.chunk_size tail)
          ∙ ap (λ (b : Bytes). bytes ++ b)
              (drop-drop (here * c.chunk_size) c.chunk_size ((here + 1) * c.chunk_size) plain
                (omega arith)) in
        let fits : p.trim_head ≤ length bytes =
          omega
            (arith, length-piece aead c plain here, at.position more, w.in_file, at.inside, more) in
        let left : r - length (drop p.trim_head bytes)
            ≡ r - length (take r (drop p.trim_head bytes)) =
          omega (arith, length-take r (drop p.trim_head bytes)) in
        ap (λ (b : Bytes). take r (drop p.trim_head b)) cut
        ∙ rw
            (
              drop-append_le p.trim_head bytes after fits,
              take-append r (drop p.trim_head bytes) after,
              left,
            )
            refl

    abbrev pub kept : Bytes
    kept = take (total - p.emitted) (drop p.trim_head (piece aead c plain here))

    length-kept :
        length kept ≡ min (total - p.emitted) (length (piece aead c plain here) - p.trim_head)
    length-kept = omega (
      arith,
      length-take (total - p.emitted) (drop p.trim_head (piece aead c plain here)),
      length-drop p.trim_head (piece aead c plain here),
    )

    -- Once the chunk is emitted, what is ahead begins with the next chunk.
    pub placed :
        p.emitted < total
        → (p.out ++ kept)
            ++ take (total - (p.emitted + length kept)) (drop ((here + 1) * c.chunk_size) plain)
          ≡ wanted
    placed more =
        let left : total - (p.emitted + length kept) ≡ total - p.emitted - length kept =
          omega arith in
        rw left (
          append_assoc p.out kept
            (take (total - p.emitted - length kept) (drop ((here + 1) * c.chunk_size) plain))
          ∙ ap (λ (b : Bytes). p.out ++ b) (sym (emitted_piece more))
          ∙ at.place)

    pub moved_on :
        p.emitted < total
        → p.emitted + length kept < total
        → (here + 1) * c.chunk_size ≡ first * c.chunk_size + head + (p.emitted + length kept)
    moved_on more again = omega (
      arith,
      length-kept,
      length-piece aead c plain here,
      at.position more,
      w.in_file,
      at.inside,
      again,
    )

    -- The last chunk holds all that is left to emit.
    pub all_emitted :
        p.emitted < total → p.chunks_done + 1 ≡ count → total ≤ p.emitted + length kept
    all_emitted more last =
        let chunks : (here + 1) * c.chunk_size ≡ first * c.chunk_size + count * c.chunk_size =
          ap (λ (k : ℕ). k * c.chunk_size) (omega (arith, last))
          ∙ add-mul first count c.chunk_size in
        omega (
          arith,
          length-kept,
          length-piece aead c plain here,
          at.position more,
          w.in_file,
          at.inside,
          w.in_chunks,
          chunks,
        )

    -- A chunk that is not the last one is whole.
    pub stride_of : p.chunks_done + 1 < count → length (blob aead c plain here) ≡ c.chunk_size + 28
    stride_of more = omega (
      arith,
      length-sealed aead law c (piece aead c plain here) here w.salted,
      length-piece aead c plain here,
      n_chunks_least (length plain) c.chunk_size (here + 1) w.positive
          (omega (arith, w.within, more)),
    )

    pub wire_next :
        blobs aead c plain here (count - p.chunks_done)
        ≡ blob aead c plain here ++ blobs aead c plain (here + 1) (count - (p.chunks_done + 1))
    wire_next = unfold blobs in ap (λ (k : ℕ). blobs aead c plain here k) left
      where
        left : count - p.chunks_done ≡ suc (count - (p.chunks_done + 1))
        left = omega (arith, at.before_last)
