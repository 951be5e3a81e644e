-- ===== src/Crypto/Cipher/Sizes.antt =====
-- tgdcfs/crypto/cipher.py: the sizes and offsets that are declared against the bytes of the chunks.
use Prim.Native.Nat.add
use native.Mathlib.Nat.{add-zero, div-add-mod', mul-le-mul_right, add_assoc, le-div_iff_mul-le}
use tgdcfs.Base.{
  ℕ, zero, suc, ◌+◌, ◌-◌, ◌*◌, ◌/◌, ◌%◌, ◌≤◌, ◌<◌, ◌≡◌, sym, [], ◌++◌, if◌then◌else◌, length, take,
  drop, ◌==◌, nat_eq, arith, length-append, length-take, length-drop, append_assoc, min,
}
use tgdcfs.Crypto.Bytes.{Bytes}
use tgdcfs.Crypto.Cipher.{
  Aead, IsAead, ChunkedAesGcm, chunk_overhead, ciphertext_size_for_plaintext,
}
use tgdcfs.Crypto.Cipher.Laws.{sealed, length-sealed}

-- The chunks of a plaintext of this size, the last one perhaps short.
abbrev pub n_chunks : ℕ → ℕ → ℕ
n_chunks size cs = size / cs + (if size % cs == 0 then 0 else 1)

add-one_left : (k : ℕ) → 1 + k ≡ suc k
add-one_left k = omega arith

pub n_chunks_covers : (size cs : ℕ) → 0 < cs → size ≤ n_chunks size cs * cs
n_chunks_covers size cs h = grind arith

pub n_chunks_least : (size cs j : ℕ) → 0 < cs → j < n_chunks size cs → j * cs < size
n_chunks_least size cs j h k = ground (
  arith,
  div-add-mod' size cs,
  le-div_iff_mul-le {x = j} {y = size} h,
  le-div_iff_mul-le {x = j + 1} {y = size} h,
  λ (q : j ≤ size / cs). mul-le-mul_right cs q,
)

module _ (aead : Aead) (c : ChunkedAesGcm) (plain : Bytes) where
  -- Chunk `j` of the plaintext, and on the wire.
  abbrev pub piece : ℕ → Bytes
  piece j = take c.chunk_size (drop (j * c.chunk_size) plain)

  abbrev pub blob : ℕ → Bytes
  blob j = sealed aead c (piece j) j

  -- The `k` chunks from `j` on.
  unfoldable pub blobs : ℕ → ℕ → Bytes
  blobs j zero = []
  blobs j (suc k) = blob j ++ blobs (j + 1) k

  pub length-piece : (j : ℕ) → length (piece j) ≡ min c.chunk_size (length plain - j * c.chunk_size)
  length-piece j = omega (
    arith,
    length-take c.chunk_size (drop (j * c.chunk_size) plain),
    length-drop (j * c.chunk_size) plain,
  )

  pub blobs-append : (j k m : ℕ) → blobs j (k + m) ≡ blobs j k ++ blobs (j + k) m
  unfolding blobs
  blobs-append j zero m = rw (add.zero m, add-zero j)
  blobs-append j (suc k) m =
      rw (add.suc k m, blobs-append (j + 1) k m, add_assoc j 1 k, add-one_left k)
        (sym (append_assoc (blob j) (blobs (j + 1) k) (blobs (j + suc k) m)))

module _ (aead : Aead) (law : IsAead aead) (c : ChunkedAesGcm) (salted : 4 ≤ length c.file_salt)
    (plain : Bytes) where
  pub length-blobs :
      (j k : ℕ)
      → length (blobs aead c plain j k)
        ≡ min ((j + k) * c.chunk_size) (length plain)
          - min (j * c.chunk_size) (length plain)
          + k * chunk_overhead
  unfolding blobs
  length-blobs j zero = omega arith
  length-blobs j (suc k) = omega (
    arith,
    length-append (blob aead c plain j) (blobs aead c plain (j + 1) k),
    length-sealed aead law c (piece aead c plain j) j salted,
    length-piece aead c plain j,
    length-blobs (j + 1) k,
  )

  -- The size that is declared for an upload, before the header, is the number of bytes of all chunks.
  pub length-all_blobs :
      0 < c.chunk_size
      → length (blobs aead c plain 0 (n_chunks (length plain) c.chunk_size))
        ≡ ciphertext_size_for_plaintext (length plain) c.chunk_size
  unfolding ciphertext_size_for_plaintext
  length-all_blobs h = ground (
    arith,
    length-blobs 0 (n_chunks (length plain) c.chunk_size),
    n_chunks_covers (length plain) c.chunk_size h,
  )
