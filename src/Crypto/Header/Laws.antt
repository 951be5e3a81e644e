-- ===== src/Crypto/Header/Laws.antt =====
-- tgdcfs/crypto/header.py: what is read back from a header.
use tgdcfs.Base.{
  take-append_of_length, ◌∙◌, drop-append_length, subst, append-nil, ℕ, ◌≤◌, ◌<◌, ◌≡◌, refl, [],
  ◌++◌, ltb, length, take, false, arith, length-append, take-append_length, append_assoc,
}
use tgdcfs.Base.Result.{ok}
use tgdcfs.Crypto.Bytes.{
  Bytes, big, of_big, slice, pad, bytes_eq, of_big-big, length-big, length-pad, pad_full,
}
use tgdcfs.Crypto.Header.{
  algorithm_id, FileHeader, header_version, max_chunk_size, file_salt_size, body_size, magic,
  pack_body, check_fields, parse,
}

-- What `parse` demands of a header, and what `FileHeader.new` gives with a sane chunk size.
pub record IsValid (h : FileHeader) : Type 0 where
  pub version_one : h.version ≡ header_version
  pub positive : 0 < h.chunk_size
  pub sane : h.chunk_size ≤ max_chunk_size
  pub salted : length h.file_salt ≡ file_salt_size

pub length-pack_body : (h : FileHeader) → length (pack_body h) ≡ body_size
unfolding pack_body
length-pack_body h = omega (arith, length-pad file_salt_size h.file_salt)

pub slice-append :
    (xs ys zs : Bytes) (n w : ℕ) → length xs ≡ n → length ys ≡ w → slice n w (xs ++ (ys ++ zs)) ≡ ys
slice-append xs ys zs n w p q =
    rw (← p, ← q, drop-append_length xs (ys ++ zs)) (take-append_length ys zs)

module _ (m v a c s : Bytes) (lm : length m ≡ 4) (lv : length v ≡ 2) (la : length a ≡ 2) where
  fields_at :
      (lc : length c ≡ 4)
      → (ls : length s ≡ 32)
      → let body : Bytes = m ++ (v ++ (a ++ (c ++ s))) in
        (slice 0 4 body ≡ m)
        × (slice 4 2 body ≡ v)
        × (slice 6 2 body ≡ a)
        × (slice 8 4 body ≡ c)
        × (slice 12 32 body ≡ s)
  fields_at lc ls = (
    slice-append [] m (v ++ (a ++ (c ++ s))) 0 4 refl lm,
    slice-append m v (a ++ (c ++ s)) 4 2 lm lv,
    subst (λ x. slice 6 2 x ≡ a) {x = (m ++ v) ++ (a ++ (c ++ s))} {y = m ++ (v ++ (a ++ (c ++ s)))}
        (simp append_assoc)
        (slice-append (m ++ v) a (c ++ s) 6 2 (omega (arith, length-append m v)) la),
    subst (λ x. slice 8 4 x ≡ c) {x = (m ++ (v ++ a)) ++ (c ++ s)} {y = m ++ (v ++ (a ++ (c ++ s)))}
        (simp append_assoc)
        (slice-append (m ++ (v ++ a)) c s 8 4
          (omega (arith, length-append m (v ++ a), length-append v a)) lc),
    subst (λ x. slice 12 32 x ≡ s) {x = (m ++ (v ++ (a ++ c))) ++ (s ++ [])}
        {y = m ++ (v ++ (a ++ (c ++ s)))} (simp (append_assoc, append-nil))
        (slice-append (m ++ (v ++ (a ++ c))) s [] 12 32
          (omega
            (arith, length-append m (v ++ (a ++ c)), length-append v (a ++ c), length-append a c))
          ls),
  )

parse-eq-check_fields :
    (raw m v a c s : Bytes)
    → 60 ≤ length raw
    → take 44 raw ≡ m ++ (v ++ (a ++ (c ++ s)))
    → length m ≡ 4
    → length v ≡ 2
    → length a ≡ 2
    → length c ≡ 4
    → length s ≡ 32
    → parse raw ≡ check_fields m (of_big v) (of_big a) (of_big c) s
unfolding parse
parse-eq-check_fields raw m v a c s long e lm lv la lc ls =
    let (e₀, e₁, e₂, e₃, e₄) = fields_at m v a c s lm lv la lc ls in
    rw (le→ltb_false long, e, e₀, e₁, e₂, e₃, e₄)
  where
    le→ltb_false : 60 ≤ length raw → ltb (length raw) 60 ≡ false
    le→ltb_false h = ground arith

check_fields-IsValid :
    (h : FileHeader)
    → IsValid h
    → check_fields magic h.version (algorithm_id h.algorithm) h.chunk_size h.file_salt ≡ ok h
unfolding check_fields
check_fields-IsValid h v = ground arith

pub parse_body :
    (h : FileHeader) (rest : Bytes)
    → IsValid h
    → 16 ≤ length rest
    → parse (pack_body h ++ rest) ≡ ok h
unfolding pack_body
parse_body h rest v long =
    let body : Bytes = pack_body h in
    parse-eq-check_fields (body ++ rest) magic (big 2 h.version) (big 2 (algorithm_id h.algorithm))
      (big 4 h.chunk_size) (pad 32 h.file_salt)
      (omega (arith, length-append body rest, length-pack_body h))
      (take-append_of_length body rest 44 (length-pack_body h)) refl (length-big 2 h.version)
      (length-big 2 (algorithm_id h.algorithm)) (length-big 4 h.chunk_size)
      (length-pad 32 h.file_salt)
    ∙ rw
        (
          of_big-big 2 h.version (omega (arith, v.version_one)),
          of_big-big 2 (algorithm_id h.algorithm) (ground arith),
          of_big-big 4 h.chunk_size (omega (arith, v.sane)),
          pad_full 32 h.file_salt v.salted,
        )
        (check_fields-IsValid h v)
