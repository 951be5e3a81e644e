-- ===== src/Crypto/Repository/Sizes.antt =====
-- tgdcfs/crypto/repository.py: the size of the plaintext is recovered from that of the ciphertext.
use native.Mathlib.Nat.{
  add-zero, mul-add-div_right, mul-add-mod_self_right, div-eq_of_lt, mod-eq_of_lt, div-add-mod',
  mul-add, mod-lt,
}
use tgdcfs.Base.{
  Bool-cases, inl, inr, false, ap, ◌∙◌, if◌then◌else◌, ℕ, ◌+◌, ◌-◌, ◌*◌, ◌/◌, ◌%◌, ◌<◌, ◌≡◌, refl,
  arith, ltb, leb, ◌==◌, nat_eq,
}
use tgdcfs.Base.Result.{ok, err}
use tgdcfs.Crypto.Header.{header_size}
use tgdcfs.Crypto.Cipher.{ciphertext_size_for_plaintext}
use tgdcfs.Crypto.Stream.{encrypted_size_for}
use tgdcfs.Crypto.Repository.{plaintext_size_from_ciphertext, bad_size}

-- The bytes of so many full chunks, and of a last one that is short.
recovered :
    (size cs q tail : ℕ)
    → 0 < cs
    → header_size < size
    → size - header_size ≡ q * (cs + 28) + tail
    → tail < cs + 28
    → plaintext_size_from_ciphertext size cs ≡ (
        if tail == 0
        then ok (q * cs)
        else if ltb tail 28
        then err bad_size
        else ok (q * cs + (tail - 28)))
unfolding plaintext_size_from_ciphertext
recovered size cs q tail h some_bytes split short =
    let stride : 0 < cs + 28 = omega arith in
    let more : leb size header_size ≡ false = ground arith in
    let quotient : (q * (cs + 28) + tail) / (cs + 28) ≡ q =
      mul-add-div_right stride q tail ∙ rw (div-eq_of_lt short) (add-zero q) in
    let remainder : (q * (cs + 28) + tail) % (cs + 28) ≡ tail =
      mul-add-mod_self_right q (cs + 28) tail ∙ mod-eq_of_lt short in
    rw (more, split, quotient, remainder) refl

empty_size : (cs : ℕ) → plaintext_size_from_ciphertext 60 cs ≡ ok 0
unfolding plaintext_size_from_ciphertext
empty_size cs = refl

-- For every size of a plaintext and every positive size of a chunk, the size of the encrypted file
-- leads back to the size of the plaintext, without an error.
pub plaintext_size-encrypted_size :
    (n cs : ℕ) → 0 < cs → plaintext_size_from_ciphertext (encrypted_size_for n cs) cs ≡ ok n
unfolding encrypted_size_for ciphertext_size_for_plaintext
plaintext_size-encrypted_size n cs h =
    let q : ℕ = n / cs in
    let r : ℕ = n % cs in
    let whole : q * cs + r ≡ n = div-add-mod' n cs in
    let wide : q * (cs + 28) ≡ q * cs + q * 28 = mul-add q cs 28 in
    let below : r < cs = mod-lt n h in
    elim (Bool-cases (n == 0)) [
      | inl none_left ↦ rw none_left (empty_size cs ∙ ap (λ (k : ℕ). ok k) (ground arith))
      | inr some_left ↦ elim (Bool-cases (r == 0)) [
        | inl full ↦
            let last : r ≡ 0 = ground arith in
            rw (some_left, full)
              (recovered (60 + (n + (q + 0) * 28)) cs q 0 h (ground arith)
                  (omega (arith, whole, wide, last)) (omega arith)
                ∙ ap (λ (k : ℕ). ok k) (omega (arith, whole, last)))
        | inr short ↦
            let some_tail : (r + 28 == 0) ≡ false = ground arith in
            let long_tail : ltb (r + 28) 28 ≡ false = ground arith in
            rw (some_left, short)
              (recovered (60 + (n + (q + 1) * 28)) cs q (r + 28) h (ground arith)
                  (omega (arith, whole, wide)) (omega (arith, below))
                ∙ rw (some_tail, long_tail) (ap (λ (k : ℕ). ok k) (omega (arith, whole))))
      ]
    ]
