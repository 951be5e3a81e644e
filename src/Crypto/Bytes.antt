-- ===== src/Crypto/Bytes.antt =====
-- Byte strings, and the big-endian integers of Python's `struct`.
use mathlib.Core.List.{reverse, reverse_aux, reverse-reverse}
use native.Mathlib.Nat.{pow-suc}
use tgdcfs.Base.{
  nat_eq, ℕ, zero, suc, ◌+◌, ◌*◌, ◌/◌, ◌%◌, ◌^◌, ◌<◌, ◌≡◌, refl, ap, List, [], ◌∷◌, ◌++◌, arith,
  length, take, drop, replicate, All, length-append, length-take, length-replicate,
  take-append_length, Bool, true, Eq, ◌==◌, ◌↔◌, ◌&&◌, false,
}

abbrev pub Bytes : Type 0
Bytes = List ℕ

abbrev pub IsBytes : Bytes → Type 0
IsBytes = All (λ b. b < 256)

abbrev pub joined : List Bytes → Bytes
joined [] = []
joined (b ∷ bs) = b ++ joined bs

-- The `width` low bytes of a number, the lowest first.
abbrev pub little : ℕ → ℕ → Bytes
little zero n = []
little (suc width) n = n % 256 ∷ little width (n / 256)

abbrev pub of_little : Bytes → ℕ
of_little [] = 0
of_little (b ∷ bs) = b + 256 * of_little bs

-- `struct.pack(">H" / ">I" / ">Q", n)` of a number in range
unfoldable pub big : ℕ → ℕ → Bytes
big width n = reverse (little width n)

unfoldable pub of_big : Bytes → ℕ
of_big bs = of_little (reverse bs)

-- `raw[begin : begin + count]`
abbrev pub slice : ℕ → ℕ → Bytes → Bytes
slice begin count raw = take count (drop begin raw)

-- `struct.pack("<n>s", raw)`: cut or padded with zeros
abbrev pub pad : ℕ → Bytes → Bytes
pad n raw = take n (raw ++ replicate n 0)

of_little-little : (width n : ℕ) → n < 256 ^ width → of_little (little width n) ≡ n
of_little-little zero n h = omega arith
of_little-little (suc w) n h =
    omega (arith, pow-suc 256 w, of_little-little w (n / 256) (omega (arith, pow-suc 256 w)))

pub of_big-big : (width n : ℕ) → n < 256 ^ width → of_big (big width n) ≡ n
unfolding big of_big
of_big-big w n h = rw reverse-reverse (of_little-little w n h)

length-little : (width n : ℕ) → length (little width n) ≡ width
length-little zero n = refl
length-little (suc w) n = ap suc (length-little w (n / 256))

length-reverse_aux : (xs ys : Bytes) → length (reverse_aux xs ys) ≡ length xs + length ys
length-reverse_aux [] ys = omega arith
length-reverse_aux (x ∷ xs) ys = omega (arith, length-reverse_aux xs (x ∷ ys))

pub length-big : (width n : ℕ) → length (big width n) ≡ width
unfolding big
length-big w n = omega (arith, length-reverse_aux (little w n) [], length-little w n)

reverse_aux-IsBytes : (xs ys : Bytes) → IsBytes xs → IsBytes ys → IsBytes (reverse_aux xs ys)
reverse_aux-IsBytes [] ys hx hy = hy
reverse_aux-IsBytes (x ∷ xs) ys (h, hx) hy = reverse_aux-IsBytes xs (x ∷ ys) hx (h, hy)

little-of_little : (bs : Bytes) → IsBytes bs → little (length bs) (of_little bs) ≡ bs
little-of_little [] h = refl
little-of_little (b ∷ bs) (h, hs) = ground (arith, little-of_little bs hs, quotient)
  where
    quotient : (b + 256 * of_little bs) / 256 ≡ of_little bs
    quotient = omega arith

pub big-of_big :
    (width : ℕ) (bs : Bytes) → IsBytes bs → length bs ≡ width → big width (of_big bs) ≡ bs
unfolding big of_big
big-of_big w bs h e =
    let e' : w ≡ length (reverse bs) = omega (arith, length-reverse_aux bs [], e) in
    rw (e', little-of_little (reverse bs) (reverse_aux-IsBytes bs [] h tt), reverse-reverse)

pub take-IsBytes : (n : ℕ) (bs : Bytes) → IsBytes bs → IsBytes (take n bs)
take-IsBytes zero bs h = tt
take-IsBytes (suc n) [] h = tt
take-IsBytes (suc n) (b ∷ bs) (h, hs) = (h, take-IsBytes n bs hs)

pub drop-IsBytes : (n : ℕ) (bs : Bytes) → IsBytes bs → IsBytes (drop n bs)
drop-IsBytes zero bs h = h
drop-IsBytes (suc n) [] h = tt
drop-IsBytes (suc n) (b ∷ bs) (h, hs) = drop-IsBytes n bs hs

pub length-pad : (n : ℕ) (raw : Bytes) → length (pad n raw) ≡ n
length-pad n raw = omega (
  arith,
  length-take n (raw ++ replicate n 0),
  length-append raw (replicate n 0),
  length-replicate {A = ℕ} n 0,
)

pub pad_full : (n : ℕ) (raw : Bytes) → length raw ≡ n → pad n raw ≡ raw
pad_full n raw e = rw (← e) (take-append_length raw (replicate (length raw) 0))

abbrev pub bytes_beq : Bytes → Bytes → Bool
bytes_beq [] [] = true
bytes_beq (x ∷ xs) (y ∷ ys) = x == y && bytes_beq xs ys
bytes_beq _ _ = false

pub bytes_beq_iff : (xs ys : Bytes) → (bytes_beq xs ys ≡ true) ↔ (xs ≡ ys)
bytes_beq_iff [] [] = ground arith
bytes_beq_iff [] (y ∷ ys) = ground arith
bytes_beq_iff (x ∷ xs) [] = ground arith
bytes_beq_iff (x ∷ xs) (y ∷ ys) = ground (arith, bytes_beq_iff xs ys)

instance abbrev pub bytes_eq : Eq Bytes
bytes_eq = record { eqb = bytes_beq; eqb_iff = bytes_beq_iff }
