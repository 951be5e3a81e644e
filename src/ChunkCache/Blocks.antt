-- ===== src/ChunkCache/Blocks.antt =====
-- tgdcfs/utils/chunk_cache.py, `block_range`, `block_bounds` and `block_length`: a document as
-- blocks. Offsets are not negative; the last byte of a block may be before its first.
use native.Mathlib.Nat.{le-div_iff_mul-le, div-lt_iff_lt-mul}
use tgdcfs.Base.{
  ℕ, zero, suc, ◌+◌, ◌-◌, ◌*◌, ◌/◌, ◌≤◌, ◌<◌, ◌≡◌, ◌↔◌, ap, ◌∙◌, true, List, [], ◌∷◌, arith, min,
  sum, map, contains, nat_eq, ℤ, pos, pos_part, sub_ℕ, ◌+ℤ◌, ◌-ℤ◌, ◌≤ℤ◌,
}

-- `range(start, start + count)`
unfoldable pub range : ℕ → ℕ → List ℕ
range start zero = []
range start (suc count) = start ∷ range (start + 1) count

-- `range(begin // block_size, end // block_size + 1)`
unfoldable pub block_range : ℕ → ℕ → ℕ → List ℕ
unfolding range
block_range begin end block_size =
    range (begin / block_size) (end / block_size + 1 - begin / block_size)

-- The inclusive bounds of a block; the end may be -1.
unfoldable pub block_bounds : ℕ → ℕ → ℕ → ℕ × ℤ
block_bounds index block_size total_size =
    let begin = index * block_size in (begin, sub_ℕ (min (begin + block_size) total_size) 1)

-- `max(0, end - begin + 1)`
unfoldable pub block_length : ℕ → ℕ → ℕ → ℕ
unfolding block_bounds ◌+ℤ◌ ◌-ℤ◌
block_length index block_size total_size =
    let (begin, end) = block_bounds index block_size total_size in
    pos_part (end -ℤ pos begin +ℤ pos 1)

block_length-eq : (i bs total : ℕ) → block_length i bs total ≡ min (i * bs + bs) total - i * bs
unfolding block_length
block_length-eq i bs total = ground arith

contains-range :
    (start count i : ℕ)
    → (contains (range start count) i ≡ true) ↔ ((start ≤ i) × (i < start + count))
unfolding range
contains-range start zero i = (λ h. ground arith, λ h. ground arith)
contains-range start (suc count) i = ground (arith, contains-range (start + 1) count i)

div_le : (bs x y : ℕ) → 0 < bs → x ≤ y → x / bs ≤ y / bs
div_le bs x y p h = grind arith

block_range_iff :
    (begin end bs total i : ℕ)
    → 0 < bs
    → begin ≤ end
    → end < total
    → (contains (block_range begin end bs) i ≡ true)
      ↔ (((block_bounds i bs total).0 ≤ end) × (pos begin ≤ℤ (block_bounds i bs total).1))
unfolding block_range block_bounds
block_range_iff begin end bs total i p h k = ground (
  arith,
  contains-range (begin / bs) (end / bs + 1 - begin / bs) i,
  div_le bs begin end p h,
  le-div_iff_mul-le {x = i} {y = end} p,
  div-lt_iff_lt-mul {x = begin} {y = i + 1} p,
)

sum-block_length :
    (bs total start count : ℕ)
    → 0 < bs
    → sum (map (λ i. block_length i bs total) (range start count))
      ≡ min ((start + count) * bs) total - min (start * bs) total
unfolding range
sum-block_length bs total start zero p = omega arith
sum-block_length bs total start (suc count) p =
    omega (arith, block_length-eq start bs total, sum-block_length bs total (start + 1) count p)

-- The blocks of a range of bytes are exactly those that hold a byte of it: a block is listed if and
-- only if its bounds, clipped to the document, meet the range. Their lengths add up to the bytes from the
-- begin of the first block to the end of the last, or of the document. The range lies in the document, and a
-- block is not empty.
pub block_range-partition :
    (begin end bs total : ℕ)
    → 0 < bs
    → begin ≤ end
    → end < total
    → ((i : ℕ)
        → (contains (block_range begin end bs) i ≡ true)
          ↔ (((block_bounds i bs total).0 ≤ end) × (pos begin ≤ℤ (block_bounds i bs total).1)))
      × (sum (map (λ i. block_length i bs total) (block_range begin end bs))
          ≡ min ((end / bs + 1) * bs) total - begin / bs * bs)
unfolding block_range
block_range-partition begin end bs total p h k =
    let order : begin / bs ≤ end / bs = div_le bs begin end p h in
    let upto : begin / bs + (end / bs + 1 - begin / bs) ≡ end / bs + 1 = omega arith in
    let inside : begin / bs * bs ≤ total =
      grind (arith, le-div_iff_mul-le {x = begin / bs} {y = begin} p) in
    (
      (λ i. block_range_iff begin end bs total i p h k),
      sum-block_length bs total (begin / bs) (end / bs + 1 - begin / bs) p
          ∙ rw upto (ap (λ (n : ℕ). min ((end / bs + 1) * bs) total - n) (omega arith)),
    )
