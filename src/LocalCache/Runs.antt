-- ===== src/LocalCache/Runs.antt =====
-- tgdcfs/core/local_cache.py, `CacheEntry.missing_runs`: the runs cover what is not on disk.
use native.Mathlib.Nat.{
  le-div_iff_mul-le, div-lt_iff_lt-mul, div-add-mod', mod-lt, mul-le-mul_right,
}
use tgdcfs.Base.{
  ◌∙◌, ◌==◌, nat_eq, ℕ, zero, suc, ◌+◌, ◌-◌, ◌*◌, ◌/◌, ◌≤◌, ◌<◌, ◌≡◌, sym, ap, Bool, false, not,
  ◌&&◌, ◌||◌, Option, none, some, List, [], ◌∷◌, ltb, leb, length, nat_eq, arith, Bool-cases, inl,
  inr, min,
}
use tgdcfs.LocalCache.{Entry, block_length, present_at, collect_runs, blocks_for, missing_runs}

-- Whether a byte lies in one of these inclusive ranges.
abbrev pub covers : List (ℕ × ℕ) → ℕ → Bool
covers [] x = false
covers ((low, high) ∷ runs) x = (leb low x && leb x high) || covers runs x

-- The block map has a flag for every block of the version.
pub record IsMapped (e : Entry) : Type 0 where
  pub positive : 0 < e.block_size
  pub flags : length e.present ≡ blocks_for e.size e.block_size

module _ (e : Entry) (m : IsMapped e) (x : ℕ) (inside : x < e.size) where
  abbrev b : ℕ
  b = x / e.block_size

  low_end : (start : ℕ) → leb (start * e.block_size) x ≡ leb start b
  low_end start = ground (arith, le-div_iff_mul-le {x = start} {y = x} m.positive)

  blocks_cover : e.size ≤ length e.present * e.block_size
  unfolding blocks_for
  blocks_cover =
      let bs : ℕ = e.block_size in
      ground (
        arith,
        m.flags,
        m.positive,
        div-add-mod' (e.size + bs - 1) bs,
        mod-lt (e.size + bs - 1) m.positive,
        ap (λ (k : ℕ). k * bs) m.flags,
      )

  high_end :
      (i : ℕ) → i < length e.present → leb x (i * e.block_size + block_length e i - 1) ≡ leb b i
  unfolding block_length
  high_end i below =
      let bs : ℕ = e.block_size in
      ground (
        arith,
        m.positive,
        inside,
        below,
        blocks_cover,
        div-lt_iff_lt-mul {x = x} {y = i + 1} m.positive,
        λ (q : length e.present ≤ i + 1). mul-le-mul_right bs q,
      )

  -- The blocks from `index` on, `count` of them, that are missing.
  abbrev missing_among : ℕ → ℕ → Bool
  missing_among index count = leb index b && (ltb b (index + count) && not (present_at e.present b))

  abbrev opened : Option ℕ → ℕ → Bool
  opened none index = false
  opened (some start) index = leb start b && ltb b index

  abbrev IsOpen : Option ℕ → ℕ → Type 0
  IsOpen none index = Unit
  IsOpen (some start) index = start < index

  same_block : (index : ℕ) → index ≡ b → present_at e.present b ≡ present_at e.present index
  same_block index h = ap (λ (k : ℕ). present_at e.present k) (sym h)

  collect_runs-covers :
      (index count : ℕ) (start : Option ℕ)
      → index + count ≤ length e.present
      → IsOpen start index
      → covers (collect_runs e index count start) x
        ≡ (opened start index || missing_among index count)
  unfolding collect_runs
  collect_runs-covers index zero none h o = ground arith
  collect_runs-covers index zero (some start) h o =
      ground (arith, low_end start, high_end (index - 1) (omega (arith, h, o)))
  collect_runs-covers index (suc count) none h o = elim (Bool-cases (present_at e.present index)) [
    | inl there ↦ ground (
      arith,
      same_block index,
      there,
      collect_runs-covers (index + 1) count none (omega arith) tt,
    )
    | inr gone ↦ ground (
      arith,
      same_block index,
      gone,
      collect_runs-covers (index + 1) count (some index) (omega arith) (omega arith),
    )
  ]
  collect_runs-covers index (suc count) (some start) h o =
      elim (Bool-cases (present_at e.present index)) [
        | inl there ↦ ground (
          arith,
          same_block index,
          there,
          low_end start,
          high_end (index - 1) (omega (arith, h, o)),
          collect_runs-covers (index + 1) count none (omega arith) tt,
        )
        | inr gone ↦ ground (
          arith,
          same_block index,
          gone,
          collect_runs-covers (index + 1) count (some start) (omega arith) (omega (arith, o)),
        )
      ]

  last_block : (end : ℕ) → min end (e.size - 1) / e.block_size < length e.present
  last_block end =
      let bs : ℕ = e.block_size in
      let y : ℕ = min end (e.size - 1) in
      ground (
        arith,
        m.positive,
        inside,
        blocks_cover,
        div-lt_iff_lt-mul {x = y} {y = length e.present} m.positive,
      )

  -- For a request that begins in the version, a byte of the version lies in one of the runs if and only
  -- if its block is one of the blocks of the request, cut at the end of the version, and is not on disk:
  -- the runs are whole blocks, and nothing that is on disk is fetched again.
  pub missing_runs-covers :
      (begin end : ℕ)
      → begin < e.size
      → covers (missing_runs e begin end) x ≡ (
          leb (begin / e.block_size) (x / e.block_size)
          && (leb (x / e.block_size) (min end (e.size - 1) / e.block_size)
              && not (present_at e.present (x / e.block_size))))
  unfolding missing_runs
  missing_runs-covers begin end proper =
      let bs : ℕ = e.block_size in
      let first : ℕ = begin / bs in
      let last : ℕ = min end (e.size - 1) / bs in
      let some_bytes : (e.size == 0) ≡ false = ground (arith, inside) in
      let begins : first < length e.present =
        ground
          (arith, blocks_cover, div-lt_iff_lt-mul {x = begin} {y = length e.present} m.positive) in
      rw some_bytes (
        collect_runs-covers first (last + 1 - first) none (omega (arith, last_block end, begins)) tt
        ∙ ground arith)
