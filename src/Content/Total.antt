-- ===== src/Content/Total.antt =====
-- tgdcfs/core/repository/impl/file_content/__init__.py: a proper range is mapped without an error.
use tgdcfs.Base.{
  ℕ, zero, suc, ◌+◌, ◌-◌, ◌≤◌, ◌<◌, ◌≡◌, refl, true, false, List, [], ◌∷◌, ltb, leb, length, sum,
  min, arith, Bool-cases, inl, inr, ℤ, pos,
}
use tgdcfs.Base.Result.{ok}
use tgdcfs.Content.{Piece, seek, cut, message_at, map_from, map_range, clamp_end}

found_id : (ids : List ℕ) (i : ℕ) → i < length ids → (mid : ℕ) × (message_at ids i ≡ ok mid)
found_id [] i h = absurd (omega arith)
found_id (m ∷ ids) zero h = (m, refl)
found_id (m ∷ ids) (suc i) h = found_id ids i (omega arith)

module _ (ids : List ℕ) (begin end : ℕ) where
  cut-total :
      (i offset : ℕ) (sizes : List ℕ)
      → i + length sizes ≤ length ids
      → (qs : List Piece) × (cut ids begin end i offset sizes ≡ ok qs)
  unfolding cut
  cut-total i offset [] h = ([], refl)
  cut-total i offset (p ∷ ps) h =
      let (qs, e) = cut-total (i + 1) (offset + p) ps (omega arith) in
      let (mid, m) = found_id ids i (omega arith) in
      elim (Bool-cases (leb offset end)) [
        | inr a ↦ ([], rw a refl)
        | inl a ↦ elim (Bool-cases (ltb (begin - offset) (min p (end - offset + 1)))) [
          | inr b ↦ (qs, rw (a, b) e)
          | inl b ↦ (
            record {
              part = i;
              message_id = mid;
              begin = begin - offset;
              end = min p (end - offset + 1) - 1;
            }
                ∷ qs,
            rw (a, b, m, e) refl,
          )
        ]
      ]

seek-total :
    (begin i offset : ℕ) (sizes : List ℕ)
    → offset ≤ begin
    → begin < offset + sum sizes
    → (p : ℕ) × (ps : List ℕ) × ((seek begin i offset sizes).2 ≡ p ∷ ps)
      × ((seek begin i offset sizes).0 + suc (length ps) ≤ i + length sizes)
unfolding seek
seek-total begin i offset [] low h = absurd (omega arith)
seek-total begin i offset (p ∷ ps) low h = elim (Bool-cases (leb (offset + p) begin)) [
  | inl further ↦
      let (q, qs, e, short) =
        seek-total begin (i + 1) (offset + p) ps (ground arith) (omega arith) in
      (q, qs, rw further e, rw further (omega (arith, short)))
  | inr here ↦ (p, ps, rw here refl, rw here (omega arith))
]

-- A range that begins inside a file of which every part has a message, and does not end before it
-- begins, is always mapped.
pub map_range-total :
    (ids sizes : List ℕ) (begin : ℕ) (end : ℤ)
    → length ids ≡ length sizes
    → begin < sum sizes
    → begin ≤ clamp_end (sum sizes) end
    → (qs : List Piece) × (map_range ids sizes (pos (sum sizes)) (pos begin) end ≡ ok qs)
unfolding map_range map_from
map_range-total ids sizes begin end same inside proper =
    let (p, ps, e, short) = seek-total begin 0 0 sizes (omega arith) (omega (arith, inside)) in
    let found : ℕ × ℕ × List ℕ = seek begin 0 0 sizes in
    let last : ℕ = clamp_end (sum sizes) end in
    let some_bytes : ltb 0 (sum sizes) ≡ true = ground arith in
    let ordered : ltb last begin ≡ false = ground arith in
    let (qs, c) = cut-total ids begin last found.0 found.1 (p ∷ ps) (omega (arith, short, same)) in
    (qs, rw (some_bytes, ordered, e) c)
