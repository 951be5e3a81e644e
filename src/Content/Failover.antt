-- ===== src/Content/Failover.antt =====
-- tgdcfs/core/repository/impl/file_content/__init__.py: a part that fails over between its sources.
use tgdcfs.Base.{
  ℕ, zero, suc, ◌+◌, ◌-◌, ◌≡◌, refl, ◌∙◌, sym, ap, false, List, [], ◌∷◌, ◌++◌, length, take, drop,
  arith, Bool-cases, inl, inr, append_assoc, All, length-zero, drop-append_length, length-take,
  drop-drop,
}
use tgdcfs.Content.{Bytes, Candidate, Outcome, joined, download_part}
use tgdcfs.Content.Range.{range}

-- A store's promise for a copy of this part: whatever the range, the chunks are its beginning, and
-- without an exception they are all of it.
pub record IsHonest (part : Bytes) (source : Candidate) : Type 0 where
  pub left : ℕ → ℕ → Bytes
  pub cut :
      (begin end : ℕ)
      → range part begin end ≡ joined (source.download begin end).chunks ++ left begin end
  pub full : (begin end : ℕ) → (source.download begin end).raised ≡ false → left begin end ≡ []

-- A stream gave the beginning of what was asked for, and all of it unless it ended by an exception.
pub record Serves (want : Bytes) (outcome : Outcome) : Type 0 where
  pub left : Bytes
  pub cut : want ≡ outcome.served ++ left
  pub full : outcome.raised ≡ false → left ≡ []

drop-take : (k n : ℕ) (xs : Bytes) → drop k (take n xs) ≡ take (n - k) (drop k xs)
drop-take zero n xs = let all : n - 0 ≡ n = omega arith in rw all refl
drop-take (suc k) zero xs = let none_left : 0 - suc k ≡ 0 = omega arith in rw none_left refl
drop-take (suc k) (suc n) [] =
    sym (
      length-zero (take (suc n - suc k) []) (omega (arith, length-take {A = ℕ} (suc n - suc k) [])))
drop-take (suc k) (suc n) (x ∷ xs) =
    let same : suc n - suc k ≡ n - k = omega arith in rw same (drop-take k n xs)

pub range-drop :
    (part got left : Bytes) (begin end : ℕ)
    → range part begin end ≡ got ++ left
    → range part (begin + length got) end ≡ left
range-drop part got left begin end h =
    let n : ℕ = length got in
    let count : end + 1 - begin - n ≡ end + 1 - (begin + n) = omega arith in
    sym (
      sym (drop-append_length got left)
      ∙ ap (λ (b : Bytes). drop n b) (sym h)
      ∙ drop-take n (end + 1 - begin) (drop begin part)
      ∙ rw (count, drop-drop begin n (begin + n) part refl) refl)

-- Whichever sources fail, and after however many bytes, a part's stream is the beginning of the
-- requested bytes, with no byte twice and none left out where the next source took over; it is all of
-- them unless every source raised.
pub download_part-Serves :
    (part : Bytes) (sources : List Candidate) (begin end : ℕ)
    → All (IsHonest part) sources
    → Serves (range part begin end) (download_part sources begin end)
unfolding download_part
download_part-Serves part [] begin end h = record {
  left = range part begin end;
  cut = refl;
  full = λ e. cc;
}
download_part-Serves part (source ∷ sources) begin end (honest, h) =
    let got : Bytes = joined (source.download begin end).chunks in
    elim (Bool-cases (source.download begin end).raised) [
      | inr fine ↦ rw fine (record {
        left = honest.left begin end;
        cut = honest.cut begin end;
        full = λ e. honest.full begin end fine;
      })
      | inl failed ↦
          let rest = download_part-Serves part sources (begin + length got) end h in
          let onward : range part (begin + length got) end ≡ honest.left begin end =
            range-drop part got (honest.left begin end) begin end (honest.cut begin end) in
          rw failed (record {
            left = rest.left;
            cut =
                honest.cut begin end
                ∙ ap (λ (b : Bytes). got ++ b) (sym onward ∙ rest.cut)
                ∙ sym (
                    append_assoc got (download_part sources (begin + length got) end).served
                      rest.left);
            full = rest.full;
          })
    ]

-- One source among them that never raises is enough for the stream to end without an exception.
pub download_part-available :
    (before after : List Candidate) (source : Candidate) (begin end : ℕ)
    → ((b e : ℕ) → (source.download b e).raised ≡ false)
    → (download_part (before ++ (source ∷ after)) begin end).raised ≡ false
unfolding download_part
download_part-available [] after source begin end h = rw (h begin end) refl
download_part-available (x ∷ before) after source begin end h =
    elim (Bool-cases (x.download begin end).raised) [
      | inr fine ↦ rw fine refl
      | inl failed ↦ rw failed (
          download_part-available before after source
            (begin + length (joined (x.download begin end).chunks)) end h)
    ]
