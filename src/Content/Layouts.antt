-- ===== src/Content/Layouts.antt =====
-- tgdcfs/core/repository/impl/file_content/__init__.py: whole reads, over all layouts.
use tgdcfs.Base.{
  ℕ, ◌+◌, ◌≡◌, refl, ◌∙◌, sym, ap, List, [], ◌∷◌, ◌++◌, length, arith, Bool-cases, inl, inr,
  append_assoc, append-nil, All, map, sum, ℤ, pos, length-append, ◌⊎◌,
}
use tgdcfs.Base.Result.{Result, ok, err}
use tgdcfs.Content.{
  Bytes, Layout, Piece, Outcome, RangeError, joined, download_part, sources_of, chain, first_ids,
  map_range, stream_layout, stream_layouts, clamp_end,
}
use tgdcfs.Content.Range.{range, part_at, bytes_of, map_range-bytes}
use tgdcfs.Content.Failover.{IsHonest, Serves, download_part-Serves, range-drop}

-- A layout holds this content: its parts are the content cut up, and every source of a part is
-- honest about it.
pub record Holds (content : Bytes) (layout : Layout) : Type 0 where
  pub parts : List Bytes
  pub whole : joined parts ≡ content
  pub sized : layout.part_sizes ≡ map length parts
  pub honest : (i : ℕ) → All (IsHonest (part_at parts i)) (sources_of layout i)

sum-lengths : (parts : List Bytes) → sum (map length parts) ≡ length (joined parts)
sum-lengths [] = refl
sum-lengths (p ∷ ps) = omega (arith, length-append p (joined ps), sum-lengths ps)

chain-Serves :
    (content : Bytes) (layout : Layout) (h : Holds content layout) (qs : List Piece)
    → Serves (bytes_of h.parts qs) (chain layout qs)
unfolding chain bytes_of
chain-Serves content layout h [] = record { left = []; cut = refl; full = λ e. refl }
chain-Serves content layout h (q ∷ qs) =
    let first =
      download_part-Serves (part_at h.parts q.part) (sources_of layout q.part) q.begin q.end
        (h.honest q.part) in
    let rest = chain-Serves content layout h qs in
    let got : Outcome = download_part (sources_of layout q.part) q.begin q.end in
    elim (Bool-cases got.raised) [
      | inl failed ↦ rw failed (record {
        left = first.left ++ bytes_of h.parts qs;
        cut =
            ap (λ (b : Bytes). b ++ bytes_of h.parts qs) first.cut
            ∙ append_assoc got.served first.left (bytes_of h.parts qs);
        full = λ e. cc;
      })
      | inr fine ↦ rw fine (record {
        left = rest.left;
        cut =
            ap (λ (b : Bytes). b ++ bytes_of h.parts qs)
              (first.cut ∙ rw (first.full fine) (append-nil got.served))
            ∙ ap (λ (b : Bytes). got.served ++ b) rest.cut
            ∙ sym (append_assoc got.served (chain layout qs).served rest.left);
        full = rest.full;
      })
    ]

mapping :
    (m : Result RangeError (List Piece))
    → ((qs : List Piece) × (m ≡ ok qs)) ⊎ ((e : RangeError) × (m ≡ err e))
mapping (ok qs) = inl (qs, refl)
mapping (err e) = inr (e, refl)

stream_layout-Serves :
    (content : Bytes) (layout : Layout) (begin : ℕ) (end : ℤ)
    → Holds content layout
    → Serves
        (range content begin (clamp_end (length content) end))
        (stream_layout layout (pos begin) end)
unfolding stream_layout
stream_layout-Serves content layout begin end h =
    elim (mapping (
      map_range (first_ids layout.candidates) layout.part_sizes (pos (sum layout.part_sizes))
        (pos begin) end)) [
          | inr (e, failed) ↦
              rw (failed, stream_layout)
                (record {
                  left = range content begin (clamp_end (length content) end);
                  cut = refl;
                  full = λ e. cc;
                })
          | inl (pieces, mapped) ↦
              let size : sum layout.part_sizes ≡ length (joined h.parts) =
                rw h.sized (sum-lengths h.parts) in
              let moved : map_range (first_ids layout.candidates) (map length h.parts)
                    (pos (length (joined h.parts))) (pos begin) end
                  ≡ ok pieces =
                ap
                  (λ (sizes : List ℕ).
                    map_range (first_ids layout.candidates) sizes (pos (length (joined h.parts)))
                      (pos begin) end)
                  (sym h.sized)
                ∙ (ap
                      (λ (n : ℕ).
                        map_range (first_ids layout.candidates) layout.part_sizes (pos n)
                          (pos begin) end)
                      (sym size)
                    ∙ mapped) in
              let exact : bytes_of h.parts pieces
                  ≡ range content begin (clamp_end (length content) end) =
                rw (← h.whole) (
                  map_range-bytes (first_ids layout.candidates) h.parts (pos begin) end pieces
                    moved) in
              let served = chain-Serves content layout h pieces in
              rw (mapped, stream_layout)
                (record { left = served.left; cut = sym exact ∙ served.cut; full = served.full })
        ]

pub stream_layouts-Serves :
    (content : Bytes) (layout : Layout) (layouts : List Layout) (begin : ℕ) (end : ℤ)
    → Holds content layout
    → All (Holds content) layouts
    → Serves
        (range content begin (clamp_end (length content) end))
        (stream_layouts (layout ∷ layouts) begin end)
unfolding stream_layouts
stream_layouts-Serves content layout [] begin end h hs =
    let first = stream_layout-Serves content layout begin end h in
    elim (Bool-cases (stream_layout layout (pos begin) end).raised) [
      | inr fine ↦
          rw fine (record { left = first.left; cut = first.cut; full = λ e. first.full fine })
      | inl failed ↦ rw failed (record {
        left = first.left;
        cut =
            first.cut
            ∙ ap (λ (b : Bytes). b ++ first.left)
                (sym (append-nil (stream_layout layout (pos begin) end).served));
        full = λ e. cc;
      })
    ]
stream_layouts-Serves content layout (next ∷ more) begin end h hs =
    let last : ℕ = clamp_end (length content) end in
    let first = stream_layout-Serves content layout begin end h in
    let got : Outcome = stream_layout layout (pos begin) end in
    let after : Outcome = stream_layouts (next ∷ more) (begin + length got.served) end in
    let rest : Serves (range content (begin + length got.served) last) after =
      stream_layouts-Serves content next more (begin + length got.served) end hs.0 hs.1 in
    elim (Bool-cases got.raised) [
      | inr fine ↦
          rw fine (record { left = first.left; cut = first.cut; full = λ e. first.full fine })
      | inl failed ↦
          let onward : range content (begin + length got.served) last ≡ first.left =
            range-drop content got.served first.left begin last first.cut in
          rw failed (record {
            left = rest.left;
            cut =
                first.cut
                ∙ ap (λ (b : Bytes). got.served ++ b) (sym onward ∙ rest.cut)
                ∙ sym (append_assoc got.served after.served rest.left);
            full = rest.full;
          })
    ]
