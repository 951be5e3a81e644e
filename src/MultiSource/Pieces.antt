-- ===== src/MultiSource/Pieces.antt =====
-- tgdcfs/core/multisource.py: the pieces that a range is cut into.
use tgdcfs.Base.{
  ℕ, zero, suc, ◌+◌, ◌-◌, ◌≤◌, ◌≡◌, refl, ◌∙◌, sym, ap, if◌then◌else◌, some, List, [], ◌∷◌, ◌++◌,
  ltb, leb, nat_eq, ◌&&◌, arith, All, Bool-cases, inl, inr, length, take, drop, get_elem?, min, max,
  append_assoc, append-nil, length-append, take_split, drop-drop, if_both, subst,
}
use tgdcfs.Crypto.Bytes.{Bytes, joined}
use tgdcfs.MultiSource.{Piece, make_pieces, pieces_from}
use tgdcfs.MultiSource.Places.{count_pieces}

-- The bytes of a piece.
abbrev pub slice : Bytes → Piece → Bytes
slice content p = take (p.past - p.begin) (drop p.begin content)

abbrev pub slices : Bytes → List Piece → List Bytes
slices content [] = []
slices content (p ∷ ps) = slice content p ∷ slices content ps

abbrev pub Numbered : ℕ → List Piece → Type 0
Numbered k [] = Unit
Numbered k (p ∷ ps) = (p.index ≡ k) × Numbered (suc k) ps

-- A piece has the range that its index names.
abbrev pub Held : List Piece → Piece → Type 0
Held pieces p =
    (q : Piece) × (get_elem? pieces p.index ≡ some q) × (p.begin ≡ q.begin) × (p.past ≡ q.past)

pieces_from-Numbered :
    (fuel k begin last step : ℕ) → Numbered k (pieces_from fuel k begin last step)
unfolding pieces_from
pieces_from-Numbered zero k begin last step = tt
pieces_from-Numbered (suc fuel) k begin last step =
    let next : k + 1 ≡ suc k = omega arith in
    if_both (Numbered k) (leb begin last) _ _
      (λ more. (
        refl,
        subst (λ (i : ℕ). Numbered i (pieces_from fuel (k + 1) (begin + max 1 step) last step)) next
            (pieces_from-Numbered fuel (k + 1) (begin + max 1 step) last step),
      ))
      (λ ended. tt)

pub make_pieces-Numbered : (begin last size : ℕ) → Numbered 0 (make_pieces begin last size)
unfolding make_pieces
make_pieces-Numbered begin last size = pieces_from-Numbered (last + 1 - begin) 0 begin last size

get_elem?-append :
    {A : Type 0} (pre : List A) (x : A) (ps : List A)
    → get_elem? (pre ++ (x ∷ ps)) (length pre) ≡ some x
get_elem?-append [] x ps = refl
get_elem?-append (y ∷ pre) x ps = get_elem?-append pre x ps

index_prefix : (pre ps : List Piece) → Numbered (length pre) ps → All (Held (pre ++ ps)) ps
index_prefix pre [] h = tt
index_prefix pre (p ∷ ps) (e, h) =
    let more : length (pre ++ (p ∷ [])) ≡ suc (length pre) =
      omega (arith, length-append pre (p ∷ [])) in
    let same : (pre ++ (p ∷ [])) ++ ps ≡ pre ++ (p ∷ ps) = append_assoc pre (p ∷ []) ps in
    (
      (p, ap (λ (i : ℕ). get_elem? (pre ++ (p ∷ ps)) i) e ∙ get_elem?-append pre p ps, refl, refl),
      subst (λ (l : List Piece). All (Held l) ps) same
          (index_prefix (pre ++ (p ∷ [])) ps (rw more h)),
    )

pub Numbered-Held : (ps : List Piece) → Numbered 0 ps → All (Held ps) ps
Numbered-Held ps h = index_prefix [] ps h

pub count-Numbered :
    (i k : ℕ) (ps : List Piece)
    → Numbered k ps
    → count_pieces i ps ≡ (if leb k i && ltb i (k + length ps) then 1 else 0)
count-Numbered i k [] h = ground arith
count-Numbered i k (p ∷ ps) (e, h) = ground (arith, count-Numbered i (suc k) ps h)

cut : (w s : ℕ) (xs : Bytes) → take (min s w) xs ++ take (w - s) (drop s xs) ≡ take w xs
cut w s xs = elim (Bool-cases (leb s w)) [
  | inl le ↦
      let whole : min s w ≡ s = ground arith in rw whole (take_split s (w - s) w xs (ground arith))
  | inr gt ↦
      let part : min s w ≡ w = ground arith in
      let nothing : w - s ≡ 0 = ground arith in rw (part, nothing) (append-nil (take w xs))
]

joined-pieces_from :
    (content : Bytes) (fuel k begin last step : ℕ)
    → last + 1 - begin ≤ fuel
    → 1 ≤ step
    → joined (slices content (pieces_from fuel k begin last step))
      ≡ take (last + 1 - begin) (drop begin content)
unfolding pieces_from
joined-pieces_from content zero k begin last step h s =
    let nothing : last + 1 - begin ≡ 0 = omega arith in rw nothing refl
joined-pieces_from content (suc fuel) k begin last step h s = elim (Bool-cases (leb begin last)) [
  | inr ended ↦ let nothing : last + 1 - begin ≡ 0 = ground arith in rw (ended, nothing) refl
  | inl more ↦
      let this : min (begin + step) (last + 1) - begin ≡ min step (last + 1 - begin) =
        ground arith in
      let others : last + 1 - (begin + max 1 step) ≡ last + 1 - begin - step = omega arith in
      let ih =
        joined-pieces_from content fuel (k + 1) (begin + max 1 step) last step (ground arith) s in
      rw more (
        ap
          (λ (n : ℕ).
            take n (drop begin content)
            ++ joined (slices content (pieces_from fuel (k + 1) (begin + max 1 step) last step)))
          this
        ∙ ap (λ (b : Bytes). take (min step (last + 1 - begin)) (drop begin content) ++ b)
            (ih
              ∙ ap (λ (n : ℕ). take n (drop (begin + max 1 step) content)) others
              ∙ ap (λ (b : Bytes). take (last + 1 - begin - step) b)
                  (sym (drop-drop begin step (begin + max 1 step) content (omega (arith, s)))))
        ∙ cut (last + 1 - begin) step (drop begin content))
]

-- The pieces of a range are its bytes, in order.
pub joined-make_pieces :
    (content : Bytes) (begin last size : ℕ)
    → 1 ≤ size
    → joined (slices content (make_pieces begin last size))
      ≡ take (last + 1 - begin) (drop begin content)
unfolding make_pieces
joined-make_pieces content begin last size positive =
    joined-pieces_from content (last + 1 - begin) 0 begin last size (omega arith) positive
