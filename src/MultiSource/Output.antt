-- ===== src/MultiSource/Output.antt =====
-- tgdcfs/core/multisource.py: what a read yields.
use tgdcfs.Base.{
  ◌<◌, All, leb, Bool-cases, inl, inr, max, ℕ, zero, suc, ◌+◌, ◌-◌, ◌≤◌, ◌≡◌, refl, ◌∙◌, sym, ap,
  subst, List, [], ◌∷◌, ◌++◌, nat_eq, string_eq, arith, length, take, drop, String, if_both,
  take-append-drop, append_assoc,
}
use tgdcfs.Crypto.Bytes.{Bytes, joined}
use tgdcfs.Content.Range.{range}
use tgdcfs.MultiSource.{
  is_whole, MultiSourceRead, Piece, Worker, Consumer, consumer_turn, failed, succeeded, answered,
  emit, init, Views, make_pieces, pieces_from,
}
use tgdcfs.MultiSource.Steps.{Stores, Step, Reach, here, next}
use tgdcfs.MultiSource.Pieces.{slice, slices, joined-make_pieces}
use tgdcfs.MultiSource.Invariant.{IsSound}
use tgdcfs.MultiSource.Reaching.{init-IsSound, Reach-IsSound}

-- What no step changes.
pub record Fixed (r s : MultiSourceRead) : Type 0 where
  pub pieces : s.pieces ≡ r.pieces
  pub window : s.window ≡ r.window
  pub keys : s.keys ≡ r.keys

self : (r : MultiSourceRead) → Fixed r r
self r = record { pieces = refl; window = refl; keys = refl }

failed-Fixed :
    (r : MultiSourceRead) (key : String) (piece : Piece) (before after : List Worker)
    → Fixed r (failed key piece before after r)
unfolding failed
failed-Fixed r key piece before after = record { pieces = refl; window = refl; keys = refl }

Step-Fixed : (stores : Stores) (r s : MultiSourceRead) → Step stores r s → Fixed r s
unfolding answered succeeded emit
Step-Fixed stores r s (Step.claims key piece pending before after on w e same) =
    subst (Fixed r) (sym same) (record { pieces = refl; window = refl; keys = refl })
Step-Fixed stores r s (Step.stops key before after on w e same) =
    subst (Fixed r) (sym same) (record { pieces = refl; window = refl; keys = refl })
Step-Fixed stores r s (Step.raises key piece before after on w f same) =
    subst (Fixed r) (sym same) (failed-Fixed r key piece before after)
Step-Fixed stores r s (Step.answers key piece out before after on w a same) =
    subst (Fixed r) (sym same) (
      if_both (Fixed r) (is_whole piece out) _ _
        (λ full. record { pieces = refl; window = refl; keys = refl })
        (λ short. failed-Fixed r key piece before after))
Step-Fixed stores r s (Step.yields b on e same) =
    subst (Fixed r) (sym same) (record { pieces = refl; window = refl; keys = refl })
Step-Fixed stores r s (Step.gives_up on e same) =
    subst (Fixed r) (sym same) (record { pieces = refl; window = refl; keys = refl })

pub Reach-Fixed : (stores : Stores) (r s : MultiSourceRead) → Reach stores r s → Fixed r s
Reach-Fixed stores r s here = self r
Reach-Fixed stores r s (next {s = m} reached step) =
    let f = Reach-Fixed stores r m reached in
    let g = Step-Fixed stores m s step in
    record { pieces = g.pieces ∙ f.pieces; window = g.window ∙ f.window; keys = g.keys ∙ f.keys }

join-append : (bs cs : List Bytes) → joined (bs ++ cs) ≡ joined bs ++ joined cs
join-append [] cs = refl
join-append (b ∷ bs) cs =
    ap (λ (r : Bytes). b ++ r) (join-append bs cs) ∙ sym (append_assoc b (joined bs) (joined cs))

slices-append :
    (content : Bytes) (ps qs : List Piece)
    → slices content (ps ++ qs) ≡ slices content ps ++ slices content qs
slices-append content [] qs = refl
slices-append content (p ∷ ps) qs =
    ap (λ (bs : List Bytes). slice content p ∷ bs) (slices-append content ps qs)

finished-all :
    (r : MultiSourceRead) → consumer_turn r ≡ Consumer.finished → length r.pieces ≤ r.next_to_emit
unfolding consumer_turn
finished-all r e = ground arith

drop_past : (n : ℕ) (ps : List Piece) → length ps ≤ n → drop n ps ≡ []
drop_past zero [] h = refl
drop_past zero (p ∷ ps) h = absurd (omega arith)
drop_past (suc n) [] h = refl
drop_past (suc n) (p ∷ ps) h = drop_past n ps (omega arith)

-- With a piece size of 0 no piece has bytes, so none is yielded.
hollow :
    (fuel k begin last : ℕ)
    → All (λ (p : Piece). p.past ≤ p.begin) (pieces_from fuel k begin last 0)
unfolding pieces_from
hollow zero k begin last = tt
hollow (suc fuel) k begin last =
    if_both (All (λ (p : Piece). p.past ≤ p.begin)) (leb begin last) _ _
      (λ more. (omega arith, hollow fuel (k + 1) (begin + max 1 0) last)) (λ ended. tt)

none_solid :
    (n : ℕ) (ps : List Piece)
    → All (λ (p : Piece). p.past ≤ p.begin) ps
    → All (λ (p : Piece). p.begin < p.past) (take n ps)
    → take n ps ≡ []
none_solid zero ps h s = refl
none_solid (suc n) [] h s = refl
none_solid (suc n) (p ∷ ps) (a, h) (b, s) = absurd (omega (arith, a, b))

take_whole : (n : ℕ) (ps : List Piece) → length ps ≤ n → take n ps ≡ ps
take_whole zero [] h = refl
take_whole zero (p ∷ ps) h = absurd (omega arith)
take_whole (suc n) [] h = refl
take_whole (suc n) (p ∷ ps) h = ap (λ (l : List Piece). p ∷ l) (take_whole n ps (omega arith))

no_pieces :
    (fuel k begin last size : ℕ)
    → last + 1 - begin ≤ fuel
    → pieces_from fuel k begin last size ≡ []
    → last + 1 - begin ≡ 0
unfolding pieces_from
no_pieces zero k begin last size le e = omega arith
no_pieces (suc fuel) k begin last size le e = elim (Bool-cases (leb begin last)) [
  | inl more ↦ cc (rw more at e)
  | inr ended ↦ ground arith
]

no_make_pieces : (begin last size : ℕ) → make_pieces begin last size ≡ [] → last + 1 - begin ≡ 0
unfolding make_pieces
no_make_pieces begin last size e = no_pieces (last + 1 - begin) 0 begin last size (omega arith) e

make_pieces-hollow :
    (begin last : ℕ) → All (λ (p : Piece). p.past ≤ p.begin) (make_pieces begin last 0)
unfolding make_pieces
make_pieces-hollow begin last = hollow (last + 1 - begin) 0 begin last

module _ (content : Bytes) (begin last : ℕ) (r : MultiSourceRead) (h : IsSound content r) where
  abbrev Prefix : Type 0
  Prefix =
      (rest : Bytes) × (range content begin last ≡ joined r.emitted ++ rest)
      × (consumer_turn r ≡ Consumer.finished → rest ≡ [])

  hollow-Prefix : r.pieces ≡ make_pieces begin last 0 → Prefix
  hollow-Prefix same =
      let n = r.next_to_emit in
      let nothing : take n r.pieces ≡ [] =
        none_solid n r.pieces
          (subst (All (λ (p : Piece). p.past ≤ p.begin)) (sym same) (make_pieces-hollow begin last))
          h.solid in
      (
        range content begin last,
        ap (λ (bs : List Bytes). joined bs ++ range content begin last)
            (sym (h.emitted ∙ ap (slices content) nothing)),
        λ fin.
            let all : make_pieces begin last 0 ≡ [] =
              sym same ∙ sym (take_whole n r.pieces (finished-all r fin)) ∙ nothing in
            ap (λ (k : ℕ). take k (drop begin content)) (no_make_pieces begin last 0 all),
      )

  solid-Prefix : (size : ℕ) → 1 ≤ size → r.pieces ≡ make_pieces begin last size → Prefix
  solid-Prefix size positive same =
      let n = r.next_to_emit in
      let whole : slices content r.pieces
          ≡ slices content (take n r.pieces) ++ slices content (drop n r.pieces) =
        ap (slices content) (sym (take-append-drop n r.pieces))
        ∙ slices-append content (take n r.pieces) (drop n r.pieces) in
      (
        joined (slices content (drop n r.pieces)),
        sym (joined-make_pieces content begin last size positive)
            ∙ ap (λ (ps : List Piece). joined (slices content ps)) (sym same)
            ∙ ap joined whole
            ∙ join-append (slices content (take n r.pieces)) (slices content (drop n r.pieces))
            ∙ ap (λ (bs : List Bytes). joined bs ++ joined (slices content (drop n r.pieces)))
                (sym h.emitted),
        λ fin.
            ap (λ (ps : List Piece). joined (slices content ps))
              (drop_past n r.pieces (finished-all r fin)),
      )

  piece_size-Prefix : (size : ℕ) → r.pieces ≡ make_pieces begin last size → Prefix
  piece_size-Prefix zero same = hollow-Prefix same
  piece_size-Prefix (suc size) same = solid-Prefix (suc size) (omega arith) same

-- Whichever stores fail or answer short, whenever, and however the workers and the consumer interleave:
-- what was yielded is a prefix of exactly the requested bytes, in order, and it is all of them when the
-- consumer is finished.
pub Reach-prefix :
    (stores : Stores) (views : Views) (begin last size window : ℕ) (r : MultiSourceRead)
    → Reach stores (init views begin last size window) r
    → (rest : Bytes) × (range stores.content begin last ≡ joined r.emitted ++ rest)
      × (consumer_turn r ≡ Consumer.finished → rest ≡ [])
unfolding init
Reach-prefix stores views begin last size window r reached =
    let start = init views begin last size window in
    piece_size-Prefix stores.content begin last r
      (Reach-IsSound stores start r (init-IsSound stores.content views begin last size window)
        reached)
      size (Reach-Fixed stores start r reached).pieces
