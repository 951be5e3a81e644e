-- ===== src/Tee/Taking.antt =====
-- tgdcfs/core/tee.py: the rounds of a mirror keep what holds of its branch.
use tgdcfs.Base.{
  length-zero, All, ℕ, ◌+◌, ◌-◌, ◌≡◌, ◌⊎◌, inl, inr, refl, ◌∙◌, sym, ap, subst, nat_eq, true, false,
  List, [], ◌∷◌, ◌++◌, arith, Bool-cases, length, take, drop, length-append, append_assoc,
  append-nil, take-append-drop,
}
use tgdcfs.Crypto.Bytes.{Bytes, joined}
use tgdcfs.Tee.{TeeBranch, Producer, Phase, Mirror, Round, next_round}
use tgdcfs.Tee.Flow.{Flows, level, level-closed}

pub chunk_cases :
    (bs : List Bytes) → (bs ≡ []) ⊎ ((b : Bytes) × (rest : List Bytes) × (bs ≡ b ∷ rest))
chunk_cases [] = inl refl
chunk_cases (b ∷ rest) = inr (b, rest, refl)

-- What a round of `stream` found.
next_round-yields :
    (b b' : TeeBranch) (bytes : Bytes)
    → next_round b ≡ Round.yields bytes b'
    → (rest : List Bytes) × (b.detached ≡ false)
      × (b.chunks ≡ bytes ∷ rest)
      × (record b { chunks = rest; buffered = b.buffered - length bytes } ≡ b')
unfolding next_round
next_round-yields b b' bytes e = elim (Bool-cases b.detached) [
  | inl gone ↦ cc (rw gone at e)
  | inr there ↦ elim (chunk_cases b.chunks) [
    | inl none_left ↦ elim (Bool-cases b.eof) [
      | inl over ↦ cc (rw (there, none_left, over) at e)
      | inr more ↦ cc (rw (there, none_left, more) at e)
    ]
    | inr (c, rest, f) ↦
        let g = rw (there, f) at e in
        let same : c ≡ bytes = ground (arith, g) in
        (
          rest,
          there,
          f ∙ ap (λ (k : Bytes). k ∷ rest) same,
          ap (λ (k : Bytes). record b { chunks = rest; buffered = b.buffered - length k })
                (sym same)
              ∙ ground (arith, g),
        )
  ]
]

next_round-returns :
    (b : TeeBranch)
    → next_round b ≡ Round.returns
    → (b.detached ≡ false) × (b.chunks ≡ []) × (b.eof ≡ true)
unfolding next_round
next_round-returns b e = elim (Bool-cases b.detached) [
  | inl gone ↦ cc (rw gone at e)
  | inr there ↦ elim (chunk_cases b.chunks) [
    | inl none_left ↦ elim (Bool-cases b.eof) [
      | inl over ↦ (there, none_left, over)
      | inr more ↦ cc (rw (there, none_left, more) at e)
    ]
    | inr (c, rest, f) ↦ cc (rw (there, f) at e)
  ]
]

module _ (content : Bytes) (total size fed j : ℕ) where
  abbrev At : Producer → ℕ → TeeBranch → Mirror → Type 0
  At p n b m = Flows content total size p n j b m

  -- The mirror takes a chunk.
  pub yields-Flows :
      (p : Producer) (b b' : TeeBranch) (m : Mirror) (bytes : Bytes)
      → m.phase ≡ Phase.running
      → next_round b ≡ Round.yields bytes b'
      → At p fed b m
      → At p fed b' (record m { got = m.got ++ bytes })
  yields-Flows p b b' m bytes run e h =
      let (rest, there, f, is) = next_round-yields b b' bytes e in
      let all : m.got ++ (bytes ++ joined rest) ≡ take (level p fed j) content =
        ap (λ (cs : List Bytes). m.got ++ joined cs) (sym f) ∙ h.whole there in
      let count : b.buffered ≡ length bytes + length (joined rest) =
        h.counted
        ∙ ap (λ (cs : List Bytes). length (joined cs)) f
        ∙ length-append bytes (joined rest) in
      let (first, others) = subst (All _) f h.solid in
      subst (λ (x : TeeBranch). At p fed x (record m { got = m.got ++ bytes })) is
        (record {
          sized = h.sized;
          counted = omega (arith, count);
          bounded = elim h.bounded [
            | inl le ↦ inl (omega (arith, le))
            | inr one ↦
                let none_left : length rest ≡ 0 = ground (arith, sym (ap length f) ∙ one) in
                inl (
                  omega (
                    arith,
                    count,
                    ap (λ (cs : List Bytes). length (joined cs)) (length-zero rest none_left),
                  ))
          ];
          prefix = (
            joined rest ++ drop (level p fed j) content,
            sym (append_assoc (m.got ++ bytes) (joined rest) (drop (level p fed j) content))
                ∙ ap (λ (k : Bytes). k ++ drop (level p fed j) content)
                    (append_assoc m.got bytes (joined rest) ∙ all)
                ∙ take-append-drop (level p fed j) content,
          );
          whole = λ d. append_assoc m.got bytes (joined rest) ∙ all;
          closed = h.closed;
          ended = λ over. cc (sym run ∙ over);
          shut = h.shut;
          solid = others;
        })

  pub raises-Flows :
      (p : Producer) (b : TeeBranch) (m : Mirror)
      → At p fed b m
      → At p fed b (record m { phase = Phase.failed })
  raises-Flows p b m h = record {
    sized = h.sized;
    counted = h.counted;
    bounded = h.bounded;
    prefix = h.prefix;
    whole = h.whole;
    closed = h.closed;
    ended = λ e. ground (arith, e);
    shut = h.shut;
    solid = h.solid;
  }

  -- A mirror whose branch ends has everything that was fed.
  pub returns-Flows :
      (p : Producer) (b : TeeBranch) (m : Mirror)
      → next_round b ≡ Round.returns
      → At p fed b m
      → At p fed b (record m { phase = Phase.ended })
  returns-Flows p b m e h =
      let (there, none_left, over) = next_round-returns b e in
      record {
        sized = h.sized;
        counted = h.counted;
        bounded = h.bounded;
        prefix = h.prefix;
        whole = h.whole;
        closed = h.closed;
        ended = λ _. (
          over,
          sym (append-nil m.got)
              ∙ ap (λ (cs : List Bytes). m.got ++ joined cs) (sym none_left)
              ∙ h.whole there
              ∙ ap (λ (k : ℕ). take k content) (level-closed total p fed j (h.closed over)),
        );
        shut = h.shut;
        solid = h.solid;
      }
