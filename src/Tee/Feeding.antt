-- ===== src/Tee/Feeding.antt =====
-- tgdcfs/core/tee.py: the rounds of the producer, and a branch that is dropped, keep what holds of a branch.
use tgdcfs.Base.{
  All, if_both, ◌||◌, ℕ, ◌+◌, ◌-◌, ◌<◌, ◌≡◌, inl, inr, refl, ◌∙◌, sym, ap, subst, ◌==◌, nat_eq,
  true, false, not, if◌then◌else◌, some, List, [], ◌∷◌, ◌++◌, arith, Bool-cases, length, ltb, leb,
  take, length-append, append_assoc, append-nil,
}
use tgdcfs.Crypto.Bytes.{Bytes, joined}
use tgdcfs.Tee.{
  TeeBranch, Producer, idle, feeding, finishing, Mirror, must_wait, feed, finish, detach,
}
use tgdcfs.Tee.Flow.{Flows, level, is_closed, Shut, level-closed}

joined-snoc : (bs : List Bytes) (b : Bytes) → joined (bs ++ (b ∷ [])) ≡ joined bs ++ b
joined-snoc [] b = append-nil b
joined-snoc (x ∷ bs) b =
    ap (λ (k : Bytes). x ++ k) (joined-snoc bs b) ∙ sym (append_assoc x (joined bs) b)

All-snoc :
    (P : Bytes → Type 0) (xs : List Bytes) (y : Bytes) → All P xs → P y → All P (xs ++ (y ∷ []))
All-snoc P [] y h p = (p, tt)
All-snoc P (x ∷ xs) y (q, h) p = (q, All-snoc P xs y h p)

solid-nil :
    (bs : List Bytes) → All (λ (c : Bytes). 0 < length c) bs → length (joined bs) ≡ 0 → bs ≡ []
solid-nil [] h e = refl
solid-nil (b ∷ bs) (p, h) e = absurd (omega (arith, length-append b (joined bs)))

pub some_eq : {A : Type 0} {x y : A} → some x ≡ some y → x ≡ y
some_eq e = ground (arith, e)

module _ (content : Bytes) (total size fed j : ℕ) where
  abbrev At : Producer → ℕ → TeeBranch → Mirror → Type 0
  At p n b m = Flows content total size p n j b m

  -- A read that gave bytes begins the loop over the branches.
  pub read-Flows :
      (bytes : Bytes) (b : TeeBranch) (m : Mirror)
      → (leb total fed ≡ true → ⊥)
      → At idle fed b m
      → At (feeding bytes 0) (fed + length bytes) b m
  read-Flows bytes b m more h =
      let open_ : b.eof ≡ true → ⊥ = λ e. more (h.closed e) in
      record {
        sized = h.sized;
        counted = h.counted;
        bounded = h.bounded;
        prefix = h.prefix;
        whole = λ e. h.whole e ∙ ap (λ (k : ℕ). take k content) (ground arith);
        closed = λ e. absurd (open_ e);
        ended = λ e. absurd (open_ (h.ended e).0);
        shut = tt;
        solid = h.solid;
      }

  -- Another branch was finished, or the loop of `finish` begins or ends.
  pub still-Flows :
      (p p' : Producer) (b : TeeBranch) (m : Mirror)
      → level p fed j ≡ level p' fed j
      → (is_closed total p fed ≡ true → is_closed total p' fed ≡ true)
      → Shut p' j b.eof
      → At p fed b m
      → At p' fed b m
  still-Flows p p' b m same is shut' h = record {
    sized = h.sized;
    counted = h.counted;
    bounded = h.bounded;
    prefix = h.prefix;
    whole = λ e. h.whole e ∙ ap (λ (k : ℕ). take k content) same;
    closed = λ e. is (h.closed e);
    ended = h.ended;
    shut = shut';
    solid = h.solid;
  }

  -- The loop over the branches has come to its end.
  pub fed-Flows :
      (bytes : Bytes) (i : ℕ) (b : TeeBranch) (m : Mirror)
      → j < i
      → At (feeding bytes i) fed b m
      → At (if leb total fed then finishing 0 else idle) fed b m
  fed-Flows bytes i b m lt h =
      let past : leb i j ≡ false = ground arith in
      let same : level (feeding bytes i) fed j ≡ fed = rw past refl in
      if_both (λ (q : Producer). At q fed b m) (leb total fed) (finishing 0) idle
        (λ e. still-Flows (feeding bytes i) (finishing 0) b m same (λ no. cc) tt h)
        (λ e. still-Flows (feeding bytes i) idle b m same (λ no. cc) tt h)

  -- The loop went over another branch.
  pub past-Flows :
      (bytes : Bytes) (i : ℕ) (b : TeeBranch) (m : Mirror)
      → (i == j) ≡ false
      → At (feeding bytes i) fed b m
      → At (feeding bytes (i + 1)) fed b m
  past-Flows bytes i b m other h =
      let same : leb i j ≡ leb (i + 1) j = ground (arith, other) in
      record {
        sized = h.sized;
        counted = h.counted;
        bounded = h.bounded;
        prefix = h.prefix;
        whole = λ e. h.whole e ∙ rw same refl;
        closed = h.closed;
        ended = h.ended;
        shut = tt;
        solid = h.solid;
      }

  -- The branch takes the bytes.
  pub feed-Flows :
      (bytes : Bytes) (b b' : TeeBranch) (m : Mirror)
      → 0 < length bytes
      → take fed content ≡ take (fed - length bytes) content ++ bytes
      → feed bytes b ≡ some b'
      → At (feeding bytes j) fed b m
      → At (feeding bytes (j + 1)) fed b' m
  unfolding feed must_wait
  feed-Flows bytes b b' m some_bytes slice e h =
      let now : leb j j ≡ true = ground arith in
      let past : leb (j + 1) j ≡ false = ground arith in
      elim (Bool-cases b.detached) [
        | inl gone ↦
            let skips : (not (ltb 0 (length bytes)) || b.detached) ≡ true = ground (arith, gone) in
            let same : b ≡ b' = some_eq (rw skips at e) in
            subst (λ (x : TeeBranch). At (feeding bytes (j + 1)) fed x m) same
              (record {
                sized = h.sized;
                counted = h.counted;
                bounded = h.bounded;
                prefix = h.prefix;
                whole = λ e. cc;
                closed = h.closed;
                ended = h.ended;
                shut = tt;
                solid = h.solid;
              })
        | inr there ↦
            let asks : (not (ltb 0 (length bytes)) || b.detached) ≡ false = ground (arith, there) in
            elim (Bool-cases (must_wait bytes b)) [
              | inl full ↦ cc (rw (asks, full) at e)
              | inr fits ↦
                  let same = some_eq (rw (asks, fits) at e) in
                  subst (λ (x : TeeBranch). At (feeding bytes (j + 1)) fed x m) same
                    (record {
                      sized = h.sized;
                      counted =
                          ap (λ (n : ℕ). n + length bytes) h.counted
                          ∙ sym (length-append (joined b.chunks) bytes)
                          ∙ ap length (sym (joined-snoc b.chunks bytes));
                      bounded = elim (Bool-cases (ltb 0 b.buffered)) [
                        | inl holds ↦ inl (ground (arith, fits, there, holds))
                        | inr empty ↦
                            let none_left : length (joined b.chunks) ≡ 0 =
                              ground (arith, empty, h.counted) in
                            inr (
                              ap (λ (cs : List Bytes). length (cs ++ (bytes ∷ [])))
                                (solid-nil b.chunks h.solid none_left))
                      ];
                      prefix = h.prefix;
                      whole = λ d.
                          ap (λ (k : Bytes). m.got ++ k) (joined-snoc b.chunks bytes)
                          ∙ sym (append_assoc m.got (joined b.chunks) bytes)
                          ∙ ap (λ (k : Bytes). k ++ bytes) (h.whole d ∙ rw now refl)
                          ∙ sym slice
                          ∙ rw past refl;
                      closed = h.closed;
                      ended = h.ended;
                      shut = tt;
                      solid = All-snoc _ b.chunks bytes h.solid some_bytes;
                    })
            ]
      ]

  pub finish-Flows :
      (p p' : Producer) (b : TeeBranch) (m : Mirror)
      → is_closed total p fed ≡ true
      → is_closed total p' fed ≡ true
      → Shut p' j true
      → At p fed b m
      → At p' fed (finish b) m
  unfolding finish
  finish-Flows p p' b m was is shut' h = record {
    sized = h.sized;
    counted = h.counted;
    bounded = h.bounded;
    prefix = h.prefix;
    whole = λ e.
        h.whole e
        ∙ ap (λ (k : ℕ). take k content)
            (level-closed total p fed j was ∙ sym (level-closed total p' fed j is));
    closed = λ e. is;
    ended = λ e. (refl, (h.ended e).1);
    shut = shut';
    solid = h.solid;
  }

  pub detach-Flows :
      (p : Producer) (b : TeeBranch) (m : Mirror) → At p fed b m → At p fed (detach b) m
  unfolding detach
  detach-Flows p b m h = record {
    sized = h.sized;
    counted = refl;
    bounded = inl (omega arith);
    prefix = h.prefix;
    whole = λ e. cc;
    closed = h.closed;
    ended = h.ended;
    shut = h.shut;
    solid = tt;
  }
