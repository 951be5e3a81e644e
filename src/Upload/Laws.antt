-- ===== src/Upload/Laws.antt =====
-- tgdcfs/reqres.py: the buffer and the stream deliver their bytes in order.
use tgdcfs.Base.{
  zero, suc, Bool-cases, inl, inr, take_split, take-append_le, drop-append_le, ℕ, ◌+◌, ◌-◌, ◌≤◌,
  ◌<◌, ◌≡◌, ◌≢◌, refl, sym, ◌∙◌, ap, some, List, [], ◌∷◌, ◌++◌, ltb, length, take, drop, min, arith,
  take-append-drop, length-take, length-append, length-drop, append_assoc,
}
use tgdcfs.Upload.{
  Bytes, IsSource, read_buffer, from_buffer, FileMessageFromStream, fill, read_stream, from_stream,
}

take-ne-nil : (n : ℕ) (xs : Bytes) → 0 < n → xs ≢ [] → take n xs ≢ []
take-ne-nil n xs p h e = ground (arith, length-take n xs, ap length e)

pos_of_take : (n : ℕ) (xs : Bytes) → take n xs ≢ [] → 0 < n
pos_of_take zero xs h = absurd (h refl)
pos_of_take (suc n) xs h = omega arith

ne-nil_of_length : (n : ℕ) (xs : Bytes) → 0 < n → n ≤ length xs → xs ≢ []
ne-nil_of_length n [] p h = absurd (omega arith)
ne-nil_of_length n (x ∷ xs) p h = λ e. cc

abbrev pub Always {ℓ} : {A : Type ℓ} → A → Type 0
Always a = Unit

-- A buffer that was opened hands out its bytes from the offset on, in order.
pub from_buffer-IsSource : IsSource from_buffer (λ m. m.opened) Always
unfolding read_buffer
from_buffer-IsSource = record {
  reads = λ n m ready. (
    take n m.opened,
    record m { opened = drop n m.opened },
    record {
      returns = refl;
      cut = sym (take-append-drop n m.opened);
      short = omega (arith, length-take n m.opened);
      progress = take-ne-nil n m.opened;
    },
    tt,
  );
}

abbrev pub concat : List Bytes → Bytes
concat [] = []
concat (chunk ∷ chunks) = chunk ++ concat chunks

-- The next bytes of a stream, up to the size that was declared.
abbrev pub stream_left : FileMessageFromStream → Bytes
stream_left m = take (m.size - m.read_size) (m.buffer ++ concat m.stream)

-- The stream holds at least what was declared.
abbrev pub IsComplete : FileMessageFromStream → Type 0
IsComplete m = m.size - m.read_size ≤ length m.buffer + length (concat m.stream)

fill-ok :
    (n : ℕ) (buffer : Bytes) (stream : List Bytes)
    → n ≤ length buffer + length (concat stream)
    → (b : Bytes) × (rest : List Bytes) × (fill n buffer stream ≡ some (b, rest))
      × (n ≤ length b)
      × (b ++ concat rest ≡ buffer ++ concat stream)
unfolding fill
fill-ok n buffer [] h = (buffer, [], ground arith, omega arith, refl)
fill-ok n buffer (chunk ∷ stream) h = elim (Bool-cases (ltb (length buffer) n)) [
  | inl more ↦
      let enough : n ≤ length (buffer ++ chunk) + length (concat stream) =
        omega (arith, h, length-append buffer chunk, length-append chunk (concat stream)) in
      let (b, rest, e, l, c) = fill-ok n (buffer ++ chunk) stream enough in
      (b, rest, rw more e, l, c ∙ append_assoc buffer chunk (concat stream))
  | inr done ↦ (buffer, chunk ∷ stream, rw done, ground arith, refl)
]

stream_left-split :
    (m : FileMessageFromStream) (k : ℕ) (b : Bytes) (rest : List Bytes)
    → k ≤ m.size - m.read_size
    → k ≤ length b
    → b ++ concat rest ≡ m.buffer ++ concat m.stream
    → stream_left m ≡ take k b ++ take (m.size - (m.read_size + k)) (drop k b ++ concat rest)
stream_left-split m k b rest h fits e =
    let r : ℕ = m.size - m.read_size in
    let left : m.size - (m.read_size + k) ≡ r - k = omega arith in
    rw (← e, left, ← drop-append_le k b (concat rest) fits, ← take-append_le k b (concat rest) fits)
      (sym (take_split k (r - k) r (b ++ concat rest) (omega arith)))

-- A stream that holds what was declared never raises on a read, and hands its bytes out in order.
pub from_stream-IsSource : IsSource from_stream stream_left IsComplete
unfolding read_stream
from_stream-IsSource = record {
  reads = λ n m complete.
      let k : ℕ = min n (m.size - m.read_size) in
      let (b, rest, e, long, same) = fill-ok k m.buffer m.stream (omega arith) in
      let m' : FileMessageFromStream = record m {
        stream = rest;
        buffer = drop k b;
        read_size = m.read_size + k;
      } in
      (
        take k b,
        m',
        record {
          returns = rw e;
          cut = stream_left-split m k b rest (omega arith) long same;
          short = omega (arith, length-take k b);
          progress = λ pos some_left.
              let r : 0 < m.size - m.read_size =
                pos_of_take (m.size - m.read_size) (m.buffer ++ concat m.stream) some_left in
              take-ne-nil k b (omega arith) (ne-nil_of_length k b (omega arith) long);
        },
        omega (
          arith,
          complete,
          length-drop k b,
          length-append b (concat rest),
          length-append m.buffer (concat m.stream),
          ap length same,
        ),
      );
}
