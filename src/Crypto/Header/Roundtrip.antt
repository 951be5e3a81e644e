-- ===== src/Crypto/Header/Roundtrip.antt =====
-- tgdcfs/crypto/header.py: `serialize` against `parse` and `verify`, in both directions.
use tgdcfs.Base.{
  take-append_of_length, take_split, take-drop_append, ==_refl, ℕ, ◌+◌, ◌≤◌, ◌<◌, ◌≡◌, refl, ◌∙◌,
  sym, ap, ◌++◌, ltb, if◌then◌else◌, length, take, drop, ◌==◌, nat_eq, true, false, arith,
  length-append, length-take, append_assoc, length-drop, take-append-drop, take_all, Bool,
}
use tgdcfs.Base.Result.{Result, ok, err}
use tgdcfs.Crypto.Bytes.{
  Bytes, IsBytes, big, of_big, slice, pad, bytes_eq, bytes_beq_iff, big-of_big, take-IsBytes,
  drop-IsBytes, pad_full,
}
use tgdcfs.Crypto.Header.{
  FileHeader, Mac, too_short, mac_failed, HeaderError, algorithm_id, header_size, body_size, magic,
  header_tag, pack_body, fits_fields, check_fields, serialize, parse, verify,
}
use tgdcfs.Crypto.Header.Laws.{IsValid, length-pack_body, parse_body, slice-append}

module _ (mac : Mac) (mac_length : (key body : Bytes) → length (mac key body) ≡ 32) where
  length-header_tag : (key body : Bytes) → length (header_tag mac key body) ≡ 16
  length-header_tag key body = omega (arith, length-take 16 (mac key body), mac_length key body)

  verify_tagged :
      (body key rest : Bytes)
      → length body ≡ body_size
      → verify mac ((body ++ header_tag mac key body) ++ rest) key ≡ ok tt
  unfolding verify
  verify_tagged body key rest e =
      let tag : Bytes = header_tag mac key body in
      let long : ltb (length (body ++ (tag ++ rest))) header_size ≡ false = ground (
        arith,
        length-append body (tag ++ rest),
        length-append tag rest,
        length-header_tag key body,
        e,
      ) in
      rw (
        append_assoc,
        long,
        slice-append body tag rest 44 16 e (length-header_tag key body),
        take-append_of_length body (tag ++ rest) 44 e,
        ==_refl tag,
      )

  -- A header that the parser would accept is serialized, into exactly 60 bytes, and whatever
  -- follows them, parsing gives the header back and its tag verifies under the same key.
  pub parse-serialize :
      (h : FileHeader) (key : Bytes)
      → IsValid h
      → (raw : Bytes) × (serialize mac h key ≡ ok raw)
        × (length raw ≡ header_size)
        × ((rest : Bytes) → (parse (raw ++ rest) ≡ ok h) × (verify mac (raw ++ rest) key ≡ ok tt))
  unfolding serialize
  parse-serialize h key v =
      let body : Bytes = pack_body h in
      let tag : Bytes = header_tag mac key body in
      (
        body ++ tag,
        ground arith,
        omega (arith, length-append body tag, length-pack_body h, length-header_tag key body),
        λ rest. (
          rw append_assoc (
              parse_body h (tag ++ rest) v
                (omega (arith, length-append tag rest, length-header_tag key body))),
          verify_tagged body key rest (length-pack_body h),
        ),
      )

-- What a successful `parse` says of the bytes.
record Parsed (raw : Bytes) (h : FileHeader) : Type 0 where
  long : 60 ≤ length raw
  starts : slice 0 4 (take 44 raw) ≡ magic
  version : of_big (slice 4 2 (take 44 raw)) ≡ h.version
  algorithm : of_big (slice 6 2 (take 44 raw)) ≡ algorithm_id h.algorithm
  chunk_size : of_big (slice 8 4 (take 44 raw)) ≡ h.chunk_size
  salt : slice 12 32 (take 44 raw) ≡ h.file_salt
  version_one : h.version ≡ 1
  positive : 0 < h.chunk_size
  sane : h.chunk_size ≤ 16777216

check_fields-inv :
    (m : Bytes) (v a c : ℕ) (s : Bytes) (h : FileHeader)
    → check_fields m v a c s ≡ ok h
    → (m ≡ magic)
      × (v ≡ h.version)
      × (a ≡ algorithm_id h.algorithm)
      × (c ≡ h.chunk_size)
      × (s ≡ h.file_salt)
      × (h.version ≡ 1)
      × (0 < h.chunk_size)
      × (h.chunk_size ≤ 16777216)
unfolding check_fields
check_fields-inv m v a c s h e = ground (arith, bytes_beq_iff m magic)

parse-Parsed : (raw : Bytes) (h : FileHeader) → parse raw ≡ ok h → Parsed raw h
unfolding parse
parse-Parsed raw h e =
    let long : 60 ≤ length raw = ground arith in
    let (m, v, a, c, t, one, positive, sane) =
      check_fields-inv (slice 0 4 (take 44 raw)) (of_big (slice 4 2 (take 44 raw)))
        (of_big (slice 6 2 (take 44 raw))) (of_big (slice 8 4 (take 44 raw)))
        (slice 12 32 (take 44 raw)) h (ground arith) in
    record {
      long = long;
      starts = m;
      version = v;
      algorithm = a;
      chunk_size = c;
      salt = t;
      version_one = one;
      positive = positive;
      sane = sane;
    }

-- The pieces of the body, put together again.
slices-append :
    (body : Bytes)
    → length body ≡ 44
    → slice 0 4 body ++ (slice 4 2 body ++ (slice 6 2 body ++ (slice 8 4 body ++ slice 12 32 body)))
      ≡ body
slices-append body e =
    rw
      (
        take_all 32 (drop 12 body) (omega (arith, length-drop 12 body)),
        take-drop_append 8 4 12 body refl,
        take-drop_append 6 2 8 body refl,
        take-drop_append 4 2 6 body refl,
      )
      (take-append-drop 4 body)

pack_body-eq :
    (h : FileHeader) {m v a c s : Bytes}
    → magic ≡ m
    → big 2 h.version ≡ v
    → big 2 (algorithm_id h.algorithm) ≡ a
    → big 4 h.chunk_size ≡ c
    → pad 32 h.file_salt ≡ s
    → pack_body h ≡ m ++ (v ++ (a ++ (c ++ s)))
unfolding pack_body
pack_body-eq h em ev ea ec es = λ i. em i ++ (ev i ++ (ea i ++ (ec i ++ es i)))

pack_body-Parsed :
    (raw : Bytes) (h : FileHeader) → IsBytes raw → Parsed raw h → pack_body h ≡ take 44 raw
pack_body-Parsed raw h bytes p =
    let body : Bytes = take 44 raw in
    let size : length body ≡ 44 = omega (arith, length-take 44 raw, p.long) in
    let len : (i w : ℕ) → i + w ≤ 44 → length (slice i w body) ≡ w =
      λ i w fits. omega (arith, length-take w (drop i body), length-drop i body, size, fits) in
    let packed : (i w : ℕ) → i + w ≤ 44 → big w (of_big (slice i w body)) ≡ slice i w body =
      λ i w fits.
        big-of_big w (slice i w body)
          (take-IsBytes w (drop i body) (drop-IsBytes i body (take-IsBytes 44 raw bytes)))
          (len i w fits) in
    pack_body-eq h {v = slice 4 2 body} {a = slice 6 2 body} {c = slice 8 4 body}
      {s = slice 12 32 body} (sym p.starts) (rw (← p.version) (packed 4 2 (omega arith)))
      (rw (← p.algorithm) (packed 6 2 (omega arith)))
      (rw (← p.chunk_size) (packed 8 4 (omega arith)))
      (rw (← p.salt) (pad_full 32 (slice 12 32 body) (len 12 32 (omega arith))))
    ∙ slices-append body size

serialize-eq :
    (mac : Mac) (h : FileHeader) (key : Bytes)
    → fits_fields h ≡ true
    → serialize mac h key ≡ ok (pack_body h ++ header_tag mac key (pack_body h))
unfolding serialize
serialize-eq mac h key e = rw e

checks_passed :
    (short same : Bool)
    → ◌≡◌ {A = Result HeaderError (Unit {0})}
        (if short then err too_short else (if same then ok tt else err mac_failed))
        (ok tt)
    → same ≡ true
checks_passed true same e = cc
checks_passed false true e = refl
checks_passed false false e = cc

verify-inv :
    (mac : Mac) (raw key : Bytes)
    → verify mac raw key ≡ ok tt
    → slice 44 16 raw ≡ header_tag mac key (take 44 raw)
unfolding verify
verify-inv mac raw key e =
    (bytes_beq_iff (slice 44 16 raw) (header_tag mac key (take 44 raw))).0
      (checks_passed (ltb (length raw) 60) (slice 44 16 raw == header_tag mac key (take 44 raw)) e)

Parsed-IsValid : (raw : Bytes) (h : FileHeader) → Parsed raw h → IsValid h
Parsed-IsValid raw h p = record {
  version_one = p.version_one;
  positive = p.positive;
  sane = p.sane;
  salted = rw (← p.salt) (
      omega (
        arith,
        length-take 32 (drop 12 (take 44 raw)),
        length-drop 12 (take 44 raw),
        length-take 44 raw,
        p.long,
      ));
}

module _ (mac : Mac) (mac_length : (key body : Bytes) → length (mac key body) ≡ 32) where
  -- Every byte string that parses and verifies starts with the serialization of the header that it
  -- parsed to, which is a header that the parser accepts: nothing is accepted that a holder of the
  -- file key did not write, up to the strength of the tag.
  pub serialize-parse :
      (raw key : Bytes) (h : FileHeader)
      → IsBytes raw
      → parse raw ≡ ok h
      → verify mac raw key ≡ ok tt
      → IsValid h × (serialize mac h key ≡ ok (take header_size raw))
  serialize-parse raw key h bytes parsed verified =
      let p : Parsed raw h = parse-Parsed raw h parsed in
      (
        Parsed-IsValid raw h p,
        serialize-eq mac h key (unfold fits_fields in ground (arith, p.version_one, p.sane))
            ∙ rw (pack_body-Parsed raw h bytes p, ← verify-inv mac raw key verified)
                (ap (λ (x : Bytes). ok x) (take_split 44 16 60 raw refl)),
      )
