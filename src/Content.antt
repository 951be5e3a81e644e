-- ===== src/Content.antt =====
-- tgdcfs/core/repository/impl/file_content/__init__.py: byte ranges mapped onto parts, and reads that
-- fail over to other copies. What a store's `download_file` yields is a parameter.
pub mod Range
pub mod Total
pub mod Failover
pub mod Layouts
mod Examples
pub use tgdcfs.Crypto.Bytes.{Bytes, joined}
use tgdcfs.Base.{
  ℕ, zero, suc, ◌+◌, ◌-◌, Bool, true, false, Option, none, some, List, [], ◌∷◌, ◌++◌, ltb, leb,
  if◌then◌else◌, length, take, drop, sum, min, get_elem?, ℤ, pos, negsuc, ltb_ℤ, is_negative,
  is_positive, pos_part,
}
use tgdcfs.Base.Result.{Result, ok, err, ◌>>=◌}

pub data RangeError : Type 0 where
  invalid_begin invalid_range begin_exceeds no_such_message : RangeError

-- What the generator yields: the bounds are relative to the part, and inclusive.
pub record Piece : Type 0 where
  pub part : ℕ
  pub message_id : ℕ
  pub begin : ℕ
  pub end : ℕ

-- The first loop: the part in which `begin` lies, its offset, and the parts from it on.
unfoldable pub seek : ℕ → ℕ → ℕ → List ℕ → ℕ × ℕ × List ℕ
seek begin i offset [] = (i, offset, [])
seek begin i offset (p ∷ ps) =
    let further = seek begin (i + 1) (offset + p) ps in
    if leb (offset + p) begin then further else (i, offset, p ∷ ps)

-- `message_ids[i_part]`
abbrev pub message_at : List ℕ → ℕ → Result RangeError ℕ
message_at ids i = elim (get_elem? ids i) [ none ↦ err no_such_message | some mid ↦ ok mid ]

-- The second loop. `part_begin <= part_end` is `part_begin < part_end + 1` here, as the last byte of
-- an empty part is -1.
unfoldable pub cut : List ℕ → ℕ → ℕ → ℕ → ℕ → List ℕ → Result RangeError (List Piece)
cut ids begin end i offset [] = ok []
cut ids begin end i offset (part_size ∷ ps) =
    let part_begin = begin - offset in
    let past_end = min part_size (end - offset + 1) in
    let rest = cut ids begin end (i + 1) (offset + part_size) ps in
    if leb offset end
    then (if ltb part_begin past_end
        then (message_at ids i >>= λ mid. rest >>= λ pieces. ok (
            record { part = i; message_id = mid; begin = part_begin; end = past_end - 1 } ∷ pieces))
        else rest)
    else ok []

unfoldable pub map_from : List ℕ → ℕ → ℕ → List ℕ → Result RangeError (List Piece)
map_from ids begin last sizes =
    if ltb last begin
    then err invalid_range
    else let found = seek begin 0 0 sizes in
      elim found.2 [ [] ↦ err begin_exceeds | p ∷ ps ↦ cut ids begin last found.0 found.1 (p ∷ ps) ]

-- The last byte that exists, where `end` is negative or past it.
unfoldable pub clamp_end : ℕ → ℤ → ℕ
clamp_end size end =
    if is_negative end then size - 1 else if leb size (pos_part end) then size - 1 else pos_part end

unfoldable pub map_range : List ℕ → List ℕ → ℤ → ℤ → ℤ → Result RangeError (List Piece)
map_range ids sizes size begin end =
    if is_positive size
    then (if is_negative begin
        then err invalid_begin
        else map_from ids (pos_part begin) (clamp_end (pos_part size) end) sizes)
    else ok []

-- One attempt to download: the chunks that came, and whether it raised after them.
pub record Attempt : Type 0 where
  pub chunks : List Bytes
  pub raised : Bool

-- A copy of one part in a store: what a download of an inclusive range does.
pub record Candidate : Type 0 where
  pub message_id : ℕ
  pub is_primary : Bool
  pub download : ℕ → ℕ → Attempt

pub record Layout : Type 0 where
  pub part_sizes : List ℕ
  pub candidates : List (List Candidate)

-- What a stream gave before it ended, whether it ended by an exception, and whether the primary
-- store was marked dead on the way.
pub record Outcome : Type 0 where
  pub served : Bytes
  pub raised : Bool
  pub primary_dead : Bool

-- `_download_part`: each source starts at the byte where the one before it stopped.
unfoldable pub download_part : List Candidate → ℕ → ℕ → Outcome
download_part [] begin end = record { served = []; raised = true; primary_dead = false }
download_part (source ∷ sources) begin end =
    let attempt = source.download begin end in
    let got = joined attempt.chunks in
    let rest = download_part sources (begin + length got) end in
    if attempt.raised
    then record {
      served = got ++ rest.served;
      raised = rest.raised;
      primary_dead = if source.is_primary then true else rest.primary_dead;
    }
    else record { served = got; raised = false; primary_dead = false }

-- `layout.candidates[part_idx]`
abbrev pub sources_of : Layout → ℕ → List Candidate
sources_of layout part_idx = elim (get_elem? layout.candidates part_idx) [
  | none ↦ []
  | some sources ↦ sources
]

-- The parts of a layout in order: an exception ends the stream.
unfoldable pub chain : Layout → List Piece → Outcome
chain layout [] = record { served = []; raised = false; primary_dead = false }
chain layout (q ∷ qs) =
    let first = download_part (sources_of layout q.part) q.begin q.end in
    let rest = chain layout qs in
    if first.raised then first else record {
      served = first.served ++ rest.served;
      raised = rest.raised;
      primary_dead = if first.primary_dead then true else rest.primary_dead;
    }

-- `[mid for sources in layout.candidates for _, mid in sources[:1]]`
unfoldable pub first_ids : List (List Candidate) → List ℕ
first_ids [] = []
first_ids ([] ∷ rest) = first_ids rest
first_ids ((c ∷ cs) ∷ rest) = c.message_id ∷ first_ids rest

unfoldable pub stream_layout : Layout → ℤ → ℤ → Outcome
stream_layout layout begin end =
    elim (map_range (first_ids layout.candidates) layout.part_sizes (pos (sum layout.part_sizes))
      begin end) [
        | err e ↦ record { served = []; raised = true; primary_dead = false }
        | ok pieces ↦ chain layout pieces
      ]

-- `_stream_layouts` without multi-source reads: the next layout goes on where the last one stopped.
unfoldable pub stream_layouts : List Layout → ℕ → ℤ → Outcome
stream_layouts [] begin end = record { served = []; raised = false; primary_dead = false }
stream_layouts (layout ∷ layouts) begin end =
    let first = stream_layout layout (pos begin) end in
    let rest = stream_layouts layouts (begin + length first.served) end in
    if first.raised
    then record {
      served = first.served ++ rest.served;
      raised = elim layouts [ [] ↦ true | l ∷ ls ↦ rest.raised ];
      primary_dead = if first.primary_dead then true else rest.primary_dead;
    }
    else first
