-- ===== src/Upload.antt =====
-- tgdcfs/reqres.py: the messages that an uploader reads a file from.
pub mod Laws
mod Examples
use tgdcfs.Base.{
  ℕ, ◌+◌, ◌-◌, ◌≤◌, ◌<◌, ◌≡◌, ◌≢◌, Option, none, some, List, [], ◌∷◌, ◌++◌, ltb, if◌then◌else◌,
  length, take, drop, min,
}

abbrev pub Bytes : Type 0
Bytes = List ℕ

-- The protocol of `UploadableFileMessage`: `read` gives at most so many bytes, or raises (`none`).
pub record Source : Type 1 where
  pub State : Type 0
  pub read : ℕ → State → Option (Bytes × State)

-- What one successful `read` does to the bytes that are left.
pub record Reads (S : Source) (left : S.State → Bytes) (n : ℕ) (s : S.State) (b : Bytes)
    (t : S.State) : Type 0 where
  pub returns : S.read n s ≡ some (b, t)
  pub cut : left s ≡ b ++ left t
  pub short : length b ≤ n
  pub progress : 0 < n → left s ≢ [] → b ≢ []

-- `left s` is what is still to be read of a source that delivers what it declares.
pub record IsSource (S : Source) (left : S.State → Bytes) (Ready : S.State → Type 0) : Type 0 where
  pub reads :
      (n : ℕ) (s : S.State) → Ready s → (b : Bytes) × (t : S.State) × Reads S left n s b t × Ready t

pub record FileMessageFromBuffer : Type 0 where
  pub buffer : Bytes
  pub offset : ℕ
  pub opened : Bytes

unfoldable pub open_buffer : FileMessageFromBuffer → FileMessageFromBuffer
open_buffer m = record m { opened = drop m.offset m.buffer }

unfoldable pub read_buffer : ℕ → FileMessageFromBuffer → Option (Bytes × FileMessageFromBuffer)
read_buffer n m = some (take n m.opened, record m { opened = drop n m.opened })

abbrev pub from_buffer : Source
from_buffer = record { State = FileMessageFromBuffer; read = read_buffer }

-- The stream is the chunks that it will still give; at its end `anext` raises.
pub record FileMessageFromStream : Type 0 where
  pub stream : List Bytes
  pub size : ℕ
  pub buffer : Bytes
  pub read_size : ℕ

-- `while len(self.buffer) < size_to_return: self.buffer.extend(await anext(self.stream))`
unfoldable pub fill : ℕ → Bytes → List Bytes → Option (Bytes × List Bytes)
fill n buffer [] = if ltb (length buffer) n then none else some (buffer, [])
fill n buffer (chunk ∷ stream) =
    let rest = fill n (buffer ++ chunk) stream in
    if ltb (length buffer) n then rest else some (buffer, chunk ∷ stream)

hand_out :
    ℕ → FileMessageFromStream → Option (Bytes × List Bytes) → Option (Bytes × FileMessageFromStream)
hand_out n m none = none
hand_out n m (some (buffer, stream)) = some (
  take n buffer,
  record m { stream = stream; buffer = drop n buffer; read_size = m.read_size + n },
)

unfoldable pub read_stream : ℕ → FileMessageFromStream → Option (Bytes × FileMessageFromStream)
unfolding fill hand_out
read_stream n m =
    let size_to_return = min n (m.size - m.read_size) in
    hand_out size_to_return m (fill size_to_return m.buffer m.stream)

abbrev pub from_stream : Source
from_stream = record { State = FileMessageFromStream; read = read_stream }
