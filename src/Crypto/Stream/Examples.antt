-- ===== src/Crypto/Stream/Examples.antt =====
-- tgdcfs/crypto/stream.py: three bytes in chunks of two, with the toy cipher.
use tgdcfs.Base.{◌≡◌, refl, [], ◌∷◌, ◌++◌, arith, length, take, replicate}
use tgdcfs.Base.Result.{ok}
use tgdcfs.Crypto.Bytes.{Bytes}
use tgdcfs.Crypto.Header.{serialize, pack_body}
use tgdcfs.Crypto.Header.Examples.{header, toy_mac}
use tgdcfs.Crypto.Cipher
use tgdcfs.Crypto.Cipher.Sizes.{blobs, n_chunks}
use tgdcfs.Crypto.Cipher.Examples.{toy, toy-IsAead}
use tgdcfs.Crypto.Stream.{Encrypting, State, wrap, open_message, initial}
use tgdcfs.Crypto.Stream.Whole.{reads}
use tgdcfs.Crypto.Stream.Sealing.{reads-wrap}
use tgdcfs.Upload.{FileMessageFromBuffer, from_buffer}
use tgdcfs.Upload.Laws.{from_buffer-IsSource, Always}

abbrev three : Bytes
three = 10 ∷ 20 ∷ 30 ∷ []

abbrev message : Encrypting
message = record {
  cipher = record { file_key = replicate 32 1; file_salt = replicate 32 9; chunk_size = 2 };
  header_bytes = pack_body header ++ replicate 16 5;
  size = 119;
  inner_size = 3;
}

wraps : wrap toy_mac 3 (replicate 32 1) header ≡ ok message
unfolding wrap Cipher.new serialize Cipher.ciphertext_size_for_plaintext pack_body
wraps = refl

abbrev buffer : FileMessageFromBuffer
buffer = record { buffer = three; offset = 0; opened = three }

reads-wrap_example :
    (file : Bytes) × (file
      ≡ message.header_bytes ++ blobs toy message.cipher three 0 (n_chunks 3 2))
    × (length file ≡ 119)
    × (next : State FileMessageFromBuffer) × (reads toy from_buffer message
          (50 ∷ 25 ∷ 100 ∷ [])
          (open_message toy from_buffer message (initial buffer))
        ≡ ok (take 175 file, next))
reads-wrap_example =
    reads-wrap toy toy-IsAead from_buffer (λ m. m.opened) Always from_buffer-IsSource toy_mac three
      (replicate 32 1) header message buffer (50 ∷ 25 ∷ 100 ∷ []) wraps (omega arith) tt refl
