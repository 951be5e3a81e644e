-- ===== src/Lib.antt =====
-- A model of the core of tgdcfs, a file system whose bytes live in messages of chat services, as
-- functions that can be evaluated, with theorems about them.
--
-- The parts. A file version is a list of part messages in a primary store, with copies in mirror
-- stores. An upload is a message that a store reads from (tgdcfs/reqres.py); with encryption on it is
-- wrapped in a message that reads as a header and sealed chunks, and a decorator of the repository
-- translates ranges and decrypts what comes back (tgdcfs/crypto). The file content
-- repository (tgdcfs/core/repository/impl/file_content/__init__.py) maps a byte range onto parts and
-- fails over between the copies. Below it lie two caches: whole versions on the local disk
-- (tgdcfs/core/local_cache.py) and blocks of messages in memory (tgdcfs/utils/chunk_cache.py). The
-- versions of a file, with the one that is served, are kept in its descriptor
-- (tgdcfs/core/model/file.py). A large range that several stores hold is read from
-- all of them at once (tgdcfs/core/multisource.py), and an upload may be split to feed the mirrors while the
-- primary store takes it (tgdcfs/core/tee.py). The names
-- of files and directories are a tree of objects (tgdcfs/core/model/directory.py), in which a file is a
-- ref to the message of its descriptor.
--
-- The files.
--   Base          numbers, lists, dicts, tests and results that the others share.
--   ChunkCache    tgdcfs/utils/chunk_cache.py: the record `ChunkCache` is the object's state; `get`,
--                 `put`, `invalidate` and `clear` are its methods; Blocks is the block arithmetic.
--   Upload        tgdcfs/reqres.py: `FileMessageFromBuffer` and `FileMessageFromStream`.
--   Crypto        Header is tgdcfs/crypto/header.py, Cipher tgdcfs/crypto/cipher.py and Stream
--                 tgdcfs/crypto/stream.py; the record `State` holds the fields that reads change.
--                 Repository is tgdcfs/crypto/repository.py: `get_range` and `translate` are the range
--                 arithmetic of `get`, `decrypting_stream` is `_decrypting_stream`, whose local
--                 variables are the record `Progress`, and `HeaderCache` is `_HeaderCache`.
--   Content       tgdcfs/core/repository/impl/file_content/__init__.py: `map_range` is `_map_range`,
--                 `download_part` is `_download_part`, `stream_layouts` is `_stream_layouts`.
--   LocalCache    tgdcfs/core/local_cache.py: `make_room` is `_make_room`; the two halves of
--                 `write_blocks`, between which other operations run, are `begin_fill` and `end_fill`;
--                 Writes holds the staging writer, Sweep the pins and the sweep.
--   FileDesc      tgdcfs/core/model/file.py: `TGFSFileVersion`, and `TGFSFileDesc` in Versions.
--   MultiSource   tgdcfs/core/multisource.py: a read that several stores share. `worker_turn` is what
--                 `_worker` does from one wait to the next, `failed` and `succeeded` are its two ends
--                 of a fetch, `consumer_turn` and `emit` are `stream`; Steps is the relation of their
--                 interleavings, which lets other tasks run also between the end of a fetch and the
--                 worker's next turn. Waiting adds which of them sleep on the condition of the read.
--   Directory     tgdcfs/core/model/directory.py: `FileRefList` and its methods; Tree has `TGFSDirectory`,
--                 whose objects are numbered in a store `Tree` that every method takes and returns, and
--                 Refs its methods on files. Comparing directories by `==` beyond the name is a parameter
--                 `others_equal`; the two times that a move sets are one `now`.
--   Tee           tgdcfs/core/tee.py: an upload that feeds the mirrors from the stream that the primary store
--                 reads. `feed`, `finish`, `detach` and `next_round` (a round of `stream`) run under the
--                 lock of a branch; `round_of` is a round of the loops of `read`, `finish` and `collect`.
--                 Steps is the relation of their interleavings, in which a mirror may fail at any time, and
--                 Waiting adds who sleeps on the condition of a branch and whom its `notify_all` wakes.
--
-- Bounds and fuel. Python's integers do not overflow, so sizes and offsets are natural numbers; where a
-- bound of a range may be negative it is an integer `ℤ`. Widths of the header and of the nonce's counter
-- are written out as powers of 256. The loops of an encrypting read take fuel: `gather` one round for
-- every byte that is wanted, as every read of the source brings a byte at least, and `read` two rounds
-- for every byte that is asked for and two more, as a round that only refills is followed by one that
-- hands out a byte. The loop of `_decrypting_stream` over whole chunks runs at most once for every
-- chunk before the last. A range is cut into pieces with one round for every byte of it. `is_ancestor_of` takes
-- fuel for every directory up to the root, and a theorem says that some fuel is enough. The theorems on reads say that the fuel is enough.
--
-- What stands outside. AES-GCM and the HMAC are parameters with the laws of their documentation; what
-- a download from a store yields, the free bytes of the disk, and whether a file could be written are
-- parameters too. Not modelled: the network clients, the servers, configuration, the index file of the
-- local cache, logging.
pub mod Base
pub mod ChunkCache
pub mod Upload
pub mod Crypto
pub mod Content
pub mod LocalCache
pub mod FileDesc
pub mod MultiSource
pub mod Directory
pub mod Tee
