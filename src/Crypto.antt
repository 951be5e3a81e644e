-- ===== src/Crypto.antt =====
-- tgdcfs/crypto: encryption at rest.
pub mod Bytes
pub mod Header
pub mod Cipher
pub mod Stream
pub mod Repository
