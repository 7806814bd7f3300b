-- ===== src/Dcp.antt =====
-- firmware/usbarmory/src/dcp.rs and dcp/: the driver of the cryptographic coprocessor. `Control`
-- has the words of a command, `Sha` the digest of dcp/sha256.rs, `Channel` what the coprocessor
-- makes of a sequence of commands, `Digest` how the two agree, and `Whole` the digest of an input in
-- pieces. `Aes` has the cipher of dcp/aes128.rs, `Cipher` what the coprocessor makes of it, and
-- `Handles` the handles of both.
pub mod Control
pub mod Sha
pub mod Channel
pub mod Digest
pub mod Whole
pub mod Aes
pub mod Cipher
pub mod Handles
mod Tests
mod AesTests
