-- ===== src/Machine.antt =====
-- What C on a 32-bit machine gives the kernel: words, the bits of a word, bytes at addresses.
pub mod Word
pub mod Bits
pub mod Mem
pub mod Outcome
pub mod Yields
pub mod Int
