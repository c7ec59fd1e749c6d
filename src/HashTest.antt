-- ===== src/HashTest.antt =====
-- hash-test/hash-test.go: a benchmark that counts how often a hash function yields each value.
pub mod Ranges
pub mod Worker
pub mod Counter
mod Tests
