-- ===== src/Generator.antt =====
-- Package generator.
pub mod Sites
pub mod Labels
pub mod Docker
pub mod Addresses
pub mod Networks
pub mod Generate
mod Tests
