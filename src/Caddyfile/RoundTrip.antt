-- ===== src/Caddyfile/RoundTrip.antt =====
-- Reading back what Marshal writes.
pub mod Writable
pub mod Keys
pub mod Read
pub mod Lines
pub mod Lex
pub mod Context
pub mod Parse
pub mod Rebuild
pub mod Unmarshal
