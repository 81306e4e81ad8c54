-- ===== src/NamePublish.antt =====
-- Package namepublish: which names are published, and when.
pub mod Extract
pub mod Manager
pub mod Technitium
pub mod Avahi
pub mod Build
mod Tests
