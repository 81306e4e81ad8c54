-- ===== src/Caddyfile.antt =====
-- Package caddyfile.
pub mod Block
pub mod Compare
pub mod Sort
pub mod Lexer
pub mod Marshal
pub mod Tree
pub mod Parser
pub mod Merge
pub mod LabelPath
pub mod FromLabels
mod Tests
pub mod Process
pub mod RoundTrip
