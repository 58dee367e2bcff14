-- ===== src/Regex.antt =====
-- Regular expressions: the matcher and its laws.
pub mod Defs
pub mod Runs
unfoldable pub use Defs.*
