-- ===== src/Windows.antt =====
-- The windows.rs part: memory regions.
pub mod Regions
mod Readable
mod Tests
unfoldable pub use Regions.*
