-- ===== src/Init.antt =====
-- The lib.rs part: how the module starts, and what it installs.
pub mod Start
pub mod Wait
pub mod Initialize
mod Finished
mod Enabled
mod Tests
