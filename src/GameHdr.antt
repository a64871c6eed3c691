-- ===== src/GameHdr.antt =====
-- src/game_hdr.rs: the hooks on the game's own HDR functions.
pub mod Statics
pub mod Candidate
pub mod Hooks
pub mod Query
pub mod Override
mod Backing
pub mod Throttle
mod Tests
