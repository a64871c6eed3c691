-- ===== src/Patch.antt =====
-- src/windows.rs, src/game_hdr.rs: how the module patches the game's code.
pub mod Memory
pub mod Install
pub mod Success
pub mod Failure
pub mod Availability
mod Tests
