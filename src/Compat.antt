-- ===== src/Compat.antt =====
-- src/game_compat.rs: how the game's functions are found in the loaded image.
pub mod Image
pub mod Layout
pub mod References
pub mod Scan
pub mod Exact
pub mod Targets
pub mod Caller
pub mod Vtable
mod Described
mod Rtti
mod Validated
pub mod Builds
pub mod Resolve
mod Resolved
mod Tests
