-- ===== src/ColorSpace.antt =====
-- src/dxgi.rs: `ManagedColorSpaceState`, the per-swap-chain state machine that switches the swap
-- chain to HDR10/PQ and back, and the interleavings in which its methods are called.
pub mod Lifecycle
pub mod Machine
pub mod Debt
pub mod Ownership
pub mod Settled
pub mod Races
mod Tests
