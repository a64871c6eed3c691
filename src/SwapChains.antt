-- ===== src/SwapChains.antt =====
-- src/dxgi.rs: the captured swap chains, their state, and the hooks that change it.
pub mod Device
pub mod Registry
pub mod Hooks
pub mod Frame
pub mod Revision
pub mod Lifecycles
pub mod Present
pub mod Samples
mod Tests
