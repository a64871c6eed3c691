-- ===== src/Shadow.antt =====
-- src/dxgi.rs, src/windows.rs: the shadow vtables, copies of a COM object's function table into
-- which the hooks are written, so that other objects of the class keep the original table.
pub mod Tables
pub mod Records
pub mod Install
mod Writes
mod Fresh
mod Sound
mod Expand
mod Published
mod Preserve
mod Reach
mod Tests
