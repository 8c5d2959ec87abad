-- ===== src/State.antt =====
-- `lur.state` (src/capabilities/state.rs), the key-value store that the VMs of a process share.
pub mod Entry
pub mod Inner
pub mod Put
pub mod Valid
pub mod Store
pub mod Options
mod Tests
