-- ===== src/Monitors.antt =====
-- The monitors of src/monitors, one module each.
pub mod Surroundings
pub mod Lifecycle
pub mod Resource
pub mod Deadlock
pub mod Alive
pub mod Builtin
