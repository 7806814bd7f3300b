-- ===== src/Rtic.antt =====
-- firmware/cortex-a-rtic/src/export.rs: the runtime of tasks that interrupts start and that share
-- resources by priority ceilings. `Mask` has the registers' values, `Lock` the critical section and
-- the wrapper of a handler, `System` the steps of a system of such handlers.
pub mod Mask
pub mod Lock
pub mod Nested
pub mod System
pub mod Exclusion
mod Tests
