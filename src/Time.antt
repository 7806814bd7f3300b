-- ===== src/Time.antt =====
-- firmware/usbarmory/src/time.rs: the monotonic clock. `Instant` has the operations on the counter's
-- registers, `Reads` what `now` returns while the counter goes on, and `Elapsed` the time between two
-- instants.
pub mod Instant
pub mod Reads
pub mod Elapsed
mod Runs
