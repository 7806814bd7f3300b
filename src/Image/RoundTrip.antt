-- ===== src/Image/RoundTrip.antt =====
-- What host/image writes, it parses back.
pub mod Headers
pub mod Commands
pub mod Dcd
pub mod Whole
