-- ===== src/Usbd.antt =====
-- firmware/usbarmory/src/usbd: the USB device. `Token` is the token of a transfer
-- descriptor (token.rs), `Endpoint` the indices of endpoints and `Indices` the iterator over the bits
-- of a word (util.rs), `Queue` the queue heads and descriptors (dqh.rs, dtd.rs), `Bus` the device's
-- state, `Start` and `Guard` its `take` and mutex (usbd.rs), `Alloc`, `Transfer`, `Setup`, `Read` and `Reset` its operations
-- (bus.rs). `Pages` is what the controller makes of a descriptor, `Types` the types that a register
-- holds, `Loans` which endpoints are in use, `Started` and `Endpoints` the device that is taken,
-- `Tripwire` the copy of a SETUP packet, `Packets` and `Writes` packets that are received and sent,
-- `Sent` what `poll` reports of the latter, and `Configure` the endpoints once the host has given an address.
pub mod Token
pub mod Endpoint
pub mod Indices
pub mod Queue
pub mod Pages
pub mod Bus
pub mod Alloc
pub mod Start
pub mod Guard
pub mod Started
pub mod Endpoints
pub mod Types
pub mod Loans
pub mod Transfer
pub mod Setup
pub mod Tripwire
pub mod Reset
pub mod Read
pub mod Configure
pub mod Packets
pub mod Writes
pub mod Sent
mod Tests
mod Runs
mod PacketTests
mod StartTests
