-- ===== src/Storage.antt =====
-- firmware/usbarmory/src/storage.rs: block devices, the MBR partition table and the partitions of
-- an MBR device; `Memory` is a device in memory. `u32` additions are taken as in the release profile,
-- where they wrap.
pub mod Device
pub mod Table
pub mod Mbr
pub mod Memory
