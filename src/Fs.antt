-- ===== src/Fs.antt =====
-- firmware/usbarmory/src/fs.rs: `Storage` is the block device as the file system sees it, and `Blocks`
-- what is read of what was written there; `Files` has the handles of files over `Lfs`, the interface
-- of littlefs2, and `Closing` says which files are left open.
pub mod Storage
pub mod Blocks
pub mod Lfs
pub mod Files
pub mod Closing
mod Tests
