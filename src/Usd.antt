-- ===== src/Usd.antt =====
-- host/usd: the host's side of the Serial Downloader Protocol. `Usd.Command` has the commands and
-- their bytes, `Usd.Hid` the HID backend of hid/rusb.rs over a USB device, `Usd.Protocol` the
-- operations of lib.rs; the modules below prove what they do.
pub mod Command
pub mod Hid
pub mod Protocol
pub mod Sends
pub mod Answers
pub mod Replies
mod Tests
