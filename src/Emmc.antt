-- ===== src/Emmc.antt =====
-- firmware/usbarmory/src/emmc: the commands that are sent to an eMMC card (cmd.rs), and the card's
-- registers CSD and status (card.rs); and the driver of the card (emmc.rs): `Machine` has the
-- controller's registers, `Send` a command and its response, `Driver` the handle's operations, `Setup`
-- how the handle is made and
-- `Word` the word of a command. `Card` says what calls mean to a card, `Responsive` what a controller
-- and a card promise; `Sending`, `Listening`, `Move`, `Jobs`, `Flush` and `Live` are about the driver on
-- these, for the blocks, `Leaves`, `Finding` and `Found` for the handle, and `Bounds` is about the
-- numbers of the blocks.
pub mod Command
pub mod Csd
pub mod Status
pub mod Flags
pub mod Machine
pub mod Send
pub mod Driver
pub mod Setup
pub mod Word
pub mod Card
pub mod Responsive
pub mod Sending
pub mod Listening
pub mod Move
pub mod Flush
pub mod Jobs
pub mod Live
pub mod Leaves
pub mod Finding
pub mod Found
pub mod Bounds
mod Tests
mod Runs
