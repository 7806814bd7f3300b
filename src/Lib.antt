-- ===== src/Lib.antt =====
-- A verification library for the USB armory code: firmware/ (a bare metal environment for an
-- i.MX6UL with a log in memory, a block storage layer and drivers) and host/ (the tools that make
-- the program images that its boot ROM loads, and that send them over USB).
--
-- The parts, and how they interact:
--
-- Memlog models firmware/memlog/src/lib.rs. A `Buffer` is its array of cells with the counters
-- `read` and `write`, which count bytes modulo 2^32, the size of `usize` on the device; `push`, `peek`
-- (Buffer::push and Buffer::peek) and `log`, `peek_all` (log and peek of the module, which pick a
-- buffer by the context that they run in) are functions of the buffers. A panic and a copy out of the
-- array's bounds are results of their own. Memlog.Contents says which bytes a buffer holds and which
-- buffers are valid; Push and Peek have what the operations do with those. Interrupts are not
-- interleaved with the operations: each buffer has one context that writes it.
--
-- Storage models firmware/usbarmory/src/storage.rs: Storage.Device the trait ManagedBlockDevice as a
-- record of operations on a type of devices, with the laws of a device that stores (IsStore);
-- Storage.Table the partition table; Storage.Mbr the operations create, open and partition of
-- MbrDevice and the device that a partition is. Storage.Table.Add, Storage.Mbr.Open, BootBlock,
-- RoundTrip and Partition prove what they do. The memory layout of a partition entry is derived by a
-- macro of the crate zerocopy, and is a parameter: Layout, with the laws IsLayout.
--
-- Image models host/image/src: Image.Ivt, Image.Dcd, Image.Write and Image.Ddr the parts of an image
-- and how write.rs encodes them, Image.Read the parsers of ivt.rs, dcd.rs, lib.rs and read.rs. The
-- parsers of the crate nom are a parameter (Nom, with the laws IsNom of Image.Nom). The loop of
-- Command::parse takes the length of the input as fuel: each round reads at least one byte.
-- Image.RoundTrip and Image.Fits relate the two sides. Image.Elf has Image::from_elf over what the crate
-- xmas_elf finds in an ELF file, which is its argument, and Image.Placed says where the bytes go.
--
-- Usd models host/usd/src/lib.rs, and the HID backend of host/usd/src/hid/rusb.rs, over a USB device
-- that is a parameter: what it accepts and answers is a function of all that went over the bus before
-- (Usd.Hid). The operations (Usd.Protocol) keep that record, so that an error leaves what was sent.
-- `chunks` takes the number of bytes as fuel, which is enough as no chunk is empty. Usd.Sends,
-- Usd.Replies and Usd.Answers state what was sent, what was answered and that nothing panics.
--
-- Emmc models firmware/usbarmory/src/emmc/cmd.rs, the table of the commands and what the controller is
-- told of each (Emmc.Command), the registers of emmc/card.rs: CSD (Emmc.Csd), whose response words
-- are a record, and the card's status (Emmc.Status), whose fields are those that the macro `status!`
-- makes; and the driver emmc.rs over a controller that is a parameter (Emmc.Machine): what a register
-- reads as is a function of all that the driver has done. Emmc.Send has send_command, Emmc.Driver the
-- reading and writing of blocks, Emmc.Setup what `take` does. A loop until a timeout runs `polls` times,
-- and one without a timeout `spins` times, after which the result says so. Emmc.Card says what the calls
-- mean to a card by the manual and the standard, and Emmc.Responsive is the contract of a controller and
-- a card that are prompt: flags of INT_STATUS are up until they are cleared, a card is programming a
-- block for fewer questions than there are polls, and a transfer is done when it is acknowledged. Emmc.Found is
-- about `take` there and Emmc.Live about blocks. The assertion of a debug build that the last command
-- was acknowledged is in the model, those on the alignment of buffers are not.
--
-- Usbd models the USB device: tokens of transfer descriptors (firmware/usbarmory/src/usbd/token.rs,
-- Usbd.Token), queue heads and descriptors (dqh.rs and dtd.rs, Usbd.Queue), the numbering of endpoints
-- and the iterator OneIndices (util.rs, Usbd.Endpoint and Usbd.Indices), and the operations of bus.rs
-- (Usbd.Bus, Alloc, Transfer, Setup, Read, Reset), and `take` and the mutex
-- of usbd.rs (Usbd.Start, Guard). The memory that the controller shares is a part of the
-- state, and what `poll` and `reset` read of registers are their arguments; what the controller does
-- during `read` is a parameter (Port). The loop of `read` on the tripwire takes its rounds as fuel:
-- Usbd.Tripwire says how many are enough. Usbd.Packets, Writes, Sent and Configure are about packets that are
-- received and sent, and about the endpoints once the host has given an address; Usbd.Started and
-- Endpoints are about a device that has just been taken. The loop of `take` for the PLL has no timeout:
-- one that does not end counts as a panic. An iterator over a word of 32 bits is called 33 times at
-- most, and the loop of alloc_ep goes round twice at most: there are two queue heads a direction.
--
-- Dcp models the cryptographic coprocessor's driver: the words of a command (firmware/usbarmory/src/dcp.rs,
-- Dcp.Control), and the digest (dcp/sha256.rs, Dcp.Sha) over a coprocessor that is a parameter, with a
-- record of the commands that it was given. Dcp.Channel is what the manual says that those commands
-- mean; Dcp.Digest and Dcp.Whole relate the driver to it. Assertions of debug builds are part of the
-- digest. Dcp.Aes has the cipher (dcp/aes128.rs) with `init` of dcp.rs and the handles of both; Dcp.Cipher
-- relates it to what the manual says, and Dcp.Handles is about handles that are asked for and dropped in
-- any order. Whether an exchange on a flag fails without a reason is an argument there.
--
-- Fs models the storage that firmware/usbarmory/src/fs.rs gives to the crate littlefs2: Fs.Storage has its
-- operations over a block device, a parameter with the laws of Storage.Device, and Fs.Blocks what is
-- read of what was written. Fs.Files has the handles of files over littlefs2, which is a parameter (Lfs,
-- with the laws IsLfs of Fs.Lfs), and Fs.Closing says which files are open at the end.
--
-- Time models the clock, firmware/usbarmory/src/time.rs: Time.Instant has its operations, where each read
-- of one of the counter's registers is a step of time, and what the registers hold at each read is a
-- parameter (Snvs, with the laws IsCounter). The loops of `now` and `wait` take their rounds as fuel;
-- three rounds of `now` are for a counter that is slow (Time.Reads), and Time.Elapsed is about the time
-- between two instants.
--
-- Rtic models firmware/cortex-a-rtic/src/export.rs, the runtime of tasks that share resources: Rtic.Mask
-- the interrupt controller's values, Rtic.Lock critical sections (`lock`) and the wrapper of a handler
-- (`run`), and Rtic.System the steps of a system of handlers that interrupt one another: a handler
-- starts, enters and leaves critical sections, and ends. When the controller starts a handler is its
-- documented behaviour.
--
-- Prelude has what the modules share: Boolean tests on numbers, lists, bytes in both orders, bit
-- fields, and Outcome, how a Rust function ends (Ok, Err or a panic). Sums of machine words wrap, as
-- they do in the release profile, where overflow is not checked.
--
-- Not modelled: in fs.rs the directories and the calls of
-- LittleFs that are passed on to littlefs2 as they are; the other drivers of firmware/usbarmory/src (random
-- numbers, serial line, LEDs); the macros of cortex-a-rtic, the start-up code, the generated register
-- definitions, text output, and the tools host/txt2rust and host/usbc.
pub mod Prelude
pub mod Memlog
pub mod Storage
pub mod Image
pub mod Usd
pub mod Emmc
pub mod Usbd
pub mod Rtic
pub mod Dcp
pub mod Time
pub mod Fs
