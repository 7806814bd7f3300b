-- ===== src/Dcp/Channel.antt =====
-- What a channel of the coprocessor makes of the commands of firmware/usbarmory/src/dcp/sha256.rs, as
-- the manual of the processor says of the flags of a command.
use usbarmory_rust.Prelude.{
  ℕ, ◌%◌, bit_and, ◌≡◌, refl, Bool, true, false, not, ◌&&◌, Option, none, some, List, [], ◌∷◌, ◌++◌,
  ◌==◌, if◌then◌else◌, length, take,
}
use usbarmory_rust.Prelude.Bytes.{Bytes}
use usbarmory_rust.Prelude.Bits.{◌<<<◌, ◌>>>◌}
use usbarmory_rust.Dcp.Control.{Cmd}

-- A channel that has no message, one that is in the middle of a message, one that has had the last
-- block of a message, and one that has had a command that is none of a digest.
pub data Channel : Type 0 where
  idle : Channel
  absorbing : Bytes → Channel
  done : Bytes → Channel
  fault : Channel

abbrev pub has_flag : ℕ → ℕ → Bool
has_flag offset bits = not (bit_and bits (1 <<< offset) == 0)

-- Whether a command is one of a digest by SHA-256 on input data.
abbrev pub is_sha256 : Cmd → Bool
is_sha256 cmd =
    has_flag 1 cmd.control0
    && (has_flag 6 cmd.control0
        && (not (has_flag 15 cmd.control0) && (bit_and (cmd.control1 >>> 16) 0xf == 2)))

-- The data of a command; no data when the size is zero, and none known without a buffer.
abbrev pub cmd_data : Cmd → Option Bytes
cmd_data cmd =
    if cmd.buffer_size == 0
    then some []
    else elim (cmd.src_buffer) [ none ↦ none | some bytes ↦ some (take cmd.buffer_size bytes) ]

-- A message with a command's data at its end: only the last data are not a multiple of a block.
abbrev pub close : Bool → Bytes → Bytes → Channel
close true message bytes = done (message ++ bytes)
close false message bytes = if length bytes % 64 == 0 then absorbing (message ++ bytes) else fault

abbrev pub carry_on : Bool → Channel → Bytes → Channel
carry_on last (absorbing message) bytes = close last message bytes
carry_on last idle bytes = fault
carry_on last (done message) bytes = fault
carry_on last fault bytes = fault

abbrev pub absorb_data : Channel → Cmd → Option Bytes → Channel
absorb_data ch cmd none = fault
absorb_data ch cmd (some bytes) =
    if is_sha256 cmd
    then (if has_flag 12 cmd.control0
        then close (has_flag 13 cmd.control0) [] bytes
        else carry_on (has_flag 13 cmd.control0) ch bytes)
    else fault

unfoldable pub absorb : Channel → Cmd → Channel
absorb ch cmd = absorb_data ch cmd (cmd_data cmd)

-- The channel after a sequence of commands.
abbrev pub channel : Channel → List Cmd → Channel
unfolding absorb
channel ch [] = ch
channel ch (cmd ∷ cmds) = channel (absorb ch cmd) cmds

pub channel-append :
    (ch : Channel) (xs ys : List Cmd) → channel ch (xs ++ ys) ≡ channel (channel ch xs) ys
unfolding channel
channel-append ch [] ys = refl
channel-append ch (x ∷ xs) ys = channel-append (absorb ch x) xs ys

pub channel-snoc :
    (ch : Channel) (issued : List Cmd) (cmd : Cmd)
    → channel ch (issued ++ (cmd ∷ [])) ≡ absorb (channel ch issued) cmd
unfolding channel
channel-snoc ch issued cmd = channel-append ch issued (cmd ∷ [])
