-- ===== src/Image/Dcd.antt =====
-- host/image/src/dcd.rs: the Device Configuration Data, and how write.rs encodes it. `u16` sums are
-- taken as in the release profile, where they wrap.
use usbarmory_rust.Prelude.{
  ℕ, ◌+◌, ◌*◌, ◌%◌, ◌^◌, bit_or, Bool, true, false, Option, none, some, List, [], ◌∷◌, ◌++◌, ltb,
  if◌then◌else◌, length,
}
use usbarmory_rust.Prelude.Bytes.{Bytes, be16, be32}
use usbarmory_rust.Prelude.Bits.{◌<<<◌}

-- `dcd::Header`
pub record Header : Type 0 where
  pub tag : ℕ
  pub length : ℕ
  pub version : ℕ

-- `Header::SIZE` and `WriteDataCommandHeader::SIZE`
abbrev pub header_size : ℕ
header_size = 4

abbrev pub tag_value : ℕ
tag_value = 0xD2

abbrev pub command_tag : ℕ
command_tag = 0xCC

abbrev pub max_length : ℕ
max_length = 1768

abbrev pub version_value : ℕ
version_value = 0x40

-- `impl Default for Header`
abbrev pub default_header : Header
default_header = record { tag = tag_value; length = 0; version = version_value }

-- `Bytes`, the width of the target locations
pub data Width : Type 0 where
  b1 b2 b4 : Width

-- `bytes as u8`
abbrev pub width_value : Width → ℕ
width_value b1 = 1
width_value b2 = 2
width_value b4 = 4

pub data Flags : Type 0 where
  write_value clear_bitmask set_bitmask : Flags

-- `flags as u8`
abbrev pub flags_value : Flags → ℕ
flags_value write_value = 0
flags_value clear_bitmask = 2
flags_value set_bitmask = 3

-- `WriteDataCommandParameter`
pub record Parameter : Type 0 where
  pub bytes : Width
  pub flags : Flags

-- `WriteDataCommandHeader`
pub record CommandHeader : Type 0 where
  pub tag : ℕ
  pub length : ℕ
  pub parameter : Parameter

pub record AddressValue : Type 0 where
  pub address : ℕ
  pub value : ℕ

pub record WriteDataCommand : Type 0 where
  pub header : CommandHeader
  pub address_value : List AddressValue

-- `write::Dcd`, a DCD to write
pub record Dcd : Type 0 where
  pub writes : List AddressValue

abbrev pub u16_mod : ℕ
u16_mod = 2 ^ 16

-- `WriteDataCommand::writes`; the conversion to `u16` panics where the length is too large.
unfoldable pub writes : List AddressValue → Option WriteDataCommand
writes address_value =
    let size = 8 * length address_value in
    if ltb size u16_mod
    then some (record {
      header = record {
        tag = command_tag;
        length = (header_size + size) % u16_mod;
        parameter = record { bytes = b4; flags = write_value };
      };
      address_value = address_value;
    })
    else none

-- `write::Dcd::size`
unfoldable pub size : Dcd → ℕ
size d = (header_size + header_size + 8 * (length d.writes % u16_mod) % u16_mod) % u16_mod

-- `dcd::Header::write`
abbrev pub write_header : Header → Bytes
write_header h = h.tag ∷ (be16 h.length ++ h.version ∷ [])

-- `WriteDataCommandHeader::write`
unfoldable pub write_command_header : CommandHeader → Bytes
write_command_header h =
    h.tag
    ∷ (be16 h.length
        ++ bit_or (width_value h.parameter.bytes) (flags_value h.parameter.flags <<< 3) ∷ [])

abbrev pub write_pairs : List AddressValue → Bytes
write_pairs [] = []
write_pairs (av ∷ avs) = be32 av.address ++ (be32 av.value ++ write_pairs avs)

abbrev pub is_b4 : Width → Bool
is_b4 b4 = true
is_b4 _ = false

-- `WriteDataCommand::write`; `none` is the panic of its assertion.
unfoldable pub write_command : WriteDataCommand → Option Bytes
unfolding write_command_header
write_command c =
    if is_b4 c.header.parameter.bytes
    then some (write_command_header c.header ++ write_pairs c.address_value)
    else none

abbrev pub write_after : Bytes → Option WriteDataCommand → Option Bytes
write_after front none = none
write_after front (some c) = elim (write_command c) [
  | none ↦ none
  | some bytes ↦ some (front ++ bytes)
]

-- `write::Dcd::write`
unfoldable pub write_dcd : Dcd → Option Bytes
unfolding size writes write_command
write_dcd d =
    write_after (write_header (record default_header { length = size d })) (writes d.writes)
