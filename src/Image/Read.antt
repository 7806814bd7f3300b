-- ===== src/Image/Read.antt =====
-- host/image/src/read.rs and the parsers of ivt.rs, dcd.rs and lib.rs, over the parsers of `nom`.
-- `u16` differences are taken as in the release profile, where they wrap.
use usbarmory_rust.Prelude.{
  ℕ, zero, suc, ◌+◌, ◌-◌, ◌/◌, ◌%◌, bit_and, Bool, true, false, not, Option, none, some, List, [],
  ◌∷◌, ltb, leb, ◌==◌, if◌then◌else◌, length, get_or, take, drop, replicate,
}
use usbarmory_rust.Prelude.Bytes.{Bytes}
use usbarmory_rust.Prelude.Outcome.{Outcome, ok, err, panic, ◌>>=◌, ◌>>◌, map_err}
use usbarmory_rust.Image.Ivt.{Ivt, BootData, Header, ivt_size, boot_data_size, version0, version1}
use usbarmory_rust.Image.Ivt.{tag_value as ivt_tag}
use usbarmory_rust.Image.Dcd.{
  Header as DcdHeader, header_size, tag_value, command_tag, max_length, version_value, u16_mod,
}
use usbarmory_rust.Image.Dcd.{
  Width, b1, b2, b4, width_value, Flags, write_value, clear_bitmask, set_bitmask, Parameter,
  CommandHeader, AddressValue, WriteDataCommand,
}
use usbarmory_rust.Image.Nom.{ParseError, out_of_fuel, IResult, BitInput, BitResult, Nom}

-- `dcd::Dcd`; each of its commands is a `Command::WriteData`.
pub record ParsedDcd : Type 0 where
  pub header : DcdHeader
  pub commands : List WriteDataCommand
  pub bytes : Bytes

-- `read::Image`
pub record ParsedImage : Type 0 where
  pub ivt : Ivt
  pub boot_data : BootData
  pub dcd : Option ParsedDcd

pub data ReadError : Type 0 where
  ivt_error boot_data_error dcd_error : ReadError

-- `tag[0]`
abbrev pub first_byte : Bytes → ℕ
first_byte bs = get_or bs 0 0

-- `checked_sub(..).expect(..)`
abbrev pub checked_sub : {E : Type 0} → ℕ → ℕ → Outcome E ℕ
checked_sub a b = if ltb a b then panic else ok (a - b)

abbrev pub assert : {E : Type 0} → Bool → Outcome E (Unit {0})
assert true = ok tt
assert false = panic

-- The three bits of `Bytes::parse`.
abbrev pub width_of : ℕ → Outcome ParseError Width
width_of bits =
    if bits == 1 then ok b1 else if bits == 2 then ok b2 else if bits == 4 then ok b4 else panic

-- The two bits of `Flags::parse`.
abbrev pub flags_of : ℕ → Flags
flags_of flags =
    let data_mask = not (bit_and flags 1 == 0) in
    let data_set = not (bit_and flags 2 == 0) in
    if data_mask then (if data_set then set_bitmask else clear_bitmask) else write_value

module _ (nom : Nom Parameter) where
  -- `Bytes::parse`
  unfoldable pub parse_width : BitInput → BitResult Width
  parse_width input = do
    (input, bits) ← nom.take_bits 3 input
    width ← width_of bits
    ok (input, width)

  -- `Flags::parse`
  unfoldable pub parse_flags : BitInput → BitResult Flags
  parse_flags input = do
    (input, _) ← nom.tag_bits 0 3 input
    (input, flags) ← nom.take_bits 2 input
    ok (input, flags_of flags)

  -- `WriteDataCommandParameter::parse`
  unfoldable pub parse_parameter : BitInput → BitResult Parameter
  unfolding parse_width parse_flags
  parse_parameter input = do
    (input, flags) ← parse_flags input
    (input, bytes) ← parse_width input
    ok (input, record { bytes = bytes; flags = flags })

  -- `WriteDataCommandHeader::parse`
  unfoldable pub parse_command_header : Bytes → IResult CommandHeader
  parse_command_header input = do
    (input, tag) ← nom.tag (command_tag ∷ []) input
    (input, length) ← nom.be_u16 input
    (input, parameter) ← nom.bits parse_parameter input
    ok (input, record { tag = first_byte tag; length = length; parameter = parameter })

  parse_value : Width → Bytes → IResult ℕ
  parse_value b1 = nom.be_u8
  parse_value b2 = nom.be_u16
  parse_value b4 = nom.be_u32

  -- The loop of `AddressValue::parse`, over the pairs that are left.
  unfoldable pub parse_pairs : ℕ → Width → Bytes → IResult (List AddressValue)
  unfolding parse_value
  parse_pairs zero bytes input = ok (input, [])
  parse_pairs (suc n) bytes input = do
    (input, address) ← nom.be_u32 input
    (input, value) ← parse_value bytes input
    (input, list) ← parse_pairs n bytes input
    ok (input, record { address = address; value = value } ∷ list)

  -- `WriteDataCommand::parse`: the rest, the length that is left, and the command.
  unfoldable pub parse_command : Bytes → ℕ → Outcome ParseError (Bytes × ℕ × WriteDataCommand)
  unfolding parse_command_header parse_pairs
  parse_command input length = do
    (input, header) ← parse_command_header input
    size ← checked_sub header.length header_size
    (input, address_value) ←
        parse_pairs (size / (4 + width_value header.parameter.bytes)) header.parameter.bytes input
    ok (
      input,
      (length + u16_mod - header.length) % u16_mod,
      record { header = header; address_value = address_value },
    )

  -- The loop of `Command::parse`; what a `let` binds waits.
  unfoldable pub parse_commands : ℕ → Bytes → ℕ → IResult (List WriteDataCommand)
  parse_commands zero input length = err out_of_fuel
  parse_commands (suc fuel) input length =
      let round : IResult (List WriteDataCommand) = do
        (input, left, cmd) ← parse_command input length
        (input, list) ← parse_commands fuel input left
        ok (input, cmd ∷ list)
      in if length == 0 then ok (input, []) else round

  -- `dcd::Header::parse`
  unfoldable pub parse_dcd_header : Bytes → IResult DcdHeader
  parse_dcd_header input = do
    (input, tag) ← nom.tag (tag_value ∷ []) input
    (input, length) ← nom.be_u16 input
    assert (leb length max_length)
    (input, version) ← nom.tag (version_value ∷ []) input
    ok (input, record { tag = first_byte tag; length = length; version = first_byte version })

  -- `Dcd::parse`; a command takes at least four bytes, so the input's length is fuel enough.
  unfoldable pub parse_dcd : Bytes → IResult ParsedDcd
  unfolding parse_dcd_header
  parse_dcd input = do
    (input_, header) ← parse_dcd_header input
    size ← checked_sub header.length header_size
    (input_, commands) ← parse_commands (suc (length input)) input_ size
    assert (leb header.length (length input))
    ok (input_, record { header = header; commands = commands; bytes = take header.length input })

  -- `ivt::Header::parse`
  unfoldable pub parse_ivt_header : Bytes → IResult Header
  parse_ivt_header input = do
    (input, tag) ← nom.tag (ivt_tag ∷ []) input
    (input, length) ← nom.be_u16 input
    assert (length == ivt_size)
    (input, version) ← nom.alt (nom.tag (version0 ∷ [])) (nom.tag (version1 ∷ [])) input
    ok (input, record { tag = first_byte tag; length = length; version = first_byte version })

  -- `Ivt::parse`
  unfoldable pub parse_ivt : Bytes → IResult Ivt
  unfolding parse_ivt_header
  parse_ivt input = do
    (input, header) ← parse_ivt_header input
    (input, entry) ← nom.le_u32 input
    (input, _) ← nom.tag (replicate 4 0) input
    (input, dcd) ← nom.le_u32 input
    (input, boot) ← nom.le_u32 input
    (input, self) ← nom.le_u32 input
    (input, csf) ← nom.le_u32 input
    (input, _) ← nom.tag (replicate 4 0) input
    ok (
      input,
      record { header = header; entry = entry; dcd = dcd; boot = boot; self = self; csf = csf },
    )

  -- `BootData::parse`
  unfoldable pub parse_boot_data : Bytes → IResult BootData
  parse_boot_data input = do
    (input, start) ← nom.le_u32 input
    (input, len) ← nom.le_u32 input
    (input, plugin) ← nom.le_u32 input
    ok (input, record { start = start; len = len; plugin = plugin })

  -- `input.get(at..at + n).expect(..)` and `input.get(at..).expect(..)`
  abbrev get_range : Bytes → ℕ → ℕ → Outcome ReadError Bytes
  get_range input at n = if leb (at + n) (length input) then ok (take n (drop at input)) else panic

  abbrev get_from : Bytes → ℕ → Outcome ReadError Bytes
  get_from input at = if leb at (length input) then ok (drop at input) else panic

  -- The DCD of `Image::parse`, if the IVT has its address.
  unfoldable pub parse_dcd_at : Bytes → Ivt → Outcome ReadError (Option ParsedDcd)
  parse_dcd_at input ivt =
      let found : Outcome ReadError (Option ParsedDcd) = do
        dcd_offset ← checked_sub ivt.dcd ivt.self
        from ← get_from input dcd_offset
        (_, dcd) ← map_err (λ _. dcd_error) (parse_dcd from)
        ok (some dcd)
      in if ivt.dcd == 0 then ok none else found

  -- `read::Image::parse`
  unfoldable pub parse : Bytes → Outcome ReadError ParsedImage
  unfolding parse_ivt parse_boot_data parse_dcd_at
  parse input = do
    (_, ivt) ← map_err (λ _. ivt_error) (parse_ivt input)
    boot_data_offset ← checked_sub ivt.boot ivt.self
    range ← get_range input boot_data_offset boot_data_size
    (_, boot_data) ← map_err (λ _. boot_data_error) (parse_boot_data range)
    dcd ← parse_dcd_at input ivt
    ok (record { ivt = ivt; boot_data = boot_data; dcd = dcd })
