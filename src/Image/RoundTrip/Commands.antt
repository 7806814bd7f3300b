-- ===== src/Image/RoundTrip/Commands.antt =====
-- The DCD of an image: the command header with its bit fields, and the address-value pairs.
use usbarmory_rust.Prelude.{
  ℕ, ◌/◌, ◌%◌, ◌^◌, ◌<◌, bit_or, ◌≡◌, refl, ap, ◌∙◌, List, [], ◌∷◌, ◌++◌, arith, length,
}
use usbarmory_rust.Prelude.Bytes.{Bytes, be16, be32, of_be32-be32, of_be16-be16}
use usbarmory_rust.Prelude.Outcome.{ok}
use usbarmory_rust.Prelude.Bits.{◌<<<◌}
use usbarmory_rust.Image.Dcd.{
  Width, b1, b2, b4, width_value, Flags, write_value, clear_bitmask, set_bitmask, flags_value,
  Parameter, CommandHeader, AddressValue, command_tag, write_command_header, write_pairs,
}
use usbarmory_rust.Image.Nom.{Nom, IsNom}
use usbarmory_rust.Image.Read.{
  flags_of, width_of, parse_parameter, parse_command_header, parse_pairs,
}

-- What the flags of a command come back as.
abbrev pub reread : Flags → Flags
reread write_value = write_value
reread clear_bitmask = write_value
reread set_bitmask = set_bitmask

abbrev pub reread_header : CommandHeader → CommandHeader
reread_header h = record h {
  parameter = record { bytes = h.parameter.bytes; flags = reread h.parameter.flags };
}

abbrev parameter_byte : Parameter → ℕ
parameter_byte p = bit_or (width_value p.bytes) (flags_value p.flags <<< 3)

-- A pair is of `u32`s.
abbrev pub ArePairs : List AddressValue → Type 0
ArePairs [] = Unit {0}
ArePairs (av ∷ avs) = (av.address < 2 ^ 32) × (av.value < 2 ^ 32) × ArePairs avs

module _ (nom : Nom Parameter) (is_nom : IsNom nom) where
  parameter_fields :
      (byte : ℕ) (rest : Bytes) (f : Flags) (w : Width)
      → byte / 32 % 8 ≡ 0
      → flags_of (byte / 8 % 4) ≡ f
      → width_of (byte % 8) ≡ ok w
      → parse_parameter nom (byte ∷ rest, 0) ≡ ok ((rest, 0), record { bytes = w; flags = f })
  unfolding parse_parameter
  parameter_fields byte rest f w z ef ew =
      rw
        (
          is_nom.tag_bits-ok 0 3 (byte ∷ rest, 0) (byte ∷ rest, 3)
              (is_nom.take_bits-part 3 0 byte rest (omega arith)
                ∙ ap (λ v. ok ((byte ∷ rest, 3), v)) z),
          is_nom.take_bits-part 2 3 byte rest (omega arith),
          is_nom.take_bits-end 3 5 byte rest (omega arith),
          ew,
        )
        (ap (λ g. ok ((rest, 0), record { bytes = w; flags = g })) ef)

  parse_parameter-byte :
      (w : Width) (f : Flags) (rest : Bytes)
      → parse_parameter nom (parameter_byte (record { bytes = w; flags = f }) ∷ rest, 0)
        ≡ ok ((rest, 0), record { bytes = w; flags = reread f })
  parse_parameter-byte b1 write_value rest = parameter_fields _ rest _ _ refl refl refl
  parse_parameter-byte b1 clear_bitmask rest = parameter_fields _ rest _ _ refl refl refl
  parse_parameter-byte b1 set_bitmask rest = parameter_fields _ rest _ _ refl refl refl
  parse_parameter-byte b2 write_value rest = parameter_fields _ rest _ _ refl refl refl
  parse_parameter-byte b2 clear_bitmask rest = parameter_fields _ rest _ _ refl refl refl
  parse_parameter-byte b2 set_bitmask rest = parameter_fields _ rest _ _ refl refl refl
  parse_parameter-byte b4 write_value rest = parameter_fields _ rest _ _ refl refl refl
  parse_parameter-byte b4 clear_bitmask rest = parameter_fields _ rest _ _ refl refl refl
  parse_parameter-byte b4 set_bitmask rest = parameter_fields _ rest _ _ refl refl refl

  -- A command header with the tag of a write command and a length that fits a `u16` is parsed back,
  -- whatever follows it, except that the flags `ClearBitmask` come back as `WriteValue`.
  pub parse_command_header-write :
      (h : CommandHeader) (rest : Bytes)
      → h.tag ≡ command_tag
      → h.length < 2 ^ 16
      → parse_command_header nom (write_command_header h ++ rest) ≡ ok (rest, reread_header h)
  unfolding parse_command_header write_command_header
  parse_command_header-write h rest et hl =
      rw
        (
          et,
          is_nom.tag_lem (command_tag ∷ []) (be16 h.length ++ (parameter_byte h.parameter ∷ rest)),
          is_nom.be_u16_lem (h.length / 256 % 256) (h.length % 256)
              (parameter_byte h.parameter ∷ rest),
          of_be16-be16 h.length hl,
          is_nom.bits-ok (parse_parameter nom) (parameter_byte h.parameter ∷ rest) rest _
              (parse_parameter-byte h.parameter.bytes h.parameter.flags rest),
        )
        refl

  be_word : (x : ℕ) (rest : Bytes) → x < 2 ^ 32 → nom.be_u32 (be32 x ++ rest) ≡ ok (rest, x)
  be_word x rest h = is_nom.be_u32_lem _ _ _ _ rest ∙ ap (λ n. ok (rest, n)) (of_be32-be32 x h)

  pub parse_pairs-write :
      (avs : List AddressValue) (rest : Bytes)
      → ArePairs avs
      → parse_pairs nom (length avs) b4 (write_pairs avs ++ rest) ≡ ok (rest, avs)
  unfolding parse_pairs
  parse_pairs-write [] rest h = refl
  parse_pairs-write (av ∷ avs) rest h =
      rw
        (
          be_word av.address (be32 av.value ++ (write_pairs avs ++ rest)) h.0,
          be_word av.value (write_pairs avs ++ rest) h.1,
          parse_pairs-write avs rest h.2,
        )
        refl
