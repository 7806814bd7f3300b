-- ===== src/Image/RoundTrip/Dcd.antt =====
-- The whole DCD of an image: its header, and one command that writes all the pairs.
use usbarmory_rust.Prelude.{
  ℕ, suc, ◌+◌, ◌-◌, ◌*◌, ◌/◌, ◌%◌, ◌≤◌, ◌<◌, ◌≡◌, refl, sym, ap, ◌∙◌, true, false, some, List, [],
  ◌∷◌, ◌++◌, append_assoc, arith, ltb, leb, ◌==◌, length, length-append, take,
}
use usbarmory_rust.Prelude.Bytes.{Bytes, be16, of_be16-be16}
use usbarmory_rust.Prelude.Splice.{take-append}
use usbarmory_rust.Prelude.Outcome.{ok}
use usbarmory_rust.Image.Dcd.{
  b4, write_value, Parameter, AddressValue, WriteDataCommand, Dcd, command_tag, header_size,
  tag_value, version_value, max_length, u16_mod, size, write_command_header, write_pairs, write_dcd,
  write_header, default_header,
}
use usbarmory_rust.Image.Nom.{Nom, IsNom}
use usbarmory_rust.Image.Read.{ParsedDcd, parse_command, parse_commands, parse_dcd}
use usbarmory_rust.Image.RoundTrip.Commands.{
  ArePairs, parse_command_header-write, parse_pairs-write,
}

-- What `WriteDataCommand::writes` makes of a list that is short enough, and its bytes.
abbrev pub command_of : List AddressValue → WriteDataCommand
command_of avs = record {
  header = record {
    tag = command_tag;
    length = header_size + 8 * length avs;
    parameter = record { bytes = b4; flags = write_value };
  };
  address_value = avs;
}

abbrev pub dcd_bytes : List AddressValue → Bytes
dcd_bytes avs =
    write_header (record default_header { length = 8 + 8 * length avs })
    ++ (write_command_header (command_of avs).header ++ write_pairs avs)

-- What a DCD is read as.
abbrev pub parsed : List AddressValue → ParsedDcd
parsed avs = record {
  header = record default_header { length = 8 + 8 * length avs };
  commands = command_of avs ∷ [];
  bytes = dcd_bytes avs;
}

-- The longest DCD that the boot ROM takes has 220 pairs.
abbrev pub max_pairs : ℕ
max_pairs = 220

pub write_dcd-eq :
    (d : Dcd)
    → length d.writes < 8191
    → (write_dcd d ≡ some (dcd_bytes d.writes)) × (size d ≡ 8 + 8 * length d.writes)
unfolding write_dcd
write_dcd-eq d h = (rw (short, sum) (rw total refl), total)
  where
    total :
        (header_size + header_size + 8 * (length d.writes % u16_mod) % u16_mod) % u16_mod
        ≡ 8 + 8 * length d.writes
    total = omega arith

    short : ltb (8 * length d.writes) u16_mod ≡ true
    short = ground arith

    sum : (header_size + 8 * length d.writes) % u16_mod ≡ header_size + 8 * length d.writes
    sum = omega arith

length-write_pairs : (avs : List AddressValue) → length (write_pairs avs) ≡ 8 * length avs
length-write_pairs [] = refl
length-write_pairs (av ∷ avs) = omega (arith, length-write_pairs avs)

pub length-dcd_bytes : (avs : List AddressValue) → length (dcd_bytes avs) ≡ 8 + 8 * length avs
unfolding write_command_header
length-dcd_bytes avs = omega (arith, length-write_pairs avs)

module _ (nom : Nom Parameter) (is_nom : IsNom nom) where
  parse_command-write :
      (avs : List AddressValue) (rest : Bytes)
      → ArePairs avs
      → length avs ≤ max_pairs
      → parse_command nom
          (write_command_header (command_of avs).header ++ (write_pairs avs ++ rest))
          (4 + 8 * length avs)
        ≡ ok (rest, 0, command_of avs)
  unfolding parse_command
  parse_command-write avs rest pairs h =
      rw
        (
          parse_command_header-write nom is_nom (command_of avs).header (write_pairs avs ++ rest)
              refl (omega arith),
          enough,
          count,
          parse_pairs-write nom is_nom avs rest pairs,
          left,
        )
        refl
    where
      enough : ltb (header_size + 8 * length avs) header_size ≡ false
      enough = ground arith

      count : (header_size + 8 * length avs - header_size) / (4 + 4) ≡ length avs
      count = omega arith

      left : (4 + 8 * length avs + u16_mod - (header_size + 8 * length avs)) % u16_mod ≡ 0
      left = omega arith

  parse_commands-write :
      (fuel : ℕ) (avs : List AddressValue) (rest : Bytes)
      → ArePairs avs
      → length avs ≤ max_pairs
      → parse_commands nom
          (suc (suc fuel))
          (write_command_header (command_of avs).header ++ (write_pairs avs ++ rest))
          (4 + 8 * length avs)
        ≡ ok (rest, command_of avs ∷ [])
  unfolding parse_commands
  parse_commands-write fuel avs rest pairs h = rw (more, parse_command-write avs rest pairs h) refl
    where
      more : (4 + 8 * length avs == 0) ≡ false
      more = ground arith

  flat : List AddressValue → Bytes → Bytes
  flat avs rest =
      write_header (record default_header { length = 8 + 8 * length avs })
      ++ (write_command_header (command_of avs).header ++ (write_pairs avs ++ rest))

  dcd_bytes-flat : (avs : List AddressValue) (rest : Bytes) → dcd_bytes avs ++ rest ≡ flat avs rest
  unfolding flat
  dcd_bytes-flat avs rest =
      ap (write_header (record default_header { length = 8 + 8 * length avs }) ++◌)
        (append_assoc (write_command_header (command_of avs).header) (write_pairs avs) rest)

  parse_dcd-flat :
      (avs : List AddressValue) (rest : Bytes)
      → ArePairs avs
      → length avs ≤ max_pairs
      → 8 + 8 * length avs ≤ length (flat avs rest)
      → parse_dcd nom (flat avs rest)
        ≡ ok (rest, record (parsed avs) { bytes = take (8 + 8 * length avs) (flat avs rest) })
  unfolding parse_dcd flat
  parse_dcd-flat avs rest pairs h fits =
      rw
        (
          is_nom.tag_lem (tag_value ∷ []) (be16 total ++ (version_value ∷ after)),
          is_nom.be_u16_lem (total / 256 % 256) (total % 256) (version_value ∷ after),
          of_be16-be16 total (omega arith),
          small,
          is_nom.tag_lem (version_value ∷ []) after,
          enough,
          left,
          parse_commands-write _ avs rest pairs h,
          fits_b,
        )
        refl
    where
      total : ℕ
      total = 8 + 8 * length avs

      after : Bytes
      after = write_command_header (command_of avs).header ++ (write_pairs avs ++ rest)

      small : leb total max_length ≡ true
      small = ground arith

      enough : ltb total header_size ≡ false
      enough = ground arith

      left : total - header_size ≡ 4 + 8 * length avs
      left = omega arith

      fits_b : leb total (length (flat avs rest)) ≡ true
      fits_b = ground (arith, fits)

  -- A DCD with at most 220 pairs of `u32`s is parsed back, whatever follows it: its header, one
  -- command with the pairs, and its bytes; what follows is left over.
  pub parse_dcd-write :
      (avs : List AddressValue) (rest : Bytes)
      → ArePairs avs
      → length avs ≤ max_pairs
      → parse_dcd nom (dcd_bytes avs ++ rest) ≡ ok (rest, parsed avs)
  parse_dcd-write avs rest pairs h =
      ap (parse_dcd nom) (dcd_bytes-flat avs rest)
      ∙ (parse_dcd-flat avs rest pairs h fits
          ∙ ap (λ bs. ok (rest, record (parsed avs) { bytes = bs })) same)
    where
      fits : 8 + 8 * length avs ≤ length (flat avs rest)
      fits = omega (
        arith,
        ap length (dcd_bytes-flat avs rest),
        length-append (dcd_bytes avs) rest,
        length-dcd_bytes avs,
      )

      same : take (8 + 8 * length avs) (flat avs rest) ≡ dcd_bytes avs
      same =
          ap (take (8 + 8 * length avs)) (sym (dcd_bytes-flat avs rest))
          ∙ take-append (dcd_bytes avs) rest _ (sym (length-dcd_bytes avs))
