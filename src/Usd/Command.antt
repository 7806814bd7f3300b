-- ===== src/Usd/Command.antt =====
-- `Command` of host/usd/src/lib.rs and its 17 bytes, with a decoder that is written from the layout
-- of a command: the report id, the command's code twice, the address, the format, the count, the
-- data and a reserved byte.
use usbarmory_rust.Prelude.{
  ℕ, ◌+◌, ◌^◌, ◌<◌, ◌≡◌, refl, ap, ap₂, ◌&&◌, Option, none, some, [], ◌∷◌, ◌++◌, ◌==◌,
  if◌then◌else◌, length, set, take, drop, replicate,
}
use usbarmory_rust.Prelude.Bytes.{
  Bytes, be32, le16, le32, of_be16, of_be32, of_le32, of_be32-be32, of_be16-be16,
}

pub data Format : Type 0 where
  b8 b16 b32 : Format

-- `format as u8`
abbrev pub format_value : Format → ℕ
format_value b8 = 0x08
format_value b16 = 0x10
format_value b32 = 0x20

pub data Data : Type 0 where
  u8 u16 u32 : ℕ → Data

pub data Command : Type 0 where
  dcd_write : (address count : ℕ) → Command
  error_status : Command
  jump_address : (address : ℕ) → Command
  read_register : (address : ℕ) (format : Format) (count : ℕ) → Command
  skip_dcd_header : Command
  write_file : (address count : ℕ) → Command
  write_register : (address : ℕ) (data_ : Data) → Command

-- `copy_from_slice` into the part of an array at an offset.
abbrev pub store : ℕ → Bytes → Bytes → Bytes
store at bs array = take at array ++ (bs ++ drop (at + length bs) array)

-- The command's part of the report, `&mut bytes[REPORT_ID + 1..]`, before it is filled.
abbrev empty_report : Bytes
empty_report = replicate 16 0

abbrev command_address : ℕ
command_address = 2

abbrev command_format : ℕ
command_format = 6

abbrev command_count : ℕ
command_count = 7

abbrev command_data : ℕ
command_data = 11

abbrev store_data : Data → Bytes → Bytes
store_data (u8 byte) cmd = set (set cmd command_format (format_value b8)) command_data byte
store_data (u16 halfword) cmd =
    store command_data (le16 halfword) (set cmd command_format (format_value b16))
store_data (u32 word) cmd =
    store command_data (le32 word) (set cmd command_format (format_value b32))

abbrev fill : Command → Bytes → Bytes
fill (dcd_write address count) cmd =
    store command_count (be32 count) (store command_address (be32 address) cmd)
fill error_status cmd = cmd
fill (jump_address address) cmd = store command_address (be32 address) cmd
fill (read_register address format count) cmd =
    store command_count (be32 count)
      (set (store command_address (be32 address) cmd) command_format (format_value format))
fill skip_dcd_header cmd = cmd
fill (write_file address count) cmd =
    store command_count (be32 count) (store command_address (be32 address) cmd)
fill (write_register address data_) cmd =
    store_data data_ (store command_address (be32 address) cmd)

abbrev command_type : Command → ℕ
command_type (dcd_write address count) = 0x0A
command_type error_status = 0x05
command_type (jump_address address) = 0x0B
command_type (read_register address format count) = 0x01
command_type skip_dcd_header = 0x0C
command_type (write_file address count) = 0x04
command_type (write_register address data_) = 0x02

-- `Command::bytes`
unfoldable pub bytes : Command → Bytes
bytes c = 1 ∷ set (set (fill c empty_report) 0 (command_type c)) 1 (command_type c)

-- The numbers of a command fit the fields they are written to.
abbrev FitsData : Data → Type 0
FitsData (u8 x) = x < 2 ^ 8
FitsData (u16 x) = x < 2 ^ 16
FitsData (u32 x) = x < 2 ^ 32

abbrev pub IsCommand : Command → Type 0
IsCommand (dcd_write address count) = (address < 2 ^ 32) × (count < 2 ^ 32)
IsCommand error_status = Unit {0}
IsCommand (jump_address address) = address < 2 ^ 32
IsCommand (read_register address format count) = (address < 2 ^ 32) × (count < 2 ^ 32)
IsCommand skip_dcd_header = Unit {0}
IsCommand (write_file address count) = (address < 2 ^ 32) × (count < 2 ^ 32)
IsCommand (write_register address data_) = (address < 2 ^ 32) × FitsData data_

abbrev decode_format : ℕ → Option Format
decode_format f =
    if f == 0x08
    then some b8
    else if f == 0x10
    then some b16
    else if f == 0x20
    then some b32
    else none

abbrev decode_data : Option Format → ℕ → ℕ → ℕ → ℕ → Option Data
decode_data none a b c d = none
decode_data (some b8) a b c d = some (u8 a)
decode_data (some b16) a b c d = some (u16 (of_be16 b a))
decode_data (some b32) a b c d = some (u32 (of_le32 a b c d))

abbrev with_format : Option Format → (Format → Command) → Option Command
with_format none f = none
with_format (some format) f = some (f format)

abbrev with_data : Option Data → (Data → Command) → Option Command
with_data none f = none
with_data (some data_) f = some (f data_)

-- The command of a code, with the fields it may use.
abbrev decode_as : ℕ → ℕ → Option Format → ℕ → Option Data → Option Command
decode_as code address format count data_ =
    if code == 0x0A
    then some (dcd_write address count)
    else if code == 0x05
    then some error_status
    else if code == 0x0B
    then some (jump_address address)
    else if code == 0x01
    then with_format format (λ f. read_register address f count)
    else if code == 0x0C
    then some skip_dcd_header
    else if code == 0x04
    then some (write_file address count)
    else if code == 0x02
    then with_data data_ (write_register address)
    else none

abbrev pub decode : Bytes → Option Command
decode (id ∷ t1 ∷ t2 ∷ a0 ∷ a1 ∷ a2 ∷ a3 ∷ f ∷ c0 ∷ c1 ∷ c2 ∷ c3 ∷ d0 ∷ d1 ∷ d2 ∷ d3 ∷ _ ∷ []) =
    if (id == 1) && (t1 == t2)
    then decode_as t1 (of_be32 a0 a1 a2 a3) (decode_format f) (of_be32 c0 c1 c2 c3)
        (decode_data (decode_format f) d0 d1 d2 d3)
    else none
decode _ = none

-- A command whose numbers fit their fields is told from its bytes: a decoder of the layout, which
-- takes 17 bytes, recovers it with every field.
pub decode-bytes : (c : Command) → IsCommand c → decode (bytes c) ≡ some c
unfolding bytes
decode-bytes (dcd_write address count) h =
    ap₂ (λ a n. some (dcd_write a n)) (of_be32-be32 address h.0) (of_be32-be32 count h.1)
decode-bytes error_status h = refl
decode-bytes (jump_address address) h = ap (λ a. some (jump_address a)) (of_be32-be32 address h)
decode-bytes (read_register address b8 count) h =
    ap₂ (λ a n. some (read_register a b8 n)) (of_be32-be32 address h.0) (of_be32-be32 count h.1)
decode-bytes (read_register address b16 count) h =
    ap₂ (λ a n. some (read_register a b16 n)) (of_be32-be32 address h.0) (of_be32-be32 count h.1)
decode-bytes (read_register address b32 count) h =
    ap₂ (λ a n. some (read_register a b32 n)) (of_be32-be32 address h.0) (of_be32-be32 count h.1)
decode-bytes skip_dcd_header h = refl
decode-bytes (write_file address count) h =
    ap₂ (λ a n. some (write_file a n)) (of_be32-be32 address h.0) (of_be32-be32 count h.1)
decode-bytes (write_register address (u8 x)) h =
    ap (λ a. some (write_register a (u8 x))) (of_be32-be32 address h.0)
decode-bytes (write_register address (u16 x)) h =
    ap₂ (λ a n. some (write_register a (u16 n))) (of_be32-be32 address h.0) (of_be16-be16 x h.1)
decode-bytes (write_register address (u32 x)) h =
    ap₂ (λ a n. some (write_register a (u32 n))) (of_be32-be32 address h.0) (of_be32-be32 x h.1)

pub length-bytes : (c : Command) → length (bytes c) ≡ 17
unfolding bytes
length-bytes (dcd_write address count) = refl
length-bytes error_status = refl
length-bytes (jump_address address) = refl
length-bytes (read_register address format count) = refl
length-bytes skip_dcd_header = refl
length-bytes (write_file address count) = refl
length-bytes (write_register address (u8 x)) = refl
length-bytes (write_register address (u16 x)) = refl
length-bytes (write_register address (u32 x)) = refl
