-- ===== src/Dcp/Control.antt =====
-- The control words of a command of firmware/usbarmory/src/dcp.rs.
use usbarmory_rust.Prelude.{
  ℕ, ◌+◌, ◌-◌, ◌%◌, ◌^◌, bit_and, bit_or, Bool, true, false, not, ◌||◌, Option, none, some, List,
  [], ◌∷◌, ◌==◌, if◌then◌else◌,
}
use usbarmory_rust.Prelude.Bytes.{Bytes}
use usbarmory_rust.Prelude.Bits.{◌<<<◌}

-- `setters0!`: the setter of the flag at an offset, in a word of 32 bits
abbrev pub set_flag : ℕ → Bool → ℕ → ℕ
set_flag offset true bits = bit_or bits (1 <<< offset)
set_flag offset false bits = bit_and bits (2 ^ 32 - 1 - (1 <<< offset))

-- `setters1!`: the setter of the field under a mask at an offset
abbrev pub set_field : ℕ → ℕ → ℕ → ℕ → ℕ
set_field mask offset value bits =
    bit_or (bit_and bits (2 ^ 32 - 1 - (mask <<< offset))) (value <<< offset)

-- `Control0::new`, `Control1::new`
abbrev pub control_new : ℕ
control_new = 0

-- `Control0::tag`
abbrev pub tag : ℕ → ℕ → ℕ
tag value bits = set_field 0xff 24 value bits

pub data CipherSelect : Type 0 where
  aes128 : CipherSelect

pub data CipherMode : Type 0 where
  ecb : CipherMode
  cbc : CipherMode

pub data KeySelect : Type 0 where
  key0 : KeySelect
  unique_key : KeySelect
  otp_key : KeySelect

pub data HashSelect : Type 0 where
  sha256 : HashSelect

abbrev pub cipher_select_code : CipherSelect → ℕ
cipher_select_code aes128 = 0

abbrev pub cipher_mode_code : CipherMode → ℕ
cipher_mode_code ecb = 0
cipher_mode_code cbc = 1

abbrev pub key_code : KeySelect → ℕ
key_code key0 = 0
key_code unique_key = 0xfe
key_code otp_key = 0xff

abbrev pub hash_code : HashSelect → ℕ
hash_code sha256 = 2

-- The setters of `Control0` that the drivers call, and those of `Control1`.
abbrev pub decr_semaphore : Bool → ℕ → ℕ
decr_semaphore = set_flag 1

abbrev pub enable_cipher : Bool → ℕ → ℕ
enable_cipher = set_flag 5

abbrev pub enable_hash : Bool → ℕ → ℕ
enable_hash = set_flag 6

abbrev pub cipher_encrypt : Bool → ℕ → ℕ
cipher_encrypt = set_flag 8

abbrev pub set_otp_key : Bool → ℕ → ℕ
set_otp_key = set_flag 10

abbrev pub hash_init : Bool → ℕ → ℕ
hash_init = set_flag 12

abbrev pub hash_term : Bool → ℕ → ℕ
hash_term = set_flag 13

abbrev pub hash_output : Bool → ℕ → ℕ
hash_output = set_flag 15

abbrev pub cipher_select : CipherSelect → ℕ → ℕ
cipher_select select = set_field 0xf 0 (cipher_select_code select)

abbrev pub cipher_mode : CipherMode → ℕ → ℕ
cipher_mode mode = set_field 0xf 4 (cipher_mode_code mode)

abbrev pub key_select : KeySelect → ℕ → ℕ
key_select key = set_field 0xff 8 (key_code key)

abbrev pub hash_select : HashSelect → ℕ → ℕ
hash_select select = set_field 0xf 16 (hash_code select)

-- `STAT_ERROR_MASK`
abbrev pub stat_error_mask : ℕ
stat_error_mask = (0xff <<< 16) + (1 <<< 6) + (1 <<< 5) + (1 <<< 4) + (1 <<< 3) + (1 <<< 2)

-- `Cmd`, with what a pointer points to when the coprocessor takes the command, in place of the
-- address; `payload_pointer` is whether there is one.
pub record Cmd : Type 0 where
  pub control0 : ℕ
  pub control1 : ℕ
  pub src_buffer : Option Bytes
  pub dest_buffer : Bool
  pub buffer_size : ℕ
  pub payload_pointer : Bool

-- `Cmd::new`
abbrev pub cmd_new : Cmd
cmd_new = record {
  control0 = control_new;
  control1 = control_new;
  src_buffer = none;
  dest_buffer = false;
  buffer_size = 0;
  payload_pointer = false;
}

-- `is_done_or_error` on the command's status and the channel's `STAT`
abbrev pub is_done_or_error : ℕ × ℕ → Bool
is_done_or_error (status, stat) =
    not (bit_and status 1 == 0) || not (bit_and stat stat_error_mask == 0)

-- `wait_for_or_timeout` of util.rs, on the samples that its condition reads before the timeout.
abbrev pub wait_for_or_timeout : {A : Type 0} → (A → Bool) → List A → Option A
wait_for_or_timeout done [] = none
wait_for_or_timeout done (x ∷ xs) =
    let rest = wait_for_or_timeout done xs in if done x then some x else rest

-- `round_down` of util.rs
abbrev pub round_down : ℕ → ℕ → ℕ
round_down n m = n - n % m
