-- ===== src/Dcp/Aes.antt =====
-- firmware/usbarmory/src/dcp/aes128.rs, with `init` of dcp.rs, which the handles call, and the handle
-- of the digest (dcp/sha256.rs). The coprocessor is a parameter; what is written to its registers is
-- recorded. An exchange on a flag may fail although the flag has the expected value, as that of
-- `compare_exchange_weak` may: whether one does is an argument.
use usbarmory_rust.Prelude.{
  ℕ, ◌+◌, bit_and, Bool, true, false, not, ◌&&◌, Option, none, some, List, ◌∷◌, ◌==◌, if◌then◌else◌,
  length, get_or,
}
use usbarmory_rust.Prelude.Bytes.{Bytes, of_le32}
use usbarmory_rust.Prelude.Bits.{◌<<<◌}
use usbarmory_rust.Prelude.Outcome.{ok, err, panic, ◌>>=◌, ◌>>◌}
use usbarmory_rust.Dcp.Control.{
  control_new, decr_semaphore, enable_cipher, cipher_encrypt, set_otp_key, cipher_select,
  cipher_mode, key_select, KeySelect, key0, unique_key, otp_key, CipherSelect, ecb, stat_error_mask,
  Cmd, cmd_new, is_done_or_error, wait_for_or_timeout,
}
use usbarmory_rust.Dcp.Sha.{Run, assert, memlog_flush_and_reset}

-- AES128_HW_CHANNEL, SHA256_CHANNEL, AES128_RAM_CHANNEL
abbrev pub aes128_hw_channel : ℕ
aes128_hw_channel = 3

abbrev pub sha256_channel : ℕ
sha256_channel = 2

abbrev pub aes128_ram_channel : ℕ
aes128_ram_channel = 1

pub data Write : Type 0 where
  context : Write
  key_register keydata channelctrl_set channelctrl_clr ch3sema : ℕ → Write
  ch3cmdptr : Cmd → Write

-- What the registers read as after the writes so far, the newest first: `STAT` up to the timeout, and
-- the status of the command on channel 3 with `CH3STAT`, up to the timeout; and the bytes that the
-- coprocessor has written to the destination of that command.
pub record Coprocessor : Type 0 where
  pub version : ℕ
  pub capability1 : ℕ
  pub stat : List Write → List ℕ
  pub samples : List Write → List (ℕ × ℕ)
  pub destination : List Write → Bytes

-- The static flags, the flag of `HW_DCP::take`, and what has been written.
pub record Engine : Type 0 where
  pub hw_aes_in_use : Bool
  pub ram_aes_in_use : Bool
  pub sha_in_use : Bool
  pub initialized : Bool
  pub taken : Bool
  pub written : List Write

abbrev pub write : Write → Engine → Engine
write w e = record e { written = w ∷ e.written }

-- The result of `compare_exchange_weak(false, true, ..)`, whether it fails without a reason or not.
abbrev pub exchanges : Bool → Bool → Bool
exchanges spurious flag = not spurious && not flag

-- Which of the two exchanges of a call fail without a reason.
pub record Spurious : Type 0 where
  pub at_flag : Bool
  pub at_init : Bool

-- `Aes128`
pub record Aes128 : Type 0 where
  pub key : KeySelect

pub data HardwareKey : Type 0 where
  unique otp : HardwareKey

-- `into` of `HardwareKey`
abbrev pub into : HardwareKey → KeySelect
into unique = unique_key
into otp = otp_key

-- The four words of `KEYDATA` for a key of 16 bytes.
abbrev pub key_word : Bytes → ℕ → ℕ
key_word bytes i =
    of_le32 (get_or bytes i 0) (get_or bytes (i + 1) 0) (get_or bytes (i + 2) 0)
      (get_or bytes (i + 3) 0)

abbrev pub install_key : Bytes → Engine → Engine
install_key bytes e = write (keydata (key_word bytes 12)) (
    write (keydata (key_word bytes 8)) (
      write (keydata (key_word bytes 4))
        (write (keydata (key_word bytes 0)) (write (key_register (aes128_ram_channel <<< 6)) e))))

is_otp : KeySelect → Bool
is_otp otp_key = true
is_otp unique_key = false
is_otp key0 = false

-- The command of `xcrypt`, on a block.
unfoldable pub xcrypt_cmd : KeySelect → Bytes → Bool → Cmd
unfolding is_otp
xcrypt_cmd key block encrypt = record cmd_new {
  control0 =
      set_otp_key (is_otp key)
        (cipher_encrypt encrypt (enable_cipher true (decr_semaphore true control_new)));
  control1 = key_select key (cipher_mode ecb (cipher_select CipherSelect.aes128 control_new));
  src_buffer = some block;
  dest_buffer = true;
  buffer_size = length block;
}

module _ (dcp : Coprocessor) where
  -- `init`
  unfoldable pub init : Bool → Engine → Run (Bool × Engine)
  init spurious e =
      if exchanges spurious e.initialized
      then (do
        assert (not e.taken)
        assert (dcp.version == (1 <<< 25) + (1 <<< 16))
        assert (not (bit_and dcp.capability1 1 == 0))
        assert (not (bit_and dcp.capability1 (1 <<< 18) == 0))
        ok (true, write context (record e { initialized = true; taken = true })))
      else ok (false, e)

  -- `is_ready` of `new_hardware` on a value of `STAT`
  abbrev pub is_ready : ℕ → Bool
  is_ready stat = not (bit_and stat (1 <<< 28) == 0)

  -- `new_hardware`
  unfoldable pub new_hardware : Spurious → HardwareKey → Engine → Run (Option Aes128 × Engine)
  unfolding init
  new_hardware spurious key e =
      if exchanges spurious.at_flag e.hw_aes_in_use
      then (do
        (first, e') ← init spurious.at_init (record e { hw_aes_in_use = true })
        elim (wait_for_or_timeout is_ready (dcp.stat e'.written)) [
          | none ↦ err memlog_flush_and_reset
          | some stat ↦ ok tt
        ]
        ok (some (record { key = into key }), write (channelctrl_set (1 <<< aes128_hw_channel)) e'))
      else ok (none, e)

  -- `new_otp`, `new_unique`
  unfoldable pub new_otp : Spurious → Engine → Run (Option Aes128 × Engine)
  unfolding new_hardware
  new_otp spurious e = new_hardware spurious otp e

  unfoldable pub new_unique : Spurious → Engine → Run (Option Aes128 × Engine)
  unfolding new_hardware
  new_unique spurious e = new_hardware spurious unique e

  -- `new_ram`
  unfoldable pub new_ram : Spurious → Bytes → Engine → Run (Option Aes128 × Engine)
  unfolding init
  new_ram spurious bytes e =
      if exchanges spurious.at_flag e.ram_aes_in_use
      then (do
        (first, e') ← init spurious.at_init (record e { ram_aes_in_use = true })
        ok (
          some (record { key = key0 }),
          write (channelctrl_set ((1 <<< aes128_ram_channel) + (1 <<< 3))) (install_key bytes e'),
        ))
      else ok (none, e)

  -- `new` of the trait
  unfoldable pub new : Spurious → Bytes → Engine → Run (Aes128 × Engine)
  unfolding new_ram
  new spurious bytes e = do
    (handle, e') ← new_ram spurious bytes e
    elim handle [ none ↦ panic | some aes ↦ ok (aes, e') ]

  -- `take` of `Sha256`: whether there is a handle.
  unfoldable pub take_sha : Spurious → Engine → Run (Bool × Engine)
  unfolding init
  take_sha spurious e =
      if exchanges spurious.at_flag e.sha_in_use
      then (do
        (first, e') ← init spurious.at_init (record e { sha_in_use = true })
        ok (true, write (channelctrl_set (1 <<< sha256_channel)) e'))
      else ok (false, e)

  -- `xcrypt`: the block that is left in place of the one given.
  unfoldable pub xcrypt : Aes128 → Bytes → Bool → Engine → Run (Bytes × Engine)
  unfolding xcrypt_cmd
  xcrypt aes block encrypt e =
      let started = write (ch3sema 1) (write (ch3cmdptr (xcrypt_cmd aes.key block encrypt)) e) in
      elim (wait_for_or_timeout is_done_or_error (dcp.samples started.written)) [
        | none ↦ err memlog_flush_and_reset
        | some sample ↦
            if bit_and sample.1 stat_error_mask == 0
            then ok (dcp.destination started.written, started)
            else err memlog_flush_and_reset
      ]

  -- `encrypt_block`, `decrypt_block`
  unfoldable pub encrypt_block : Aes128 → Bytes → Engine → Run (Bytes × Engine)
  unfolding xcrypt
  encrypt_block aes block e = xcrypt aes block true e

  unfoldable pub decrypt_block : Aes128 → Bytes → Engine → Run (Bytes × Engine)
  unfolding xcrypt
  decrypt_block aes block e = xcrypt aes block false e

-- `drop` of `Aes128`
abbrev pub drop_aes : KeySelect → Engine → Engine
drop_aes key0 e = record e { ram_aes_in_use = false }
drop_aes unique_key e = record e { hw_aes_in_use = false }
drop_aes otp_key e = record e { hw_aes_in_use = false }

-- `drop` of `Sha256`
abbrev pub drop_sha : Engine → Engine
drop_sha e = write (channelctrl_clr (1 <<< sha256_channel)) (record e { sha_in_use = false })
