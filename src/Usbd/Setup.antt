-- ===== src/Usbd/Setup.antt =====
-- How `read` of firmware/usbarmory/src/usbd/bus.rs copies a SETUP packet: the controller may write the
-- next packet meanwhile, and then clears the tripwire, a bit of USBCMD.
use usbarmory_rust.Usbd.Bus.{Inner, usbcmd_set, write}
use usbarmory_rust.Prelude.{
  ℕ, zero, suc, ◌+◌, ◌<◌, ◌≡◌, Bool, true, false, Option, none, some, [], ◌∷◌, if◌then◌else◌,
  length, get_or,
}
use usbarmory_rust.Prelude.Bytes.{Bytes}
use usbarmory_rust.Prelude.Bits.{◌<<<◌}

-- The queue head's SETUP bytes at each moment, and what the tripwire reads as at a moment when it was
-- set at another one.
pub record Wire : Type 0 where
  pub setup : ℕ → Bytes
  pub sutw : ℕ → ℕ → Bool

-- CMD_SUTW
abbrev pub cmd_sutw : ℕ
cmd_sutw = 1 <<< 13

-- SETUP_BYTES
abbrev pub setup_bytes : ℕ
setup_bytes = 8

-- `copy_setup_bytes`: byte after byte, each at a moment of its own, from a moment on.
abbrev pub copy_from : Wire → ℕ → ℕ → ℕ → Bytes
copy_from wire zero i now = []
copy_from wire (suc n) i now = get_or (wire.setup now) i 0 ∷ copy_from wire n (suc i) (suc now)

abbrev pub copy_setup_bytes : Wire → ℕ → Bytes
copy_setup_bytes wire now = copy_from wire setup_bytes 0 now

-- The loop of `read` from a moment on: the tripwire is set, the bytes are copied, and the tripwire is
-- read. The packet, the moment of the end, and what was written; `none` is a loop that has not ended.
unfoldable pub copy_packet : Wire → ℕ → ℕ → Inner → Option (Bytes × ℕ × Inner)
copy_packet wire zero now s = none
copy_packet wire (suc rounds) now s =
    let set_s = write (usbcmd_set cmd_sutw) s in
    let end = now + setup_bytes in
    let again = copy_packet wire rounds (suc end) set_s in
    if wire.sutw now end then some (copy_setup_bytes wire now, end, set_s) else again

-- A controller that clears the tripwire just when it writes a packet: `arrives` says at which moments
-- it does so, and the bytes are the same up to the next of them.
pub record IsWire (wire : Wire) (arrives : ℕ → Bool) : Type 0 where
  pub sized : (t : ℕ) → length (wire.setup t) ≡ setup_bytes
  pub kept : (t : ℕ) → arrives t ≡ false → wire.setup (suc t) ≡ wire.setup t
  pub holds : (t k : ℕ) → wire.sutw t (t + k) ≡ true → (i : ℕ) → i < k → arrives (t + i) ≡ false
  pub stays : (t k : ℕ) → ((i : ℕ) → i < k → arrives (t + i) ≡ false) → wire.sutw t (t + k) ≡ true
