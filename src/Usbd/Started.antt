-- ===== src/Usbd/Started.antt =====
-- `take` of firmware/usbarmory/src/usbd.rs on a board on which its loops end.
use usbarmory_rust.Usbd.Start.{
  await, await_pll, Registers, Board, Statics, Peripherals, power_pll, set_up_phy, set_mode,
  set_bits, clear_bits, set_up_device, start,
}
use usbarmory_rust.Dcp.Control.{wait_for_or_timeout}
use usbarmory_rust.Prelude.{
  ℕ, ◌-◌, ◌^◌, bit_and, ◌≡◌, refl, ◌∙◌, Bool, true, false, not, some, List, arith, ◌==◌,
}
use usbarmory_rust.Prelude.Outcome.{ok}
use usbarmory_rust.Prelude.Bits.{◌<<<◌, bit_and_mask}
use usbarmory_rust.Prelude.Bits.Masks.{bit_and-low, bit_or-low}

-- A clock that locks, and a controller that ends its reset and takes on the mode of a device.
pub record IsBoard (board : Board) : Type 0 where
  pub locks :
      (r : Registers)
      → (pll : ℕ) × (wait_for_or_timeout
            (λ pll. not (bit_and pll (1 <<< 31) == 0))
            (board.pll_reads r)
          ≡ some pll)
  pub ends_reset :
      (r : Registers)
      → (usbcmd : ℕ) × (wait_for_or_timeout
            (λ usbcmd. bit_and usbcmd (1 <<< 1) == 0)
            (board.usbcmd_reads r)
          ≡ some usbcmd)
  pub is_device :
      (r : Registers)
      → bit_and r.usbmode 0b11 ≡ 0b10
      → (usbmode : ℕ) × (wait_for_or_timeout
            (λ usbmode. bit_and usbmode 0b11 == 0b10)
            (board.usbmode_reads r)
          ≡ some usbmode)

abbrev pub nothing_taken : Peripherals
nothing_taken = record { ccm_analog = false; usbphy = false; usb_analog = false; usb_uog1 = false }

abbrev pub all_taken : Peripherals
all_taken = record { ccm_analog = true; usbphy = true; usb_analog = true; usb_uog1 = true }

-- Whatever the mode was after the reset, it is that of a device then.
set_mode-usbmode : (r : Registers) → bit_and (set_mode r).usbmode 0b11 ≡ 0b10
set_mode-usbmode r =
    let cleared = clear_bits 0b11 r.usbmode in
    let device = set_bits 0b10 cleared in
    let lockouts = set_bits (1 <<< 3) device in
    bit_and_mask 2 (clear_bits (1 <<< 4) lockouts)
    ∙ omega (
      arith,
      bit_and-low r.usbmode (2 ^ 32 - 1 - 0b11),
      bit_or-low cleared 0b10,
      bit_or-low device (1 <<< 3),
      bit_and-low lockouts (2 ^ 32 - 1 - (1 <<< 4)),
    )

await-ok :
    (ready : ℕ → Bool) (reads : List ℕ) (value : ℕ)
    → wait_for_or_timeout ready reads ≡ some value
    → await ready reads ≡ ok tt
unfolding await
await-ok ready reads value h = rw (await, h) refl

await_pll-ok :
    (reads : List ℕ) (value : ℕ)
    → wait_for_or_timeout (λ pll. not (bit_and pll (1 <<< 31) == 0)) reads ≡ some value
    → await_pll reads ≡ ok tt
unfolding await_pll
await_pll-ok reads value h = rw (await_pll, h) refl

pub start-runs :
    (board : Board) (statics : Statics) (r : Registers)
    → IsBoard board
    → (r' : Registers) × (start board statics r ≡ ok r')
unfolding start
start-runs board statics r good =
    let powered = power_pll r in
    let resetting = set_up_phy powered in
    let moded = set_mode (board.after_reset resetting) in
    let is_device = set_mode-usbmode (board.after_reset resetting) in
    (
      set_up_device statics.dqhs moded,
      rw
          (
            start,
            await_pll-ok (board.pll_reads powered) (good.locks powered).0 (good.locks powered).1,
            await-ok (λ usbcmd. bit_and usbcmd (1 <<< 1) == 0) (board.usbcmd_reads resetting)
                (good.ends_reset resetting).0 (good.ends_reset resetting).1,
            await-ok (λ usbmode. bit_and usbmode 0b11 == 0b10) (board.usbmode_reads moded)
                (good.is_device moded is_device).0 (good.is_device moded is_device).1,
          )
          refl,
    )
