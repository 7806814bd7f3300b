-- ===== src/Usbd/Start.antt =====
-- `take` of firmware/usbarmory/src/usbd.rs: the first state of the device, and what is written to the
-- registers of the clocks, the PHY, the charger detector and the controller. The clock and the controller
-- are a parameter.
use usbarmory_rust.Usbd.Bus.{memlog_flush_and_reset, Run, Inner}
use usbarmory_rust.Usbd.Queue.{dqh_new, dtd_new}
use usbarmory_rust.Dcp.Control.{wait_for_or_timeout}
use usbarmory_rust.Prelude.{
  ℕ, ◌+◌, ◌-◌, ◌^◌, bit_and, bit_or, Bool, true, false, not, ◌||◌, Option, none, some, List, [],
  ◌∷◌, map, ◌==◌, if◌then◌else◌, replicate,
}
use usbarmory_rust.Prelude.Outcome.{ok, err, panic, ◌>>=◌, ◌>>◌}
use usbarmory_rust.Prelude.Bits.{◌<<<◌}

-- The registers that the driver writes, `ENDPTCTRL1` only later; those with a set and a clear register have one value.
pub record Registers : Type 0 where
  pub pll_usb1 : ℕ
  pub phy_ctrl : ℕ
  pub phy_pwd : ℕ
  pub usb1_chrg_detect : ℕ
  pub usbcmd : ℕ
  pub usbmode : ℕ
  pub endptlistaddr : ℕ
  pub otgsc : ℕ
  pub usbintr : ℕ
  pub endptctrl1 : ℕ

-- What `PLL_USB1`, `USBCMD` and `USBMODE` read as, each up to the end of a loop, and what is in the
-- registers after the reset.
pub record Board : Type 0 where
  pub pll_reads : Registers → List ℕ
  pub usbcmd_reads : Registers → List ℕ
  pub after_reset : Registers → Registers
  pub usbmode_reads : Registers → List ℕ

-- The addresses of the statics: the heads, the descriptors and the buffers.
pub record Statics : Type 0 where
  pub dqhs : ℕ
  pub dtd : ℕ → ℕ
  pub b64 : ℕ → ℕ
  pub b512 : ℕ → ℕ

-- Which peripherals have been taken.
pub record Peripherals : Type 0 where
  pub ccm_analog : Bool
  pub usbphy : Bool
  pub usb_analog : Bool
  pub usb_uog1 : Bool

abbrev pub set_bits : ℕ → ℕ → ℕ
set_bits bits register = bit_or register bits

abbrev pub clear_bits : ℕ → ℕ → ℕ
clear_bits bits register = bit_and register (2 ^ 32 - 1 - bits)

-- Up to the loop that waits for the PLL.
abbrev pub power_pll : Registers → Registers
power_pll r = record r { pll_usb1 = set_bits (1 <<< 6) (set_bits (1 <<< 12) r.pll_usb1) }

-- From there up to the reset of the controller.
abbrev pub set_up_phy : Registers → Registers
set_up_phy r = record r {
  pll_usb1 = set_bits (1 <<< 13) (clear_bits (1 <<< 31) r.pll_usb1);
  phy_ctrl = set_bits (1 <<< 1) (
      set_bits (1 <<< 15) (
        set_bits (1 <<< 14)
          (clear_bits (1 <<< 30) (clear_bits (1 <<< 31) (set_bits (1 <<< 31) r.phy_ctrl)))));
  phy_pwd =
      clear_bits
        ((1 <<< 20) + (1 <<< 19) + (1 <<< 18) + (1 <<< 17) + (1 <<< 12) + (1 <<< 11) + (1 <<< 10))
        r.phy_pwd;
  usb1_chrg_detect = set_bits (1 <<< 20) (set_bits (1 <<< 19) r.usb1_chrg_detect);
  usbcmd = set_bits (1 <<< 1) r.usbcmd;
}

-- The mode of the controller: a device, with the setup lockouts off, and streaming not disabled.
abbrev pub set_mode : Registers → Registers
set_mode r = record r {
  usbmode = clear_bits (1 <<< 4) (set_bits (1 <<< 3) (set_bits 0b10 (clear_bits 0b11 r.usbmode)));
}

-- The list of the heads, the termination, and the interrupts.
abbrev pub set_up_device : ℕ → Registers → Registers
set_up_device dqhs r = record r {
  endptlistaddr = dqhs;
  otgsc = set_bits (1 <<< 3) r.otgsc;
  usbintr =
      set_bits (1 <<< 7)
        (set_bits (1 <<< 5) (set_bits (1 <<< 4) (set_bits (1 <<< 2) (set_bits 1 r.usbintr))));
}

-- The state that `take` returns: a pool gives out what was pushed to it last.
abbrev pub new_inner : Statics → Registers → Inner
new_inner statics r = record {
  dqhs = dqh_new ∷ dqh_new ∷ dqh_new ∷ dqh_new ∷ [];
  descriptors = λ dtd. dtd_new;
  buffers = λ addr. replicate 512 0;
  endptctrl1 = r.endptctrl1;
  written = [];
  dtds = map statics.dtd (3 ∷ 2 ∷ 1 ∷ 0 ∷ []);
  b64s = map statics.b64 (1 ∷ 0 ∷ []);
  b512s = map statics.b512 (1 ∷ 0 ∷ []);
  used_dqhs = 0;
  setupstat = none;
  ep_in_complete = none;
  last_poll_was_none = false;
  pre_status_out = 0;
  status_out = 0;
}

-- A wait for a value; when it does not come, the system is reset.
unfoldable pub await : (ℕ → Bool) → List ℕ → Run (Unit {0})
await ready reads = elim (wait_for_or_timeout ready reads) [
  | none ↦ err memlog_flush_and_reset
  | some value ↦ ok tt
]

-- The loop for the PLL, which has no timeout: one that has not ended with the values counts as a panic.
unfoldable pub await_pll : List ℕ → Run (Unit {0})
await_pll reads = elim (wait_for_or_timeout (λ pll. not (bit_and pll (1 <<< 31) == 0)) reads) [
  | none ↦ panic
  | some value ↦ ok tt
]

module _ (board : Board) where
  unfoldable pub start : Statics → Registers → Run Registers
  unfolding await await_pll
  start statics r = do
    let powered = power_pll r
    await_pll (board.pll_reads powered)
    let resetting = set_up_phy powered
    await (λ usbcmd. bit_and usbcmd (1 <<< 1) == 0) (board.usbcmd_reads resetting)
    let moded = set_mode (board.after_reset resetting)
    await (λ usbmode. bit_and usbmode 0b11 == 0b10) (board.usbmode_reads moded)
    ok (set_up_device statics.dqhs moded)

  -- `take`: each of the peripherals is taken, whether the others could be or not.
  unfoldable pub take_usbd :
      Statics → Peripherals → Registers → Run (Option Inner × Peripherals × Registers)
  unfolding start
  take_usbd statics p r =
      let all_taken : Peripherals = record {
        ccm_analog = true;
        usbphy = true;
        usb_analog = true;
        usb_uog1 = true;
      } in
      if p.ccm_analog || (p.usbphy || (p.usb_analog || p.usb_uog1))
      then ok (none, all_taken, r)
      else start statics r >>= λ started. ok (some (new_inner statics started), all_taken, started)
