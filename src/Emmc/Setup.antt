-- ===== src/Emmc/Setup.antt =====
-- How `eMMC::take` of firmware/usbarmory/src/emmc.rs makes a handle: the controller is reset, and the
-- card is found, selected and asked for its size.
use usbarmory_rust.Prelude.{
  ℕ, zero, suc, ◌+◌, ◌-◌, ◌^◌, bit_and, bit_or, Bool, true, false, not, none, some, ◌==◌,
  if◌then◌else◌, get_or,
}
use usbarmory_rust.Prelude.Bytes.{Bytes, of_le32}
use usbarmory_rust.Prelude.Bits.{◌<<<◌}
use usbarmory_rust.Emmc.Command.{
  go_idle_state, send_op_cond, all_send_cid, set_relative_addr, switch,
  select_card as select_card_cmd, set_block_len,
}
use usbarmory_rust.Emmc.Machine.{
  pres_state, int_status, prot_ctrl, cmd_rsp1, cmd_rsp2, cmd_rsp3, sys_ctrl, vend_spec, Controller,
  restart, Width, b1, b8, Run, ◌>>=◌, ◌>>◌, return, throw, assert, expect, clear, wait, this,
  set_this, read, rmw, memory, spin_until,
}
use usbarmory_rust.Emmc.Send.{pres_state_cihb, pres_state_cdihb, meets}
use usbarmory_rust.Emmc.Driver.{
  rca, send, block_size, dtw, Frequency, k400, m20, prescaler_and_divisor, sdstb, vend_spec_cken,
  clear_bits, read_single_block,
}

abbrev pub switch_data : Width → ℕ
switch_data b1 = 0x03B70000
switch_data b8 = 0x03B70200

-- The value of `SYS_CTRL` with a divisor and a prescaler.
unfoldable pub with_clock : ℕ × ℕ → ℕ → ℕ
with_clock (sdclkfs, dvs) r =
    let divided = bit_or (clear_bits (0b1111 <<< 4) r) (dvs <<< 4) in
    bit_or (clear_bits (0xff <<< 8) divided) (sdclkfs <<< 8)

-- The boot mode of `SBMR1` that the driver refuses.
abbrev pub booted_from_usd : ℕ → Bool
booted_from_usd sbmr1 = bit_and sbmr1 0b11100000 == 0b01000000

abbrev pub blocks_of : Bytes → ℕ
blocks_of ext_csd =
    of_le32 (get_or ext_csd 212 0) (get_or ext_csd 213 0) (get_or ext_csd 214 0)
      (get_or ext_csd 215 0)

module _ (controller : Controller) where
  -- `select_card`
  unfoldable pub select_card : ℕ → Run (Unit {0})
  unfolding send
  select_card r = do
    assert (r == rca)
    send controller (select_card_cmd (some r))
    send controller (set_block_len block_size)
    emmc ← this
    set_this (record emmc { selected = some r })

  -- `register_cards`
  unfoldable pub register_cards : Run (Unit {0})
  unfolding send
  register_cards = do
    send controller all_send_cid
    read controller cmd_rsp1
    read controller cmd_rsp2
    read controller cmd_rsp3
    send controller (set_relative_addr rca)
    return tt

  -- The loop of `voltage_validation`, with `n` more rounds until the timeout.
  unfoldable pub await_power_up : ℕ → Run ℕ
  unfolding send
  await_power_up zero = send controller (send_op_cond 0x00FF8000) >>= λ ocr.
      if meets (1 <<< 31) ocr then return ocr else throw restart
  await_power_up (suc n) =
      let rest = await_power_up n in
      send controller (send_op_cond 0x00FF8000) >>= λ ocr.
      if meets (1 <<< 31) ocr then return ocr else (wait 1000 >> rest)

  -- `voltage_validation`
  unfoldable pub voltage_validation : Run (Unit {0})
  unfolding await_power_up
  voltage_validation = await_power_up controller.polls >> return tt

  -- `reset_cards`
  unfoldable pub reset_cards : Run (Unit {0})
  unfolding send
  reset_cards = send controller go_idle_state >> return tt

  -- `change_bus_width`
  unfoldable pub change_bus_width : Width → Bool → Run (Unit {0})
  unfolding send
  change_bus_width width switched = do
    if switched then (send controller (switch (switch_data width)) >> return tt) else return tt
    rmw controller prot_ctrl (λ r. bit_or (clear_bits (0b11 <<< 1) r) (dtw width <<< 1))
    emmc ← this
    set_this (record emmc { width = width })

  -- `change_frequency`
  unfoldable pub change_frequency : Frequency → Run (Unit {0})
  unfolding with_clock
  change_frequency f = do
    spin_until controller controller.spins pres_state (meets sdstb)
    rmw controller vend_spec (clear_bits vend_spec_cken)
    rmw controller sys_ctrl (with_clock (prescaler_and_divisor f))
    spin_until controller controller.spins pres_state (meets sdstb)
    rmw controller vend_spec (λ r. bit_or r vend_spec_cken)

  -- `software_reset`
  unfoldable pub software_reset : Run (Unit {0})
  unfolding change_bus_width change_frequency
  software_reset = do
    spin_until controller controller.spins pres_state
        (λ v. not (meets (pres_state_cdihb + pres_state_cihb) v))
    rmw controller vend_spec (clear_bits vend_spec_cken)
    rmw controller sys_ctrl (λ r. bit_or r (1 <<< 24))
    spin_until controller controller.spins sys_ctrl (λ v. not (meets (1 <<< 24) v))
    change_bus_width b1 false
    change_frequency k400
    wait 1000
    rmw controller sys_ctrl (λ r. bit_or r (1 <<< 27))

  -- `take`, when the peripheral has not been taken, with the boot mode register and the address of the
  -- buffer on the stack, in four parts: the card is found, the handle made before that, the card's size
  -- is asked for, and the whole; the bytes of the size are the 212th to the 215th.
  unfoldable pub find_card : Run (Unit {0})
  unfolding software_reset reset_cards voltage_validation register_cards select_card
      change_bus_width
  find_card = do
    software_reset
    expect reset_cards
    expect voltage_validation
    expect register_cards
    expect (select_card rca)
    expect (change_bus_width b8 true)
    change_frequency m20

  unfoldable pub set_up_card : Run (Unit {0})
  unfolding find_card
  set_up_card = do
    clear int_status (2 ^ 32 - 1)
    rmw controller prot_ctrl (clear_bits (0b11 <<< 8))
    set_this (record { selected = some rca; blocks = 0; verbose = false; width = b8 })
    find_card

  unfoldable pub ask_size : ℕ → Run (Unit {0})
  unfolding read_single_block
  ask_size addr = do
    expect (read_single_block controller none addr)
    ext_csd ← memory controller addr
    emmc ← this
    set_this (record emmc { blocks = blocks_of ext_csd })

  unfoldable pub take_card : ℕ → ℕ → Run (Unit {0})
  unfolding set_up_card ask_size
  take_card sbmr1 addr = assert (not (booted_from_usd sbmr1)) >> (set_up_card >> ask_size addr)
