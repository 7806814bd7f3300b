-- ===== src/Emmc/Driver.antt =====
-- The handle of firmware/usbarmory/src/emmc.rs: a card is found, set up, and read and written by
-- blocks. A buffer is its address.
use usbarmory_rust.Prelude.{
  ℕ, zero, suc, ◌-◌, ◌%◌, ◌^◌, bit_and, bit_or, Bool, true, false, not, ◌||◌, Option, none, some,
  ltb, if◌then◌else◌,
}
use usbarmory_rust.Prelude.Bits.{◌<<<◌}
use usbarmory_rust.Emmc.Command.{
  Command, send_ext_csd, read_single_block as read_cmd, write_single_block as write_cmd,
}
use usbarmory_rust.Emmc.Status.{Status, State, transfer, programming}
use usbarmory_rust.Emmc.Machine.{
  pres_state, int_status, mix_ctrl, ds_addr, blk_att, wtmk_lvl, Controller, not_in_transfer_state,
  other, error, restart, Width, b1, b8, Run, ◌>>=◌, ◌>>◌, return, throw, assert, write, clear,
  reset, this, spin_until,
}
use usbarmory_rust.Emmc.Send.{
  int_status_tc, pres_state_dla, meets, status_from, send_command, get_card_status,
}

-- `RCA`
abbrev pub rca : ℕ
rca = 2

abbrev pub block_size : ℕ
block_size = 512

abbrev pub dtw : Width → ℕ
dtw b1 = 0b00
dtw b8 = 0b10

abbrev pub ddr : Width → Bool
ddr width = false

pub data Frequency : Type 0 where
  k400 : Frequency
  m20 : Frequency

-- `(sdclkfs, dvs)`
abbrev pub prescaler_and_divisor : Frequency → ℕ × ℕ
prescaler_and_divisor k400 = (0x20, 8)
prescaler_and_divisor m20 = (0x01, 4)

abbrev pub sdstb : ℕ
sdstb = 1 <<< 3

abbrev pub vend_spec_cken : ℕ
vend_spec_cken = 1 <<< 14

abbrev pub clear_bits : ℕ → ℕ → ℕ
clear_bits mask r = bit_and r (2 ^ 32 - 1 - mask)

abbrev pub is_transfer : State → Bool
is_transfer transfer = true
is_transfer _ = false

abbrev pub is_programming : State → Bool
is_programming programming = true
is_programming _ = false

-- What is written to `MIX_CTRL`, with the direction of the data.
abbrev pub mix_ctrl_value : Width → ℕ → ℕ
mix_ctrl_value width direction =
    bit_or (bit_or (bit_or (1 <<< 31) (if ddr width then 1 <<< 3 else 0)) direction) 1

-- `SendExtCsd` where no block is named
abbrev pub read_command : Option ℕ → Command
read_command none = send_ext_csd
read_command (some block_nr) = read_cmd block_nr

module _ (controller : Controller) where
  unfoldable pub send : Command → Run ℕ
  unfolding send_command
  send c = send_command controller c

  -- The first half of `read_single_block` and `write_single_block`, which is the same but for the
  -- direction: the guards, and what is written before the command.
  abbrev pub selected_rca : Run ℕ
  selected_rca = do emmc ← this; elim (emmc.selected) [ none ↦ throw restart | some r ↦ return r ]

  unfoldable pub check_ready : Run (Unit {0})
  unfolding get_card_status
  check_ready = do
    r ← selected_rca
    status ← get_card_status controller r
    if not status.ready_for_data || not (is_transfer status.state)
        then throw (error not_in_transfer_state)
        else return tt

  unfoldable pub set_up_transfer : ℕ → ℕ → Run (Unit {0})
  set_up_transfer direction addr = do
    emmc ← this
    write mix_ctrl (mix_ctrl_value emmc.width direction)
    spin_until controller controller.spins pres_state (λ v. not (meets pres_state_dla v))
    clear int_status int_status_tc
    write ds_addr addr
    write blk_att (bit_or (1 <<< 16) block_size)
    reset wtmk_lvl

  unfoldable pub prepare_transfer : ℕ → ℕ → Run (Unit {0})
  unfolding check_ready set_up_transfer
  prepare_transfer direction addr = check_ready >> set_up_transfer direction addr

  -- The end of both: the command, and the status in its response.
  unfoldable pub move_block : ℕ → ℕ → Command → Run Status
  unfolding prepare_transfer send status_from
  move_block direction addr c = prepare_transfer direction addr >> (send c >>= status_from)

  -- `read_single_block`
  unfoldable pub read_single_block : Option ℕ → ℕ → Run (Unit {0})
  unfolding move_block
  read_single_block block_nr addr = move_block (1 <<< 4) addr (read_command block_nr) >> return tt

  -- The loop that waits for the card to program a block: `n` times at most until the timeout.
  unfoldable pub flush_block : ℕ → ℕ → Run (Unit {0})
  unfolding get_card_status
  flush_block zero r = throw restart
  flush_block (suc n) r =
      let rest = flush_block n r in
      get_card_status controller r >>= λ status.
      if is_transfer status.state then return tt else rest

  unfoldable pub flush_write : Status → Run (Unit {0})
  unfolding flush_block
  flush_write status =
      if is_programming status.state
      then (selected_rca >>= flush_block controller.polls)
      else return tt

  -- `write_single_block`
  unfoldable pub write_single_block : ℕ → ℕ → Run (Unit {0})
  unfolding move_block flush_write
  write_single_block block_nr addr = move_block (0 <<< 4) addr (write_cmd block_nr) >>= flush_write

  -- `eMMC::read`, `eMMC::write`
  unfoldable pub read_block : ℕ → ℕ → Run (Unit {0})
  unfolding read_single_block
  read_block block_nr addr = do
    emmc ← this
    assert (ltb block_nr emmc.blocks)
    read_single_block (some block_nr) addr

  unfoldable pub write_block : ℕ → ℕ → Run (Unit {0})
  unfolding write_single_block
  write_block block_nr addr = do
    emmc ← this
    assert (ltb block_nr emmc.blocks)
    write_single_block block_nr addr

  -- `read` and `write` of `ManagedBlockDevice`; `lba as u32` cuts the number.
  unfoldable pub device_read : ℕ → ℕ → Run (Unit {0})
  unfolding read_block
  device_read lba addr = do
    emmc ← this
    if ltb emmc.blocks lba then throw (error other) else read_block (lba % 2 ^ 32) addr

  unfoldable pub device_write : ℕ → ℕ → Run (Unit {0})
  unfolding write_block
  device_write lba addr = do
    emmc ← this
    if ltb emmc.blocks lba then throw (error other) else write_block (lba % 2 ^ 32) addr
