-- ===== src/Emmc/Send.antt =====
-- `send_command` of firmware/usbarmory/src/emmc.rs, and the calls that only wrap it.
use usbarmory_rust.Prelude.{
  ℕ, ◌+◌, bit_and, bit_or, Bool, true, false, not, ◌||◌, Option, none, some, ◌==◌, if◌then◌else◌,
}
use usbarmory_rust.Prelude.Bits.{◌<<<◌}
use usbarmory_rust.Prelude.Outcome.{ok, err, panic}
use usbarmory_rust.Emmc.Command.{
  Command, index, arg, response, Response, r1, r1b, cmdtyp, data_present, response_type, cicen,
  cccen, send_status,
}
use usbarmory_rust.Emmc.Status.{Status, from}
use usbarmory_rust.Emmc.Machine.{
  pres_state, int_status, cmd_arg, cmd_xfr_typ, cmd_rsp0, sys_ctrl, Controller, timeout, other,
  card, error, restart, Run, ◌>>=◌, ◌>>◌, return, throw, panics, assert, write, clear, wait, read,
  rmw, wait_for_or_timeout, spin_until,
}

-- Bits of `INT_STATUS` and of `PRES_STATE`
abbrev pub int_status_cc : ℕ
int_status_cc = 1

abbrev pub int_status_tc : ℕ
int_status_tc = 1 <<< 1

abbrev pub int_status_dint : ℕ
int_status_dint = 1 <<< 3

abbrev pub int_status_ctoe : ℕ
int_status_ctoe = 1 <<< 16

abbrev pub int_status_any_error : ℕ
int_status_any_error =
    int_status_ctoe
    + (1 <<< 17)
    + (1 <<< 18)
    + (1 <<< 19)
    + (1 <<< 20)
    + (1 <<< 21)
    + (1 <<< 22)
    + (1 <<< 28)

abbrev pub pres_state_cihb : ℕ
pres_state_cihb = 1

abbrev pub pres_state_cdihb : ℕ
pres_state_cdihb = 1 <<< 1

abbrev pub pres_state_dla : ℕ
pres_state_dla = 1 <<< 2

-- `value & mask != 0`
abbrev pub meets : ℕ → ℕ → Bool
meets mask value = not (bit_and value mask == 0)

-- The word of a command with its type field, as `send_command` builds it.
unfoldable pub command_word : Command → ℕ → ℕ
command_word c typ =
    let indexed = bit_or (index c <<< 24) (typ <<< 22) in
    let with_data = if data_present c then bit_or indexed (1 <<< 21) else indexed in
    let with_index = if cicen c then bit_or with_data (1 <<< 20) else with_data in
    let with_crc = if cccen c then bit_or with_index (1 <<< 19) else with_index in
    bit_or with_crc (response_type c <<< 16)

abbrev pub is_r1_or_r1b : Response → Bool
is_r1_or_r1b r1 = true
is_r1_or_r1b r1b = true
is_r1_or_r1b _ = false

-- `card::Status::from(rsp)?`
unfoldable pub status_from : ℕ → Run Status
unfolding from
status_from rsp = elim (from rsp) [
  | ok status ↦ return status
  | err status ↦ throw (error (card status))
  | panic ↦ panics
]

-- The arms on an interrupt status, after a command and after a transfer.
abbrev pub int_status_arms : {A : Type 0} → Option ℕ → Run A → Run A
int_status_arms none next = throw (error timeout)
int_status_arms (some status) next =
    if meets int_status_ctoe status
    then clear int_status int_status_ctoe >> throw (error timeout)
    else (if meets int_status_any_error status
        then clear int_status (bit_and status int_status_any_error) >> throw (error other)
        else next)

abbrev pub has_command_completed : ℕ → Bool
has_command_completed = meets (int_status_any_error + int_status_cc)

abbrev pub transfer_done : ℕ
transfer_done = int_status_tc + int_status_dint

abbrev pub has_transfer_completed : ℕ → Bool
has_transfer_completed status =
    meets int_status_any_error status || (bit_and status transfer_done == transfer_done)

module _ (controller : Controller) where
  abbrev pub await_transfer : ℕ → Run ℕ
  await_transfer rsp = do
    status ← wait_for_or_timeout controller controller.polls int_status has_transfer_completed
    int_status_arms status (do clear int_status transfer_done; return rsp)

  -- The test of a response that is a status.
  unfoldable pub check_response : Command → ℕ → Run (Unit {0})
  unfolding status_from
  check_response c rsp =
      if is_r1_or_r1b (response c) then (status_from rsp >> return tt) else return tt

  unfoldable pub take_response : Command → Run ℕ
  unfolding check_response
  take_response c = do
    clear int_status int_status_cc
    rsp ← read controller cmd_rsp0
    check_response c rsp
    if data_present c then await_transfer rsp else return rsp

  -- `send_command` in three parts: from the writing of the word on, from the word on, and the whole,
  -- with the assertion of a debug build that the last command has been acknowledged.
  unfoldable pub start_command : Command → ℕ → Run ℕ
  unfolding command_word take_response
  start_command c typ = do
    wait 20
    write cmd_arg (arg c)
    write cmd_xfr_typ (command_word c typ)
    status ← wait_for_or_timeout controller controller.polls int_status has_command_completed
    int_status_arms status (take_response c)

  unfoldable pub with_type : Command → Option ℕ → Run ℕ
  unfolding start_command
  with_type c none = panics
  with_type c (some typ) = start_command c typ

  unfoldable pub type_command : Command → Run ℕ
  unfolding with_type
  type_command c = with_type c (cmdtyp c)

  unfoldable pub send_command : Command → Run ℕ
  unfolding type_command
  send_command c = do
    status ← read controller int_status
    assert (not (meets int_status_cc status))
    spin_until controller controller.spins pres_state
        (λ v. not (meets (pres_state_cihb + pres_state_cdihb + pres_state_dla) v))
    type_command c

  -- `get_card_status`
  unfoldable pub get_card_status : ℕ → Run Status
  unfolding send_command status_from
  get_card_status rca = send_command (send_status rca) >>= status_from

  -- `clear_command_inhibit`
  abbrev pub clear_command_inhibit : Run (Unit {0})
  clear_command_inhibit = do
    rmw controller sys_ctrl (λ r. bit_or r (1 <<< 25))
    freed ←
        wait_for_or_timeout controller controller.polls sys_ctrl (λ v. bit_and v (1 <<< 25) == 0)
    elim freed [ none ↦ throw restart | some v ↦ return tt ]
