-- ===== src/Emmc/Card.antt =====
-- What the calls of firmware/usbarmory/src/emmc.rs on the registers mean, as the manual of the controller
-- and the eMMC standard say: the commands that were sent, the transfers that were started, and the flags
-- of `INT_STATUS` that are up.
use usbarmory_rust.Prelude.{
  ℕ, ◌/◌, ◌%◌, ◌^◌, Bool, true, false, not, ◌&&◌, ◌||◌, List, [], ◌∷◌, ◌==◌, if◌then◌else◌,
}
use usbarmory_rust.Emmc.Machine.{
  Reg, pres_state, int_status, prot_ctrl, mix_ctrl, ds_addr, blk_att, wtmk_lvl, cmd_arg,
  cmd_xfr_typ, cmd_rsp0, cmd_rsp1, cmd_rsp2, cmd_rsp3, sys_ctrl, vend_spec, Event, reading, writing,
  clearing, resetting, waiting,
}
use usbarmory_rust.Emmc.Send.{meets}

abbrev code : Reg → ℕ
code pres_state = 0
code int_status = 1
code prot_ctrl = 2
code mix_ctrl = 3
code ds_addr = 4
code blk_att = 5
code wtmk_lvl = 6
code cmd_arg = 7
code cmd_xfr_typ = 8
code cmd_rsp0 = 9
code cmd_rsp1 = 10
code cmd_rsp2 = 11
code cmd_rsp3 = 12
code sys_ctrl = 13
code vend_spec = 14

abbrev pub is_reg : Reg → Reg → Bool
is_reg r r' = code r == code r'

-- What was written to a register last.
abbrev pub last_written : Reg → List Event → ℕ
last_written r [] = 0
last_written r (writing r' value ∷ es) =
    let rest = last_written r es in if is_reg r r' then value else rest
last_written r (reading r' ∷ es) = last_written r es
last_written r (clearing r' mask ∷ es) = last_written r es
last_written r (resetting r' ∷ es) = last_written r es
last_written r (waiting us ∷ es) = last_written r es

-- The index and the argument of each command that was sent, the newest first.
abbrev pub commands : List Event → List (ℕ × ℕ)
commands [] = []
commands (writing r value ∷ es) =
    let rest = commands es in
    if is_reg cmd_xfr_typ r then (value / 2 ^ 24, last_written cmd_arg es) ∷ rest else rest
commands (reading r ∷ es) = commands es
commands (clearing r mask ∷ es) = commands es
commands (resetting r ∷ es) = commands es
commands (waiting us ∷ es) = commands es

-- A transfer: the command that starts it, and the buffer's address, the number and size of the blocks
-- and the mode that the controller has been given.
pub record Job : Type 0 where
  pub index : ℕ
  pub argument : ℕ
  pub address : ℕ
  pub size : ℕ
  pub mode : ℕ

-- Whether the word of a command says that there are data.
abbrev pub with_data : ℕ → Bool
with_data word = word / 2 ^ 21 % 2 == 1

abbrev pub jobs : List Event → List Job
jobs [] = []
jobs (writing r value ∷ es) =
    let rest = jobs es in
    if is_reg cmd_xfr_typ r && with_data value
    then record {
      index = value / 2 ^ 24;
      argument = last_written cmd_arg es;
      address = last_written ds_addr es;
      size = last_written blk_att es;
      mode = last_written mix_ctrl es;
    }
      ∷ rest
    else rest
jobs (reading r ∷ es) = jobs es
jobs (clearing r mask ∷ es) = jobs es
jobs (resetting r ∷ es) = jobs es
jobs (waiting us ∷ es) = jobs es

-- A flag of `INT_STATUS` is up that each command raises, or each one with data: it has not been cleared,
-- by a 1 at its place, since the last such command.
abbrev pub due : ℕ → Bool → List Event → Bool
due flag only_data [] = false
due flag only_data (writing r value ∷ es) =
    let rest = due flag only_data es in
    if is_reg cmd_xfr_typ r && (not only_data || with_data value) then true else rest
due flag only_data (clearing r mask ∷ es) =
    let rest = due flag only_data es in
    if is_reg int_status r && meets flag mask then false else rest
due flag only_data (reading r ∷ es) = due flag only_data es
due flag only_data (resetting r ∷ es) = due flag only_data es
due flag only_data (waiting us ∷ es) = due flag only_data es

-- The relative address of the card after some commands, as the argument of SET_RELATIVE_ADDR gave it,
-- and whether SELECT_CARD has selected it since.
abbrev pub relative_address : List (ℕ × ℕ) → ℕ
relative_address [] = 0
relative_address ((index, argument) ∷ cs) =
    let rest = relative_address cs in
    if index == 3 then argument else if index == 0 then 0 else rest

abbrev pub is_selected : List (ℕ × ℕ) → Bool
is_selected [] = false
is_selected ((index, argument) ∷ cs) =
    let rest = is_selected cs in
    if index == 7
    then (argument == relative_address cs) && not (argument == 0)
    else if (index == 3) || (index == 0)
    then false
    else rest

-- The controller is done with the last command, and what it raised has been acknowledged.
abbrev pub is_quiet : List Event → Bool
is_quiet es = not (due 1 false es) && not (due 8 true es)
