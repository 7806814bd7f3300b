-- ===== src/Emmc/Flags.antt =====
-- firmware/usbarmory/src/emmc/cmd.rs: how the flags that the controller is given with a command go
-- together.
use usbarmory_rust.Prelude.{◌≡◌, refl, true, ◌||◌, some, ◌==◌}
use usbarmory_rust.Emmc.Command.{
  Command, go_idle_state, send_op_cond, all_send_cid, set_relative_addr, switch, select_card,
  send_ext_csd, send_csd, send_status, set_block_len, read_single_block, write_single_block,
  index_type_arg_resp, cmdtyp, data_present, uses_data_line, response_type, cicen, cccen,
}

-- For every command: the command type is the normal one, without a panic; one that transfers data
-- has a response of 48 bits whose index is checked; where the index is checked, the CRC is; and the
-- data lines are used by the commands that transfer data and by those with a busy response.
pub command-flags :
    (c : Command)
    → (cmdtyp c ≡ some 0)
      × (data_present c ≡ true → (response_type c ≡ 2) × (cicen c ≡ true))
      × (cicen c ≡ true → cccen c ≡ true)
      × (uses_data_line c ≡ (data_present c || response_type c == 3))
unfolding index_type_arg_resp
command-flags go_idle_state = (refl, λ h. cc, λ h. cc, refl)
command-flags (send_op_cond ocr) = (refl, λ h. cc, λ h. cc, refl)
command-flags all_send_cid = (refl, λ h. cc, λ h. cc, refl)
command-flags (set_relative_addr rca) = (refl, λ h. cc, λ h. refl, refl)
command-flags (switch data_) = (refl, λ h. cc, λ h. refl, refl)
command-flags (select_card rca) = (refl, λ h. cc, λ h. refl, refl)
command-flags send_ext_csd = (refl, λ h. (refl, refl), λ h. refl, refl)
command-flags (send_csd rca) = (refl, λ h. cc, λ h. cc, refl)
command-flags (send_status rca) = (refl, λ h. cc, λ h. refl, refl)
command-flags (set_block_len len) = (refl, λ h. cc, λ h. refl, refl)
command-flags (read_single_block block_nr) = (refl, λ h. (refl, refl), λ h. refl, refl)
command-flags (write_single_block block_nr) = (refl, λ h. (refl, refl), λ h. refl, refl)
