-- ===== src/Emmc/Word.antt =====
-- The fields of the word that starts a command of firmware/usbarmory/src/emmc.rs, as the manual of the
-- controller lays out its command register.
use usbarmory_rust.Prelude.{ℕ, ◌/◌, ◌%◌, ◌^◌, ◌≡◌, refl, Bool, some, ◌==◌}
use usbarmory_rust.Emmc.Command.{
  Command, index, cmdtyp, data_present, response_type, cicen, cccen, go_idle_state, send_op_cond,
  all_send_cid, set_relative_addr, switch, select_card, send_ext_csd, send_csd, send_status,
  set_block_len, read_single_block, write_single_block, index_type_arg_resp,
}
use usbarmory_rust.Emmc.Send.{command_word}

abbrev bit : ℕ → ℕ → Bool
bit place word = word / 2 ^ place % 2 == 1

abbrev pub HasFields : Command → ℕ → Type 0
HasFields c word =
    (word / 2 ^ 24 ≡ index c)
    × (word / 2 ^ 22 % 4 ≡ 0)
    × (bit 21 word ≡ data_present c)
    × (bit 20 word ≡ cicen c)
    × (bit 19 word ≡ cccen c)
    × (word / 2 ^ 16 % 8 ≡ response_type c)
    × (word % 2 ^ 16 ≡ 0)

-- No command panics for its type, and the word of every command has its index in the bits from 24 on,
-- the type 0 in the bits 22 and 23, whether there are data and whether the index and the checksum of
-- the response are checked in the bits 21, 20 and 19, its type of response in the bits from 16 on, and
-- no other bit.
pub command_word-fields : (c : Command) → (cmdtyp c ≡ some 0) × HasFields c (command_word c 0)
unfolding command_word index_type_arg_resp
command_word-fields go_idle_state = (refl, (refl, refl, refl, refl, refl, refl, refl))
command_word-fields (send_op_cond ocr) = (refl, (refl, refl, refl, refl, refl, refl, refl))
command_word-fields all_send_cid = (refl, (refl, refl, refl, refl, refl, refl, refl))
command_word-fields (set_relative_addr rca) = (refl, (refl, refl, refl, refl, refl, refl, refl))
command_word-fields (switch data_) = (refl, (refl, refl, refl, refl, refl, refl, refl))
command_word-fields (select_card rca) = (refl, (refl, refl, refl, refl, refl, refl, refl))
command_word-fields send_ext_csd = (refl, (refl, refl, refl, refl, refl, refl, refl))
command_word-fields (send_csd rca) = (refl, (refl, refl, refl, refl, refl, refl, refl))
command_word-fields (send_status rca) = (refl, (refl, refl, refl, refl, refl, refl, refl))
command_word-fields (set_block_len len) = (refl, (refl, refl, refl, refl, refl, refl, refl))
command_word-fields (read_single_block block_nr) =
    (refl, (refl, refl, refl, refl, refl, refl, refl))
command_word-fields (write_single_block block_nr) =
    (refl, (refl, refl, refl, refl, refl, refl, refl))
