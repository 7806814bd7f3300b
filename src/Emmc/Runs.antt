-- ===== src/Emmc/Runs.antt =====
-- The driver of firmware/usbarmory/src/emmc.rs on a controller and a card that respond at once.
use usbarmory_rust.Prelude.{
  ℕ, ◌%◌, ◌^◌, ◌<◌, ◌≡◌, refl, false, some, List, [], ◌∷◌, ◌++◌, arith, ◌==◌, if◌then◌else◌,
  replicate,
}
use usbarmory_rust.Prelude.Bytes.{Bytes}
use usbarmory_rust.Prelude.Outcome.{err, panic}
use usbarmory_rust.Emmc.Command.{
  read_single_block as read_cmd, write_single_block as write_cmd, cmdtyp,
}
use usbarmory_rust.Emmc.Machine.{
  Reg, pres_state, int_status, cmd_rsp0, Event, Controller, other, error, b8, Machine,
}
use usbarmory_rust.Emmc.Send.{command_word}
use usbarmory_rust.Emmc.Word.{command_word-fields, HasFields}
use usbarmory_rust.Emmc.Driver.{device_read, device_write}
use usbarmory_rust.Emmc.Setup.{blocks_of}
use usbarmory_rust.Emmc.Machine.{writing, clearing, cmd_arg, cmd_xfr_typ}
use usbarmory_rust.Emmc.Driver.{is_programming}
use usbarmory_rust.Emmc.Status.{Status}
use usbarmory_rust.Emmc.Card.{Job, jobs, commands, due}
use usbarmory_rust.Emmc.Responsive.{Card, flag}
use usbarmory_rust.Emmc.Bounds.{device-out_of_range}
use usbarmory_rust.Prelude.{◌*◌, ◌+◌, true}
use usbarmory_rust.Emmc.Machine.{Emmc}

-- The response to a command: the power flag to the one with the operating conditions, a status in the
-- state `programming` to the writing of a block, and else one in the state `transfer` that is ready.
abbrev respond : ℕ → ℕ
respond index = if index == 1 then 2 ^ 31 else if index == 24 then 0xE00 else 0x900

abbrev last_index : List (ℕ × ℕ) → ℕ
last_index [] = 0
last_index ((index, argument) ∷ cs) = index

abbrev answer : List Event → Reg → ℕ
answer es pres_state = 8
answer es int_status = flag (due 1 false es) 1 + flag (due 2 true es) 2 + flag (due 8 true es) 8
answer es cmd_rsp0 = respond (last_index (commands es))
answer es _ = 0

abbrev ext_csd : Bytes
ext_csd = replicate 212 0 ++ (0x00 ∷ 0x20 ∷ 0x75 ∷ 0x00 ∷ replicate 296 0)

-- The block with a number, and the bytes that the last transfer has moved.
abbrev block : ℕ → Bytes
block nr = replicate 512 (nr % 256)

abbrev last_moved : List Job → Bytes
last_moved [] = []
last_moved (job ∷ js) = if job.index == 8 then ext_csd else block job.argument

abbrev prompt : Controller
prompt = record { answer = answer; memory = λ es addr. last_moved (jobs es); polls = 3; spins = 5 }

-- A card that programs a block until the next command.
abbrev card : Card
card = record {
  ext_csd = ext_csd;
  content = λ es nr. block nr;
  is_programming = λ es. last_index (commands es) == 24;
}

abbrev emmc : Emmc
emmc = record { selected = some 2; blocks = 10; verbose = false; width = b8 }

abbrev fresh : Machine
fresh = record { emmc = emmc; events = [] }

-- After the commands that give the card its address and select it.
abbrev ready : Machine
ready = record {
  emmc = emmc;
  events =
      clearing int_status 1
      ∷ writing cmd_xfr_typ (7 * 2 ^ 24)
      ∷ writing cmd_arg (2 * 2 ^ 16)
      ∷ clearing int_status 1
      ∷ writing cmd_xfr_typ (3 * 2 ^ 24)
      ∷ writing cmd_arg (2 * 2 ^ 16)
      ∷ [];
}

-- The number of blocks in that register.
blocks_of_test : blocks_of ext_csd ≡ 0x752000
blocks_of_test = refl

command_word-fields_test :
    (cmdtyp (read_cmd 7) ≡ some 0) × HasFields (read_cmd 7) (command_word (read_cmd 7) 0)
command_word-fields_test = command_word-fields (read_cmd 7)

device-out_of_range_example :
    (10 < 10
      → (device_read prompt 10 4096 ready ≡ (err (error other), ready))
        × (device_write prompt 10 4096 ready ≡ (err (error other), ready)))
    × (◌≡◌ {A = ℕ} 10 10
        → (device_read prompt 10 4096 ready ≡ (panic, ready))
          × (device_write prompt 10 4096 ready ≡ (panic, ready)))
device-out_of_range_example = device-out_of_range prompt 10 4096 ready (omega arith)
