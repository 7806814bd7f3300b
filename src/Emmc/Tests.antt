-- ===== src/Emmc/Tests.antt =====
-- The commands and the register at concrete values.
use usbarmory_rust.Prelude.{◌/◌, ◌%◌, ◌^◌, ◌≡◌, refl, true, ◌||◌, some, arith, ◌==◌, if◌then◌else◌}
use usbarmory_rust.Prelude.Outcome.{ok, err}
use usbarmory_rust.Emmc.Command.{
  select_card, read_single_block, index, arg, said, read_command, read_command-arg, cmdtyp,
  data_present, uses_data_line, response_type, cicen, cccen,
}
use usbarmory_rust.Emmc.Status.{
  from as status_from, has_error, status_of, state_of, transfer, from-errors,
}
use usbarmory_rust.Emmc.Csd.{Rsps, IsRsps, from, field, from-fields}
use usbarmory_rust.Emmc.Flags.{command-flags}

read_command-arg_test :
    read_command (index (select_card (some 5))) (arg (select_card (some 5)))
    ≡ some (said (select_card (some 5)))
read_command-arg_test = read_command-arg (select_card (some 5)) (omega arith)

command-flags_test :
    (cmdtyp (read_single_block 7) ≡ some 0)
    × (data_present (read_single_block 7) ≡ true
        → (response_type (read_single_block 7) ≡ 2) × (cicen (read_single_block 7) ≡ true))
    × (cicen (read_single_block 7) ≡ true → cccen (read_single_block 7) ≡ true)
    × (uses_data_line (read_single_block 7)
        ≡ (data_present (read_single_block 7) || response_type (read_single_block 7) == 3))
command-flags_test = command-flags (read_single_block 7)

-- The size is 4095, of which 1023 is read.
abbrev rsps : Rsps
rsps = record { rsp0 = 0x24000; rsp1 = 0xFFC0_0380; rsp2 = 0x903; rsp3 = 0x10_0000 }

rsps-IsRsps : IsRsps rsps
rsps-IsRsps = record {
  word0 = omega arith;
  word1 = omega arith;
  word2 = omega arith;
  word3 = omega arith;
}

from-fields_example :
    ((from rsps).spec_vers ≡ field rsps 122 4)
    × ((from rsps).read_block_size_log2 ≡ field rsps 80 4)
    × ((from rsps).write_block_size_log2 ≡ field rsps 22 4)
    × ((from rsps).size_mult ≡ field rsps 47 3)
    × ((from rsps).size ≡ field rsps 62 12 % 2 ^ 10)
from-fields_example = from-fields rsps rsps-IsRsps

size_lem : ((from rsps).size ≡ 1023) × (field rsps 62 12 ≡ 4095)
unfolding from
size_lem = (refl, refl)

-- The flag of a bad address, and the state of a transfer.
from-errors_test :
    (status_from 0x8000_0900 ≡ (
      if has_error (status_of 0x8000_0900)
      then err (status_of 0x8000_0900)
      else ok (status_of 0x8000_0900)))
    × ((status_of 0x8000_0900).state ≡ state_of (0x8000_0900 / 2 ^ 9 % 2 ^ 4))
from-errors_test = from-errors 0x8000_0900

bad_address :
    (has_error (status_of 0x8000_0900) ≡ true) × ((status_of 0x8000_0900).state ≡ transfer)
bad_address = (refl, refl)
