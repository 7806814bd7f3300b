-- ===== src/Emmc/Found.antt =====
-- `take` of firmware/usbarmory/src/emmc.rs on a controller and a card that respond.
use usbarmory_rust.Prelude.{ℕ, false, some}
use usbarmory_rust.Emmc.Machine.{b8, Emmc, Machine}
use usbarmory_rust.Emmc.Driver.{rca}
use usbarmory_rust.Prelude.Bytes.{Bytes}
use usbarmory_rust.Emmc.Responsive.{Card}

abbrev pub handle_with : ℕ → Emmc
handle_with blocks = record { selected = some rca; blocks = blocks; verbose = false; width = b8 }
