-- ===== src/Image/Ddr.antt =====
-- `init_ddr` of host/image/src/write.rs: the writes that set up the external RAM. The addresses are
-- those of the registers in firmware/imx6ul-pac/src/lib.rs (`BASE_ADDRESS + OFFSET`).
use usbarmory_rust.Prelude.{ℕ, [], ◌∷◌}
use usbarmory_rust.Image.Dcd.{AddressValue, Dcd}

abbrev write_to : ℕ → ℕ → AddressValue
write_to address value = record { address = address; value = value }

unfoldable pub init_ddr : Dcd
init_ddr = record {
  writes =
      write_to 0x020e_04b4 0x000c_0000
      ∷ write_to 0x020e_04ac 0
      ∷ write_to 0x020e_0288 0x8_0030
      ∷ write_to 0x020e_0270 0
      ∷ write_to 0x020e_0260 0x30
      ∷ write_to 0x020e_0264 0x30
      ∷ write_to 0x020e_0280 0x30
      ∷ write_to 0x020e_0284 0x30
      ∷ write_to 0x020e_0494 0x0002_0000
      ∷ write_to 0x020e_04b0 0x0002_0000
      ∷ write_to 0x021b_001c 0x8000
      ∷ write_to 0x021b_000c 0x676b_52f3
      ∷ write_to 0x021b_0010 0xb66d_0b63
      ∷ write_to 0x021b_0014 0x01ff_00db
      ∷ write_to 0x021b_0008 0x1b33_3030
      ∷ write_to 0x021b_0018 0x0020_1740
      ∷ write_to 0x021b_002c 0x26d2
      ∷ write_to 0x021b_0040 0x4f
      ∷ write_to 0x021b_0030 0x006b_1023
      ∷ write_to 0x021b_0000 0x8418_0000
      ∷ write_to 0x021b_0800 0xa139_0003
      ∷ write_to 0x021b_080c 0x000d_000f
      ∷ write_to 0x021b_0810 0x0010_0010
      ∷ write_to 0x021b_083c 0x415c_0160
      ∷ write_to 0x021b_0848 0x4040_3c42
      ∷ write_to 0x021b_0850 0x4040_2c26
      ∷ write_to 0x021b_081c 0x3333_3333
      ∷ write_to 0x021b_0820 0x3333_3333
      ∷ write_to 0x021b_082c 0xf333_3333
      ∷ write_to 0x021b_0830 0xf333_3333
      ∷ write_to 0x021b_08c0 0x0092_1012
      ∷ write_to 0x021b_08b8 0x0800
      ∷ write_to 0x021b_001c 0x0200_8032
      ∷ write_to 0x021b_001c 0x8033
      ∷ write_to 0x021b_001c 0x0004_8031
      ∷ write_to 0x021b_001c 0x1520_8030
      ∷ write_to 0x021b_001c 0x0400_8040
      ∷ write_to 0x021b_0004 0x0002_556d
      ∷ write_to 0x021b_0404 0x0001_1006
      ∷ write_to 0x021b_0020 0x0800
      ∷ write_to 0x021b_0818 0x0227
      ∷ write_to 0x021b_001c 0
      ∷ [];
}
