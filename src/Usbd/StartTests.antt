-- ===== src/Usbd/StartTests.antt =====
-- `take` of firmware/usbarmory/src/usbd.rs on a concrete board.
use usbarmory_rust.Usbd.Alloc.{alloc_ep}
use usbarmory_rust.Usbd.Bus.{
  endpoint_overflow, usb, Inner, control, bulk, interrupt, memlog_flush_and_reset,
}
use usbarmory_rust.Usbd.Start.{Registers, Board, Statics, take_usbd}
use usbarmory_rust.Usbd.Started.{IsBoard, nothing_taken, all_taken}
use usbarmory_rust.Usbd.Endpoints.{control_out, control_in, data_out, data_in, take_usbd-alloc_ep}
use usbarmory_rust.Prelude.{◌+◌, ◌*◌, ◌≡◌, refl, true, false, none, some, [], ◌∷◌, arith}
use usbarmory_rust.Prelude.Outcome.{ok, err}
use usbarmory_rust.Prelude.Bits.{◌<<<◌}

abbrev no_registers : Registers
no_registers = record {
  pll_usb1 = 0;
  phy_ctrl = 0;
  phy_pwd = 0;
  usb1_chrg_detect = 0;
  usbcmd = 0;
  usbmode = 0;
  endptlistaddr = 0;
  otgsc = 0;
  usbintr = 0;
  endptctrl1 = 0;
}

-- The clock locks at the second read, and the reset has ended at the third one.
abbrev board : Board
board = record {
  pll_reads = λ r. 0 ∷ (1 <<< 31) ∷ [];
  usbcmd_reads = λ r. 2 ∷ 2 ∷ 0 ∷ [];
  after_reset = λ r. record r { usbcmd = 0; usbmode = 0 };
  usbmode_reads = λ r. r.usbmode ∷ [];
}

board-IsBoard : IsBoard board
board-IsBoard = record {
  locks = λ r. (1 <<< 31, refl);
  ends_reset = λ r. (0, refl);
  is_device = λ r h. (r.usbmode, ground (arith));
}

abbrev statics : Statics
statics = record {
  dqhs = 0x1000;
  dtd = λ i. 0x2000 + i * 32;
  b64 = λ i. 0x3000 + i * 64;
  b512 = λ i. 0x4000 + i * 512;
}

take_usbd-alloc_ep_example :
    (s s_1 s_2 s_3 s_4 : Inner) × (r' : Registers) × (take_usbd board statics nothing_taken
        no_registers
      ≡ ok (some s, all_taken, r'))
    × (alloc_ep true (some control_out) control 64 s ≡ ok (control_out, s_1))
    × (alloc_ep false (some control_in) control 64 s_1 ≡ ok (control_in, s_2))
    × (alloc_ep true none bulk 64 s_2 ≡ ok (data_out, s_3))
    × (alloc_ep false none interrupt 8 s_3 ≡ ok (data_in, s_4))
    × (s_4.used_dqhs ≡ 0b1111)
    × (alloc_ep true none bulk 64 s_4 ≡ err (usb endpoint_overflow))
    × (alloc_ep false none bulk 64 s_4 ≡ err (usb endpoint_overflow))
take_usbd-alloc_ep_example =
    take_usbd-alloc_ep board statics no_registers bulk interrupt 64 64 64 8 board-IsBoard refl refl
      (omega arith) (omega arith) (omega arith) (omega arith)

-- Once one of the peripherals has been taken, there is no device, and all of them are taken.
take_usbd_twice :
    take_usbd board statics (record nothing_taken { usbphy = true }) no_registers
    ≡ ok (none, all_taken, no_registers)
unfolding take_usbd
take_usbd_twice = refl

-- A reset that does not end.
take_usbd_timeout :
    take_usbd (record board { usbcmd_reads = λ r. 2 ∷ 2 ∷ [] }) statics nothing_taken no_registers
    ≡ err memlog_flush_and_reset
unfolding take_usbd
take_usbd_timeout = refl
