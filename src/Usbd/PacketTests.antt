-- ===== src/Usbd/PacketTests.antt =====
-- Packets of firmware/usbarmory/src/usbd on a device with a controller's marks in its memory.
use usbarmory_rust.Usbd.Token.{empty, get_status, get_total_bytes, is_active}
use usbarmory_rust.Usbd.Queue.{Dqh, dqh_new, get_max_packet_size, set_address}
use usbarmory_rust.Usbd.Bus.{
  Write, Inner, endptprime, endptcomplete, usbsts, get_dqh, usb, would_block,
  memlog_flush_and_reset,
}
use usbarmory_rust.Usbd.Transfer.{start_write, set_device_address, data_, poll}
use usbarmory_rust.Usbd.Setup.{Wire, IsWire, copy_packet}
use usbarmory_rust.Usbd.Tripwire.{copy_packet-whole}
use usbarmory_rust.Usbd.Reset.{reset_eps, reset, enable}
use usbarmory_rust.Usbd.Configure.{reset_eps-set_device_address}
use usbarmory_rust.Usbd.Read.{Port, leave_dtd, read}
use usbarmory_rust.Usbd.Packets.{IsReceived, read-received}
use usbarmory_rust.Usbd.Sent.{poll-sent}
use usbarmory_rust.Usbd.Endpoint.{epaddr2endptmask}
use usbarmory_rust.Usbd.Writes.{IsIdle, IsSent, in_address, start_write-runs}
use usbarmory_rust.Usbd.Runs.{taken, in_, out_}
use usbarmory_rust.Prelude.{
  ℕ, suc, ◌+◌, ◌-◌, ◌*◌, ◌^◌, ◌≤◌, ◌<◌, bit_and, ◌≡◌, refl, ◌≢◌, Bool, true, not, ◌&&◌, none, some,
  List, [], ◌∷◌, arith, ltb, leb, ◌==◌, if◌then◌else◌, take, replicate,
}
use usbarmory_rust.Prelude.Bytes.{Bytes}
use usbarmory_rust.Prelude.Outcome.{ok, err, panic}
use usbarmory_rust.Prelude.Bits.{◌<<<◌}

-- A packet arrives while the one before it is copied.
abbrev old_packet : Bytes
old_packet = 0 ∷ 5 ∷ 9 ∷ 0 ∷ 0 ∷ 0 ∷ 0 ∷ 0 ∷ []

abbrev new_packet : Bytes
new_packet = 128 ∷ 6 ∷ 0 ∷ 1 ∷ 0 ∷ 0 ∷ 18 ∷ 0 ∷ []

abbrev wire : Wire
wire = record {
  setup = λ t. if ltb 3 t then new_packet else old_packet;
  sutw = λ t t'. not (leb t 3 && ltb 3 t');
}

abbrev arrives : ℕ → Bool
arrives t = t == 3

wire-IsWire : IsWire wire arrives
wire-IsWire = record {
  sized = λ t. ground arith;
  kept = λ t h. ground arith;
  holds = λ t k h i below. ground arith;
  stays = λ t k h. ground (arith, h (3 - t));
}

copy_packet-whole_example :
    (end : ℕ) × (s' : Inner) × (copy_packet wire (suc (1 + 2)) 0 taken
      ≡ some (wire.setup end, end, s'))
    × (0 < end)
    × (end ≤ 0 + 9 * 1 + 8)
copy_packet-whole_example =
    copy_packet-whole wire arrives wire-IsWire 1 2 0 taken (λ i h. ground arith)

-- The second round copies the new packet.
copy_packet_test : (s' : Inner) × (copy_packet wire 4 0 taken ≡ some (new_packet, 17, s'))
unfolding copy_packet
copy_packet_test = (_, refl)

abbrev head_out : Dqh
head_out = record {
  caps = 64 * 2 ^ 16 + 2 ^ 15;
  current_dtd = 0x100;
  next_dtd = 1;
  token = record { inner = (64 - 3) * 2 ^ 16 };
  addr = some 0x200;
}

abbrev head_in : Dqh
head_in = record {
  caps = 64 * 2 ^ 16 + 2 ^ 15;
  current_dtd = 1;
  next_dtd = 0x120;
  token = empty;
  addr = some 0x240;
}

abbrev with_packet : Inner
with_packet = record taken {
  dqhs = dqh_new ∷ dqh_new ∷ head_out ∷ head_in ∷ [];
  buffers = λ i. if i == 0x200 then 7 ∷ 8 ∷ 9 ∷ replicate 61 0 else replicate 64 0;
  used_dqhs = 0b1100;
}

abbrev port : Port
port = record {
  wire = wire;
  now = 0;
  rounds = 4;
  completes = λ s. 0 ∷ 1 ∷ [];
  endptcomplete = 0b10;
  transferred = λ s. s;
}

with_packet-IsReceived : IsReceived with_packet (out_ 1) head_out 0x100 0x200 (7 ∷ 8 ∷ 9 ∷ [])
unfolding get_status get_total_bytes get_max_packet_size
with_packet-IsReceived = record {
  head = refl;
  current = refl;
  ended = refl;
  no_error = refl;
  no_halt = refl;
  address = refl;
  left = refl;
  size = omega arith;
  bytes = refl;
}

read-received_example :
    (s' : Inner) × (read port (out_ 1) 0x900 with_packet ≡ ok (3, s'))
    × (take 3 (s'.buffers 0x900) ≡ 7 ∷ 8 ∷ 9 ∷ [])
    × (get_total_bytes (s'.descriptors 0x100).token ≡ get_max_packet_size head_out)
    × (is_active (get_status (s'.descriptors 0x100).token) ≡ true)
    × (get_dqh (out_ 1) s' ≡ some (leave_dtd 0x100 head_out))
    × (s'.written ≡ endptprime 0b10 ∷ usbsts 1 ∷ endptcomplete 0b10 ∷ [])
read-received_example =
    read-received port (out_ 1) 0x900 head_out 0x100 0x200 (7 ∷ 8 ∷ 9 ∷ []) with_packet
      with_packet-IsReceived refl (λ q. cc) (λ q. omega arith) (omega arith)

with_packet-IsIdle : IsIdle with_packet (in_ 1) head_in 0x120 0x240
unfolding get_max_packet_size
with_packet-IsIdle = record {
  head = refl;
  not_busy = refl;
  next = refl;
  address = refl;
  size = omega arith;
}

start_write-runs_test :
    (s' : Inner) × (start_write (in_ 1) (4 ∷ 5 ∷ []) with_packet ≡ ok (2, s'))
    × (take 2 (s'.buffers 0x240) ≡ 4 ∷ 5 ∷ [])
    × (get_total_bytes (s'.descriptors 0x120).token ≡ 2)
    × (is_active (get_status (s'.descriptors 0x120).token) ≡ true)
    × (get_dqh (in_ 1) s' ≡ some (set_address 0x240 head_in))
    × (s'.written ≡ endptprime (2 ^ 17) ∷ [])
unfolding get_max_packet_size
start_write-runs_test =
    start_write-runs (in_ 1) head_in 0x120 0x240 (4 ∷ 5 ∷ []) with_packet with_packet-IsIdle
      (omega arith)

abbrev sent_head : Dqh
sent_head = record head_in { current_dtd = 0x120; next_dtd = 1 }

abbrev sent : Inner
sent = record with_packet { dqhs = dqh_new ∷ dqh_new ∷ head_out ∷ sent_head ∷ [] }

sent-IsSent : IsSent sent 1 sent_head 0x120 0x240
unfolding get_status get_max_packet_size
sent-IsSent = record {
  within = omega arith;
  head = refl;
  current = refl;
  ended = refl;
  no_error = refl;
  no_halt = refl;
  address = refl;
  size = omega arith;
}

-- It is what the controller reports, and the device asks to poll again: a frame has started.
poll-sent_example :
    (s' s'' : Inner) × (m : ℕ) × (before : List Write) × (poll
        (1 <<< 7)
        0
        ((1 <<< 1) * 2 ^ 16 + 4)
        sent
      ≡ ok (data_ 4 m 0, s'))
    × (bit_and m (1 <<< 1) ≢ 0)
    × (s'.ep_in_complete ≡ none)
    × (s'.written ≡ usbsts 1 ∷ endptcomplete (epaddr2endptmask (in_address 1)) ∷ before)
    × (start_write (in_address 1) (6 ∷ 7 ∷ 8 ∷ []) s' ≡ ok (3, s''))
    × (take 3 (s''.buffers 0x240) ≡ 6 ∷ 7 ∷ 8 ∷ [])
unfolding get_max_packet_size
poll-sent_example =
    poll-sent 1 sent_head 0x120 0x240 sent sent-IsSent (1 <<< 7) 0 4 (6 ∷ 7 ∷ 8 ∷ []) (omega arith)
      refl (omega arith)

abbrev addressed : Inner
unfolding set_device_address
addressed = elim (set_device_address 9 with_packet) [ none ↦ taken | some s ↦ s ]

reset_eps-set_device_address_test : (s'' : Inner) × (reset_eps addressed ≡ ok s'')
unfolding set_device_address addressed
reset_eps-set_device_address_test = reset_eps-set_device_address 9 with_packet addressed refl

-- A configuration is set before the address.
too_early_test : reset_eps with_packet ≡ panic
unfolding reset_eps
too_early_test = refl

-- A SETUP packet of GET_DESCRIPTOR, while an older one is overwritten.
setup_test :
    (s' : Inner) × (read port (out_ 0) 0x900 (record with_packet { setupstat = some 1 })
      ≡ ok (8, s'))
    × (take 8 (s'.buffers 0x900) ≡ new_packet)
    × (s'.pre_status_out ≡ 1)
    × (s'.setupstat ≡ none)
unfolding read
setup_test = (_, refl, refl, refl, refl)

nothing_test :
    read (record port { endptcomplete = 0 }) (out_ 1) 0x900 with_packet ≡ err (usb would_block)
unfolding read
nothing_test = refl

timeout_test : reset 0 0 (1 ∷ 1 ∷ []) (enable taken) ≡ err memlog_flush_and_reset
unfolding reset
timeout_test = refl
