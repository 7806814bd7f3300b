-- ===== src/Usbd/Transfer.antt =====
-- Writing to an endpoint, and polling, of firmware/usbarmory/src/usbd/bus.rs.
use usbarmory_rust.Prelude.{
  ℕ, ◌-◌, ◌/◌, ◌%◌, ◌^◌, bit_and, bit_or, true, false, not, ◌&&◌, ◌||◌, Option, none, some, List,
  [], ◌∷◌, ◌++◌, ltb, ◌==◌, if◌then◌else◌, length, drop,
}
use usbarmory_rust.Prelude.Bytes.{Bytes}
use usbarmory_rust.Prelude.Bits.{◌<<<◌, ◌>>>◌}
use usbarmory_rust.Prelude.Outcome.{ok, err, ◌>>=◌, ◌>>◌}
use usbarmory_rust.Usbd.Token.{get_status, is_active, has_errors, is_halted}
use usbarmory_rust.Usbd.Endpoint.{Address, epaddr2endptmask}
use usbarmory_rust.Usbd.Indices.{collect}
use usbarmory_rust.Usbd.Queue.{
  get_max_packet_size, get_current_dtd, get_next_dtd, clear_current_dtd, set_next_dtd, set_address,
}
use usbarmory_rust.Usbd.Bus.{
  Run, endpoints, Inner, assert, expect, ok_or, update, write, clear_interrupt, get_dqh, put_dqh,
  allocated_eps, txe, rxe, take_buffer, install, would_block, endpoint_memory_overflow,
  invalid_endpoint, usb, memlog_flush_and_reset, endptprime, endptcomplete, usbsts, deviceaddr,
}

-- `start_write`
unfoldable pub start_write : Address → Bytes → Inner → Run (ℕ × Inner)
unfolding install take_buffer get_max_packet_size
start_write a bytes s = do
  q ← ok_or invalid_endpoint (get_dqh a s)
  if ltb (get_max_packet_size q) (length bytes) then err (usb endpoint_memory_overflow) else ok tt
  elim (get_current_dtd q) [ some dtd ↦ err (usb would_block) | none ↦ ok tt ]
  dtd ← expect (get_next_dtd q)
  (addr, s') ← elim (q.addr) [
    | some addr ↦ ok (addr, s)
    | none ↦ take_buffer (get_max_packet_size q) s
  ]
  installed ← install dtd addr (length bytes) s'
  let copied = record installed {
    buffers = update installed.buffers addr (bytes ++ drop (length bytes) (installed.buffers addr));
  }
  ok (length bytes, write (endptprime (epaddr2endptmask a)) (put_dqh a (set_address addr q) copied))

-- `set_ep_in_complete`
unfoldable pub set_ep_in_complete : ℕ → Inner → Run Inner
set_ep_in_complete index s = do
  assert (ltb index (endpoints / 2))
  ok (record s {
    ep_in_complete = elim (s.ep_in_complete) [
      | some mask ↦ some (bit_or mask (1 <<< index))
      | none ↦ some (1 <<< index)
    ];
  })

-- In `end_write`: the STATUS out of a control transfer is due once its data have been sent.
unfoldable pub move_status : ℕ → Inner → Inner
move_status half s = if bit_and s.pre_status_out half == 0 then s else record s {
  status_out = bit_or s.status_out half;
  pre_status_out = bit_and s.pre_status_out (2 ^ 16 - 1 - half);
}

-- `end_write`
unfoldable pub end_write : ℕ → Inner → Run Inner
unfolding get_status set_ep_in_complete move_status
end_write idx s = do
  let a : Address = record { index = idx; is_out = false }
  let mask = epaddr2endptmask a
  q ← expect (get_dqh a s)
  dtd ← expect (get_current_dtd q)
  let cleared = clear_interrupt (write (endptcomplete mask) s)
  let status = get_status (s.descriptors dtd).token
  if is_active status || (has_errors status || is_halted status)
      then err memlog_flush_and_reset
      else ok tt
  done ← set_ep_in_complete idx cleared
  let moved = move_status (mask / 2 ^ 16 % 2 ^ 16) done
  ok (put_dqh a (set_next_dtd (some dtd) (clear_current_dtd q)) moved)

-- `enable_ep`
unfoldable pub enable_ep : Address → Inner → Inner
enable_ep a s =
    if a.is_out
    then (let primed =
          if not (a.index == 0) then write (endptprime (epaddr2endptmask a)) s else s in
        record primed { endptctrl1 = bit_or primed.endptctrl1 rxe })
    else record s { endptctrl1 = bit_or s.endptctrl1 txe }

unfoldable pub enable_all : List Address → Inner → Inner
unfolding enable_ep
enable_all [] s = s
enable_all (a ∷ eps) s = enable_all eps (enable_ep a s)

-- `set_device_address`, on an address of 7 bits; `none` is a loop that has not ended.
unfoldable pub set_device_address : ℕ → Inner → Option Inner
unfolding allocated_eps enable_all
set_device_address addr s = elim (allocated_eps s) [
  | none ↦ none
  | some eps ↦ some (enable_all eps (write (deviceaddr (addr <<< 25)) s))
]

-- What `poll` reports.
pub data PollResult : Type 0 where
  nothing : PollResult
  bus_reset : PollResult
  data_ : (ep_out ep_in_complete ep_setup : ℕ) → PollResult

abbrev pub end_writes : List ℕ → Inner → Run Inner
unfolding end_write
end_writes [] s = ok s
end_writes (bit ∷ bits) s = end_write bit s >>= end_writes bits

abbrev or_zero : Option ℕ → ℕ
or_zero none = 0
or_zero (some n) = n

-- The end of `poll`: what is reported, on the values that `ENDPTSETUPSTAT` and the lower half of
-- `ENDPTCOMPLETE` have had.
unfoldable pub report : ℕ → ℕ → Inner → PollResult × Inner
report setupstat complete s =
    if not (setupstat == 0)
      || ((elim (s.ep_in_complete) [ some m ↦ true | none ↦ false ])
          || (not (s.status_out == 0) || not (complete == 0)))
    then (let ep_in_complete = or_zero s.ep_in_complete in
        let taken : Inner = record s { ep_in_complete = none; last_poll_was_none = false } in
        if not (s.status_out == 0) && (ep_in_complete == 0)
        then (data_ s.status_out ep_in_complete setupstat, record taken { status_out = 0 })
        else (data_ complete ep_in_complete setupstat, taken))
    else (nothing, record s { last_poll_was_none = true })

-- `poll`, with what it reads of `USBSTS`, `ENDPTSETUPSTAT` and `ENDPTCOMPLETE`.
unfoldable pub poll : ℕ → ℕ → ℕ → Inner → Run (PollResult × Inner)
unfolding end_writes report collect
poll sts setup_register complete s = do
  let begun = write (usbsts (1 <<< 7)) s
  let setupstat = setup_register % 2 ^ 16
  if not (bit_and sts (1 <<< 6) == 0)
      then ok (bus_reset, record begun { last_poll_was_none = false })
      else (do
        let changed = if bit_and sts (1 <<< 2) == 0 then begun else write (usbsts (1 <<< 2)) begun
        let cached =
            if setupstat == 0 then changed else record changed { setupstat = some setupstat }
        bits ← expect (collect 32 33 (complete >>> 16))
        ended ← end_writes bits cached
        ok (report setupstat (complete % 2 ^ 16) ended))
