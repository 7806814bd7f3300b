-- ===== src/Usbd/Read.antt =====
-- `read` of firmware/usbarmory/src/usbd/bus.rs. The caller's buffer is at an address of the memory that
-- the device shares with the controller.
use usbarmory_rust.Usbd.Token.{get_status, get_total_bytes, is_active, has_errors, is_halted}
use usbarmory_rust.Usbd.Endpoint.{Address, epaddr2endptmask}
use usbarmory_rust.Usbd.Queue.{
  Dqh, get_max_packet_size, get_current_dtd, get_next_dtd, clear_current_dtd, set_next_dtd,
  set_address,
}
use usbarmory_rust.Usbd.Bus.{
  Run, Inner, assert, expect, ok_or, update, write, clear_interrupt, get_dqh, put_dqh, install,
  would_block, invalid_endpoint, usb, memlog_flush_and_reset, endptprime, endptcomplete,
  endptsetupstat, usbcmd_clear,
}
use usbarmory_rust.Usbd.Setup.{Wire, cmd_sutw, setup_bytes, copy_packet}
use usbarmory_rust.Usbd.Reset.{reset_eps}
use usbarmory_rust.Dcp.Control.{wait_for_or_timeout}
use usbarmory_rust.Prelude.{
  ℕ, ◌+◌, ◌-◌, ◌%◌, ◌^◌, bit_and, true, false, not, ◌&&◌, ◌||◌, Option, none, some, List, ◌++◌, leb,
  ◌==◌, if◌then◌else◌, length, get_or, take, drop,
}
use usbarmory_rust.Prelude.Bytes.{Bytes}
use usbarmory_rust.Prelude.Outcome.{ok, err, ◌>>=◌, ◌>>◌}
use usbarmory_rust.Prelude.Bits.{◌<<<◌}

-- What the controller does during a call: the SETUP bytes from a moment on, with the rounds that the
-- loop has; what `ENDPTCOMPLETE` reads as up to the timeout, and when it is read once; and the memory as
-- it is when a transfer is complete.
pub record Port : Type 0 where
  pub wire : Wire
  pub now : ℕ
  pub rounds : ℕ
  pub completes : Inner → List ℕ
  pub endptcomplete : ℕ
  pub transferred : Inner → Inner

-- The bit of an endpoint in the cached `setupstat`, when it is set, is taken out.
abbrev pub without_zero : Option ℕ → Option ℕ
without_zero none = none
without_zero (some setupstat) = if setupstat == 0 then none else some setupstat

abbrev pub take_setup : ℕ → Option ℕ → Option ℕ × Option ℕ
take_setup index none = (none, none)
take_setup index (some setupstat) =
    if not (bit_and setupstat (1 <<< index) == 0)
    then (some (1 <<< index), without_zero (some (bit_and setupstat (2 ^ 16 - 1 - (1 <<< index)))))
    else (none, without_zero (some setupstat))

-- What `read` does of a SETUP packet itself.
pub data Request : Type 0 where
  set_address_request set_configuration_request get_descriptor_request other_request : Request

abbrev pub request_of : ℕ → ℕ → Request
request_of kind code =
    if kind == 0 && (code == 5)
    then set_address_request
    else (if kind == 0 && (code == 9) || (kind == 1 && (code == 11))
        then set_configuration_request
        else (if kind == 128 && (code == 6) then get_descriptor_request else other_request))

unfoldable pub act : Request → Inner → Run Inner
unfolding reset_eps
act set_address_request s = ok s
act set_configuration_request s = reset_eps s
act get_descriptor_request s = ok (record s { pre_status_out = 1 })
act other_request s = err memlog_flush_and_reset

-- So many bytes are put at the start of the buffer, which must hold as many.
unfoldable pub fill : ℕ → ℕ → Bytes → Inner → Run Inner
fill buf n bytes s = do
  assert (leb n (length (s.buffers buf)))
  ok (record s { buffers = update s.buffers buf (take n bytes ++ drop n (s.buffers buf)) })

-- A SETUP packet, on the bit of the endpoint. A loop that has not ended after its rounds counts as a
-- panic.
unfoldable pub read_setup : Port → ℕ → ℕ → Inner → Run (ℕ × Inner)
unfolding copy_packet fill act
read_setup port mask buf s = do
  (packet, end, copied) ←
      expect (copy_packet port.wire port.rounds port.now (write (endptsetupstat mask) s))
  filled ← fill buf setup_bytes packet copied
  let cleared = clear_interrupt (write (usbcmd_clear cmd_sutw) filled)
  acted ← act (request_of (get_or packet 0 0) (get_or packet 1 0)) cleared
  ok (setup_bytes, acted)

-- A transfer that is complete must not have failed.
unfoldable pub check_transfer : ℕ → Inner → Run (Unit {0})
unfolding get_status
check_transfer dtd s =
    let status = get_status (s.descriptors dtd).token in
    if is_active status || (has_errors status || is_halted status)
    then err memlog_flush_and_reset
    else ok tt

-- The descriptor is left in place for the next transfer.
abbrev pub leave_dtd : ℕ → Dqh → Dqh
leave_dtd dtd q = set_next_dtd (some dtd) (clear_current_dtd q)

-- The OUT phase of a control endpoint.
unfoldable pub read_control : Port → Address → ℕ → Dqh → Inner → Run (ℕ × Inner)
unfolding install check_transfer get_total_bytes
read_control port a buf q s = do
  assert (elim (get_current_dtd q) [ none ↦ true | some d ↦ false ])
  dtd ← expect (get_next_dtd q)
  let cap = length (s.buffers buf)
  installed ← install dtd buf cap s
  let primed = write (endptprime (epaddr2endptmask a)) (put_dqh a (set_address buf q) installed)
  elim (wait_for_or_timeout (λ complete. not (bit_and complete (epaddr2endptmask a) == 0))
      (port.completes primed)) [ none ↦ err memlog_flush_and_reset | some complete ↦ ok tt ]
  let cleared =
      clear_interrupt (write (endptcomplete (epaddr2endptmask a)) (port.transferred primed))
  check_transfer dtd cleared
  q' ← ok_or invalid_endpoint (get_dqh a cleared)
  assert (leb (get_total_bytes q'.token) cap)
  ok (cap - get_total_bytes q'.token, put_dqh a (leave_dtd dtd q') cleared)

-- A packet that an endpoint OUT has received.
unfoldable pub read_data : Port → Address → ℕ → Dqh → Inner → Run (ℕ × Inner)
unfolding install check_transfer get_total_bytes get_max_packet_size fill
read_data port a buf q s =
    if bit_and port.endptcomplete (epaddr2endptmask a) == 0 then err (usb would_block) else (do
      dtd ← expect (get_current_dtd q)
      let cleared = clear_interrupt (write (endptcomplete (epaddr2endptmask a)) s)
      check_transfer dtd cleared
      let n = (get_max_packet_size q + 2 ^ 16 - get_total_bytes q.token) % 2 ^ 16
      addr ← expect (q.addr)
      filled ← fill buf n (cleared.buffers addr) cleared
      installed ← install dtd addr (get_max_packet_size q) filled
      ok (n, write (endptprime (epaddr2endptmask a)) (put_dqh a (leave_dtd dtd q) installed)))

-- `read`, on the bit of a SETUP packet, if there is one, and the packets that are left.
unfoldable pub read_on : Port → Address → ℕ → Inner → Option ℕ × Option ℕ → Run (ℕ × Inner)
unfolding read_setup read_control read_data
read_on port a buf s (mask, setupstat) =
    let s' : Inner = record s { setupstat = setupstat } in
    ok_or invalid_endpoint (get_dqh a s) >>= λ q. elim mask [
      | some bit ↦ read_setup port bit buf s'
      | none ↦ if a.index == 0 then read_control port a buf q s' else read_data port a buf q s'
    ]

unfoldable pub read : Port → Address → ℕ → Inner → Run (ℕ × Inner)
unfolding read_on
read port a buf s = read_on port a buf s (take_setup a.index s.setupstat)
