-- ===== src/Usbd/Alloc.antt =====
-- `alloc_ep` of firmware/usbarmory/src/usbd/bus.rs.
use usbarmory_rust.Prelude.{
  ℕ, zero, suc, Bool, true, false, not, ◌&&◌, Option, none, some, ◌==◌, if◌then◌else◌,
}
use usbarmory_rust.Prelude.Outcome.{ok, err, panic, ◌>>=◌, ◌>>◌}
use usbarmory_rust.Usbd.Endpoint.{Address}
use usbarmory_rust.Usbd.Queue.{Dqh, set_max_packet_size, set_next_dtd, set_address}
use usbarmory_rust.Usbd.Bus.{
  Run, EndpointType, Inner, assert, expect, ok_or, pop, get_dqh, put_dqh, is_ep_being_used,
  mark_ep_as_used, configure_ep, take_buffer, install, endpoint_overflow, invalid_endpoint, usb,
  isochronous,
}

-- The address that `alloc_ep` takes: the one that is named, or the first from an index on that is not
-- used, with `n` rounds of the loop at most.
unfoldable pub find_ep : ℕ → ℕ → Bool → Inner → Run (Address × Dqh)
find_ep zero idx out s = panic
find_ep (suc n) idx out s =
    let a : Address = record { index = idx; is_out = out } in
    let rest = find_ep n (suc idx) out s in
    ok_or endpoint_overflow (get_dqh a s) >>= λ q.
    if not (is_ep_being_used a s) then ok (a, q) else rest

unfoldable pub choose_ep : Bool → Option Address → Inner → Run (Address × Dqh)
unfolding find_ep
choose_ep out none s = find_ep 2 1 out s
choose_ep out (some a) s = ok_or endpoint_overflow (get_dqh a s) >>= λ q.
    if is_ep_being_used a s then err (usb invalid_endpoint) else ok (a, q)

abbrev pub is_isochronous : EndpointType → Bool
is_isochronous isochronous = true
is_isochronous _ = false

-- The descriptor that `alloc_ep` gives to a queue head, with a buffer for an endpoint OUT.
unfoldable pub give_buffer : Address → ℕ → ℕ → Dqh → Inner → Run Inner
unfolding install take_buffer
give_buffer a max_packet_size dtd q s = do
  (addr, taken) ← take_buffer max_packet_size s
  installed ← install dtd addr max_packet_size taken
  ok (put_dqh a (set_next_dtd (some dtd) (set_address addr q)) installed)

unfoldable pub give_descriptor : Address → ℕ → Dqh → Inner → Run Inner
unfolding give_buffer
give_descriptor a max_packet_size q s = do
  (dtd, dtds) ← expect (pop s.dtds)
  let popped = record s { dtds = dtds }
  if a.is_out && not (a.index == 0)
      then give_buffer a max_packet_size dtd q popped
      else ok (put_dqh a (set_next_dtd (some dtd) q) popped)

-- `alloc_ep`
unfoldable pub alloc_ep : Bool → Option Address → EndpointType → ℕ → Inner → Run (Address × Inner)
unfolding choose_ep give_descriptor configure_ep set_max_packet_size
alloc_ep out named ty max_packet_size s = do
  assert (not (is_isochronous ty))
  (a, q) ← choose_ep out named s
  sized ← expect (set_max_packet_size max_packet_size true q)
  given ← give_descriptor a max_packet_size sized s
  let marked = mark_ep_as_used a given
  configured_s ← if not (a.index == 0) then configure_ep a ty marked else ok marked
  ok (a, configured_s)
