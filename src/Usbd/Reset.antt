-- ===== src/Usbd/Reset.antt =====
-- Starting the device, a bus reset, and the reset of endpoints, of firmware/usbarmory/src/usbd/bus.rs.
use usbarmory_rust.Usbd.Endpoint.{Address}
use usbarmory_rust.Usbd.Bus.{
  Run, Inner, write, assert, expect, allocated_eps, txe, rxe, memlog_flush_and_reset, usbcmd_set,
  usbsts, endptsetupstat, endptcomplete, endptflush,
}
use usbarmory_rust.Dcp.Control.{wait_for_or_timeout}
use usbarmory_rust.Prelude.{
  ℕ, ◌-◌, ◌^◌, bit_and, bit_or, not, none, some, List, [], ◌∷◌, ◌==◌, if◌then◌else◌,
}
use usbarmory_rust.Prelude.Outcome.{ok, err, ◌>>=◌, ◌>>◌}
use usbarmory_rust.Prelude.Bits.{◌<<<◌}

-- ENDPTCTRL_TXR, ENDPTCTRL_RXR
abbrev pub txr : ℕ
txr = 1 <<< 22

abbrev pub rxr : ℕ
rxr = 1 <<< 6

-- `enable`
unfoldable pub enable : Inner → Inner
enable s = write (usbcmd_set 1) s

-- `reset`, with what it reads of `ENDPTSETUPSTAT` and `ENDPTCOMPLETE`, and of `ENDPTPRIME` up to the
-- timeout.
unfoldable pub reset : ℕ → ℕ → List ℕ → Inner → Run Inner
reset setup_register complete primes s = do
  let acknowledged = write (endptcomplete complete) (write (endptsetupstat setup_register) s)
  elim (wait_for_or_timeout (λ prime. prime == 0) primes) [
    | none ↦ err memlog_flush_and_reset
    | some prime ↦ ok tt
  ]
  ok (write (usbsts (1 <<< 6)) (write (endptflush (2 ^ 32 - 1)) acknowledged))

-- `reset_ep`
unfoldable pub reset_ep : Address → Inner → Run Inner
reset_ep a s =
    if a.is_out
    then (assert (not (bit_and s.endptctrl1 rxe == 0))
        >> ok (record s { endptctrl1 = bit_or s.endptctrl1 rxr }))
    else (assert (not (bit_and s.endptctrl1 txe == 0))
        >> ok (record s { endptctrl1 = bit_or s.endptctrl1 txr }))

unfoldable pub reset_each : List Address → Inner → Run Inner
unfolding reset_ep
reset_each [] s = ok s
reset_each (a ∷ eps) s = reset_ep a s >>= reset_each eps

-- The loop of `read` over the allocated endpoints.
unfoldable pub reset_eps : Inner → Run Inner
unfolding allocated_eps reset_each
reset_eps s = expect (allocated_eps s) >>= λ eps. reset_each eps s
