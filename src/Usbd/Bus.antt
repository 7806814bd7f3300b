-- ===== src/Usbd/Bus.antt =====
-- The device's operations on endpoints of firmware/usbarmory/src/usbd/bus.rs. The queue heads and the
-- descriptors are in the state, as memory that is shared with the controller; `ENDPTCTRL1` holds what
-- was written to it, and the writes to the other registers are recorded.
use usbarmory_rust.Prelude.{
  ℕ, ◌-◌, ◌^◌, bit_and, bit_or, Bool, true, false, not, Option, none, some, List, [], ◌∷◌, map, ltb,
  leb, ◌==◌, if◌then◌else◌, get_elem?, set,
}
use usbarmory_rust.Prelude.Bytes.{Bytes}
use usbarmory_rust.Prelude.Bits.{◌<<<◌}
use usbarmory_rust.Prelude.Outcome.{Outcome, ok, err, panic, ◌>>=◌, ◌>>◌}
use usbarmory_rust.Usbd.Token.{Token, empty, set_total_bytes, set_status, set_ioc, active}
use usbarmory_rust.Usbd.Endpoint.{Address, epaddr2dqhidx, dqhidx2epaddr}
use usbarmory_rust.Usbd.Indices.{collect}
use usbarmory_rust.Usbd.Queue.{Dqh, Dtd, set_pages, set_token}

-- The errors of another crate that the driver returns.
pub data UsbError : Type 0 where
  would_block endpoint_overflow endpoint_memory_overflow invalid_endpoint : UsbError

pub data Stop : Type 0 where
  usb : UsbError → Stop
  memlog_flush_and_reset : Stop

abbrev pub Run : Type 0 → Type 0
Run A = Outcome Stop A

pub data EndpointType : Type 0 where
  control isochronous bulk interrupt : EndpointType

pub data Write : Type 0 where
  endptprime endptcomplete endptsetupstat endptflush usbsts deviceaddr : ℕ → Write
  usbcmd_set usbcmd_clear : ℕ → Write

abbrev pub endpoints : ℕ
endpoints = 4

-- `Inner`, with the memory that it shares with the controller; a pool's first element is the next one.
pub record Inner : Type 0 where
  pub dqhs : List Dqh
  pub descriptors : ℕ → Dtd
  pub buffers : ℕ → Bytes
  pub endptctrl1 : ℕ
  pub written : List Write
  pub dtds : List ℕ
  pub b64s : List ℕ
  pub b512s : List ℕ
  pub used_dqhs : ℕ
  pub setupstat : Option ℕ
  pub ep_in_complete : Option ℕ
  pub last_poll_was_none : Bool
  pub pre_status_out : ℕ
  pub status_out : ℕ

abbrev pub assert : Bool → Run (Unit {0})
assert true = ok tt
assert false = panic

-- `expect`, and `ok_or` with an error
abbrev pub expect : {A : Type 0} → Option A → Run A
expect none = panic
expect (some a) = ok a

abbrev pub ok_or : {A : Type 0} → UsbError → Option A → Run A
ok_or e none = err (usb e)
ok_or e (some a) = ok a

abbrev pub pop : List ℕ → Option (ℕ × List ℕ)
pop [] = none
pop (x ∷ xs) = some (x, xs)

abbrev pub update : {A : Type 0} → (ℕ → A) → ℕ → A → ℕ → A
update f i a j = if j == i then a else f j

abbrev pub write : Write → Inner → Inner
write w s = record s { written = w ∷ s.written }

-- `get_dqh`
abbrev pub get_dqh : Address → Inner → Option Dqh
get_dqh a s = if ltb (epaddr2dqhidx a) endpoints then get_elem? s.dqhs (epaddr2dqhidx a) else none

abbrev pub put_dqh : Address → Dqh → Inner → Inner
put_dqh a q s = record s { dqhs = set s.dqhs (epaddr2dqhidx a) q }

-- `is_ep_being_used`, `mark_ep_as_used`
abbrev pub is_ep_being_used : Address → Inner → Bool
is_ep_being_used a s = not (bit_and s.used_dqhs (1 <<< epaddr2dqhidx a) == 0)

abbrev pub mark_ep_as_used : Address → Inner → Inner
mark_ep_as_used a s = record s { used_dqhs = bit_or s.used_dqhs (1 <<< epaddr2dqhidx a) }

-- `allocated_eps`
unfoldable pub allocated_eps : Inner → Option (List Address)
unfolding collect
allocated_eps s = elim (collect 32 33 s.used_dqhs) [
  | none ↦ none
  | some is ↦ some (map dqhidx2epaddr is)
]

abbrev pub txe : ℕ
txe = 1 <<< 23

abbrev pub rxe : ℕ
rxe = 1 <<< 7

abbrev pub type_code : EndpointType → ℕ
type_code control = 0b00
type_code isochronous = 0b01
type_code bulk = 0b10
type_code interrupt = 0b11

-- A field of `ENDPTCTRL1` under a mask at an offset is set.
abbrev pub set_type : ℕ → ℕ → ℕ → ℕ → ℕ
set_type mask offset ty ctrl =
    bit_or (bit_and ctrl (2 ^ 32 - 1 - (mask <<< offset))) (ty <<< offset)

abbrev pub txt_offset : ℕ
txt_offset = 18

abbrev pub txt_mask : ℕ
txt_mask = 0b11

abbrev pub rxt_offset : ℕ
rxt_offset = 2

abbrev pub rxt_mask : ℕ
rxt_mask = 0b00

-- What `configure_ep` makes of `ENDPTCTRL1`.
unfoldable pub configured : Bool → EndpointType → ℕ → ℕ
configured true ty ctrl =
    let typed = set_type rxt_mask rxt_offset (type_code ty) ctrl in
    if bit_and typed txe == 0 then set_type txt_mask txt_offset (type_code bulk) typed else typed
configured false ty ctrl =
    let typed = set_type txt_mask txt_offset (type_code ty) ctrl in
    if bit_and typed rxe == 0 then set_type rxt_mask rxt_offset (type_code bulk) typed else typed

-- `clear_interrupt`
abbrev pub clear_interrupt : Inner → Inner
clear_interrupt s = write (usbsts 1) s

-- `configure_ep`
unfoldable pub configure_ep : Address → EndpointType → Inner → Run Inner
unfolding configured
configure_ep a ty s = do
  assert (a.index == 1)
  ok (record s { endptctrl1 = configured a.is_out ty s.endptctrl1 })

-- A buffer from a pool, for packets of a size.
abbrev pub from_b64s : Inner → Run (ℕ × Inner)
from_b64s s = expect (pop s.b64s) >>= λ taken. ok (taken.0, record s { b64s = taken.1 })

abbrev pub from_b512s : Inner → Run (ℕ × Inner)
from_b512s s = expect (pop s.b512s) >>= λ taken. ok (taken.0, record s { b512s = taken.1 })

unfoldable pub take_buffer : ℕ → Inner → Run (ℕ × Inner)
take_buffer max_packet_size s =
    if leb max_packet_size 64
    then from_b64s s
    else (if leb max_packet_size 512 then from_b512s s else panic)

-- A token for a transfer of so many bytes.
unfoldable pub active_token : ℕ → Run Token
unfolding set_total_bytes set_status set_ioc
active_token n = expect (set_total_bytes empty n) >>= λ t. ok (set_ioc (set_status t active))

-- A descriptor is given a buffer and a token.
unfoldable pub install : ℕ → ℕ → ℕ → Inner → Run Inner
unfolding active_token set_pages
install dtd addr n s = active_token n >>= λ token. ok (record s {
  descriptors = update s.descriptors dtd (set_pages addr (set_token token (s.descriptors dtd)));
})
