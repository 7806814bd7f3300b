-- ===== src/Usbd/Configure.antt =====
-- The order of the requests of a host, and the endpoints: SET_ADDRESS enables those that SET_CONFIGURATION
-- resets, in firmware/usbarmory/src/usbd/bus.rs.
use usbarmory_rust.Prelude.Bits.Masks.{bit_or-keeps_left, bit_or-keeps_right}
use usbarmory_rust.Usbd.Endpoint.{Address}
use usbarmory_rust.Usbd.Bus.{Inner, write, txe, rxe, allocated_eps, deviceaddr}
use usbarmory_rust.Usbd.Endpoint.{dqhidx2epaddr}
use usbarmory_rust.Usbd.Indices.{collect}
use usbarmory_rust.Usbd.Transfer.{enable_ep, enable_all, set_device_address}
use usbarmory_rust.Usbd.Reset.{txr, rxr, reset_ep, reset_each, reset_eps}
use usbarmory_rust.Prelude.{
  ℕ, bit_and, bit_or, ◌≡◌, refl, sym, ap, ◌∙◌, subst, ◌≢◌, inl, inr, Bool, true, false, none, some,
  List, [], ◌∷◌, map, arith, ==_iff, Option-cases,
}
use usbarmory_rust.Prelude.Outcome.{ok, ◌>>=◌}
use usbarmory_rust.Prelude.Bits.{◌<<<◌}

abbrev flag : Bool → ℕ
flag true = rxe
flag false = txe

-- The endpoints are enabled, in the direction that each has.
IsEnabled : List Address → ℕ → Type 0
IsEnabled [] ctrl = Unit
IsEnabled (a ∷ eps) ctrl = (bit_and ctrl (flag a.is_out) ≢ 0) × IsEnabled eps ctrl

IsEnabled-or : (eps : List Address) (x y : ℕ) → IsEnabled eps x → IsEnabled eps (bit_or x y)
unfolding IsEnabled
IsEnabled-or [] x y e = tt
IsEnabled-or (a ∷ eps) x y e = (bit_or-keeps_left (flag a.is_out) x y e.0, IsEnabled-or eps x y e.1)

enable_ep-ctrl :
    (a : Address) (s : Inner)
    → ((enable_ep a s).endptctrl1 ≡ bit_or s.endptctrl1 (flag a.is_out))
      × ((enable_ep a s).used_dqhs ≡ s.used_dqhs)
unfolding enable_ep
enable_ep-ctrl a s = ground arith

enable_all-used : (eps : List Address) (s : Inner) → (enable_all eps s).used_dqhs ≡ s.used_dqhs
unfolding enable_all
enable_all-used [] s = refl
enable_all-used (a ∷ eps) s = enable_all-used eps (enable_ep a s) ∙ (enable_ep-ctrl a s).1

enable_all-keeps :
    (eps : List Address) (m : ℕ) (s : Inner)
    → bit_and s.endptctrl1 m ≢ 0
    → bit_and (enable_all eps s).endptctrl1 m ≢ 0
unfolding enable_all
enable_all-keeps [] m s h = h
enable_all-keeps (a ∷ eps) m s h = enable_all-keeps eps m (enable_ep a s) (
    subst (λ c. bit_and c m ≢ 0) (sym (enable_ep-ctrl a s).0)
      (bit_or-keeps_left m s.endptctrl1 (flag a.is_out) h))

flag_ne_zero : (out : Bool) → bit_and (flag out) (flag out) ≢ 0
flag_ne_zero true e = absurd (omega arith)
flag_ne_zero false e = absurd (omega arith)

enable_all-IsEnabled :
    (eps : List Address) (s : Inner) → IsEnabled eps (enable_all eps s).endptctrl1
unfolding IsEnabled enable_all
enable_all-IsEnabled [] s = tt
enable_all-IsEnabled (a ∷ eps) s = (
  enable_all-keeps eps (flag a.is_out) (enable_ep a s) (
      subst (λ c. bit_and c (flag a.is_out) ≢ 0) (sym (enable_ep-ctrl a s).0)
        (bit_or-keeps_right (flag a.is_out) s.endptctrl1 (flag a.is_out) (flag_ne_zero a.is_out))),
  enable_all-IsEnabled eps (enable_ep a s),
)

-- The reset bit of a direction.
abbrev reset_flag : Bool → ℕ
reset_flag true = rxr
reset_flag false = txr

reset_ep-ok :
    (a : Address) (s : Inner)
    → bit_and s.endptctrl1 (flag a.is_out) ≢ 0
    → reset_ep a s ≡ ok (record s { endptctrl1 = bit_or s.endptctrl1 (reset_flag a.is_out) })
unfolding reset_ep
reset_ep-ok a s h =
    ground (arith, ==_iff (bit_and s.endptctrl1 rxe) 0, ==_iff (bit_and s.endptctrl1 txe) 0)

reset_each-ok :
    (eps : List Address) (s : Inner)
    → IsEnabled eps s.endptctrl1
    → (s' : Inner) × (reset_each eps s ≡ ok s')
unfolding IsEnabled reset_each
reset_each-ok [] s e = (s, refl)
reset_each-ok (a ∷ eps) s e =
    let reset_s : Inner = record s { endptctrl1 = bit_or s.endptctrl1 (reset_flag a.is_out) } in
    let (s', runs) =
      reset_each-ok eps reset_s (IsEnabled-or eps s.endptctrl1 (reset_flag a.is_out) e.1) in
    (s', ap (λ r. r >>= reset_each eps) (reset_ep-ok a s e.0) ∙ runs)

allocated : (s s' : Inner) → s'.used_dqhs ≡ s.used_dqhs → allocated_eps s' ≡ allocated_eps s
unfolding allocated_eps
allocated s s' same =
    ap (λ used. elim (collect 32 33 used) [ none ↦ none | some is ↦ some (map dqhidx2epaddr is) ])
      same

set_device_address-found :
    (addr : ℕ) (s : Inner) (eps : List Address)
    → allocated_eps s ≡ some eps
    → set_device_address addr s ≡ some (enable_all eps (write (deviceaddr (addr <<< 25)) s))
unfolding set_device_address
set_device_address-found addr s eps found = rw (set_device_address, found) refl

set_device_address-none :
    (addr : ℕ) (s : Inner) → allocated_eps s ≡ none → set_device_address addr s ≡ none
unfolding set_device_address
set_device_address-none addr s none_yet = rw (set_device_address, none_yet) refl

reset_eps-enable_all :
    (s : Inner) (eps : List Address)
    → allocated_eps s ≡ some eps
    → (s'' : Inner) × (reset_eps (enable_all eps s) ≡ ok s'')
unfolding reset_eps
reset_eps-enable_all s eps found =
    let (s'', runs) = reset_each-ok eps (enable_all eps s) (enable_all-IsEnabled eps s) in
    (s'', rw (reset_eps, allocated s (enable_all eps s) (enable_all-used eps s), found) runs)

-- When the address has been set, the endpoints that are allocated by then can be reset, as a request
-- for a configuration does: no assertion of `reset_ep` fails.
pub reset_eps-set_device_address :
    (addr : ℕ) (s s' : Inner)
    → set_device_address addr s ≡ some s'
    → (s'' : Inner) × (reset_eps s' ≡ ok s'')
unfolding allocated_eps
reset_eps-set_device_address addr s s' h = elim (Option-cases (allocated_eps s)) [
  | inl none_yet ↦ cc (set_device_address-none addr s none_yet)
  | inr (eps, found) ↦
      subst (λ (x : Inner). (s'' : Inner) × (reset_eps x ≡ ok s''))
        (cc (set_device_address-found addr s eps found))
        (reset_eps-enable_all (write (deviceaddr (addr <<< 25)) s) eps found)
]
