-- ===== src/Usd/Hid.antt =====
-- `hid::Device` of host/usd/src/hid/rusb.rs, the default backend. The device at the other end of the
-- bus, behind `rusb`, is a parameter: what it does is a function of all that went over the bus.
use usbarmory_rust.Prelude.{
  ℕ, ◌+◌, ◌≤◌, ◌<◌, ◌≡◌, refl, Bool, true, false, Option, none, some, List, [], ◌∷◌, length,
}
use usbarmory_rust.Prelude.Bytes.{Bytes}
use usbarmory_rust.Prelude.Outcome.{Outcome, ok, err, panic}

-- The arguments of `write_control` but for the timeout.
pub record Control : Type 0 where
  pub request_type : ℕ
  pub request : ℕ
  pub value : ℕ
  pub index : ℕ
  pub data_ : Bytes

-- A transfer that was tried, with its result: an interrupt transfer that fails reads nothing.
pub data Event : Type 0 where
  control : (c : Control) (accepted : Bool) → Event
  interrupt : (endpoint size : ℕ) (bytes : Option Bytes) → Event

-- All that went over the bus, the latest first.
abbrev pub Bus : Type 0
Bus = List Event

pub record Device : Type 0 where
  pub write_control : Bus → Control → Bool
  pub read_interrupt : Bus → ℕ → ℕ → Option Bytes

-- A transfer reads at most what the buffer holds, and, as the protocol has no empty report, at
-- least one byte.
pub record IsDevice (device : Device) : Type 0 where
  pub fits :
      (bus : Bus) (endpoint size : ℕ) (bytes : Bytes)
      → device.read_interrupt bus endpoint size ≡ some bytes
      → length bytes ≤ size
  pub non_empty :
      (bus : Bus) (endpoint size : ℕ) (bytes : Bytes)
      → device.read_interrupt bus endpoint size ≡ some bytes
      → 0 < length bytes

pub data UsdError : Type 0 where
  usb_error hab_closed unexpected_report_id not_acknowledged : UsdError

-- An operation on the bus; what went over it stays, however the operation ends.
abbrev pub Run : Type 0 → Type 0
Run A = Bus → Outcome UsdError A × Bus

infixl 5 ◌>>=◌ ◌>>◌
abbrev pub after :
    {A B : Type 0} → Outcome UsdError A × Bus → (A → Run B) → Outcome UsdError B × Bus
after (ok a, bus) f = f a bus
after (err e, bus) f = (err e, bus)
after (panic, bus) f = (panic, bus)

abbrev pub ◌>>=◌ : {A B : Type 0} → Run A → (A → Run B) → Run B
(m >>= f) bus = after (m bus) f

abbrev pub ◌>>◌ : {B : Type 0} → Run (Unit {0}) → Run B → Run B
m >> k = m >>= λ _. k

abbrev pub done : {A : Type 0} → A → Run A
done a bus = (ok a, bus)

abbrev pub bail : {A : Type 0} → UsdError → Run A
bail e bus = (err e, bus)

-- `assert!`
abbrev pub assert : Bool → Run (Unit {0})
assert true bus = (ok tt, bus)
assert false bus = (panic, bus)

-- `bytes[0]`
abbrev pub first_of : Bytes → Run ℕ
first_of [] bus = (panic, bus)
first_of (b ∷ bs) bus = (ok b, bus)

abbrev pub accepted_or : Bool → Bus → Outcome UsdError (Unit {0}) × Bus
accepted_or true bus = (ok tt, bus)
accepted_or false bus = (err usb_error, bus)

abbrev pub read_or : Option Bytes → Bus → Outcome UsdError Bytes × Bus
read_or none bus = (err usb_error, bus)
read_or (some bytes) bus = (ok bytes, bus)

module _ (device : Device) where
  abbrev pub write_control : Control → Run (Unit {0})
  write_control c bus =
      accepted_or (device.write_control bus c) (control c (device.write_control bus c) ∷ bus)

  -- `Device::write`: a SET_REPORT request.
  abbrev pub write : Bytes → Run (Unit {0})
  write report = do
    report_id ← first_of report
    write_control (record {
      request_type = 0x21;
      request = 0x09;
      value = 0x300 + report_id;
      index = 0;
      data_ = report;
    })

  -- `Device::read`: an interrupt transfer from endpoint 1.
  abbrev pub read : ℕ → Run Bytes
  read size bus =
      read_or (device.read_interrupt bus 0x81 size)
        (interrupt 0x81 size (device.read_interrupt bus 0x81 size) ∷ bus)

after-ok :
    {A B : Type 0} (r : Outcome UsdError A × Bus) (f : A → Run B) (b : B) (bus : Bus)
    → after r f ≡ (ok b, bus)
    → (a : A) × (middle : Bus) × (r ≡ (ok a, middle)) × (f a middle ≡ (ok b, bus))
after-ok (ok a, middle) f b bus e = (a, middle, refl, e)
after-ok (err x, middle) f b bus e = cc
after-ok (panic, middle) f b bus e = cc

-- A chain that returns `Ok` has two parts that do.
pub >>=-eq-ok :
    {A B : Type 0} (m : Run A) (f : A → Run B) (start : Bus) (b : B) (bus : Bus)
    → (m >>= f) start ≡ (ok b, bus)
    → (a : A) × (middle : Bus) × (m start ≡ (ok a, middle)) × (f a middle ≡ (ok b, bus))
>>=-eq-ok m f start b bus e = after-ok (m start) f b bus e
