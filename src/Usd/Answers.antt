-- ===== src/Usd/Answers.antt =====
-- host/usd: what the device answered when an operation of host/usd/src/lib.rs returns `Ok`, and when
-- an operation cannot panic.
use usbarmory_rust.Prelude.{
  ℕ, ◌<◌, ◌≡◌, refl, sym, ap, subst, ◌≢◌, Bool, true, false, Option, none, some, List, [], ◌∷◌,
  arith, ◌==◌, if◌then◌else◌, lt→ltb, length,
}
use usbarmory_rust.Prelude.Bytes.{Bytes}
use usbarmory_rust.Prelude.Outcome.{Outcome, ok, err, panic, ok-injective}
use usbarmory_rust.Usd.Command.{Command, bytes}
use usbarmory_rust.Usd.Sends.{store-eq}
use usbarmory_rust.Usd.Hid.{
  Device, IsDevice, Bus, Run, UsdError, ◌>>=◌, ◌>>◌, done, bail, assert, first_of, write, read,
  accepted_or, read_or, after,
}
use usbarmory_rust.Usd.Protocol.{
  u32_max, data_report_id, write_complete, complete, send_command, reread_short, check_sec_status,
  read_response, send_chunks, transfer, dcd_write, write_file,
}

-- An operation that does not panic.
abbrev IsCalm : {A : Type 0} → Run A → Type 0
IsCalm m = (bus : Bus) → (m bus).0 ≢ panic

-- What holds of the value when an operation returns `Ok`.
abbrev Returns : {A : Type 0} → Run A → (A → Type 0) → Type 0
Returns {A = A} m P = (bus : Bus) (a : A) (bus' : Bus) → m bus ≡ (ok a, bus') → P a

after-IsCalm :
    {A B : Type 0} (P : A → Type 0) (r : Outcome UsdError A × Bus) (f : A → Run B)
    → r.0 ≢ panic
    → ((a : A) (bus : Bus) → r ≡ (ok a, bus) → P a)
    → ((a : A) → P a → IsCalm (f a))
    → (after r f).0 ≢ panic
after-IsCalm P (ok a, bus) f hr hp hf = hf a (hp a bus refl) bus
after-IsCalm P (err e, bus) f hr hp hf = cc
after-IsCalm P (panic, bus) f hr hp hf = absurd (hr refl)

>>=-IsCalm :
    {A B : Type 0} (P : A → Type 0) (m : Run A) (f : A → Run B)
    → IsCalm m
    → Returns m P
    → ((a : A) → P a → IsCalm (f a))
    → IsCalm (m >>= f)
>>=-IsCalm P m f hm hp hf bus = after-IsCalm P (m bus) f (hm bus) (hp bus) hf

>>-IsCalm : {B : Type 0} (m : Run (Unit {0})) (k : Run B) → IsCalm m → IsCalm k → IsCalm (m >> k)
>>-IsCalm m k hm hk = >>=-IsCalm (λ _. Unit {0}) m (λ _. k) hm (λ bus a bus' e. tt) (λ _ _. hk)

if-IsCalm :
    {A : Type 0} (b : Bool) (m k : Run A) → IsCalm m → IsCalm k → IsCalm (if b then m else k)
if-IsCalm true m k hm hk = hm
if-IsCalm false m k hm hk = hk

done-IsCalm : {A : Type 0} (a : A) → IsCalm (done a)
done-IsCalm a bus = cc

bail-IsCalm : {A : Type 0} (x : UsdError) → IsCalm {A = A} (bail x)
bail-IsCalm x bus = cc

first_of-IsCalm : (bs : Bytes) → 0 < length bs → IsCalm (first_of bs)
first_of-IsCalm [] h bus = absurd (omega arith)
first_of-IsCalm (b ∷ bs) h bus = cc

read_or-calm : (r : Option Bytes) (bus : Bus) → (read_or r bus).0 ≢ panic
read_or-calm none bus = cc
read_or-calm (some bs) bus = cc

accepted_or-calm : (b : Bool) (bus : Bus) → (accepted_or b bus).0 ≢ panic
accepted_or-calm true bus = cc
accepted_or-calm false bus = cc

read_or-some :
    (r : Option Bytes) (bus : Bus) (bs : Bytes) (bus' : Bus)
    → read_or r bus ≡ (ok bs, bus')
    → r ≡ some bs
read_or-some none bus bs bus' e = cc
read_or-some (some x) bus bs bus' e = ap some (ok-injective (ap (λ p. p.0) e))

abbrev IsReport : Bytes → Type 0
IsReport bs = 0 < length bs

module _ (device : Device) (is_device : IsDevice device) where
  read-IsCalm : (n : ℕ) → IsCalm (read device n)
  read-IsCalm n bus = read_or-calm (device.read_interrupt bus 0x81 n) _

  read-Returns : (n : ℕ) → Returns (read device n) IsReport
  read-Returns n bus bs bus' e =
      is_device.non_empty bus 0x81 n bs
        (read_or-some (device.read_interrupt bus 0x81 n) _ bs bus' e)

  write-IsCalm : (b : ℕ) (bs : Bytes) → IsCalm (write device (b ∷ bs))
  write-IsCalm b bs bus = accepted_or-calm (device.write_control bus _) _

  send_command-IsCalm : (c : Command) → IsCalm (send_command device c)
  unfolding send_command bytes
  send_command-IsCalm c = write-IsCalm 1 _

  reread_short-IsCalm : (bs : Bytes) → IsCalm (reread_short device bs)
  reread_short-IsCalm bs = if-IsCalm (length bs == 1) _ _ (read-IsCalm 5) (done-IsCalm bs)

  reread_short-Returns : (bs : Bytes) → IsReport bs → Returns (reread_short device bs) IsReport
  reread_short-Returns bs h = either (length bs == 1)
    where
      either : (b : Bool) → Returns (if b then read device 5 else done bs) IsReport
      either true bus bs' bus' e = read-Returns 5 bus bs' bus' e
      either false bus bs' bus' e = subst IsReport (ok-injective (ap (λ p. p.0) e)) h

  check_sec_status-IsCalm : IsCalm (check_sec_status device)
  unfolding check_sec_status
  check_sec_status-IsCalm = >>=-IsCalm IsReport _ _ (read-IsCalm 5) (read-Returns 5) λ first h.
      >>=-IsCalm IsReport _ _ (reread_short-IsCalm first) (reread_short-Returns first h) λ sec k.
        >>=-IsCalm (λ _. Unit {0}) _ _ (first_of-IsCalm sec k) (λ bus a bus' e. tt)
          λ id _. if-IsCalm _ _ _ (bail-IsCalm _) (done-IsCalm tt)

  read_response-IsCalm : IsCalm (read_response device)
  unfolding read_response
  read_response-IsCalm = >>=-IsCalm IsReport _ _ (read-IsCalm 65) (read-Returns 65) λ report h.
      >>=-IsCalm (λ _. Unit {0}) _ _ (first_of-IsCalm report h) (λ bus a bus' e. tt)
        λ id _. if-IsCalm _ _ _ (bail-IsCalm _) (done-IsCalm _)

  send_chunks-IsCalm :
      (cs : List Bytes) (report : Bytes) → IsCalm (send_chunks device (data_report_id ∷ report) cs)
  unfolding send_chunks
  send_chunks-IsCalm [] report = done-IsCalm tt
  send_chunks-IsCalm (c ∷ cs) report =
      >>-IsCalm _ _
        (subst (λ r. IsCalm (write device r)) (sym (store-eq c report))
          (write-IsCalm data_report_id c))
        (send_chunks-IsCalm cs _)

  assert-IsCalm : (b : Bool) → b ≡ true → IsCalm (assert b)
  assert-IsCalm true h bus = cc
  assert-IsCalm false h bus = cc

  transfer-IsCalm :
      (cmd : Command) (data_ acknowledged : Bytes)
      → length data_ < u32_max
      → IsCalm (transfer device cmd data_ acknowledged)
  transfer-IsCalm cmd data_ acknowledged h = >>-IsCalm _ _ (assert-IsCalm _ (lt→ltb _ _ h)) (
      >>-IsCalm _ _ (send_command-IsCalm cmd) (
        >>-IsCalm _ _ (send_chunks-IsCalm _ _) (
          >>-IsCalm _ _ check_sec_status-IsCalm (
            >>=-IsCalm (λ _. Unit {0}) _ _ read_response-IsCalm (λ bus a bus' e. tt)
              λ _ _. if-IsCalm _ _ _ (bail-IsCalm _) (done-IsCalm tt)))))

  -- `Usd::write_file` and `Usd::dcd_write` do not panic, whatever the device answers and however
  -- transfers fail, as long as no report is empty and the data is shorter than 4 GB less one byte.
  pub transfers-calm :
      (address : ℕ) (data_ : Bytes) (bus : Bus)
      → length data_ < u32_max
      → ((write_file device address data_ bus).0 ≢ panic)
        × ((dcd_write device address data_ bus).0 ≢ panic)
  unfolding write_file dcd_write
  transfers-calm address data_ bus h =
      (transfer-IsCalm _ data_ complete h bus, transfer-IsCalm _ data_ write_complete h bus)
