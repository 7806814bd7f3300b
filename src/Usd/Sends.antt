-- ===== src/Usd/Sends.antt =====
-- host/usd: what goes over the bus when an operation of host/usd/src/lib.rs returns `Ok`.
use usbarmory_rust.Prelude.Chunks.{chunks, chunks_within, concat, concat-chunks_within}
use usbarmory_rust.Prelude.{
  ℕ, zero, suc, ◌+◌, ◌≤◌, ◌<◌, ◌≡◌, refl, sym, ap, ◌∙◌, subst, Bool, true, false, Option, none,
  some, List, [], ◌∷◌, ◌++◌, append-nil, append_assoc, arith, ltb, if◌then◌else◌, ltb→lt, length,
  take, length-take,
}
use usbarmory_rust.Prelude.Bytes.{Bytes}
use usbarmory_rust.Prelude.Splice.{take-append}
use usbarmory_rust.Prelude.Outcome.{Outcome, ok}
use usbarmory_rust.Usd.Command.{Command, bytes, store}
use usbarmory_rust.Usd.Hid.{
  Device, control, interrupt, Bus, Run, UsdError, ◌>>=◌, ◌>>◌, >>=-eq-ok, done, bail, assert,
  first_of, write, read, Control, accepted_or, read_or,
}
use usbarmory_rust.Usd.Protocol.{
  data_report_id, u32_max, data_report_size, write_complete, complete, send_command,
  check_sec_status, read_response, send_chunks, transfer, dcd_write, write_file,
}

-- The reports that the device took, the first one first.
abbrev pub sent : Bus → List Bytes
sent [] = []
sent (control c true ∷ bus) = sent bus ++ c.data_ ∷ []
sent (control c false ∷ bus) = sent bus
sent (interrupt e n b ∷ bus) = sent bus

-- What an operation adds to them when it returns `Ok`.
abbrev pub Sends : {A : Type 0} → Run A → List Bytes → Type 0
Sends {A = A} m reports =
    (bus : Bus) (a : A) (bus' : Bus) → m bus ≡ (ok a, bus') → sent bus' ≡ sent bus ++ reports

>>=-Sends :
    {A B : Type 0} (m : Run A) (f : A → Run B) (xs ys : List Bytes)
    → Sends m xs
    → ((a : A) → Sends (f a) ys)
    → Sends (m >>= f) (xs ++ ys)
>>=-Sends {A = A} m f xs ys hm hf bus b bus' e =
    hf r.0 r.1 b bus' r.3 ∙ (ap (λ l. l ++ ys) (hm bus r.0 r.1 r.2) ∙ append_assoc (sent bus) xs ys)
  where
    r : (a : A) × (middle : Bus) × (m bus ≡ (ok a, middle)) × (f a middle ≡ (ok b, bus'))
    r = >>=-eq-ok m f bus b bus' e

quiet :
    {A : Type 0} (bus : Bus) (r : Outcome UsdError A × Bus) (a : A) (bus' : Bus)
    → sent r.1 ≡ sent bus
    → r ≡ (ok a, bus')
    → sent bus' ≡ sent bus ++ []
quiet bus r a bus' h e = sym (ap (λ p. sent p.1) e) ∙ (h ∙ sym (append-nil (sent bus)))

done-Sends : {A : Type 0} (a : A) → Sends (done a) []
done-Sends a bus b bus' e = quiet bus (done a bus) b bus' refl e

bail-Sends : {A : Type 0} (x : UsdError) → Sends {A = A} (bail x) []
bail-Sends x bus b bus' e = quiet bus (bail x bus) b bus' refl e

assert-Sends : (b : Bool) → Sends (assert b) []
assert-Sends true bus a bus' e = quiet bus (assert true bus) a bus' refl e
assert-Sends false bus a bus' e = quiet bus (assert false bus) a bus' refl e

if-Sends :
    {A : Type 0} (b : Bool) (m k : Run A) (xs : List Bytes)
    → Sends m xs
    → Sends k xs
    → Sends (if b then m else k) xs
if-Sends true m k xs hm hk = hm
if-Sends false m k xs hm hk = hk

first_of-Sends : (bs : Bytes) → Sends (first_of bs) []
first_of-Sends [] bus a bus' e = quiet bus (first_of [] bus) a bus' refl e
first_of-Sends (b ∷ bs) bus a bus' e = quiet bus (first_of (b ∷ bs) bus) a bus' refl e

read_or-quiet :
    (n : ℕ) (r : Option Bytes) (bus : Bus)
    → sent (read_or r (interrupt 0x81 n r ∷ bus)).1 ≡ sent bus
read_or-quiet n none bus = refl
read_or-quiet n (some bs) bus = refl

accepted_or-Sends :
    (c : Control) (b : Bool) (bus : Bus) (a : Unit {0}) (bus' : Bus)
    → accepted_or b (control c b ∷ bus) ≡ (ok a, bus')
    → sent bus' ≡ sent bus ++ c.data_ ∷ []
accepted_or-Sends c true bus a bus' e = sym (ap (λ p. sent p.1) e)
accepted_or-Sends c false bus a bus' e = cc

-- The data reports of a list of chunks.
abbrev pub data_reports : List Bytes → List Bytes
data_reports [] = []
data_reports (c ∷ cs) = (data_report_id ∷ c) ∷ data_reports cs

-- No chunk is longer than a data report holds.
abbrev pub AreChunks : List Bytes → Type 0
AreChunks [] = Unit {0}
AreChunks (c ∷ cs) = (length c ≤ data_report_size) × AreChunks cs

chunks_within-AreChunks :
    (fuel : ℕ) (bs : Bytes) → AreChunks (chunks_within fuel data_report_size bs)
chunks_within-AreChunks zero bs = tt
chunks_within-AreChunks (suc fuel) [] = tt
chunks_within-AreChunks (suc fuel) (b ∷ bs) =
    (omega (arith, length-take data_report_size (b ∷ bs)), chunks_within-AreChunks fuel _)

assert-ok :
    (b : Bool) (k : Run (Unit {0})) (bus bus' : Bus)
    → (assert b >> k) bus ≡ (ok tt, bus')
    → b ≡ true
assert-ok true k bus bus' e = refl
assert-ok false k bus bus' e = cc

plus_one : (n : ℕ) → n + 1 ≡ suc n
plus_one n = omega arith

pub store-eq :
    (c report : Bytes)
    → take (length c + 1) (store 1 c (data_report_id ∷ report)) ≡ data_report_id ∷ c
store-eq c report =
    ap (λ n. take n (store 1 c (data_report_id ∷ report))) (plus_one (length c))
    ∙ ap (λ t. data_report_id ∷ t) (take-append c _ (length c) refl)

last-Sends :
    {A B : Type 0} (m : Run A) (f : A → Run B) (xs : List Bytes)
    → Sends m xs
    → ((a : A) → Sends (f a) [])
    → Sends (m >>= f) xs
last-Sends m f xs hm hf = subst (Sends (m >>= f)) (append-nil xs) (>>=-Sends m f xs [] hm hf)

module _ (device : Device) where
  read-Sends : (n : ℕ) → Sends (read device n) []
  read-Sends n bus a bus' e =
      quiet bus (read device n bus) a bus' (read_or-quiet n (device.read_interrupt bus 0x81 n) bus)
        e

  write-Sends : (b : ℕ) (bs : Bytes) → Sends (write device (b ∷ bs)) ((b ∷ bs) ∷ [])
  write-Sends b bs bus a bus' e = accepted_or-Sends _ (device.write_control bus _) bus a bus' e

  send_command-Sends : (c : Command) → Sends (send_command device c) (bytes c ∷ [])
  unfolding send_command bytes
  send_command-Sends c = write-Sends 1 _

  check_sec_status-Sends : Sends (check_sec_status device) []
  unfolding check_sec_status
  check_sec_status-Sends = >>=-Sends _ _ [] [] (read-Sends 5) λ first.
      >>=-Sends _ _ [] [] (if-Sends _ _ _ [] (read-Sends 5) (done-Sends first)) λ sec.
        >>=-Sends _ _ [] [] (first_of-Sends sec)
          λ id. if-Sends _ _ _ [] (bail-Sends _) (done-Sends tt)

  read_response-Sends : Sends (read_response device) []
  unfolding read_response
  read_response-Sends = >>=-Sends _ _ [] [] (read-Sends 65) λ report.
      >>=-Sends _ _ [] [] (first_of-Sends report)
        λ id. if-Sends _ _ _ [] (bail-Sends _) (done-Sends _)

  send_chunks-Sends :
      (cs : List Bytes) (report : Bytes)
      → Sends (send_chunks device (data_report_id ∷ report) cs) (data_reports cs)
  unfolding send_chunks
  send_chunks-Sends [] report = done-Sends tt
  send_chunks-Sends (c ∷ cs) report =
      >>=-Sends _ _ ((data_report_id ∷ c) ∷ []) (data_reports cs)
        (subst (λ r. Sends (write device r) ((data_report_id ∷ c) ∷ [])) (sym (store-eq c report))
          (write-Sends data_report_id c))
        λ _. send_chunks-Sends cs _

  transfer-Sends :
      (cmd : Command) (data_ acknowledged : Bytes)
      → Sends
          (transfer device cmd data_ acknowledged)
          (bytes cmd ∷ data_reports (chunks data_report_size data_))
  transfer-Sends cmd data_ acknowledged = >>=-Sends _ _ [] _ (assert-Sends _) λ _.
      >>=-Sends _ _ (bytes cmd ∷ []) _ (send_command-Sends cmd) λ _.
        last-Sends _ _ _ (send_chunks-Sends (chunks data_report_size data_) _) λ _.
          last-Sends _ _ [] check_sec_status-Sends λ _.
            last-Sends _ _ [] read_response-Sends
              λ _. if-Sends _ _ _ [] (bail-Sends _) (done-Sends tt)

  transfer-small :
      (cmd : Command) (data_ acknowledged : Bytes) (bus bus' : Bus)
      → transfer device cmd data_ acknowledged bus ≡ (ok tt, bus')
      → length data_ < u32_max
  transfer-small cmd data_ acknowledged bus bus' e =
      ltb→lt (length data_) u32_max (assert-ok (ltb (length data_) u32_max) _ bus bus' e)

  -- When `Usd::write_file` returns `Ok`, the device took, in this order, the command WRITE_FILE with
  -- the address and the number of bytes, and data reports of at most 1024 bytes each after their
  -- report id; together they hold the data.
  pub write_file_sends :
      (address : ℕ) (data_ : Bytes) (bus bus' : Bus)
      → write_file device address data_ bus ≡ (ok tt, bus')
      → (cs : List Bytes) × (sent bus'
          ≡ sent bus ++ bytes (Command.write_file address (length data_)) ∷ data_reports cs)
        × (concat cs ≡ data_)
        × AreChunks cs
  unfolding write_file
  write_file_sends address data_ bus bus' e = (
    chunks data_report_size data_,
    transfer-Sends _ data_ complete bus tt bus' e
        ∙ ap
            (λ n.
              sent bus
              ++ bytes (Command.write_file address n)
                ∷ data_reports (chunks data_report_size data_))
            (omega (arith, transfer-small _ data_ complete bus bus' e)),
    concat-chunks_within (length data_) data_report_size data_ (omega arith) (omega arith),
    chunks_within-AreChunks (length data_) data_,
  )

  -- When `Usd::dcd_write` returns `Ok`, the device took the command DCD_WRITE with the address and
  -- the number of bytes, and data reports of at most 1024 bytes that together hold the DCD.
  pub dcd_write_sends :
      (address : ℕ) (dcd : Bytes) (bus bus' : Bus)
      → dcd_write device address dcd bus ≡ (ok tt, bus')
      → (cs : List Bytes) × (sent bus'
          ≡ sent bus ++ bytes (Command.dcd_write address (length dcd)) ∷ data_reports cs)
        × (concat cs ≡ dcd)
        × AreChunks cs
  unfolding dcd_write
  dcd_write_sends address dcd bus bus' e = (
    chunks data_report_size dcd,
    transfer-Sends _ dcd write_complete bus tt bus' e
        ∙ ap
            (λ n.
              sent bus
              ++ bytes (Command.dcd_write address n) ∷ data_reports (chunks data_report_size dcd))
            (omega (arith, transfer-small _ dcd write_complete bus bus' e)),
    concat-chunks_within (length dcd) data_report_size dcd (omega arith) (omega arith),
    chunks_within-AreChunks (length dcd) dcd,
  )
