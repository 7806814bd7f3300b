-- ===== src/Usd/Replies.antt =====
-- host/usd: what the device answered when an operation of host/usd/src/lib.rs returns `Ok`.
use usbarmory_rust.Prelude.Chunks.{chunks}
use usbarmory_rust.Prelude.{
  ℕ, ◌%◌, ◌≡◌, refl, sym, ap, ap₂, ◌∙◌, Bool, true, false, not, ◌&&◌, ◌||◌, Option, none, some,
  List, [], ◌∷◌, ltb, ◌==◌, if◌then◌else◌, ==_iff, length, drop,
}
use usbarmory_rust.Prelude.Bytes.{Bytes, of_le32}
use usbarmory_rust.Prelude.Outcome.{ok, ok-injective}
use usbarmory_rust.Usd.Command.{Command, b32}
use usbarmory_rust.Usd.Hid.{
  Device, control, interrupt, Bus, Run, UsdError, ◌>>=◌, ◌>>◌, >>=-eq-ok, done, bail, assert,
  first_of, read, read_or, hab_closed, unexpected_report_id, not_acknowledged,
}
use usbarmory_rust.Usd.Protocol.{
  data_report_size, empty_data_report, confirm, expect, u32_max, sec_open, write_complete, complete,
  same, starts_with, send_command, reread_short, check_sec_status, read_response, send_chunks,
  transfer, dcd_write, write_file, read_memory, word_at_1,
}

-- The reports that the device answered with, the latest first.
abbrev pub answers : Bus → List Bytes
answers [] = []
answers (control c accepted ∷ bus) = answers bus
answers (interrupt e n none ∷ bus) = answers bus
answers (interrupt e n (some bs) ∷ bus) = bs ∷ answers bus

-- What a response says when its first bytes are those of the acknowledgement.
abbrev pub Acknowledged : Bytes → Bus → Type 0
Acknowledged acknowledgement bus =
    (resp : Bytes) × (earlier : List Bytes) × (answers bus ≡ (4 ∷ resp) ∷ (3 ∷ sec_open) ∷ earlier)
    × (starts_with resp acknowledgement ≡ true)

and-true : (a b : Bool) → (a && b) ≡ true → (a ≡ true) × (b ≡ true)
and-true true b h = (refl, h)
and-true false b h = cc

same_eq : (xs ys : Bytes) → same xs ys ≡ true → xs ≡ ys
same_eq [] [] h = refl
same_eq [] (y ∷ ys) h = cc
same_eq (x ∷ xs) [] h = cc
same_eq (x ∷ xs) (y ∷ ys) h =
    ap₂ (λ z zs. z ∷ zs) ((==_iff x y).0 (and-true (x == y) _ h).0)
      (same_eq xs ys (and-true (x == y) _ h).1)

-- A guard that did not fail.
guard-ok :
    {A : Type 0} (b : Bool) (x : UsdError) (a c : A) (bus bus' : Bus)
    → (if b then bail x else done a) bus ≡ (ok c, bus')
    → (b ≡ false) × (a ≡ c) × (bus ≡ bus')
guard-ok true x a c bus bus' e = cc
guard-ok false x a c bus bus' e = (refl, ok-injective (ap (λ p. p.0) e), ap (λ p. p.1) e)

first_of-ok :
    (bs : Bytes) (b : ℕ) (bus bus' : Bus)
    → first_of bs bus ≡ (ok b, bus')
    → (bs ≡ b ∷ drop 1 bs) × (bus ≡ bus')
first_of-ok [] b bus bus' e = cc
first_of-ok (x ∷ xs) b bus bus' e =
    (ap (λ n. n ∷ xs) (ok-injective (ap (λ p. p.0) e)), ap (λ p. p.1) e)

read_or-ok :
    (n : ℕ) (r : Option Bytes) (bus : Bus) (bs : Bytes) (bus' : Bus)
    → read_or r (interrupt 0x81 n r ∷ bus) ≡ (ok bs, bus')
    → answers bus' ≡ bs ∷ answers bus
read_or-ok n none bus bs bus' e = cc
read_or-ok n (some x) bus bs bus' e =
    sym (ap (λ p. answers p.1) e) ∙ ap (λ t. t ∷ answers bus) (ok-injective (ap (λ p. p.0) e))

or-false : (a b : Bool) → (a || b) ≡ false → (a ≡ false) × (b ≡ false)
or-false true b h = cc
or-false false b h = (refl, h)

not-false : (b : Bool) → not b ≡ false → b ≡ true
not-false true h = refl
not-false false h = cc

response-eq :
    (report resp : Bytes) (id : ℕ) (b1 b2 bus bus' : Bus)
    → answers b1 ≡ report ∷ answers bus
    → (report ≡ id ∷ drop 1 report) × (b1 ≡ b2)
    → (not (id == 4) ≡ false) × (drop 1 report ≡ resp) × (b2 ≡ bus')
    → answers bus' ≡ (4 ∷ resp) ∷ answers bus
response-eq report resp id b1 b2 bus bus' ha (hr, hb) (hi, hs, hb') =
    ap answers (sym (hb ∙ hb')) ∙ (ha ∙ ap (λ t. t ∷ answers bus) (hr ∙ ap₂ (λ i r. i ∷ r) four hs))
  where
    four : id ≡ 4
    four = (==_iff id 4).0 (not-false _ hi)

sec-eq :
    (sec : Bytes) (id : ℕ) (b2 b3 bus' : Bus)
    → (earlier : List Bytes) × (answers b2 ≡ sec ∷ earlier)
    → (sec ≡ id ∷ drop 1 sec) × (b2 ≡ b3)
    → ((not (id == 3) || not (same (drop 1 sec) sec_open)) ≡ false)
      × (◌≡◌ {A = Unit {0}} tt tt)
      × (b3 ≡ bus')
    → (earlier : List Bytes) × (answers bus' ≡ (3 ∷ sec_open) ∷ earlier)
sec-eq sec id b2 b3 bus' (earlier, ha) (hs, hb) (hg, _, hb') = (
  earlier,
  ap answers (sym (hb ∙ hb'))
      ∙ (ha
          ∙ ap (λ t. t ∷ earlier)
              (hs ∙ ap₂ (λ i r. i ∷ r) three (same_eq _ _ (not-false _ (or-false _ _ hg).1)))),
)
  where
    three : id ≡ 3
    three = (==_iff id 3).0 (not-false _ (or-false _ _ hg).0)

assert-true : (b : Bool) (bus bus' : Bus) → assert b bus ≡ (ok tt, bus') → b ≡ true
assert-true true bus bus' e = refl
assert-true false bus bus' e = cc

module _ (device : Device) where
  read-ok :
      (n : ℕ) (bus : Bus) (bs : Bytes) (bus' : Bus)
      → read device n bus ≡ (ok bs, bus')
      → answers bus' ≡ bs ∷ answers bus
  read-ok n bus bs bus' e = read_or-ok n (device.read_interrupt bus 0x81 n) bus bs bus' e

  read_response-ok :
      (bus : Bus) (resp : Bytes) (bus' : Bus)
      → read_response device bus ≡ (ok resp, bus')
      → answers bus' ≡ (4 ∷ resp) ∷ answers bus
  unfolding read_response
  read_response-ok bus resp bus' e =
      let (report, b1, e1, k1) = >>=-eq-ok (read device 65) _ bus resp bus' e in
      let (id, b2, e2, k2) = >>=-eq-ok (first_of report) _ b1 resp bus' k1 in
      response-eq report resp id b1 b2 bus bus' (read-ok 65 bus report b1 e1)
        (first_of-ok report id b1 b2 e2)
        (guard-ok (not (id == 4)) unexpected_report_id (drop 1 report) resp b2 bus' k2)

  reread_short-ok :
      (first : Bytes) (b1 : Bus) (sec : Bytes) (b2 : Bus) (before : List Bytes)
      → answers b1 ≡ first ∷ before
      → reread_short device first b1 ≡ (ok sec, b2)
      → (earlier : List Bytes) × (answers b2 ≡ sec ∷ earlier)
  reread_short-ok first b1 sec b2 before h = either (length first == 1)
    where
      either :
          (b : Bool)
          → (if b then read device 5 else done first) b1 ≡ (ok sec, b2)
          → (earlier : List Bytes) × (answers b2 ≡ sec ∷ earlier)
      either true e = (answers b1, read-ok 5 b1 sec b2 e)
      either false e = (
        before,
        sym (ap (λ p. answers p.1) e) ∙ (h ∙ ap (λ t. t ∷ before) (ok-injective (ap (λ p. p.0) e))),
      )

  check_sec_status-ok :
      (bus bus' : Bus)
      → check_sec_status device bus ≡ (ok tt, bus')
      → (earlier : List Bytes) × (answers bus' ≡ (3 ∷ sec_open) ∷ earlier)
  unfolding check_sec_status
  check_sec_status-ok bus bus' e =
      let (first, b1, e1, k1) = >>=-eq-ok (read device 5) _ bus tt bus' e in
      let (sec, b2, e2, k2) = >>=-eq-ok (reread_short device first) _ b1 tt bus' k1 in
      let (id, b3, e3, k3) = >>=-eq-ok (first_of sec) _ b2 tt bus' k2 in
      sec-eq sec id b2 b3 bus'
        (reread_short-ok first b1 sec b2 (answers bus) (read-ok 5 bus first b1 e1) e2)
        (first_of-ok sec id b2 b3 e3)
        (guard-ok (not (id == 3) || not (same (drop 1 sec) sec_open)) hab_closed tt tt b3 bus' k3)

  -- Two answers, one after the other.
  both-ok :
      {A : Type 0} (f : Bytes → Run A) (bus : Bus) (a : A) (bus' : Bus)
      → (check_sec_status device >> (read_response device >>= f)) bus ≡ (ok a, bus')
      → (resp : Bytes) × (middle : Bus) × (earlier : List Bytes) × (answers middle
          ≡ (4 ∷ resp) ∷ (3 ∷ sec_open) ∷ earlier)
        × (f resp middle ≡ (ok a, bus'))
  both-ok f bus a bus' e =
      let (_, b1, e1, k1) =
        >>=-eq-ok (check_sec_status device) (λ _. read_response device >>= f) bus a bus' e in
      let (resp, b2, e2, k2) = >>=-eq-ok (read_response device) f b1 a bus' k1 in
      let (earlier, h) = check_sec_status-ok bus b1 e1 in
      (resp, b2, earlier, read_response-ok b1 resp b2 e2 ∙ ap (λ l. (4 ∷ resp) ∷ l) h, k2)

  transfer-ok :
      (cmd : Command) (data_ acknowledgement : Bytes) (bus bus' : Bus)
      → transfer device cmd data_ acknowledgement bus ≡ (ok tt, bus')
      → Acknowledged acknowledgement bus'
  transfer-ok cmd data_ acknowledgement bus bus' e =
      let cs = chunks data_report_size data_ in
      let sending = send_chunks device empty_data_report cs in
      let last = confirm device acknowledgement in
      let (_, b1, e1, k1) =
        >>=-eq-ok (assert (ltb (length data_) u32_max))
          (λ _. send_command device cmd >> (sending >> last)) bus tt bus' e in
      let (_, b2, e2, k2) =
        >>=-eq-ok (send_command device cmd) (λ _. sending >> last) b1 tt bus' k1 in
      let (_, b3, e3, k3) = >>=-eq-ok sending (λ _. last) b2 tt bus' k2 in
      let (resp, b4, earlier, h, k4) = both-ok (expect device acknowledgement) b3 tt bus' k3 in
      let (g, _, hb) =
        guard-ok (not (starts_with resp acknowledgement)) not_acknowledged tt tt b4 bus' k4 in
      (resp, earlier, ap answers (sym hb) ∙ h, not-false _ g)

  -- When `Usd::write_file` or `Usd::dcd_write` returns `Ok`, the last two answers of the device
  -- are that it is open, and a response that begins with the acknowledgement of that command.
  pub transfers-Acknowledged :
      (address : ℕ) (data_ : Bytes) (bus bus' : Bus)
      → (write_file device address data_ bus ≡ (ok tt, bus') → Acknowledged complete bus')
        × (dcd_write device address data_ bus ≡ (ok tt, bus') → Acknowledged write_complete bus')
  unfolding write_file dcd_write
  transfers-Acknowledged address data_ bus bus' =
      (transfer-ok _ data_ complete bus bus', transfer-ok _ data_ write_complete bus bus')

  word_at_1-ok :
      (resp : Bytes) (word : ℕ) (bus bus' : Bus)
      → word_at_1 device resp bus ≡ (ok word, bus')
      → (z a b c d : ℕ) × (rest : Bytes) × (resp ≡ z ∷ a ∷ b ∷ c ∷ d ∷ rest)
        × (word ≡ of_le32 a b c d)
        × (bus ≡ bus')
  word_at_1-ok [] word bus bus' e = cc
  word_at_1-ok (_ ∷ []) word bus bus' e = cc
  word_at_1-ok (_ ∷ _ ∷ []) word bus bus' e = cc
  word_at_1-ok (_ ∷ _ ∷ _ ∷ []) word bus bus' e = cc
  word_at_1-ok (_ ∷ _ ∷ _ ∷ _ ∷ []) word bus bus' e = cc
  word_at_1-ok (z ∷ a ∷ b ∷ c ∷ d ∷ rest) word bus bus' e =
      (z, a, b, c, d, rest, refl, sym (ok-injective (ap (λ p. p.0) e)), ap (λ p. p.1) e)

  -- When `Usd::read_memory` returns `Ok`, the address is a multiple of 4, and the word is made of
  -- the third to the sixth byte of the report: the first byte of the response is skipped.
  pub read_memory_skips :
      (address word : ℕ) (bus bus' : Bus)
      → read_memory device address bus ≡ (ok word, bus')
      → (z a b c d : ℕ) × (rest : Bytes) × (earlier : List Bytes) × (answers bus'
          ≡ (4 ∷ z ∷ a ∷ b ∷ c ∷ d ∷ rest) ∷ (3 ∷ sec_open) ∷ earlier)
        × (word ≡ of_le32 a b c d)
        × (address % 4 ≡ 0)
  unfolding read_memory
  read_memory_skips address word bus bus' e =
      let cmd = Command.read_register address b32 1 in
      let last = check_sec_status device >> (read_response device >>= word_at_1 device) in
      let (_, b1, e1, k1) =
        >>=-eq-ok (assert (address % 4 == 0)) (λ _. send_command device cmd >> last) bus word bus'
          e in
      let (_, b2, e2, k2) = >>=-eq-ok (send_command device cmd) (λ _. last) b1 word bus' k1 in
      let (resp, b3, earlier, h, k3) = both-ok (word_at_1 device) b2 word bus' k2 in
      let (z, a, b, c, d, rest, hr, hw, hb) = word_at_1-ok resp word b3 bus' k3 in
      (
        z,
        a,
        b,
        c,
        d,
        rest,
        earlier,
        ap answers (sym hb) ∙ (h ∙ ap (λ r. (4 ∷ r) ∷ (3 ∷ sec_open) ∷ earlier) hr),
        hw,
        (==_iff (address % 4) 0).0 (assert-true _ bus b1 e1),
      )
