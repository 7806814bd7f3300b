-- ===== src/Usd/Tests.antt =====
-- host/usd at a concrete device, which takes every report and answers with the status and with an
-- acknowledgement.
use usbarmory_rust.Prelude.Chunks.{concat}
use usbarmory_rust.Prelude.{
  ℕ, ◌%◌, ◌≤◌, ◌<◌, ◌≡◌, refl, ◌≢◌, true, Option, none, some, List, [], ◌∷◌, ◌++◌, arith, leb,
  if◌then◌else◌, length,
}
use usbarmory_rust.Prelude.Bytes.{Bytes, of_le32}
use usbarmory_rust.Prelude.Outcome.{ok, panic}
use usbarmory_rust.Usd.Command.{Command, bytes, decode, decode-bytes}
use usbarmory_rust.Usd.Hid.{Device, IsDevice, Bus}
use usbarmory_rust.Usd.Protocol.{
  sec_open, write_complete, complete, write_file, dcd_write, read_memory,
}
use usbarmory_rust.Usd.Sends.{sent, data_reports, AreChunks, write_file_sends, dcd_write_sends}
use usbarmory_rust.Usd.Answers.{transfers-calm}
use usbarmory_rust.Usd.Replies.{answers, Acknowledged, transfers-Acknowledged, read_memory_skips}

abbrev answer : Bytes → ℕ → Option Bytes
answer response size =
    if leb 6 size then some response else if leb 5 size then some (3 ∷ sec_open) else none

-- A device with this response of five or six bytes.
abbrev responding : Bytes → Device
responding response = record {
  write_control = λ bus c. true;
  read_interrupt = λ bus endpoint size. answer response size;
}

answer_lem :
    (response : Bytes) (size : ℕ) (bs : Bytes)
    → (0 < length response) × (length response ≤ 6)
    → answer response size ≡ some bs
    → (0 < length bs) × (length bs ≤ size)
answer_lem response size bs h e = ground arith

responding-IsDevice :
    (response : Bytes)
    → (0 < length response) × (length response ≤ 6)
    → IsDevice (responding response)
responding-IsDevice response h = record {
  fits = λ bus endpoint size bs e. (answer_lem response size bs h e).1;
  non_empty = λ bus endpoint size bs e. (answer_lem response size bs h e).0;
}

abbrev file : Bytes
file = 1 ∷ 2 ∷ 3 ∷ []

abbrev acknowledging : Device
acknowledging = responding (4 ∷ complete)

abbrev after_write : Bus
unfolding write_file bytes
after_write = (write_file acknowledging 0x91_0000 file []).1

write_returns : write_file acknowledging 0x91_0000 file [] ≡ (ok tt, after_write)
unfolding write_file bytes
write_returns = refl

abbrev taking_dcd : Device
taking_dcd = responding (4 ∷ write_complete)

abbrev after_dcd : Bus
unfolding dcd_write bytes
after_dcd = (dcd_write taking_dcd 0x91_0000 file []).1

dcd_returns : dcd_write taking_dcd 0x91_0000 file [] ≡ (ok tt, after_dcd)
unfolding dcd_write bytes
dcd_returns = refl

abbrev reading : Device
reading = responding (4 ∷ 10 ∷ 20 ∷ 30 ∷ 40 ∷ 50 ∷ [])

abbrev after_read : Bus
unfolding read_memory bytes
after_read = (read_memory reading 0x91_0000 []).1

read_returns : read_memory reading 0x91_0000 [] ≡ (ok (of_le32 20 30 40 50), after_read)
unfolding read_memory bytes
read_returns = refl

decode-bytes_test :
    decode (bytes (Command.write_file 0x91_0000 3)) ≡ some (Command.write_file 0x91_0000 3)
decode-bytes_test = decode-bytes (Command.write_file 0x91_0000 3) (omega arith, omega arith)

write_file_sends_example :
    (cs : List Bytes) × (sent after_write
      ≡ [] ++ bytes (Command.write_file 0x91_0000 3) ∷ data_reports cs)
    × (concat cs ≡ file)
    × AreChunks cs
write_file_sends_example =
    write_file_sends acknowledging 0x91_0000 file [] after_write write_returns

dcd_write_sends_test :
    (cs : List Bytes) × (sent after_dcd
      ≡ [] ++ bytes (Command.dcd_write 0x91_0000 3) ∷ data_reports cs)
    × (concat cs ≡ file)
    × AreChunks cs
dcd_write_sends_test = dcd_write_sends taking_dcd 0x91_0000 file [] after_dcd dcd_returns

transfers-Acknowledged_example :
    (write_file acknowledging 0x91_0000 file [] ≡ (ok tt, after_write)
      → Acknowledged complete after_write)
    × (dcd_write acknowledging 0x91_0000 file [] ≡ (ok tt, after_write)
        → Acknowledged write_complete after_write)
transfers-Acknowledged_example = transfers-Acknowledged acknowledging 0x91_0000 file [] after_write

read_memory_skips_example :
    (z a b c d : ℕ) × (rest : Bytes) × (earlier : List Bytes) × (answers after_read
      ≡ (4 ∷ z ∷ a ∷ b ∷ c ∷ d ∷ rest) ∷ (3 ∷ sec_open) ∷ earlier)
    × (of_le32 20 30 40 50 ≡ of_le32 a b c d)
    × (0x91_0000 % 4 ≡ 0)
read_memory_skips_example =
    read_memory_skips reading 0x91_0000 (of_le32 20 30 40 50) [] after_read read_returns

transfers-calm_test :
    ((write_file acknowledging 0x91_0000 file []).0 ≢ panic)
    × ((dcd_write acknowledging 0x91_0000 file []).0 ≢ panic)
transfers-calm_test =
    transfers-calm acknowledging (responding-IsDevice (4 ∷ complete) (omega arith, omega arith))
      0x91_0000 file [] (omega arith)
