-- ===== src/Usd/Protocol.antt =====
-- The operations of `Usd` of host/usd/src/lib.rs, over a device on the bus. What `verbose` prints is
-- left out.
use usbarmory_rust.Prelude.Chunks.{chunks}
use usbarmory_rust.Prelude.{
  ℕ, ◌+◌, ◌-◌, ◌%◌, ◌^◌, Bool, true, false, not, ◌&&◌, ◌||◌, List, [], ◌∷◌, ltb, ◌==◌,
  if◌then◌else◌, length, take, drop, replicate,
}
use usbarmory_rust.Prelude.Bytes.{Bytes, of_le32}
use usbarmory_rust.Usd.Command.{Command, b32, bytes, store}
use usbarmory_rust.Prelude.Outcome.{panic}
use usbarmory_rust.Usd.Hid.{
  Device, Run, hab_closed, unexpected_report_id, not_acknowledged, ◌>>=◌, ◌>>◌, done, bail, assert,
  first_of, write, read,
}

abbrev pub u32_max : ℕ
u32_max = 2 ^ 32 - 1

abbrev pub data_report_id : ℕ
data_report_id = 2

abbrev pub data_report_size : ℕ
data_report_size = 1024

abbrev pub sec_open : Bytes
sec_open = 0x56 ∷ 0x78 ∷ 0x78 ∷ 0x56 ∷ []

abbrev pub write_complete : Bytes
write_complete = 0x12 ∷ 0x8A ∷ 0x8A ∷ 0x12 ∷ []

abbrev pub complete : Bytes
complete = 0x88 ∷ 0x88 ∷ 0x88 ∷ 0x88 ∷ []

-- `==` of slices
abbrev pub same : Bytes → Bytes → Bool
same [] [] = true
same (a ∷ as_) (b ∷ bs) = (a == b) && same as_ bs
same _ _ = false

-- `starts_with`
abbrev pub starts_with : Bytes → Bytes → Bool
starts_with bs [] = true
starts_with [] (p ∷ prefix) = false
starts_with (b ∷ bs) (p ∷ prefix) = (b == p) && starts_with bs prefix

abbrev pub empty_data_report : Bytes
empty_data_report = data_report_id ∷ replicate data_report_size 0

module _ (device : Device) where
  -- `send_command`
  unfoldable pub send_command : Command → Run (Unit {0})
  send_command cmd = write device (bytes cmd)

  -- The first read of `check_sec_status`, which is done again when it reads one byte.
  abbrev pub reread_short : Bytes → Run Bytes
  reread_short sec = if length sec == 1 then read device 5 else done sec

  -- `check_sec_status`
  unfoldable pub check_sec_status : Run (Unit {0})
  check_sec_status = do
    first ← read device 5
    sec ← reread_short first
    id ← first_of sec
    if not (id == 3) || not (same (drop 1 sec) sec_open) then bail hab_closed else done tt

  -- `read_response`: the response is what follows the report id.
  unfoldable pub read_response : Run Bytes
  read_response = do
    report ← read device 65
    id ← first_of report
    if not (id == 4) then bail unexpected_report_id else done (drop 1 report)

  -- The loop over the chunks, which keeps one buffer: a chunk goes into it after the report id, and
  -- the filled part of it is sent.
  unfoldable pub send_chunks : Bytes → List Bytes → Run (Unit {0})
  send_chunks report [] = done tt
  send_chunks report (chunk ∷ rest) = do
    write device (take (length chunk + 1) (store 1 chunk report))
    send_chunks (store 1 chunk report) rest

  -- `dcd_write` and `write_file` after the data: the status, then the acknowledgement.
  abbrev pub expect : Bytes → Bytes → Run (Unit {0})
  expect acknowledged resp =
      if not (starts_with resp acknowledged) then bail not_acknowledged else done tt

  abbrev pub confirm : Bytes → Run (Unit {0})
  confirm acknowledged = do check_sec_status; resp ← read_response; expect acknowledged resp

  -- What `dcd_write` and `write_file` have in common.
  abbrev pub transfer : Command → Bytes → Bytes → Run (Unit {0})
  transfer cmd data_ acknowledged = do
    assert (ltb (length data_) u32_max)
    send_command cmd
    send_chunks empty_data_report (chunks data_report_size data_)
    confirm acknowledged

  -- `Usd::dcd_write`
  unfoldable pub dcd_write : ℕ → Bytes → Run (Unit {0})
  unfolding send_command check_sec_status read_response send_chunks
  dcd_write address dcd =
      transfer (Command.dcd_write address (length dcd % 2 ^ 32)) dcd write_complete

  -- `Usd::write_file`
  unfoldable pub write_file : ℕ → Bytes → Run (Unit {0})
  unfolding send_command check_sec_status read_response send_chunks
  write_file address data_ =
      transfer (Command.write_file address (length data_ % 2 ^ 32)) data_ complete

  -- `Usd::jump_address`
  unfoldable pub jump_address : ℕ → Run (Unit {0})
  unfolding send_command check_sec_status read_response
  jump_address address = do send_command (Command.jump_address address); check_sec_status

  -- `*array_ref!(resp, 1, 4)`
  abbrev pub word_at_1 : Bytes → Run ℕ
  word_at_1 (_ ∷ a ∷ b ∷ c ∷ d ∷ rest) bus = done (of_le32 a b c d) bus
  word_at_1 _ bus = (panic, bus)

  -- `Usd::read_memory`
  unfoldable pub read_memory : ℕ → Run ℕ
  unfolding send_command check_sec_status read_response
  read_memory address = do
    assert (address % 4 == 0)
    send_command (Command.read_register address b32 1)
    check_sec_status
    resp ← read_response
    word_at_1 resp
