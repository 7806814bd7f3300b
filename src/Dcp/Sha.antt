-- ===== src/Dcp/Sha.antt =====
-- firmware/usbarmory/src/dcp/sha256.rs: the digest of a stream of bytes. The coprocessor and the
-- vector type of another crate are a parameter; a command that the driver has issued is recorded.
use usbarmory_rust.Prelude.{
  ℕ, ◌+◌, ◌-◌, ◌*◌, ◌%◌, ◌^◌, bit_and, Bool, true, false, not, ◌||◌, none, some, List, [], ◌∷◌,
  ◌++◌, ltb, leb, ◌==◌, if◌then◌else◌, length, take, drop,
}
use usbarmory_rust.Prelude.Bytes.{Bytes}
use usbarmory_rust.Prelude.Outcome.{Outcome, ok, err, panic, ◌>>=◌, ◌>>◌}
use usbarmory_rust.Dcp.Control.{
  control_new, decr_semaphore, enable_hash, hash_init, hash_term, hash_output, hash_select, sha256,
  stat_error_mask, Cmd, cmd_new, is_done_or_error, wait_for_or_timeout, round_down,
}
use mathlib.Core.List.{reverse}

-- What `memlog_flush_and_reset!` ends with: the processor starts again.
pub data Restart : Type 0 where
  memlog_flush_and_reset : Restart

-- After the commands issued so far, the newest last: what the driver reads of the last one's status
-- and of `CH2STAT` up to the timeout, and what the coprocessor has written to its payload.
-- `extend_from_slice` is that of a vector with a capacity of 64.
pub record Platform : Type 0 where
  pub samples : List Cmd → List (ℕ × ℕ)
  pub payload : List Cmd → Bytes
  pub extend_from_slice : Bytes → Bytes → Bytes

abbrev pub block_size : ℕ
block_size = 64

abbrev pub max_count : ℕ
max_count = 512 * 1024 * 1024

-- `Sha256`, and the commands that it has issued.
pub record Sha : Type 0 where
  pub next_is_first_block : Bool
  pub buffer : Bytes
  pub count : ℕ
  pub issued : List Cmd

abbrev pub Run : Type 0 → Type 0
Run A = Outcome Restart A

-- `assert!` and its kind
abbrev pub assert : Bool → Run (Unit {0})
assert true = ok tt
assert false = panic

module _ (platform : Platform) where
  -- What both kinds of command do once the command is set up: start it, wait for it, and restart the
  -- processor on a timeout or an error.
  unfoldable pub issue : List Cmd → Cmd → Run (List Cmd)
  issue issued cmd =
      elim (wait_for_or_timeout is_done_or_error (platform.samples (issued ++ (cmd ∷ [])))) [
        | none ↦ err memlog_flush_and_reset
        | some sample ↦
            if bit_and sample.1 stat_error_mask == 0
            then ok (issued ++ (cmd ∷ []))
            else err memlog_flush_and_reset
      ]

  abbrev pub block_cmd : Bool → Bytes → Cmd
  block_cmd first blocks = record cmd_new {
    control0 =
        hash_term false (
          hash_init first (hash_output false (enable_hash true (decr_semaphore true control_new))));
    control1 = hash_select sha256 control_new;
    src_buffer = some blocks;
    buffer_size = length blocks;
  }

  -- `process_blocks`
  unfoldable pub process_blocks : Sha → Bytes → Run Sha
  unfolding issue
  process_blocks s blocks = do
    assert (not (length blocks == 0))
    assert (length blocks % block_size == 0)
    issued ← issue s.issued (block_cmd s.next_is_first_block blocks)
    ok (record s { next_is_first_block = false; issued = issued })

  abbrev pub split_at : ℕ → Bytes → Run (Bytes × Bytes)
  split_at mid input = if leb mid (length input) then ok (take mid input, drop mid input) else panic

  -- `process_and_push`: the leading blocks, with what is left over; and the whole.
  unfoldable pub process_leading : Sha → Bytes → Run (Sha × Bytes)
  unfolding process_blocks
  process_leading s input =
      if leb block_size (length input)
      then (do
        (blocks, leftover) ← split_at (round_down (length input) block_size) input
        s' ← process_blocks s blocks
        ok (s', leftover))
      else ok (s, input)

  unfoldable pub process_and_push : Sha → Bytes → Run Sha
  unfolding process_leading
  process_and_push s input = do
    assert (length s.buffer == 0)
    (s', leftover) ← process_leading s input
    ok (record s' { buffer = platform.extend_from_slice s'.buffer leftover })

  -- `push_and_process`
  unfoldable pub push_and_process : Sha → Bytes → Run Sha
  unfolding process_and_push
  push_and_process s input = do
    assert (not (length s.buffer == 0))
    (head, tail) ← split_at (block_size - length s.buffer) input
    let full = platform.extend_from_slice s.buffer head
    s' ← process_blocks (record s { buffer = full }) full
    process_and_push (record s' { buffer = [] }) tail

  -- `input_slice`, and `input` that only calls it
  unfoldable pub input_slice : Sha → Bytes → Run Sha
  unfolding push_and_process
  input_slice s input =
      if length input == 0
      then ok s
      else (if leb (2 ^ 32) (s.count + length input) || ltb max_count (s.count + length input)
          then panic
          else (let s' = record s { count = s.count + length input } in
              if length s.buffer == 0
              then process_and_push s' input
              else (if ltb (length s.buffer + length input) block_size
                  then ok (record s' { buffer = platform.extend_from_slice s.buffer input })
                  else push_and_process s' input)))

  abbrev pub last_cmd : Sha → Cmd
  last_cmd s = record cmd_new {
    control0 = hash_term true (
        hash_init s.next_is_first_block
          (hash_output false (enable_hash true (decr_semaphore true control_new))));
    control1 = hash_select sha256 control_new;
    src_buffer = if length s.buffer == 0 then cmd_new.src_buffer else some s.buffer;
    buffer_size = if length s.buffer == 0 then cmd_new.buffer_size else length s.buffer;
    payload_pointer = true;
  }

  -- `fixed_result`, with the commands that have been issued at its end.
  unfoldable pub fixed_result : Sha → Run (Bytes × List Cmd)
  unfolding issue
  fixed_result s = do
    issued ← issue s.issued (last_cmd s)
    ok (reverse (platform.payload issued), issued)

-- `take`, when no other handle is in use
abbrev pub sha_new : List Cmd → Sha
sha_new issued = record { next_is_first_block = true; buffer = []; count = 0; issued = issued }

-- `reset`
unfoldable pub reset : Sha → Sha
reset s = record s { buffer = []; next_is_first_block = true }
