-- ===== src/Dcp/Digest.antt =====
-- The digest of firmware/usbarmory/src/dcp/sha256.rs is that of the whole input, however the input is
-- cut into pieces.
use usbarmory_rust.Prelude.{
  ℕ, ◌+◌, ◌-◌, ◌%◌, ◌≤◌, ◌<◌, bit_and, ◌≡◌, refl, ap, ◌∙◌, subst, ◌≢◌, ◌⊎◌, inl, inr, Bool, true,
  false, some, List, [], ◌∷◌, ◌++◌, append_assoc, arith, dec_lt, length, length-append, take, drop,
  take-append-drop, length-take, length-drop,
}
use usbarmory_rust.Prelude.Bytes.{Bytes}
use usbarmory_rust.Prelude.Splice.{take-all}
use usbarmory_rust.Prelude.Outcome.{ok}
use usbarmory_rust.Dcp.Control.{
  stat_error_mask, Cmd, is_done_or_error, wait_for_or_timeout, round_down,
}
use usbarmory_rust.Dcp.Sha.{
  Platform, Sha, block_cmd, issue, process_blocks, process_leading, process_and_push,
  push_and_process,
}
use usbarmory_rust.Dcp.Channel.{
  Channel, idle, absorbing, done, fault, absorb, channel, channel-snoc, absorb_data, cmd_data,
}
use mathlib.Core.List.{reverse}

-- What the driver relies on: the vector appends what fits, the coprocessor completes a command that
-- continues a digest, and ends a message with its digest in reverse order.
pub record IsPlatform (hash : Bytes → Bytes) (platform : Platform) : Type 0 where
  pub extends :
      (xs ys : Bytes) → length xs + length ys ≤ 64 → platform.extend_from_slice xs ys ≡ xs ++ ys
  pub completes :
      (cmds : List Cmd)
      → channel idle cmds ≢ fault
      → (sample : ℕ × ℕ) × (wait_for_or_timeout is_done_or_error (platform.samples cmds)
          ≡ some sample)
        × (bit_and sample.1 stat_error_mask ≡ 0)
  pub digests :
      (cmds : List Cmd) (message : Bytes)
      → channel idle cmds ≡ done message
      → platform.payload cmds ≡ reverse (hash message)

-- The channel has had the part of the message that is not in the buffer.
abbrev pub HasSent : Bytes → Sha → Type 0
HasSent sent s =
    ((s.next_is_first_block ≡ true) × (sent ≡ []))
    ⊎ ((s.next_is_first_block ≡ false) × (channel idle s.issued ≡ absorbing sent))

-- A digest of the message so far.
abbrev pub IsDigestOf : Bytes → Sha → Type 0
IsDigestOf message s =
    (length s.buffer < 64) × ((sent : Bytes) × HasSent sent s × (message ≡ sent ++ s.buffer))

absorbing≢fault : {ch : Channel} {message : Bytes} → ch ≡ absorbing message → ch ≢ fault
absorbing≢fault e f = cc

pub done≢fault : {ch : Channel} {message : Bytes} → ch ≡ done message → ch ≢ fault
done≢fault e f = cc

join :
    (sent : Bytes) (n : ℕ) (input : Bytes) → sent ++ input ≡ (sent ++ take n input) ++ drop n input
join sent n input = rw (append_assoc, take-append-drop) refl

module _ (hash : Bytes → Bytes) (platform : Platform) (laws : IsPlatform hash platform) where
  open laws use {extends, completes, digests}

  pub issue-ok :
      (issued : List Cmd) (cmd : Cmd)
      → channel idle (issued ++ (cmd ∷ [])) ≢ fault
      → issue platform issued cmd ≡ ok (issued ++ (cmd ∷ []))
  unfolding issue
  issue-ok issued cmd h =
      let (sample, waits, clear) = completes (issued ++ (cmd ∷ [])) h in
      rw (issue, waits, clear) refl

  pub cmd_data-some :
      (cmd : Cmd) (bytes : Bytes)
      → cmd.src_buffer ≡ some bytes
      → cmd.buffer_size ≡ length bytes
      → length bytes ≢ 0
      → cmd_data cmd ≡ some bytes
  cmd_data-some cmd bytes e size h = rw (e, size) (grind (arith, take-all bytes (length bytes)))

  absorb-block :
      (ch : Channel) (first : Bool) (blocks sent : Bytes)
      → ((first ≡ true) × (sent ≡ [])) ⊎ ((first ≡ false) × (ch ≡ absorbing sent))
      → length blocks ≢ 0
      → length blocks % 64 ≡ 0
      → absorb ch (block_cmd platform first blocks) ≡ absorbing (sent ++ blocks)
  unfolding absorb
  absorb-block ch first blocks sent (inl (t, e)) some_data whole =
      rw (t, e)
        (ap (absorb_data ch (block_cmd platform true blocks))
            (cmd_data-some (block_cmd platform true blocks) blocks refl refl some_data)
          ∙ ground (arith, whole))
  absorb-block ch first blocks sent (inr (t, e)) some_data whole =
      rw (t, e)
        (ap (absorb_data (absorbing sent) (block_cmd platform false blocks))
            (cmd_data-some (block_cmd platform false blocks) blocks refl refl some_data)
          ∙ ground (arith, whole))

  process_blocks-lem :
      (s : Sha) (blocks sent : Bytes)
      → HasSent sent s
      → length blocks ≢ 0
      → length blocks % 64 ≡ 0
      → (s' : Sha) × (process_blocks platform s blocks ≡ ok s')
        × (s'.buffer ≡ s.buffer)
        × (s'.count ≡ s.count)
        × HasSent (sent ++ blocks) s'
  unfolding process_blocks
  process_blocks-lem s blocks sent has some_data whole = (
    record s { next_is_first_block = false; issued = s.issued ++ (cmd ∷ []) },
    ground (arith, issue-ok s.issued cmd (absorbing≢fault taken)),
    refl,
    refl,
    inr (refl, taken),
  )
    where
      cmd : Cmd
      cmd = block_cmd platform s.next_is_first_block blocks

      taken : channel idle (s.issued ++ (cmd ∷ [])) ≡ absorbing (sent ++ blocks)
      taken =
          channel-snoc idle s.issued cmd
          ∙ absorb-block (channel idle s.issued) s.next_is_first_block blocks sent has some_data
              whole

  leading-short :
      (s : Sha) (input : Bytes)
      → length input < 64
      → process_leading platform s input ≡ ok (s, input)
  unfolding process_leading
  leading-short s input short = ground arith

  leading-long :
      (s s' : Sha) (input : Bytes)
      → 64 ≤ length input
      → process_blocks platform s (take (round_down (length input) 64) input) ≡ ok s'
      → process_leading platform s input ≡ ok (s', drop (round_down (length input) 64) input)
  unfolding process_leading
  leading-long s s' input long runs = ground arith

  push-leading :
      (s s' : Sha) (input leftover : Bytes)
      → s.buffer ≡ []
      → process_leading platform s input ≡ ok (s', leftover)
      → s'.buffer ≡ []
      → length leftover < 64
      → process_and_push platform s input ≡ ok (record s' { buffer = leftover })
  unfolding process_and_push
  push-leading s s' input leftover empty runs empty' short = ground (arith, extends [] leftover)

  pub process_and_push-lem :
      (s : Sha) (input sent : Bytes)
      → s.buffer ≡ []
      → HasSent sent s
      → (s' : Sha) × (process_and_push platform s input ≡ ok s')
        × (s'.count ≡ s.count)
        × IsDigestOf (sent ++ input) s'
  process_and_push-lem s input sent empty has = elim (dec_lt (length input) 64) [
    | yes short ↦ (
      record s { buffer = input },
      push-leading s s input input empty (leading-short s input short) empty short,
      refl,
      (short, (sent, has, refl)),
    )
    | no long ↦
        let (s', runs, kept, counted, has') =
          process_blocks-lem s (take n input) sent has (omega (arith, sized))
            (omega (arith, sized)) in
        (
          record s' { buffer = drop n input },
          push-leading s s' input (drop n input) empty (leading-long s s' input (omega arith) runs)
              (kept ∙ empty) (omega (arith, left)),
          counted,
          (omega (arith, left), (sent ++ take n input, has', join sent n input)),
        )
  ]
    where
      n : ℕ
      n = round_down (length input) 64

      sized : length (take n input) ≡ n
      sized = omega (arith, length-take n input)

      left : length (drop n input) ≡ length input % 64
      left = omega (arith, length-drop n input)

  push_and_process-runs :
      (s s' s'' : Sha) (input : Bytes)
      → length s.buffer ≢ 0
      → length s.buffer < 64
      → 64 ≤ length s.buffer + length input
      → (full : Bytes)
      → platform.extend_from_slice s.buffer (take (64 - length s.buffer) input) ≡ full
      → process_blocks platform (record s { buffer = full }) full ≡ ok s'
      → process_and_push platform (record s' { buffer = [] }) (drop (64 - length s.buffer) input)
        ≡ ok s''
      → push_and_process platform s input ≡ ok s''
  unfolding push_and_process
  push_and_process-runs s s' s'' input some_data small long full filled blocks rest =
      ground (arith, filled)

  pub push_and_process-lem :
      (s : Sha) (input sent : Bytes)
      → length s.buffer ≢ 0
      → length s.buffer < 64
      → 64 ≤ length s.buffer + length input
      → HasSent sent s
      → (s' : Sha) × (push_and_process platform s input ≡ ok s')
        × (s'.count ≡ s.count)
        × IsDigestOf (sent ++ (s.buffer ++ input)) s'
  push_and_process-lem s input sent some_data small long has =
      let (s', runs, kept, counted, has') =
        process_blocks-lem (record s { buffer = full }) full sent has (omega (arith, sized))
          (omega (arith, sized)) in
      let (s'', runs', counted', digest) =
        process_and_push-lem (record s' { buffer = [] }) (drop n input) (sent ++ full) refl has' in
      (
        s'',
        push_and_process-runs s s' s'' input some_data small long full filled runs runs',
        counted' ∙ counted,
        subst (λ m. IsDigestOf m s'') joined digest,
      )
    where
      n : ℕ
      n = 64 - length s.buffer

      full : Bytes
      full = s.buffer ++ take n input

      sized : length full ≡ 64
      sized = omega (arith, length-append s.buffer (take n input), length-take n input)

      filled : platform.extend_from_slice s.buffer (take n input) ≡ full
      filled = extends s.buffer (take n input) (omega (arith, length-take n input))

      joined : (sent ++ full) ++ drop n input ≡ sent ++ (s.buffer ++ input)
      joined = rw (append_assoc, append_assoc, take-append-drop) refl
