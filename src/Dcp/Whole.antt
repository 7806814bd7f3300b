-- ===== src/Dcp/Whole.antt =====
-- `input` and `fixed_result` of firmware/usbarmory/src/dcp/sha256.rs, on a message in pieces.
use usbarmory_rust.Prelude.Chunks.{concat}
use usbarmory_rust.Prelude.{
  ◌+◌, ◌≤◌, ◌<◌, ◌≡◌, refl, sym, ap, ◌∙◌, subst, ◌≢◌, ◌⊎◌, inl, inr, true, false, some, List, [],
  ◌∷◌, ◌++◌, append-nil, append_assoc, arith, dec_lt, ℕ_discrete, length, length-append,
}
use usbarmory_rust.Prelude.Bytes.{Bytes}
use usbarmory_rust.Prelude.Outcome.{ok, panic, ◌>>=◌}
use usbarmory_rust.Dcp.Control.{Cmd}
use usbarmory_rust.Dcp.Sha.{
  Platform, Sha, Run, issue, process_and_push, push_and_process, input_slice, last_cmd,
  fixed_result, sha_new, max_count, reset,
}
use usbarmory_rust.Dcp.Channel.{
  Channel, idle, absorbing, done, absorb, channel, channel-snoc, absorb_data, cmd_data,
}
use usbarmory_rust.Dcp.Digest.{
  IsPlatform, IsDigestOf, issue-ok, process_and_push-lem, push_and_process-lem, cmd_data-some,
  done≢fault,
}
use mathlib.Core.List.{reverse, reverse-reverse}

-- `input` on the pieces one after another.
abbrev pub input_all : Platform → List Bytes → Sha → Run Sha
unfolding input_slice
input_all platform [] s = ok s
input_all platform (piece ∷ pieces) s = input_slice platform s piece >>= input_all platform pieces

-- A new handle, whatever commands there were, has the digest of nothing; so has one after `reset`.
pub sha_new-IsDigestOf : (issued : List Cmd) → IsDigestOf [] (sha_new issued)
sha_new-IsDigestOf issued = (omega arith, ([], inl (refl, refl), refl))

pub reset-IsDigestOf : (s : Sha) → IsDigestOf [] (reset s)
unfolding reset
reset-IsDigestOf s = (omega arith, ([], inl (refl, refl), refl))

nil_of_length : (xs : Bytes) → length xs ≡ 0 → xs ≡ []
nil_of_length [] h = refl
nil_of_length (x ∷ xs) h = absurd (omega arith)

sent-all :
    (s : Sha) (sent message : Bytes) → message ≡ sent ++ s.buffer → s.buffer ≡ [] → sent ≡ message
sent-all s sent message e empty = sym (e ∙ ap (λ m. sent ++ m) empty ∙ append-nil sent)

module _ (hash : Bytes → Bytes) (platform : Platform) (laws : IsPlatform hash platform) where
  open laws use {extends, completes, digests}

  slice-empty : (s : Sha) → input_slice platform s [] ≡ ok s
  unfolding input_slice
  slice-empty s = refl

  module _ (s : Sha) (input : Bytes) (fits : s.count + length input ≤ max_count)
      (some_input : length input ≢ 0) where
    slice-first :
        length s.buffer ≡ 0
        → input_slice platform s input
          ≡ process_and_push platform (record s { count = s.count + length input }) input
    unfolding input_slice
    slice-first e = ground arith

    slice-short :
        length s.buffer ≢ 0
        → length s.buffer + length input < 64
        → input_slice platform s input
          ≡ ok (record s { count = s.count + length input; buffer = s.buffer ++ input })
    unfolding input_slice
    slice-short e short = ground (arith, extends s.buffer input)

    slice-long :
        length s.buffer ≢ 0
        → 64 ≤ length s.buffer + length input
        → input_slice platform s input
          ≡ push_and_process platform (record s { count = s.count + length input }) input
    unfolding input_slice
    slice-long e long = ground arith

  -- `input_slice` on a digest of a message gives the digest of the message with the input at its end,
  -- and counts its bytes, when the count stays under the coprocessor's limit.
  pub input_slice-IsDigestOf :
      (message : Bytes) (s : Sha) (input : Bytes)
      → IsDigestOf message s
      → s.count + length input ≤ max_count
      → (s' : Sha) × (input_slice platform s input ≡ ok s')
        × (s'.count ≡ s.count + length input)
        × IsDigestOf (message ++ input) s'
  input_slice-IsDigestOf message s [] digest fits =
      (s, slice-empty s, omega arith, rw (append-nil) digest)
  input_slice-IsDigestOf message s (x ∷ xs) (small, (sent, has, e)) fits =
      elim (ℕ_discrete (length s.buffer) 0) [
        | yes empty ↦
            let (s', runs, counted, digest) =
              process_and_push-lem hash platform laws
                (record s { count = s.count + length (x ∷ xs) }) (x ∷ xs) sent
                (nil_of_length s.buffer empty) has in
            (
              s',
              slice-first s (x ∷ xs) fits (omega arith) empty ∙ runs,
              counted,
              subst (λ m. IsDigestOf (m ++ (x ∷ xs)) s')
                  (sent-all s sent message e (nil_of_length s.buffer empty)) digest,
            )
        | no some_data ↦ elim (dec_lt (length s.buffer + length (x ∷ xs)) 64) [
          | yes short ↦ (
            record s { count = s.count + length (x ∷ xs); buffer = s.buffer ++ (x ∷ xs) },
            slice-short s (x ∷ xs) fits (omega arith) some_data short,
            refl,
            (
              omega (arith, length-append s.buffer (x ∷ xs)),
              (sent, has, ap (λ m. m ++ (x ∷ xs)) e ∙ append_assoc sent s.buffer (x ∷ xs)),
            ),
          )
          | no long ↦
              let (s', runs, counted, digest) =
                push_and_process-lem hash platform laws
                  (record s { count = s.count + length (x ∷ xs) }) (x ∷ xs) sent some_data small
                  (omega arith) has in
              (
                s',
                slice-long s (x ∷ xs) fits (omega arith) some_data (omega arith) ∙ runs,
                counted,
                subst (λ m. IsDigestOf m s')
                    (sym (append_assoc sent s.buffer (x ∷ xs)) ∙ ap (λ m. m ++ (x ∷ xs)) (sym e))
                    digest,
              )
        ]
      ]

  last-data : (s : Sha) → cmd_data (last_cmd platform s) ≡ some s.buffer
  last-data s = elim (ℕ_discrete (length s.buffer) 0) [
    | yes empty ↦
        subst (λ b. cmd_data (last_cmd platform (record s { buffer = b })) ≡ some b)
          (sym (nil_of_length s.buffer empty)) refl
    | no some_data ↦
        cmd_data-some hash platform laws (last_cmd platform s) s.buffer (ground arith)
          (ground arith) some_data
  ]

  absorb-last :
      (ch : Channel) (s : Sha) (sent : Bytes)
      → ((s.next_is_first_block ≡ true) × (sent ≡ []))
        ⊎ ((s.next_is_first_block ≡ false) × (ch ≡ absorbing sent))
      → absorb ch (last_cmd platform s) ≡ done (sent ++ s.buffer)
  unfolding absorb
  absorb-last ch s sent (inl (t, e)) =
      ap (absorb_data ch (last_cmd platform s)) (last-data s) ∙ rw (t, e) refl
  absorb-last ch s sent (inr (t, e)) =
      ap (absorb_data ch (last_cmd platform s)) (last-data s) ∙ rw (t, e) refl

  fixed_result-issued :
      (s : Sha) (issued : List Cmd) (digest : Bytes)
      → issue platform s.issued (last_cmd platform s) ≡ ok issued
      → platform.payload issued ≡ reverse digest
      → fixed_result platform s ≡ ok (digest, issued)
  unfolding fixed_result
  fixed_result-issued s issued digest runs e = rw (runs, e, reverse-reverse) refl

  -- The result of a digest of a message is the hash of the message.
  pub fixed_result-hash :
      (message : Bytes) (s : Sha)
      → IsDigestOf message s
      → (issued : List Cmd) × (fixed_result platform s ≡ ok (hash message, issued))
  fixed_result-hash message s (small, (sent, has, e)) = (
    s.issued ++ (last_cmd platform s ∷ []),
    fixed_result-issued s issued (hash message)
        (issue-ok hash platform laws s.issued (last_cmd platform s) (done≢fault taken))
        (digests issued message taken),
  )
    where
      issued : List Cmd
      issued = s.issued ++ (last_cmd platform s ∷ [])

      taken : channel idle (s.issued ++ (last_cmd platform s ∷ [])) ≡ done message
      taken =
          channel-snoc idle s.issued (last_cmd platform s)
          ∙ (absorb-last (channel idle s.issued) s sent has ∙ ap done (sym e))

  input_all-IsDigestOf :
      (pieces : List Bytes) (message : Bytes) (s : Sha)
      → IsDigestOf message s
      → s.count + length (concat pieces) ≤ max_count
      → (s' : Sha) × (input_all platform pieces s ≡ ok s')
        × IsDigestOf (message ++ concat pieces) s'
  unfolding input_all
  input_all-IsDigestOf [] message s digest fits = (s, refl, rw (append-nil) digest)
  input_all-IsDigestOf (piece ∷ pieces) message s digest fits =
      let sum = length-append piece (concat pieces) in
      let (s', runs, counted, digest') =
        input_slice-IsDigestOf message s piece digest (omega arith) in
      let (s'', runs', digest'') =
        input_all-IsDigestOf pieces (message ++ piece) s' digest' (omega arith) in
      (
        s'',
        ap (λ r. r >>= input_all platform pieces) runs ∙ runs',
        subst (λ m. IsDigestOf m s'') (append_assoc message piece (concat pieces)) digest'',
      )

  -- A new handle that takes a message of at most the coprocessor's limit, in any pieces, gives the
  -- hash of the message, on a coprocessor that completes what continues a digest.
  pub digest_of_pieces :
      (pieces : List Bytes) (before : List Cmd)
      → length (concat pieces) ≤ max_count
      → (issued : List Cmd) × ((input_all platform pieces (sha_new before)
            >>= fixed_result platform)
          ≡ ok (hash (concat pieces), issued))
  digest_of_pieces pieces before fits =
      let (s, runs, digest) =
        input_all-IsDigestOf pieces [] (sha_new before) (sha_new-IsDigestOf before) (omega arith) in
      let (issued, ends) = fixed_result-hash (concat pieces) s digest in
      (issued, ap (λ r. r >>= fixed_result platform) runs ∙ ends)

over-panics :
    (platform : Platform) (s : Sha) (input : Bytes)
    → 0 < length input
    → max_count < s.count + length input
    → input_slice platform s input ≡ panic
unfolding input_slice
over-panics platform s input some_input over = grind arith

-- `reset` forgets the message, but not how long it was: whatever the handle was given before, the
-- pieces that come after it give the hash of these pieces alone, as long as the count does not go over
-- the limit; and an input with which it does panics, although it is of a length that a new handle takes
-- and gives the hash of.
pub reset-panics :
    (hash : Bytes → Bytes) (platform : Platform) (laws : IsPlatform hash platform) (s : Sha)
    (pieces : List Bytes) (input : Bytes) (before : List Cmd)
    → s.count + length (concat pieces) ≤ max_count
    → 0 < length input
    → length input ≤ max_count
    → max_count < s.count + length input
    → (issued issued' : List Cmd) × ((input_all platform pieces (reset s) >>= fixed_result platform)
        ≡ ok (hash (concat pieces), issued))
      × (input_slice platform (reset s) input ≡ panic)
      × ((input_slice platform (sha_new before) input >>= fixed_result platform)
          ≡ ok (hash input, issued'))
unfolding reset
reset-panics hash platform laws s pieces input before fits some_input fits_new over =
    let (s', runs, digest) =
      input_all-IsDigestOf hash platform laws pieces [] (reset s) (reset-IsDigestOf s) fits in
    let (issued, ends) = fixed_result-hash hash platform laws (concat pieces) s' digest in
    let (t, runs', counted, digest') =
      input_slice-IsDigestOf hash platform laws [] (sha_new before) input
        (sha_new-IsDigestOf before) (omega arith) in
    let (issued', ends') = fixed_result-hash hash platform laws input t digest' in
    (
      issued,
      issued',
      ap (λ r. r >>= fixed_result platform) runs ∙ ends,
      over-panics platform (reset s) input some_input over,
      ap (λ r. r >>= fixed_result platform) runs' ∙ ends',
    )
