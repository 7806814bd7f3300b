-- ===== src/Time/Elapsed.antt =====
-- The time between two instants, as firmware/usbarmory/src/time.rs computes it.
use usbarmory_rust.Prelude.{
  ℕ, ◌+◌, ◌-◌, ◌*◌, ◌/◌, ◌%◌, ◌^◌, ◌≤◌, ◌<◌, ◌≡◌, ap, ap₂, true, ◌∙◌, arith, leb, if◌then◌else◌,
}
use usbarmory_rust.Prelude.Outcome.{ok, panic}
use usbarmory_rust.Time.Instant.{unchecked_duration_since, duration_since}

-- The nanoseconds of less than a second fit 32 bits, and are less than a second.
fraction : (r : ℕ) → r < 32768 → 1953125 * r / 512 % 2 ^ 32 ≡ 1953125 * r / 512
fraction r small = omega arith

no_carry : (d : ℕ) → d / 32768 + 1953125 * (d % 32768) / 512 % 2 ^ 32 / 10 ^ 9 ≡ d / 32768
no_carry d = omega (arith, fraction (d % 32768) (omega arith))

eighth : (d : ℕ) → 1953125 * (d % 32768) / 512 % 2 ^ 32 % 10 ^ 9 ≡ d % 32768 * 10 ^ 9 / 32768 / 8
eighth d = omega (arith, fraction (d % 32768) (omega arith))

-- The time from an earlier instant to a later one, of 64 bits each, is its whole seconds, as the clock
-- of 32768 Hz counts them, and an eighth of the nanoseconds of the second that has begun.
pub duration_since-eighth :
    (earlier later n : ℕ)
    → earlier ≤ later
    → later < 2 ^ 64
    → duration_since (record { value = later }) (record { value = earlier }) n
      ≡ ok (
        record {
          secs = (later - earlier) / 32768;
          nanos = (later - earlier) % 32768 * 10 ^ 9 / 32768 / 8;
        },
        n,
      )
unfolding duration_since unchecked_duration_since
duration_since-eighth earlier later n le small =
    ap
      (λ b.
        if b
        then ok
            (unchecked_duration_since (record { value = later }) (record { value = earlier }), n)
        else panic)
      in_order
    ∙ ap
        (λ d. ok (
          record {
            secs = d / 32768 + 1953125 * (d % 32768) / 512 % 2 ^ 32 / 10 ^ 9;
            nanos = 1953125 * (d % 32768) / 512 % 2 ^ 32 % 10 ^ 9;
          },
          n,
        ))
        ticks
    ∙ ap₂ (λ s f. ok (record { secs = s; nanos = f }, n)) (no_carry (later - earlier))
        (eighth (later - earlier))
  where
    ticks : (2 ^ 64 + later - earlier) % 2 ^ 64 ≡ later - earlier
    ticks = omega arith

    in_order : leb earlier later ≡ true
    in_order = ground arith
