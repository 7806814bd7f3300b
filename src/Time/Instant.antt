-- ===== src/Time/Instant.antt =====
-- The operations of firmware/usbarmory/src/time.rs. Reading a register of the clock is a step of time:
-- the state is the number of reads so far.
use usbarmory_rust.Prelude.{
  ℕ, zero, suc, ◌+◌, ◌-◌, ◌*◌, ◌/◌, ◌%◌, ◌^◌, bit_or, Bool, ◌&&◌, ◌||◌, ltb, leb, ◌==◌,
  if◌then◌else◌,
}
use usbarmory_rust.Prelude.Bits.{◌<<<◌}
use usbarmory_rust.Prelude.Outcome.{Outcome, ok, err, panic}

-- The registers RTCMR and RTCLR: what they hold at the n-th read.
pub record Snvs : Type 0 where
  pub rtcmr : ℕ → ℕ
  pub rtclr : ℕ → ℕ

pub record Instant : Type 0 where
  pub value : ℕ

-- `core::time::Duration`
pub record Duration : Type 0 where
  pub secs : ℕ
  pub nanos : ℕ

-- A loop that has not ended after the rounds it was given.
pub data Spinning : Type 0 where
  spinning : Spinning

abbrev pub Run : Type 0 → Type 0
Run A = ℕ → Outcome Spinning (A × ℕ)

infixl 5 ◌>>=◌
abbrev ◌>>=◌ : {A B : Type 0} → Run A → (A → Run B) → Run B
(call >>= next) n = elim (call n) [ ok done ↦ next done.0 done.1 | err e ↦ err e | panic ↦ panic ]

-- The test of the loop of `now`.
unfoldable pub same_pair : Snvs → ℕ → ℕ → ℕ → Bool
same_pair snvs high low n = (snvs.rtclr (suc n) == low) && (snvs.rtcmr n == high)

unfoldable pub of_words : ℕ → ℕ → Instant
of_words high low = record { value = bit_or (high <<< 32) low }

-- The loop of `now`.
unfoldable pub read_again : Snvs → ℕ → ℕ → ℕ → Run Instant
unfolding same_pair of_words
read_again snvs zero high low n = err spinning
read_again snvs (suc rounds) high low n =
    let again = read_again snvs rounds (snvs.rtcmr n) (snvs.rtclr (suc n)) (suc (suc n)) in
    if same_pair snvs high low n then ok (of_words high low, suc (suc n)) else again

unfoldable pub now : Snvs → ℕ → Run Instant
unfolding read_again
now snvs rounds n = read_again snvs rounds (snvs.rtcmr n) (snvs.rtclr (suc n)) (suc (suc n))

-- RTC_FREQUENCY
abbrev pub rtc_frequency : ℕ
rtc_frequency = 1 <<< 15

-- `Duration::new`, of a number of seconds to which one can be added.
abbrev duration_new : ℕ → ℕ → Duration
duration_new secs nanos = record { secs = secs + nanos / 10 ^ 9; nanos = nanos % 10 ^ 9 }

unfoldable pub unchecked_duration_since : Instant → Instant → Duration
unchecked_duration_since self earlier =
    let ticks = (2 ^ 64 + self.value - earlier.value) % 2 ^ 64 in
    duration_new (ticks / rtc_frequency) (1953125 * (ticks % rtc_frequency) / (1 <<< 9) % 2 ^ 32)

unfoldable pub duration_since : Instant → Instant → Run Duration
unfolding unchecked_duration_since
duration_since self earlier n =
    if leb earlier.value self.value then ok (unchecked_duration_since self earlier, n) else panic

unfoldable pub elapsed : Snvs → ℕ → Instant → Run Duration
unfolding now duration_since
elapsed snvs rounds self = now snvs rounds >>= λ instant. duration_since instant self

unfoldable pub uptime : Snvs → ℕ → Run Duration
unfolding now duration_since
uptime snvs rounds = now snvs rounds >>= λ instant. duration_since instant (record { value = 0 })

abbrev shorter : Duration → Duration → Bool
shorter a b = ltb a.secs b.secs || ((a.secs == b.secs) && ltb a.nanos b.nanos)

-- The loop of `wait`.
unfoldable wait_more : Snvs → ℕ → ℕ → Instant → Duration → Run (Unit {0})
unfolding now unchecked_duration_since
wait_more snvs rounds zero start dur n = err spinning
wait_more snvs rounds (suc turns) start dur n =
    (now snvs rounds >>= λ instant m.
    let rest = wait_more snvs rounds turns start dur m in
    if shorter (unchecked_duration_since instant start) dur then rest else ok (tt, m))
      n

unfoldable pub wait : Snvs → ℕ → ℕ → Duration → Run (Unit {0})
unfolding wait_more
wait snvs rounds turns dur = now snvs rounds >>= λ start. wait_more snvs rounds turns start dur
