-- ===== src/Time/Runs.antt =====
-- The clock of firmware/usbarmory/src/time.rs at concrete counts.
use usbarmory_rust.Prelude.{ℕ, ◌+◌, ◌-◌, ◌*◌, ◌/◌, ◌%◌, ◌^◌, ◌≤◌, ◌<◌, min, ◌≡◌, refl, arith}
use usbarmory_rust.Prelude.Outcome.{ok, err, panic}
use usbarmory_rust.Time.Instant.{Snvs, spinning, now, duration_since, elapsed, uptime, wait}
use usbarmory_rust.Time.Reads.{IsCounter, now-count}
use usbarmory_rust.Time.Elapsed.{duration_since-eighth}

-- A counter whose low word overflows between the third read and the fourth.
abbrev count : ℕ → ℕ
count n = 2 ^ 32 - 1 + min 1 (n / 3)

abbrev snvs : Snvs
snvs = record { rtcmr = λ n. count n / 2 ^ 32; rtclr = λ n. count n % 2 ^ 32 }

snvs-IsCounter : IsCounter snvs count
snvs-IsCounter = record { high = λ n. refl; low = λ n. refl; later = λ n. omega arith }

now-count_example :
    (i m : ℕ) × (now snvs 3 0 ≡ ok (record { value = count i }, m))
    × (0 < i)
    × (i < m)
    × (m ≤ 8 + 0)
now-count_example = now-count snvs count snvs-IsCounter 0 0 (λ i small. omega arith)

-- The pair is read four times.
now_test : (now snvs 3 0 ≡ ok (record { value = 2 ^ 32 }, 8)) × (now snvs 2 0 ≡ err spinning)
unfolding now
now_test = (refl, refl)

-- Half a second is 16384 ticks, and is reported as 62.5 ms.
duration_since-eighth_example :
    duration_since (record { value = 16384 }) (record { value = 0 }) 7
    ≡ ok
        (record { secs = (16384 - 0) / 32768; nanos = (16384 - 0) % 32768 * 10 ^ 9 / 32768 / 8 }, 7)
duration_since-eighth_example = duration_since-eighth 0 16384 7 (omega arith) (omega arith)

half_second_test :
    duration_since (record { value = 16384 }) (record { value = 0 }) 7
    ≡ ok (record { secs = 0; nanos = 62500000 }, 7)
unfolding duration_since
half_second_test = refl

not_yet_test : duration_since (record { value = 3 }) (record { value = 4 }) 7 ≡ panic
unfolding duration_since
not_yet_test = refl

-- A counter that goes on by 8192 ticks, a quarter of a second, every four reads.
abbrev quarters : Snvs
quarters = record { rtcmr = λ n. 0; rtclr = λ n. n / 4 * 8192 }

-- Half a second is waited for until a second is over.
wait_test : wait quarters 1 10 (record { secs = 0; nanos = 5 * 10 ^ 8 }) 0 ≡ ok (tt, 20)
unfolding wait
wait_test = refl

elapsed_test :
    (elapsed quarters 1 (record { value = 8192 }) 16
      ≡ ok (record { secs = 0; nanos = 93750000 }, 20))
    × (uptime quarters 1 16 ≡ ok (record { secs = 1; nanos = 0 }, 20))
unfolding elapsed uptime
elapsed_test = (refl, refl)
