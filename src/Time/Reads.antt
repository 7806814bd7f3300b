-- ===== src/Time/Reads.antt =====
-- What `now` of firmware/usbarmory/src/time.rs returns while the counter goes on.
use usbarmory_rust.Prelude.{
  ℕ, suc, ◌+◌, ◌/◌, ◌%◌, ◌^◌, ◌≤◌, ◌<◌, ◌≡◌, ◌≢◌, refl, ap, Bool, true, false, ◌&&◌, inl, inr,
  arith, dec_lt, ◌==◌, ==_iff, Bool-cases,
}
use usbarmory_rust.Prelude.Bits.{bit_or_fields}
use usbarmory_rust.Prelude.Outcome.{ok}
use usbarmory_rust.Time.Instant.{Snvs, same_pair, of_words, read_again, now}

-- The registers are the two words of a counter that never goes back.
pub record IsCounter (snvs : Snvs) (count : ℕ → ℕ) : Type 0 where
  pub high : (n : ℕ) → snvs.rtcmr n ≡ count n / 2 ^ 32
  pub low : (n : ℕ) → snvs.rtclr n ≡ count n % 2 ^ 32
  pub later : (n : ℕ) → count n ≤ count (suc n)

both-same : (a b : Bool) → (a && b) ≡ true → (a ≡ true) × (b ≡ true)
both-same true b h = (refl, h)
both-same false b h = cc

module _ (snvs : Snvs) (count : ℕ → ℕ) (laws : IsCounter snvs count) where
  open laws use {high, low, later}

  of_words-eq :
      (n : ℕ)
      → same_pair snvs (snvs.rtcmr n) (snvs.rtclr (suc n)) (suc (suc n)) ≡ true
      → of_words (snvs.rtcmr n) (snvs.rtclr (suc n)) ≡ record { value = count (suc n) }
  unfolding same_pair of_words
  of_words-eq n same =
      let (lows, highs) =
        both-same (snvs.rtclr (suc (suc (suc n))) == snvs.rtclr (suc n))
          (snvs.rtcmr (suc (suc n)) == snvs.rtcmr n) same in
      ap (λ v. record { value = v })
        (omega (
          arith,
          bit_or_fields 32 (snvs.rtcmr n) (snvs.rtclr (suc n)) (omega (arith, low (suc n))),
          high n,
          low (suc n),
          high (suc (suc n)),
          (==_iff _ _).0 highs,
          later n,
          later (suc n),
        ))

  ticked :
      (n : ℕ)
      → same_pair snvs (snvs.rtcmr n) (snvs.rtclr (suc n)) (suc (suc n)) ≡ false
      → count n < count (suc (suc (suc n)))
  unfolding same_pair
  ticked n differs = elim (dec_lt (count n) (count (suc (suc (suc n))))) [
    | yes t ↦ t
    | no same ↦ absurd same
  ]
    where
      lows :
          ¬ (count n < count (suc (suc (suc n))))
          → snvs.rtclr (suc (suc (suc n))) ≡ snvs.rtclr (suc n)
      lows same =
          omega (
            arith,
            low (suc (suc (suc n))),
            low (suc n),
            later n,
            later (suc n),
            later (suc (suc n)),
          )

      highs : ¬ (count n < count (suc (suc (suc n)))) → snvs.rtcmr (suc (suc n)) ≡ snvs.rtcmr n
      highs same =
          omega (arith, high (suc (suc n)), high n, later n, later (suc n), later (suc (suc n)))

      absurd : ¬ (count n < count (suc (suc (suc n)))) → count n < count (suc (suc (suc n)))
      absurd same =
          let equal_lows =
            (==_iff (snvs.rtclr (suc (suc (suc n)))) (snvs.rtclr (suc n))).1 (lows same) in
          let equal_highs = (==_iff (snvs.rtcmr (suc (suc n))) (snvs.rtcmr n)).1 (highs same) in cc

  -- While the counter goes on by one tick at most during eight reads, `now` ends after three rounds of
  -- its loop at most, and returns what the counter was at one of its reads.
  pub now-count :
      (n rounds : ℕ)
      → ((i : ℕ) → i < 8 + n → count i ≤ 1 + count n)
      → (i m : ℕ) × (now snvs (suc (suc (suc rounds))) n ≡ ok (record { value = count i }, m))
        × (n < i)
        × (i < m)
        × (m ≤ 8 + n)
  unfolding now read_again
  now-count n rounds slow = elim (Bool-cases (test n)) [
    | inl t ↦ (
      suc n,
      suc (suc (suc (suc n))),
      rw (t) (ap (λ v. ok (v, suc (suc (suc (suc n))))) (of_words-eq n t)),
      omega arith,
      omega arith,
      omega arith,
    )
    | inr f ↦ elim (Bool-cases (test (suc (suc (suc (suc n)))))) [
      | inl t ↦ elim (Bool-cases (test (suc (suc n)))) [
        | inl t' ↦ (
          suc (suc (suc n)),
          suc (suc (suc (suc (suc (suc n))))),
          rw (f, t')
              (ap (λ v. ok (v, suc (suc (suc (suc (suc (suc n)))))))
                (of_words-eq (suc (suc n)) t')),
          omega arith,
          omega arith,
          omega arith,
        )
        | inr f' ↦ (
          suc (suc (suc (suc (suc n)))),
          suc (suc (suc (suc (suc (suc (suc (suc n))))))),
          rw (f, f', t)
              (ap (λ v. ok (v, suc (suc (suc (suc (suc (suc (suc (suc n)))))))))
                (of_words-eq (suc (suc (suc (suc n)))) t)),
          omega arith,
          omega arith,
          omega arith,
        )
      ]
      | inr f' ↦ elim (no_second_tick f f') [ ]
    ]
  ]
    where
      test : ℕ → Bool
      test i = same_pair snvs (snvs.rtcmr i) (snvs.rtclr (suc i)) (suc (suc i))

      no_second_tick : test n ≡ false → test (suc (suc (suc (suc n)))) ≢ false
      no_second_tick f f' =
          let first = ticked n f in
          let second = ticked (suc (suc (suc (suc n)))) f' in
          let bound = slow (suc (suc (suc (suc (suc (suc (suc n))))))) (omega arith) in
          let between = later (suc (suc (suc n))) in omega arith
