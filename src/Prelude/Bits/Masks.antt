-- ===== src/Prelude/Bits/Masks.antt =====
-- Two masks that are joined by `|`.
use usbarmory_rust.Prelude.{
  ℕ, zero, suc, ◌+◌, ◌*◌, ◌/◌, ◌%◌, ◌≤◌, min, max, bit_and, bit_or, ◌≡◌, sym, ap₂, ◌∙◌, ◌≢◌, ◌↔◌,
  arith,
}
use usbarmory_rust.Prelude.Bits.{bit_and-zero, zero-bit_and}
use usbarmory_rust.Prelude.Bits.Step.{bit_and_step, bit_or_step}

or_half : (a b : ℕ) → bit_or a b / 2 ≡ bit_or (a / 2) (b / 2)
or_half a b = omega (arith, bit_or_step a b)

or_low : (a b : ℕ) → bit_or a b % 2 ≡ max (a % 2) (b % 2)
or_low a b = omega (arith, bit_or_step a b)

next_digit :
    (x a b : ℕ)
    → bit_and x (bit_or a b)
      ≡ bit_and (x / 2) (bit_or (a / 2) (b / 2)) * 2 + min (x % 2) (max (a % 2) (b % 2))
next_digit x a b =
    bit_and_step x (bit_or a b)
    ∙ ap₂ (λ h l. bit_and (x / 2) h * 2 + min (x % 2) l) (or_half a b) (or_low a b)

-- What is masked out by two masks together is masked out by each.
pub bit_and-or_zero :
    (fuel x a b : ℕ)
    → a ≤ fuel
    → b ≤ fuel
    → (bit_and x (bit_or a b) ≡ 0) ↔ ((bit_and x a ≡ 0) × (bit_and x b ≡ 0))
bit_and-or_zero zero x zero zero ha hb = (λ e. (e, e), λ e. e.0)
bit_and-or_zero zero x (suc a) b ha hb = absurd (omega arith)
bit_and-or_zero zero x zero (suc b) ha hb = absurd (omega arith)
bit_and-or_zero (suc fuel) x a b ha hb =
    let after = bit_and-or_zero fuel (x / 2) (a / 2) (b / 2) (omega arith) (omega arith) in
    (
      λ e. (
        omega
            (arith, next_digit x a b, bit_and_step x a, after.0 (omega (arith, next_digit x a b))),
        omega
            (arith, next_digit x a b, bit_and_step x b, after.0 (omega (arith, next_digit x a b))),
      ),
      λ e. omega (
        arith,
        next_digit x a b,
        bit_and_step x a,
        bit_and_step x b,
        after.1 (omega (arith, bit_and_step x a), omega (arith, bit_and_step x b)),
      ),
    )

pub bit_and_comm : (x y : ℕ) → bit_and x y ≡ bit_and y x
bit_and_comm x y = go (x + y) x y (omega arith)
  where
    go : (fuel x y : ℕ) → x + y ≤ fuel → bit_and x y ≡ bit_and y x
    go fuel zero y h = zero-bit_and y ∙ sym (bit_and-zero y)
    go fuel (suc x) zero h = bit_and-zero (suc x) ∙ sym (zero-bit_and (suc x))
    go zero (suc x) (suc y) h = absurd (omega arith)
    go (suc fuel) (suc x) (suc y) h = omega (
      arith,
      bit_and_step (suc x) (suc y),
      bit_and_step (suc y) (suc x),
      go fuel (suc x / 2) (suc y / 2) (omega arith),
    )

-- What is not masked out stays so when more bits are set.
module _ (m x y : ℕ) where
  joined : bit_and (bit_or x y) m ≡ 0 → (bit_and x m ≡ 0) × (bit_and y m ≡ 0)
  joined e =
      let both =
        (bit_and-or_zero (x + y) m x y (omega arith) (omega arith)).0
          (bit_and_comm m (bit_or x y) ∙ e) in
      (bit_and_comm x m ∙ both.0, bit_and_comm y m ∙ both.1)

  pub bit_or-keeps_left : bit_and x m ≢ 0 → bit_and (bit_or x y) m ≢ 0
  bit_or-keeps_left h e = h (joined e).0

  pub bit_or-keeps_right : bit_and y m ≢ 0 → bit_and (bit_or x y) m ≢ 0
  bit_or-keeps_right h e = h (joined e).1

-- The two lowest bits of a word under a mask, and of one with bits set.
pub bit_and-low :
    (a b : ℕ)
    → (bit_and a b % 2 ≡ min (a % 2) (b % 2)) × (bit_and a b / 2 % 2 ≡ min (a / 2 % 2) (b / 2 % 2))
bit_and-low a b = omega (arith, bit_and_step a b, bit_and_step (a / 2) (b / 2))

pub bit_or-low :
    (a b : ℕ)
    → (bit_or a b % 2 ≡ max (a % 2) (b % 2)) × (bit_or a b / 2 % 2 ≡ max (a / 2 % 2) (b / 2 % 2))
bit_or-low a b = omega (arith, bit_or_step a b, bit_or_step (a / 2) (b / 2))
