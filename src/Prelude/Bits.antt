-- ===== src/Prelude/Bits.antt =====
-- Shifts and masks on machine words as arithmetic. `bit_and` and `bit_or` compute at numerals; these
-- laws say what they are at variables.
mod Step
pub mod Masks
use Step.{bit_or_step, bit_and_step}
use Prim.Native.Nat.{
  ℕ, zero, suc, ◌+◌, ◌-◌, ◌*◌, ◌/◌, ◌%◌, ◌^◌, ◌≤◌, ◌<◌, min, max, bit_and, bit_or, bit_and-bitwise,
  bit_or-bitwise,
}
use mathlib.Core.Path.{◌≡◌, refl, ap, ap₂, ◌∙◌}
use native.Mathlib.Nat.{pow-suc, one-le-pow, mul-mod_left}
use native.Mathlib.Omega.{arith}

-- Shifts of a word that is wide enough for the result.
infixl 75 ◌<<<◌ ◌>>>◌
abbrev pub ◌<<<◌ : ℕ → ℕ → ℕ
x <<< k = x * 2 ^ k

abbrev pub ◌>>>◌ : ℕ → ℕ → ℕ
x >>> k = x / 2 ^ k

double : (q k : ℕ) → q * 2 ^ suc k ≡ 2 * (q * 2 ^ k)
double q k = omega (arith, ap (λ (t : ℕ). q * t) (pow-suc 2 k))

-- High parts and low parts of `k` bits do not meet: one law for both operations.
module _ (op combine : ℕ → ℕ → ℕ)
    (op_step : (x y : ℕ) → op x y ≡ op (x / 2) (y / 2) * 2 + combine (x % 2) (y % 2))
    (op_zero : op 0 0 ≡ 0) where
  parts :
      (k a x b y : ℕ)
      → x < 2 ^ k
      → y < 2 ^ k
      → op (a * 2 ^ k + x) (b * 2 ^ k + y) ≡ op a b * 2 ^ k + op x y
  parts zero a x b y p q =
      omega (arith, op_zero, ap₂ op (no_low a x p) (no_low b y q), ap₂ op (gone x p) (gone y q))
    where
      no_low : (c z : ℕ) → z < 1 → c * 1 + z ≡ c
      no_low c z h = omega arith

      gone : (z : ℕ) → z < 1 → z ≡ 0
      gone z h = omega arith
  parts (suc k) a x b y p q = omega (
    arith,
    op_step (a * 2 ^ suc k + x) (b * 2 ^ suc k + y),
    op_step x y,
    parts k a (x / 2) b (y / 2) (omega (arith, pow-suc 2 k)) (omega (arith, pow-suc 2 k)),
    double a k,
    double b k,
    double (op a b) k,
    ap₂ op (half a x) (half b y),
    ap₂ combine (low a x) (low b y),
  )
    where
      half : (c z : ℕ) → (c * 2 ^ suc k + z) / 2 ≡ c * 2 ^ k + z / 2
      half c z = omega (arith, double c k)

      low : (c z : ℕ) → (c * 2 ^ suc k + z) % 2 ≡ z % 2
      low c z = omega (arith, double c k)

-- `&` and `|` at a cut between bits `k - 1` and `k`.
module _ (k x y : ℕ) where
  cut : (z : ℕ) → z ≡ z / 2 ^ k * 2 ^ k + z % 2 ^ k
  cut z = grind (arith, one-le-pow k 2)

  under : (z : ℕ) → z % 2 ^ k < 2 ^ k
  under z = grind (arith, one-le-pow k 2)

  pub bit_and_at :
      bit_and x y ≡ bit_and (x / 2 ^ k) (y / 2 ^ k) * 2 ^ k + bit_and (x % 2 ^ k) (y % 2 ^ k)
  bit_and_at =
      ap₂ bit_and (cut x) (cut y)
      ∙ parts bit_and min bit_and_step refl k (x / 2 ^ k) (x % 2 ^ k) (y / 2 ^ k) (y % 2 ^ k)
          (under x) (under y)

  pub bit_or_at :
      bit_or x y ≡ bit_or (x / 2 ^ k) (y / 2 ^ k) * 2 ^ k + bit_or (x % 2 ^ k) (y % 2 ^ k)
  bit_or_at =
      ap₂ bit_or (cut x) (cut y)
      ∙ parts bit_or max bit_or_step refl k (x / 2 ^ k) (x % 2 ^ k) (y / 2 ^ k) (y % 2 ^ k)
          (under x) (under y)

pub bit_and-zero : (x : ℕ) → bit_and x 0 ≡ 0
bit_and-zero x = go x x (omega arith)
  where
    go : (n z : ℕ) → z ≤ n → bit_and z 0 ≡ 0
    go n zero h = refl
    go zero (suc z) h = absurd (omega arith)
    go (suc n) (suc z) h = omega (arith, bit_and_step (suc z) 0, go n (suc z / 2) (omega arith))

pub bit_or-zero : (x : ℕ) → bit_or x 0 ≡ x
bit_or-zero x = go x x (omega arith)
  where
    go : (n z : ℕ) → z ≤ n → bit_or z 0 ≡ z
    go n zero h = refl
    go zero (suc z) h = absurd (omega arith)
    go (suc n) (suc z) h = omega (arith, bit_or_step (suc z) 0, go n (suc z / 2) (omega arith))

pub zero-bit_and : (x : ℕ) → bit_and 0 x ≡ 0
zero-bit_and x = simp bit_and-bitwise

pub zero-bit_or : (x : ℕ) → bit_or 0 x ≡ x
zero-bit_or x = simp bit_or-bitwise

module _ (k : ℕ) where
  pub mul-div-pow : (q : ℕ) → q * 2 ^ k / 2 ^ k ≡ q
  mul-div-pow q = grind (arith, one-le-pow k 2)

  pub mul-mod-pow : (q : ℕ) → q * 2 ^ k % 2 ^ k ≡ 0
  mul-mod-pow q = mul-mod_left q (2 ^ k)

  pub div-pow_of_lt : (r : ℕ) → r < 2 ^ k → r / 2 ^ k ≡ 0
  div-pow_of_lt r h = grind arith

  pub mod-pow_of_lt : (r : ℕ) → r < 2 ^ k → r % 2 ^ k ≡ r
  mod-pow_of_lt r h = grind arith

mask_covers : (k r : ℕ) → r < 2 ^ k → bit_and r (2 ^ k - 1) ≡ r
mask_covers zero r h = omega (arith, bit_and-zero r)
mask_covers (suc k) r h = omega (
  arith,
  pow-suc 2 k,
  one-le-pow k 2,
  bit_and_step r (2 ^ suc k - 1),
  mask_covers k (r / 2) (omega (arith, pow-suc 2 k)),
  ap (bit_and (r / 2)) half,
)
  where
    half : (2 ^ suc k - 1) / 2 ≡ 2 ^ k - 1
    half = omega (arith, pow-suc 2 k, one-le-pow k 2)

-- `x & ((1 << k) - 1)`
pub bit_and_mask : (k x : ℕ) → bit_and x (2 ^ k - 1) ≡ x % 2 ^ k
bit_and_mask k x =
    rw
      (
        bit_and_at k x (2 ^ k - 1),
        div-pow_of_lt k (2 ^ k - 1) below,
        mod-pow_of_lt k (2 ^ k - 1) below,
        bit_and-zero (x / 2 ^ k),
        mask_covers k (x % 2 ^ k) (under k x x x),
      )
      (omega arith)
  where
    below : 2 ^ k - 1 < 2 ^ k
    below = omega (arith, one-le-pow k 2)

-- `x & (((1 << j) - 1) << k)`
pub bit_and_field : (j k x : ℕ) → bit_and x ((2 ^ j - 1) * 2 ^ k) ≡ x / 2 ^ k % 2 ^ j * 2 ^ k
bit_and_field j k x =
    rw
      (
        bit_and_at k x ((2 ^ j - 1) * 2 ^ k),
        mul-div-pow k (2 ^ j - 1),
        mul-mod-pow k (2 ^ j - 1),
        bit_and-zero (x % 2 ^ k),
        bit_and_mask j (x / 2 ^ k),
      )
      (omega arith)

-- `x & (1 << k)`
pub bit_and_flag : (k x : ℕ) → bit_and x (2 ^ k) ≡ x / 2 ^ k % 2 * 2 ^ k
bit_and_flag k x = omega (arith, bit_and_field 1 k x, ap (bit_and x) one)
  where
    one : 2 ^ k ≡ 1 * 2 ^ k
    one = omega arith

-- `(q << k) | r`, where `r` fits the `k` bits below.
pub bit_or_fields : (k q r : ℕ) → r < 2 ^ k → bit_or (q * 2 ^ k) r ≡ q * 2 ^ k + r
bit_or_fields k q r h =
    rw
      (
        bit_or_at k (q * 2 ^ k) r,
        mul-div-pow k q,
        mul-mod-pow k q,
        div-pow_of_lt k r h,
        mod-pow_of_lt k r h,
        bit_or-zero q,
        zero-bit_or r,
      )
      refl

pub bit_or_fields' : (k q r : ℕ) → r < 2 ^ k → bit_or r (q * 2 ^ k) ≡ q * 2 ^ k + r
bit_or_fields' k q r h =
    rw
      (
        bit_or_at k r (q * 2 ^ k),
        mul-div-pow k q,
        mul-mod-pow k q,
        div-pow_of_lt k r h,
        mod-pow_of_lt k r h,
        zero-bit_or q,
        bit_or-zero r,
      )
      refl
