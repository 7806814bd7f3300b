-- ===== src/Usbd/Indices.antt =====
-- `OneIndices` of firmware/usbarmory/src/usbd/util.rs: the iterator over the bits of a word that are 1.
use native.Mathlib.Nat.{pow-suc, one-le-pow}
use usbarmory_rust.Prelude.Bits.{mod-pow_of_lt}
use usbarmory_rust.Prelude.{
  ℕ, zero, suc, ◌+◌, ◌-◌, ◌*◌, ◌/◌, ◌%◌, ◌^◌, ◌<◌, bit_and, ◌≡◌, refl, sym, ap, ap₂, ◌∙◌, ◌≢◌,
  Option, none, some, List, [], ◌∷◌, map, arith, ℕ_discrete, ◌==◌, if◌then◌else◌,
}
use usbarmory_rust.Prelude.Bits.{◌<<<◌, bit_and_at, bit_and-zero, zero-bit_and, bit_and_mask}

-- `trailing_zeros` of a word that is not zero, of at most so many bits.
abbrev pub trailing_zeros : ℕ → ℕ → ℕ
trailing_zeros zero w = 0
trailing_zeros (suc bits) w =
    let rest = trailing_zeros bits (w / 2) in if w % 2 == 1 then 0 else suc rest

-- `next` on a word of so many bits, 32 in the source: the item, and the word that is left.
unfoldable pub next : ℕ → ℕ → Option (ℕ × ℕ)
next bits inner =
    if inner == 0
    then none
    else (let i = trailing_zeros bits inner in some (i, bit_and inner (2 ^ bits - 1 - (1 <<< i))))

-- A `for` loop over the iterator collects the items; `none` is a loop that has not ended after `n`
-- calls of `next`.
abbrev cons : ℕ → Option (List ℕ) → Option (List ℕ)
cons i none = none
cons i (some is) = some (i ∷ is)

unfoldable pub collect : ℕ → ℕ → ℕ → Option (List ℕ)
unfolding next
collect bits zero inner = none
collect bits (suc n) inner = elim (next bits inner) [
  | none ↦ some []
  | some item ↦ cons item.0 (collect bits n item.1)
]

-- The bits of a word that are 1, from the lowest on.
abbrev pub ones : ℕ → ℕ → List ℕ
ones zero w = []
ones (suc bits) w = let rest = map suc (ones bits (w / 2)) in if w % 2 == 1 then 0 ∷ rest else rest

odd-mask : (k w : ℕ) → w < 2 ^ suc k → w % 2 ≡ 1 → bit_and w (2 ^ suc k - 1 - 1) ≡ w - 1
odd-mask k w small odd = omega (
  arith,
  pow-suc 2 k,
  bit_and_at 1 w (2 ^ suc k - 1 - 1),
  ap (bit_and (w / 2)) {x = (2 ^ suc k - 1 - 1) / 2} {y = 2 ^ k - 1} (omega (arith, pow-suc 2 k)),
  bit_and_mask k (w / 2),
  mod-pow_of_lt k (w / 2) (omega (arith, pow-suc 2 k)),
  ap (bit_and (w % 2)) {x = (2 ^ suc k - 1 - 1) % 2} {y = 0} (omega (arith, pow-suc 2 k)),
  bit_and-zero (w % 2),
)

even-mask :
    (k i w : ℕ)
    → 2 ^ i < 2 ^ k
    → w % 2 ≡ 0
    → bit_and w (2 ^ suc k - 1 - 2 ^ suc i) ≡ 2 * bit_and (w / 2) (2 ^ k - 1 - 2 ^ i)
even-mask k i w small even = omega (
  arith,
  pow-suc 2 k,
  pow-suc 2 i,
  bit_and_at 1 w (2 ^ suc k - 1 - 2 ^ suc i),
  ap (bit_and (w / 2)) {x = (2 ^ suc k - 1 - 2 ^ suc i) / 2} {y = 2 ^ k - 1 - 2 ^ i}
      (omega (arith, pow-suc 2 k, pow-suc 2 i)),
  ap (λ z. bit_and z ((2 ^ suc k - 1 - 2 ^ suc i) % 2)) even,
  zero-bit_and ((2 ^ suc k - 1 - 2 ^ suc i) % 2),
)

trailing_zeros-odd : (k w : ℕ) → w % 2 ≡ 1 → trailing_zeros (suc k) w ≡ 0
trailing_zeros-odd k w odd = ground arith

trailing_zeros-even :
    (k w : ℕ) → w % 2 ≡ 0 → trailing_zeros (suc k) w ≡ suc (trailing_zeros k (w / 2))
trailing_zeros-even k w even = rw (even) refl

-- The lowest bit that is 1 leaves the word, and no other.
clear-lowest :
    (k w : ℕ)
    → w ≢ 0
    → w < 2 ^ k
    → (bit_and w (2 ^ k - 1 - 2 ^ trailing_zeros k w) + 2 ^ trailing_zeros k w ≡ w)
      × (2 ^ trailing_zeros k w < 2 ^ k)
clear-lowest zero w h small = absurd (h (omega arith))
clear-lowest (suc k) w h small = elim (ℕ_discrete (w % 2) 1) [
  | yes odd ↦
      rw (trailing_zeros-odd k w odd)
        (omega (arith, odd-mask k w small odd), omega (arith, pow-suc 2 k, one-le-pow k 2))
  | no even ↦
      let (sum, low) = clear-lowest k (w / 2) (omega arith) (omega (arith, pow-suc 2 k)) in
      rw (trailing_zeros-even k w (omega arith)) (
        omega (
          arith,
          even-mask k (trailing_zeros k (w / 2)) w low (omega arith),
          pow-suc 2 (trailing_zeros k (w / 2)),
        ),
        omega (arith, pow-suc 2 k, pow-suc 2 (trailing_zeros k (w / 2))),
      )
]

abbrev lists : Option (List ℕ) → Option (List ℕ)
lists none = none
lists (some is) = some (map suc is)

lists-cons : (i : ℕ) (o : Option (List ℕ)) → cons (suc i) (lists o) ≡ lists (cons i o)
lists-cons i none = refl
lists-cons i (some is) = refl

abbrev left : ℕ → ℕ → ℕ
left k w = bit_and w (2 ^ k - 1 - 2 ^ trailing_zeros k w)

collect-some :
    (k n w : ℕ) → w ≢ 0 → collect k (suc n) w ≡ cons (trailing_zeros k w) (collect k n (left k w))
unfolding collect next
collect-some k n w h = ground arith

collect-none : (k n w : ℕ) → w ≡ 0 → collect k (suc n) w ≡ some []
unfolding collect next
collect-none k n w e = rw (e) refl

module _ (k v : ℕ) (some_left : v ≢ 0) (small : v < 2 ^ k) where
  double-zeros : trailing_zeros (suc k) (2 * v) ≡ suc (trailing_zeros k v)
  double-zeros =
      trailing_zeros-even k (2 * v) (omega arith)
      ∙ ap (λ w. suc (trailing_zeros k w)) {x = 2 * v / 2} {y = v} (omega arith)

  double-left : left (suc k) (2 * v) ≡ 2 * left k v
  double-left =
      ap (λ i. bit_and (2 * v) (2 ^ suc k - 1 - 2 ^ i)) double-zeros
      ∙ (even-mask k (trailing_zeros k v) (2 * v) (clear-lowest k v some_left small).1 (omega arith)
          ∙ ap (λ w. 2 * bit_and w (2 ^ k - 1 - 2 ^ trailing_zeros k v)) {x = 2 * v / 2} {y = v}
              (omega arith))

-- The items of an even word are those of its half, one higher each.
collect-even : (k n v : ℕ) → v < 2 ^ k → collect (suc k) n (2 * v) ≡ lists (collect k n v)
unfolding collect
collect-even k zero v small = refl
collect-even k (suc n) v small = elim (ℕ_discrete v 0) [
  | yes no_bits ↦
      collect-none (suc k) n (2 * v) (omega arith) ∙ ap lists (sym (collect-none k n v no_bits))
  | no some_left ↦
      collect-some (suc k) n (2 * v) (omega arith)
      ∙ (ap₂ (λ i w. cons i (collect (suc k) n w)) (double-zeros k v some_left small)
            (double-left k v some_left small)
          ∙ (ap (cons (suc (trailing_zeros k v)))
                (collect-even k n (left k v) (omega (arith, clear-lowest k v some_left small)))
              ∙ (lists-cons (trailing_zeros k v) (collect k n (left k v))
                  ∙ ap lists (sym (collect-some k n v some_left)))))
]

ones-odd : (k w : ℕ) → w % 2 ≡ 1 → ones (suc k) w ≡ 0 ∷ map suc (ones k (w / 2))
ones-odd k w odd = ground arith

ones-even : (k w : ℕ) → w % 2 ≡ 0 → ones (suc k) w ≡ map suc (ones k (w / 2))
ones-even k w even = rw (even) refl

odd-left : (k w : ℕ) → w < 2 ^ suc k → w % 2 ≡ 1 → left (suc k) w ≡ 2 * (w / 2)
odd-left k w small odd =
    ap (λ i. bit_and w (2 ^ suc k - 1 - 2 ^ i)) (trailing_zeros-odd k w odd)
    ∙ omega (arith, odd-mask k w small odd)

-- A loop over the iterator ends after a call of `next` for each bit of the word's width and one more
-- at most, and it has had the indices of the bits that are 1, from the lowest on.
pub collect-ones :
    (bits calls w : ℕ) → w < 2 ^ bits → bits < calls → collect bits calls w ≡ some (ones bits w)
collect-ones bits zero w small more = absurd (omega arith)
collect-ones zero (suc n) w small more = collect-none zero n w (omega arith)
collect-ones (suc k) (suc n) w small more = elim (ℕ_discrete (w % 2) 1) [
  | yes odd ↦
      collect-some (suc k) n w (λ e. omega (arith, e, odd))
      ∙ (ap₂ (λ i v. cons i (collect (suc k) n v)) (trailing_zeros-odd k w odd)
            (odd-left k w small odd)
          ∙ (ap (cons 0) (
                collect-even k n (w / 2) half
                ∙ ap lists (collect-ones k n (w / 2) half (omega arith)))
              ∙ ap some (sym (ones-odd k w odd))))
  | no even ↦
      ap (collect (suc k) (suc n)) {x = w} {y = 2 * (w / 2)} (omega arith)
      ∙ (collect-even k (suc n) (w / 2) half
          ∙ (ap lists (collect-ones k (suc n) (w / 2) half (omega arith))
              ∙ ap some (sym (ones-even k w (omega arith)))))
]
  where
    half : w / 2 < 2 ^ k
    half = omega (arith, pow-suc 2 k)
