-- ===== src/Image/Slices.antt =====
-- Slices of bytes, and what is left of them when other bytes are put in their place.
use usbarmory_rust.Prelude.Splice.{take-append, drop-append}
use usbarmory_rust.Prelude.{
  ℕ, zero, suc, ◌+◌, ◌-◌, ◌≤◌, ◌≡◌, refl, sym, ap, ◌∙◌, [], ◌∷◌, ◌++◌, arith, length, length-append,
  take, drop, take-append-drop, length-take, length-drop,
}
use usbarmory_rust.Prelude.Bytes.{Bytes}
use usbarmory_rust.Prelude.Splice.{take-append, drop-append}

-- `xs[off..off + n]`
abbrev pub slice : ℕ → ℕ → Bytes → Bytes
slice off n xs = take n (drop off xs)

take-left : (n : ℕ) (xs ys : Bytes) → n ≤ length xs → take n (xs ++ ys) ≡ take n xs
take-left zero xs ys h = refl
take-left (suc n) [] ys h = absurd (omega arith)
take-left (suc n) (x ∷ xs) ys h = ap (λ t. x ∷ t) (take-left n xs ys (omega arith))

slice-left :
    (off n : ℕ) (xs ys : Bytes) → off + n ≤ length xs → slice off n (xs ++ ys) ≡ slice off n xs
slice-left zero n xs ys h = take-left n xs ys (omega arith)
slice-left (suc off) n [] ys h = absurd (omega arith)
slice-left (suc off) n (x ∷ xs) ys h = slice-left off n xs ys (omega arith)

drop-nil : (n : ℕ) → drop {A = ℕ} n [] ≡ []
drop-nil zero = refl
drop-nil (suc n) = refl

drop-drop : (m n : ℕ) (xs : Bytes) → drop n (drop m xs) ≡ drop (m + n) xs
drop-drop zero n xs = ap (λ k. drop k xs) (omega arith)
drop-drop (suc m) n [] = drop-nil n ∙ sym (drop-nil (suc m + n))
drop-drop (suc m) n (x ∷ xs) =
    drop-drop m n xs ∙ ap (λ k. drop k (x ∷ xs)) {x = suc (m + n)} {y = suc m + n} (omega arith)

-- The bytes at an offset are replaced.
abbrev pub splice : ℕ → Bytes → Bytes → Bytes
splice off bytes xs = take off xs ++ (bytes ++ drop (off + length bytes) xs)

module _ (off : ℕ) (bytes xs : Bytes) (fits : off + length bytes ≤ length xs) where
  pub length-splice : length (splice off bytes xs) ≡ length xs
  length-splice = omega (
    arith,
    length-append (take off xs) (bytes ++ drop (off + length bytes) xs),
    length-append bytes (drop (off + length bytes) xs),
    length-take off xs,
    length-drop (off + length bytes) xs,
  )

  pub slice-splice_self : slice off (length bytes) (splice off bytes xs) ≡ bytes
  slice-splice_self =
      ap (take (length bytes)) (
        drop-append (take off xs) (bytes ++ drop (off + length bytes) xs) off 0
          (omega (arith, length-take off xs)))
      ∙ take-append bytes (drop (off + length bytes) xs) (length bytes) refl

  pub slice-splice_below : (o n : ℕ) → o + n ≤ off → slice o n (splice off bytes xs) ≡ slice o n xs
  slice-splice_below o n h =
      slice-left o n (take off xs) (bytes ++ drop (off + length bytes) xs)
        (omega (arith, length-take off xs))
      ∙ (sym (slice-left o n (take off xs) (drop off xs) (omega (arith, length-take off xs)))
          ∙ ap (slice o n) (take-append-drop off xs))

  pub slice-splice_above :
      (o n : ℕ) → off + length bytes ≤ o → slice o n (splice off bytes xs) ≡ slice o n xs
  slice-splice_above o n h =
      let k = o - (off + length bytes) in
      ap (take n) (
        drop-append (take off xs) (bytes ++ drop (off + length bytes) xs) o (length bytes + k)
          (omega (arith, length-take off xs))
        ∙ (drop-append bytes (drop (off + length bytes) xs) (length bytes + k) k refl
            ∙ (drop-drop (off + length bytes) k xs
                ∙ ap (λ m. drop m xs) {x = off + length bytes + k} {y = o} (omega arith))))
