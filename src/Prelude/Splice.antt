-- ===== src/Prelude/Splice.antt =====
-- Lists that are put together and taken apart at a known length.
use Prim.Native.Nat.{ℕ, zero, suc, ◌+◌, ◌≤◌}
use mathlib.Core.Path.{◌≡◌, refl, ap}
use mathlib.Core.List.{List, [], ◌∷◌, ◌++◌}
use native.Mathlib.Omega.{arith}
use usbarmory_rust.Prelude.Lists.{length, take, drop, set}

module _ {ℓ} {A : Type ℓ} where
  pub take-append : (xs ys : List A) (n : ℕ) → n ≡ length xs → take n (xs ++ ys) ≡ xs
  take-append [] ys zero e = refl
  take-append [] ys (suc n) e = absurd (omega arith)
  take-append (x ∷ xs) ys zero e = absurd (omega arith)
  take-append (x ∷ xs) ys (suc n) e = ap (λ t. x ∷ t) (take-append xs ys n (omega arith))

  pub drop-append : (xs ys : List A) (n k : ℕ) → n ≡ length xs + k → drop n (xs ++ ys) ≡ drop k ys
  drop-append [] ys n k e = ap (λ m. drop m ys) (omega arith)
  drop-append (x ∷ xs) ys zero k e = absurd (omega arith)
  drop-append (x ∷ xs) ys (suc n) k e = drop-append xs ys n k (omega arith)

  pub set-append :
      (xs ys : List A) (n k : ℕ) (v : A) → n ≡ length xs + k → set (xs ++ ys) n v ≡ xs ++ set ys k v
  set-append [] ys n k v e = ap (λ m. set ys m v) (omega arith)
  set-append (x ∷ xs) ys zero k v e = absurd (omega arith)
  set-append (x ∷ xs) ys (suc n) k v e = ap (λ t. x ∷ t) (set-append xs ys n k v (omega arith))

  pub take-all : (xs : List A) (n : ℕ) → length xs ≤ n → take n xs ≡ xs
  take-all [] zero h = refl
  take-all [] (suc n) h = refl
  take-all (x ∷ xs) zero h = absurd (omega arith)
  take-all (x ∷ xs) (suc n) h = ap (λ t. x ∷ t) (take-all xs n (omega arith))
