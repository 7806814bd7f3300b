-- ===== src/Prelude/Outcome.antt =====
-- How a Rust function ends: it returns `Ok`, it returns `Err`, or it panics. `assert!`, `expect`,
-- `todo!` and an index out of bounds panic; a panic is not caught by the code of this repository.
use mathlib.Core.Path.{◌≡◌, refl, ap}

pub data Outcome {ℓ} (E : Type ℓ) (A : Type ℓ) : Type ℓ where
  ok : A → Outcome E A
  err : E → Outcome E A
  panic : Outcome E A

infixl 5 ◌>>=◌ ◌>>◌
-- The `?` operator, and what follows it.
abbrev pub ◌>>=◌ {ℓ} : {E A B : Type ℓ} → Outcome E A → (A → Outcome E B) → Outcome E B
panic >>= next = panic
err error >>= next = err error
ok value >>= next = next value

-- `map_err`
abbrev pub map_err {ℓ} : {E F A : Type ℓ} → (E → F) → Outcome E A → Outcome F A
map_err op panic = panic
map_err op (err error) = err (op error)
map_err op (ok value) = ok value

abbrev pub ◌>>◌ {ℓ} : {E B : Type ℓ} → Outcome E (Unit {ℓ}) → Outcome E B → Outcome E B
checked >> after = checked >>= λ done. after

pub ok-injective {ℓ} : {E A : Type ℓ} {a b : A} → ◌≡◌ {A = Outcome E A} (ok a) (ok b) → a ≡ b
ok-injective {a = a} h = ap (λ o. elim o [ ok x ↦ x | _ ↦ a ]) h

-- When a chain with `?` ends with `Ok`, so did its first call.
pub >>=-eq-ok {ℓ} :
    {E A B : Type ℓ} (call : Outcome E A) (next : A → Outcome E B) {result : B}
    → (call >>= next) ≡ ok result
    → (value : A) × (call ≡ ok value) × (next value ≡ ok result)
>>=-eq-ok panic next e = cc
>>=-eq-ok (err error) next e = cc
>>=-eq-ok (ok value) next e = (value, refl, e)
