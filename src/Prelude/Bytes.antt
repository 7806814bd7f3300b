-- ===== src/Prelude/Bytes.antt =====
-- `to_be_bytes`, `to_le_bytes` and their inverses, as lists of bytes.
use Prim.Native.Nat.{ℕ, ◌+◌, ◌*◌, ◌/◌, ◌%◌, ◌^◌, ◌<◌}
use mathlib.Core.Path.{◌≡◌}
use mathlib.Core.List.{List, [], ◌∷◌, ◌++◌}
use native.Mathlib.Omega.{arith}

abbrev pub Bytes : Type 0
Bytes = List ℕ

abbrev pub be16 : ℕ → Bytes
be16 x = x / 256 % 256 ∷ x % 256 ∷ []

abbrev pub be32 : ℕ → Bytes
be32 x = x / 16777216 % 256 ∷ x / 65536 % 256 ∷ x / 256 % 256 ∷ x % 256 ∷ []

abbrev pub le16 : ℕ → Bytes
le16 x = x % 256 ∷ x / 256 % 256 ∷ []

abbrev pub le32 : ℕ → Bytes
le32 x = x % 256 ∷ x / 256 % 256 ∷ x / 65536 % 256 ∷ x / 16777216 % 256 ∷ []

-- The number that big-endian bytes stand for, and that little-endian ones do.
abbrev pub of_be16 : ℕ → ℕ → ℕ
of_be16 a b = a * 256 + b

abbrev pub of_be32 : ℕ → ℕ → ℕ → ℕ → ℕ
of_be32 a b c d = a * 16777216 + b * 65536 + c * 256 + d

abbrev pub of_le32 : ℕ → ℕ → ℕ → ℕ → ℕ
of_le32 a b c d = of_be32 d c b a

module _ (x : ℕ) where
  pub of_be16-be16 : x < 2 ^ 16 → of_be16 (x / 256 % 256) (x % 256) ≡ x
  of_be16-be16 h = omega arith

  pub of_be32-be32 :
      x < 2 ^ 32 → of_be32 (x / 16777216 % 256) (x / 65536 % 256) (x / 256 % 256) (x % 256) ≡ x
  of_be32-be32 h = omega arith

-- Every element is a byte.
abbrev pub AreBytes : Bytes → Type 0
AreBytes [] = Unit {0}
AreBytes (b ∷ bs) = (b < 256) × AreBytes bs

pub AreBytes-append : (xs ys : Bytes) → AreBytes xs → AreBytes ys → AreBytes (xs ++ ys)
AreBytes-append [] ys h k = k
AreBytes-append (x ∷ xs) ys h k = (h.0, AreBytes-append xs ys h.1 k)
