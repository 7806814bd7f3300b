-- ===== src/Image/Nom.antt =====
-- The parsers of the `nom` library that host/image uses, as a parameter: the operations, and what
-- their documentation says of them.
use usbarmory_rust.Prelude.{ℕ, ◌+◌, ◌-◌, ◌/◌, ◌%◌, ◌^◌, ◌<◌, ◌≡◌, ◌∷◌, ◌++◌}
use usbarmory_rust.Prelude.Bytes.{Bytes, of_be16, of_be32, of_le32}
use usbarmory_rust.Prelude.Outcome.{Outcome, ok}

-- An `Err` of nom carries nothing that the program looks at. `out_of_fuel` is the model's own: a
-- loop that did not end.
pub data ParseError : Type 0 where
  nom_error out_of_fuel : ParseError

-- `IResult`: the rest of the input beside the value.
abbrev pub IResult : Type 0 → Type 0
IResult A = Outcome ParseError (Bytes × A)

-- The input of a bit parser: bytes, and how many bits of the first are used up.
abbrev pub BitInput : Type 0
BitInput = Bytes × ℕ

abbrev pub BitResult : Type 0 → Type 0
BitResult A = Outcome ParseError (BitInput × A)

-- `P` is the type that the crate parses by bits.
pub record Nom (P : Type 0) : Type 0 where
  pub le_u32 : Bytes → IResult ℕ
  pub be_u32 : Bytes → IResult ℕ
  pub be_u16 : Bytes → IResult ℕ
  pub be_u8 : Bytes → IResult ℕ
  pub tag : Bytes → Bytes → IResult Bytes
  pub alt : (Bytes → IResult Bytes) → (Bytes → IResult Bytes) → Bytes → IResult Bytes
  pub bits : (BitInput → BitResult P) → Bytes → IResult P
  pub take_bits : ℕ → BitInput → BitResult ℕ
  pub tag_bits : ℕ → ℕ → BitInput → BitResult ℕ

pub record IsNom {P : Type 0} (nom : Nom P) : Type 0 where
  pub le_u32_lem :
      (a b c d : ℕ) (rest : Bytes) → nom.le_u32 (a ∷ b ∷ c ∷ d ∷ rest) ≡ ok (rest, of_le32 a b c d)
  pub be_u32_lem :
      (a b c d : ℕ) (rest : Bytes) → nom.be_u32 (a ∷ b ∷ c ∷ d ∷ rest) ≡ ok (rest, of_be32 a b c d)
  pub be_u16_lem : (a b : ℕ) (rest : Bytes) → nom.be_u16 (a ∷ b ∷ rest) ≡ ok (rest, of_be16 a b)
  pub tag_lem : (t rest : Bytes) → nom.tag t (t ++ rest) ≡ ok (rest, t)
  pub alt-ok :
      (p q : Bytes → IResult Bytes) (input : Bytes) {r : Bytes × Bytes}
      → p input ≡ ok r
      → nom.alt p q input ≡ ok r
  -- A bit parser that has used up the byte ends at the next one.
  pub bits-ok :
      (p : BitInput → BitResult P) (input rest : Bytes) (x : P)
      → p (input, 0) ≡ ok ((rest, 0), x)
      → nom.bits p input ≡ ok (rest, x)
  -- `c` bits from bit `o` of the byte on, the highest first, with the byte used up or not.
  pub take_bits-part :
      (c o b : ℕ) (rest : Bytes)
      → o + c < 8
      → nom.take_bits c (b ∷ rest, o) ≡ ok ((b ∷ rest, o + c), b / 2 ^ (8 - (o + c)) % 2 ^ c)
  pub take_bits-end :
      (c o b : ℕ) (rest : Bytes)
      → o + c ≡ 8
      → nom.take_bits c (b ∷ rest, o) ≡ ok ((rest, 0), b % 2 ^ c)
  pub tag_bits-ok :
      (v c : ℕ) (input rest : BitInput)
      → nom.take_bits c input ≡ ok (rest, v)
      → nom.tag_bits v c input ≡ ok (rest, v)
