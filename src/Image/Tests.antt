-- ===== src/Image/Tests.antt =====
-- The parts of host/image at concrete images, over a simple implementation of the parsers of `nom`.
use usbarmory_rust.Prelude.{
  ℕ, zero, suc, ◌+◌, ◌-◌, ◌/◌, ◌%◌, ◌^◌, ◌≡◌, refl, true, false, Option, none, some, [], ◌∷◌, ◌++◌,
  arith, ltb, ◌==◌, if◌then◌else◌, lt→ltb, length, drop,
}
use usbarmory_rust.Prelude.Bytes.{Bytes, of_be16, of_be32, of_le32}
use usbarmory_rust.Prelude.Outcome.{ok, err, panic, ◌>>=◌}
use usbarmory_rust.Image.Dcd.{
  Parameter, CommandHeader, b2, clear_bitmask, Dcd, command_tag, write_command_header,
}
use usbarmory_rust.Image.Ddr.{init_ddr}
use usbarmory_rust.Image.Nom.{nom_error, IResult, BitInput, BitResult, Nom, IsNom}
use usbarmory_rust.Image.Write.{Image, write}
use usbarmory_rust.Image.Read.{parse, parse_command_header, parse_dcd}
use usbarmory_rust.Image.RoundTrip.Commands.{reread_header, parse_command_header-write}
use usbarmory_rust.Image.RoundTrip.Dcd.{dcd_bytes, parsed, parse_dcd-write}
use usbarmory_rust.Image.RoundTrip.Whole.{read_as, parse-write}
use usbarmory_rust.Image.Fits.{write_fits}

abbrev word : (ℕ → ℕ → ℕ → ℕ → ℕ) → Bytes → IResult ℕ
word f (a ∷ b ∷ c ∷ d ∷ rest) = ok (rest, f a b c d)
word f _ = err nom_error

abbrev half : Bytes → IResult ℕ
half (a ∷ b ∷ rest) = ok (rest, of_be16 a b)
half _ = err nom_error

abbrev byte : Bytes → IResult ℕ
byte (a ∷ rest) = ok (rest, a)
byte _ = err nom_error

abbrev strip : Bytes → Bytes → Option Bytes
strip [] input = some input
strip (t ∷ ts) [] = none
strip (t ∷ ts) (b ∷ input) = if t == b then strip ts input else none

abbrev tagged : Bytes → Option Bytes → IResult Bytes
tagged t none = err nom_error
tagged t (some rest) = ok (rest, t)

abbrev or_else : IResult Bytes → IResult Bytes → IResult Bytes
or_else (ok r) q = ok r
or_else (err e) q = q
or_else panic q = panic

abbrev bytes_after : BitInput → Bytes
bytes_after (rest, zero) = rest
bytes_after (rest, suc o) = drop 1 rest

abbrev run_bits : (BitInput → BitResult Parameter) → Bytes → IResult Parameter
run_bits p input = do (rest, x) ← p (input, 0); ok (bytes_after rest, x)

abbrev some_bits : ℕ → BitInput → BitResult ℕ
some_bits c ([], o) = err nom_error
some_bits c (b ∷ rest, o) =
    if ltb (o + c) 8
    then ok ((b ∷ rest, o + c), b / 2 ^ (8 - (o + c)) % 2 ^ c)
    else if o + c == 8
    then ok ((rest, 0), b % 2 ^ c)
    else err nom_error

abbrev same_bits : ℕ → ℕ → BitInput → BitResult ℕ
same_bits v c input = do
  (rest, x) ← some_bits c input
  if x == v then ok (rest, x) else err nom_error

abbrev simple : Nom Parameter
simple = record {
  le_u32 = word of_le32;
  be_u32 = word of_be32;
  be_u16 = half;
  be_u8 = byte;
  tag = λ t input. tagged t (strip t input);
  alt = λ p q input. or_else (p input) (q input);
  bits = run_bits;
  take_bits = some_bits;
  tag_bits = same_bits;
}

==-same : (n : ℕ) → (n == n) ≡ true
==-same n = ground arith

strip-append : (t rest : Bytes) → strip t (t ++ rest) ≡ some rest
strip-append [] rest = refl
strip-append (b ∷ t) rest = rw (==-same b) (strip-append t rest)

last_bits : (n : ℕ) → n ≡ 8 → (ltb n 8 ≡ false) × ((n == 8) ≡ true)
last_bits n e = (ground arith, ground arith)

simple-IsNom : IsNom simple
simple-IsNom = record {
  le_u32_lem = λ a b c d rest. refl;
  be_u32_lem = λ a b c d rest. refl;
  be_u16_lem = λ a b rest. refl;
  tag_lem = λ t rest. rw (strip-append t rest) refl;
  alt-ok = λ p q input e. rw e refl;
  bits-ok = λ p input rest x e. rw e refl;
  take_bits-part = λ c o b rest h. rw (lt→ltb _ _ h) refl;
  take_bits-end = λ c o b rest h. rw (last_bits (o + c) h).0 (rw (last_bits (o + c) h).1 refl);
  tag_bits-ok = λ v c input rest e. rw (e, ==-same v) refl;
}

abbrev two_writes : Dcd
two_writes = record {
  writes =
      record { address = 0x020e_04b4; value = 0x000c_0000 }
      ∷ record { address = 0x021b_001c; value = 0x8000 }
      ∷ [];
}

abbrev sample : Image
sample = record { app = 1 ∷ 2 ∷ 3 ∷ []; dcd = some two_writes; entry = 0x8000_0800 }

abbrev written : Bytes
written = (write_fits sample (omega arith) (omega arith)).0

abbrev cleared : CommandHeader
cleared = record {
  tag = command_tag;
  length = 12;
  parameter = record { bytes = b2; flags = clear_bitmask };
}

parse_command_header-write_example :
    parse_command_header simple (write_command_header cleared ++ (9 ∷ []))
    ≡ ok (9 ∷ [], reread_header cleared)
parse_command_header-write_example =
    parse_command_header-write simple simple-IsNom cleared (9 ∷ []) refl (omega arith)

parse_dcd-write_test :
    parse_dcd simple (dcd_bytes two_writes.writes ++ (7 ∷ []))
    ≡ ok (7 ∷ [], parsed two_writes.writes)
parse_dcd-write_test =
    parse_dcd-write simple simple-IsNom two_writes.writes (7 ∷ [])
      (omega arith, omega arith, (omega arith, omega arith, tt)) (omega arith)

parse-write_example : parse simple written ≡ ok (read_as sample)
parse-write_example =
    parse-write simple simple-IsNom sample written (omega arith)
      (omega arith, (omega arith, omega arith, (omega arith, omega arith, tt)))
      (write_fits sample (omega arith) (omega arith)).1

-- The writes of `init_ddr` fit.
abbrev with_ddr : Image
with_ddr = record { app = 1 ∷ 2 ∷ []; dcd = some init_ddr; entry = 0x8000_0800 }

write_fits_example : (bytes : Bytes) × (write with_ddr ≡ some bytes) × (length bytes ≡ 1024 + 2)
unfolding init_ddr
write_fits_example = write_fits with_ddr (omega arith) (omega arith)
