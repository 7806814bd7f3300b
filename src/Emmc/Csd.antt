-- ===== src/Emmc/Csd.antt =====
-- `Csd` of firmware/usbarmory/src/emmc/card.rs: the fields that are taken out of the register CSD.
use usbarmory_rust.Prelude.{
  ℕ, ◌+◌, ◌-◌, ◌*◌, ◌/◌, ◌%◌, ◌^◌, ◌<◌, bit_and, ◌≡◌, ap, ◌∙◌, arith, ◌==◌, if◌then◌else◌,
}
use usbarmory_rust.Prelude.Bits.{◌>>>◌, bit_and_mask}

pub record Csd : Type 0 where
  pub read_block_size_log2 : ℕ
  pub size : ℕ
  pub size_mult : ℕ
  pub spec_vers : ℕ
  pub write_block_size_log2 : ℕ

-- The four words of the response, `rsps`.
pub record Rsps : Type 0 where
  pub rsp0 : ℕ
  pub rsp1 : ℕ
  pub rsp2 : ℕ
  pub rsp3 : ℕ

abbrev word : Rsps → ℕ → ℕ
word r i = if i == 0 then r.rsp0 else if i == 1 then r.rsp1 else if i == 2 then r.rsp2 else r.rsp3

-- The closure `extract`: the word that has the offset's bit, shifted and masked.
abbrev extract : Rsps → ℕ → ℕ → ℕ
extract r offset mask = bit_and (word r ((offset - 8) / 32) >>> ((offset - 8) % 32)) mask

-- `Csd::from`, with the casts to `u8` and `u16`
unfoldable pub from : Rsps → Csd
from r = record {
  read_block_size_log2 = extract r 80 0b1111 % 2 ^ 8;
  size = extract r 62 (2 ^ 12 - 1) % 2 ^ 16;
  size_mult = extract r 47 0b111 % 2 ^ 8;
  spec_vers = extract r 122 0b1111 % 2 ^ 8;
  write_block_size_log2 = extract r 22 0b1111 % 2 ^ 8;
}

pub record IsRsps (r : Rsps) : Type 0 where
  pub word0 : r.rsp0 < 2 ^ 32
  pub word1 : r.rsp1 < 2 ^ 32
  pub word2 : r.rsp2 < 2 ^ 32
  pub word3 : r.rsp3 < 2 ^ 32

-- The register from its bit 8 on, as one number, and a field of it by its place in the register.
abbrev pub register : Rsps → ℕ
register r = r.rsp0 + r.rsp1 * 2 ^ 32 + r.rsp2 * 2 ^ 64 + r.rsp3 * 2 ^ 96

abbrev pub field : Rsps → ℕ → ℕ → ℕ
field r offset width = register r / 2 ^ (offset - 8) % 2 ^ width

cut : (x : ℕ) → bit_and x (2 ^ 4 - 1) % 2 ^ 8 ≡ x % 2 ^ 4
cut x = ap (λ n. n % 2 ^ 8) (bit_and_mask 4 x) ∙ omega arith

cut_mult : (x : ℕ) → bit_and x (2 ^ 3 - 1) % 2 ^ 8 ≡ x % 2 ^ 3
cut_mult x = ap (λ n. n % 2 ^ 8) (bit_and_mask 3 x) ∙ omega arith

wide : (x : ℕ) → bit_and x (2 ^ 12 - 1) % 2 ^ 16 ≡ x % 2 ^ 12
wide x = ap (λ n. n % 2 ^ 16) (bit_and_mask 12 x) ∙ omega arith

-- The fields are those of the register, but for the size, of which the two highest bits are lost:
-- it is the field's value modulo 2^10.
pub from-fields :
    (r : Rsps)
    → IsRsps r
    → ((from r).spec_vers ≡ field r 122 4)
      × ((from r).read_block_size_log2 ≡ field r 80 4)
      × ((from r).write_block_size_log2 ≡ field r 22 4)
      × ((from r).size_mult ≡ field r 47 3)
      × ((from r).size ≡ field r 62 12 % 2 ^ 10)
unfolding from
from-fields r v = (
  cut (r.rsp3 >>> 18) ∙ in_word3,
  cut (r.rsp2 >>> 8) ∙ in_word2,
  cut (r.rsp0 >>> 14) ∙ in_word0,
  cut_mult (r.rsp1 >>> 7) ∙ in_word1,
  wide (r.rsp1 >>> 22) ∙ in_words,
)
  where
    in_word3 : r.rsp3 / 2 ^ 18 % 2 ^ 4 ≡ field r 122 4
    in_word3 = omega arith

    in_word2 : r.rsp2 / 2 ^ 8 % 2 ^ 4 ≡ field r 80 4
    in_word2 = omega arith

    in_word0 : r.rsp0 / 2 ^ 14 % 2 ^ 4 ≡ field r 22 4
    in_word0 = omega arith

    in_word1 : r.rsp1 / 2 ^ 7 % 2 ^ 3 ≡ field r 47 3
    in_word1 = omega arith

    in_words : r.rsp1 / 2 ^ 22 % 2 ^ 12 ≡ field r 62 12 % 2 ^ 10
    in_words = omega arith
