-- ===== src/Rtic/Mask.antt =====
-- The priorities of firmware/cortex-a-rtic/src/export.rs as the interrupt controller takes them,
-- and the values that are written to its registers.
use usbarmory_rust.Prelude.{
  ℕ, ◌+◌, ◌-◌, ◌*◌, ◌%◌, ◌^◌, ◌≤◌, ◌<◌, bit_and, bit_or, ◌≡◌, ap, ◌∙◌, ◌↔◌, arith,
}
use usbarmory_rust.Prelude.Bits.{◌<<<◌, ◌>>>◌, bit_and_mask, bit_or_fields}

abbrev pub prio_bits : ℕ
prio_bits = 5

abbrev pub idle_priority : ℕ
idle_priority = 0

abbrev pub max_priority : ℕ
max_priority = 2 ^ prio_bits - 1

-- `logical2hw`, in `u8` arithmetic that wraps
unfoldable pub logical2hw : ℕ → ℕ
logical2hw logical = (2 ^ prio_bits + 2 * 2 ^ 8 - logical - 1) % 2 ^ 8 * 2 ^ (8 - prio_bits) % 2 ^ 8

-- What `set_priority` writes, and to which index of `IPRIORITYR`: the interrupt is cut to a `u8`.
abbrev pub priority_write : ℕ → ℕ → ℕ × ℕ
unfolding logical2hw
priority_write irq logical = (irq % 2 ^ 8, logical2hw logical)

-- What `enable_spi` writes, and to which index of `ISENABLER`.
unfoldable pub enable_write : ℕ → ℕ × ℕ
enable_write spi = ((spi >>> 5) % 2 ^ 8, 1 <<< (spi % 32))

-- What `pend_sgi` writes to `SGIR`.
unfoldable pub sgi_write : ℕ → ℕ
sgi_write sgi = bit_or (2 <<< 24) (bit_and sgi 0b1111)

-- The mask of the controller reverses the order: the higher the logical priority, the lower the
-- number, and no number is that of two priorities.
pub logical2hw-lt :
    (a b : ℕ) → a ≤ max_priority → b ≤ max_priority → (logical2hw a < logical2hw b) ↔ (b < a)
unfolding logical2hw
logical2hw-lt a b ha hb = (λ h. omega arith, λ h. omega arith)

pub logical2hw_bounds : (a : ℕ) → a ≤ max_priority → logical2hw a ≤ 248
unfolding logical2hw
logical2hw_bounds a h = omega arith

-- The bit of a shared interrupt: the word that `enable_spi` writes has only the bit of that
-- interrupt, in the word with the interrupt's number.
pub enable_write-bit :
    (spi : ℕ)
    → spi < 1024
    → ((enable_write spi).0 * 32 + spi % 32 ≡ spi) × ((enable_write spi).1 ≡ 2 ^ (spi % 32))
unfolding enable_write
enable_write-bit spi h = (omega arith, omega arith)

-- The software interrupt in the low four bits of what `pend_sgi` writes.
pub sgi_write-field : (sgi : ℕ) → sgi < 16 → sgi_write sgi ≡ 2 * 2 ^ 24 + sgi
unfolding sgi_write
sgi_write-field sgi h =
    ap (bit_or (2 * 2 ^ 24)) (bit_and_mask 4 sgi)
    ∙ (bit_or_fields 24 2 (sgi % 2 ^ 4) (omega arith) ∙ omega arith)
