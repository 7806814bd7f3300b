-- ===== src/Usbd/Pages.antt =====
-- The pages of a transfer descriptor as the controller of firmware/usbarmory/src/usbd/dtd.rs reads them.
use usbarmory_rust.Prelude.{
  ℕ, zero, suc, ◌+◌, ◌-◌, ◌*◌, ◌/◌, ◌%◌, ◌^◌, ◌<◌, bit_and, ◌≡◌, List, [], ◌∷◌, arith, get_or,
}
use usbarmory_rust.Prelude.Bits.{bit_and_at, bit_and-zero, bit_and_mask}
use usbarmory_rust.Usbd.Queue.{Dtd, set_pages}

-- Where the controller finds a byte of a buffer, as its manual says: the first page pointer has the
-- offset of the buffer in its page, and the others are pages of 4096 bytes, one after the other.
abbrev pub byte_address : List ℕ → ℕ → ℕ
byte_address pages k =
    let offset = get_or pages 0 0 % 0x1000 + k in
    get_or pages (offset / 0x1000) 0 / 0x1000 * 0x1000 + offset % 0x1000

page_base : (ptr : ℕ) → ptr < 2 ^ 32 → bit_and ptr (2 ^ 32 - 1 - 0xfff) ≡ ptr / 0x1000 * 0x1000
page_base ptr h = omega (
  arith,
  bit_and_at 12 ptr (2 ^ 32 - 1 - 0xfff),
  bit_and_mask 20 (ptr / 0x1000),
  bit_and-zero (ptr % 0x1000),
)

abbrev five : ℕ → List ℕ
five second =
    second
    ∷ (second + 0x1000)
    ∷ (second + 0x1000 + 0x1000)
    ∷ (second + 0x1000 + 0x1000 + 0x1000)
    ∷ []

pick :
    (ptr j : ℕ)
    → ptr < 2 ^ 32
    → j < 5
    → get_or (ptr ∷ five (bit_and ptr (2 ^ 32 - 1 - 0xfff) + 0x1000)) j 0 / 0x1000
      ≡ ptr / 0x1000 + j
pick ptr zero low h = omega arith
pick ptr (suc zero) low h = omega (arith, page_base ptr low)
pick ptr (suc (suc zero)) low h = omega (arith, page_base ptr low)
pick ptr (suc (suc (suc zero))) low h = omega (arith, page_base ptr low)
pick ptr (suc (suc (suc (suc zero)))) low h = omega (arith, page_base ptr low)
pick ptr (suc (suc (suc (suc (suc j))))) low h = absurd (omega arith)

-- The five pages of a descriptor have the bytes of the buffer in order, up to the end of the fifth page.
pub set_pages-bytes :
    (ptr k : ℕ) (d : Dtd)
    → ptr + 0x5000 < 2 ^ 32
    → ptr % 0x1000 + k < 0x5000
    → byte_address (set_pages ptr d).pages k ≡ ptr + k
unfolding set_pages
set_pages-bytes ptr k d low small = omega (arith, picked)
  where
    picked :
        get_or
            (ptr ∷ five (bit_and ptr (2 ^ 32 - 1 - 0xfff) + 0x1000))
            ((ptr % 0x1000 + k) / 0x1000)
            0
          / 0x1000
        ≡ ptr / 0x1000 + (ptr % 0x1000 + k) / 0x1000
    picked = pick ptr ((ptr % 0x1000 + k) / 0x1000) (omega arith) (omega arith)
