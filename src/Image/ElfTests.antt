-- ===== src/Image/ElfTests.antt =====
-- The image of an ELF file with a section in DRAM and a segment that is loaded there for OCRAM.
use usbarmory_rust.Image.Elf.{
  Symtab, not_found, symbols, ElfFile, symtab_not_found, start_not_found, Piece, pieces, extent,
  from_elf,
}
use usbarmory_rust.Image.Placed.{IsWhole, from_elf-places}
use usbarmory_rust.Image.Slices.{slice}
use usbarmory_rust.Image.Write.{Image, dram_start}
use usbarmory_rust.Prelude.{
  ℕ, ◌+◌, ◌-◌, ◌≤◌, ◌≡◌, refl, inl, true, false, none, some, [], ◌∷◌, arith, length,
}
use usbarmory_rust.Prelude.Outcome.{ok, err}

abbrev text_piece : Piece
text_piece = record { addr = dram_start + 16; size = 4; bytes = some (1 ∷ 2 ∷ 3 ∷ 4 ∷ []) }

abbrev data_piece : Piece
data_piece = record { addr = dram_start + 24; size = 2; bytes = some (5 ∷ 6 ∷ []) }

abbrev elf_with : Symtab → ElfFile
elf_with symtab = record {
  sections =
      record {
        name = some ".text";
        address = dram_start + 16;
        size = 4;
        raw_data = 1 ∷ 2 ∷ 3 ∷ 4 ∷ [];
      }
      ∷ record { name = some ".bss"; address = dram_start + 32; size = 4; raw_data = [] }
      ∷ record { name = none; address = dram_start; size = 4; raw_data = [] }
      ∷ [];
  segments =
      record {
        is_load = true;
        physical_addr = dram_start + 24;
        virtual_addr = 0x0090_0000;
        mem_size = 2;
        get_data = some (5 ∷ 6 ∷ []);
      }
      ∷ record {
        is_load = false;
        physical_addr = dram_start;
        virtual_addr = 0x0090_0000;
        mem_size = 2;
        get_data = none;
      }
      ∷ [];
  symtab = symtab;
}

abbrev with_start : Symtab
with_start = symbols (
    record { name = some "main"; value = 7 }
    ∷ record { name = some "_start"; value = dram_start + 16 }
    ∷ [])

pieces_test : pieces (elf_with with_start) ≡ text_piece ∷ data_piece ∷ []
pieces_test = refl

text_piece-IsWhole : IsWhole text_piece (1 ∷ 2 ∷ 3 ∷ 4 ∷ [])
text_piece-IsWhole = record { has_bytes = refl; sized = refl; no_wrap = omega arith }

data_piece-IsWhole : IsWhole data_piece (5 ∷ 6 ∷ [])
data_piece-IsWhole = record { has_bytes = refl; sized = refl; no_wrap = omega arith }

abbrev elf_image : Image
elf_image = record {
  app = 1 ∷ 2 ∷ 3 ∷ 4 ∷ 0 ∷ 0 ∷ 0 ∷ 0 ∷ 5 ∷ 6 ∷ [];
  dcd = none;
  entry = dram_start + 16;
}

from_elf_test : from_elf (elf_with with_start) true ≡ ok elf_image
unfolding from_elf
from_elf_test = refl

from_elf_no_symtab : from_elf (elf_with not_found) true ≡ err symtab_not_found
unfolding from_elf
from_elf_no_symtab = refl

from_elf_no_start : from_elf (elf_with (symbols [])) true ≡ err start_not_found
unfolding from_elf
from_elf_no_start = refl

-- The bytes of the section `.text` are where it is.
from_elf-places_example :
    (image : Image) × (known : ℕ × ℕ) × (extent none (pieces (elf_with with_start)) ≡ some known)
    × (from_elf (elf_with with_start) true ≡ ok image)
    × (image.entry ≡ dram_start + 16)
    × (length image.app ≡ known.1 - known.0)
    × (known.0 ≤ text_piece.addr)
    × (slice (text_piece.addr - known.0) text_piece.size image.app ≡ 1 ∷ 2 ∷ 3 ∷ 4 ∷ [])
from_elf-places_example =
    from_elf-places (elf_with with_start) true [] (data_piece ∷ []) text_piece (1 ∷ 2 ∷ 3 ∷ 4 ∷ [])
      (dram_start + 16) pieces_test ((_, text_piece-IsWhole), ((_, data_piece-IsWhole), tt))
      text_piece-IsWhole (inl (omega arith), tt) refl
