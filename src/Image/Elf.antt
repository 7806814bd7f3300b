-- ===== src/Image/Elf.antt =====
-- `Image::from_elf` of host/image/src/write.rs. What the crate xmas_elf finds in the file is a
-- parameter: the sections, the segments of the program, and the symbols.
use Prim.Native.String.{String}
use text.Mathlib.Text.{◌==◌ as ◌is◌}
use usbarmory_rust.Image.Ddr.{init_ddr}
use usbarmory_rust.Image.Write.{Image, u32_mod, dram_start}
use usbarmory_rust.Prelude.{
  ℕ, ◌+◌, ◌-◌, ◌*◌, ◌%◌, min, max, Bool, false, ◌&&◌, ◌||◌, Option, none, some, List, [], ◌∷◌, ◌++◌,
  ltb, leb, ◌==◌, if◌then◌else◌, length, take, drop, replicate,
}
use usbarmory_rust.Prelude.Bytes.{Bytes}
use usbarmory_rust.Prelude.Outcome.{Outcome, ok, err, panic, ◌>>=◌, ◌>>◌}

-- A section: its name, if that can be read, its address and size, and the bytes in the file.
pub record Section : Type 0 where
  pub name : Option String
  pub address : ℕ
  pub size : ℕ
  pub raw_data : Bytes

-- A segment, and its bytes if `get_data` gives some as they are.
pub record Segment : Type 0 where
  pub is_load : Bool
  pub physical_addr : ℕ
  pub virtual_addr : ℕ
  pub mem_size : ℕ
  pub get_data : Option Bytes

pub record Symbol : Type 0 where
  pub name : Option String
  pub value : ℕ

-- The section `.symtab`: none, one whose data is an error, one of symbols of 32 bits, or another one.
pub data Symtab : Type 0 where
  not_found data_error other_data : Symtab
  symbols : List Symbol → Symtab

pub record ElfFile : Type 0 where
  pub sections : List Section
  pub segments : List Segment
  pub symtab : Symtab

pub data ElfError : Type 0 where
  symtab_not_found symtab_data start_not_found : ElfError

abbrev pub dram_size : ℕ
dram_size = 512 * (1024 * 1024)

abbrev pub ocram_start : ℕ
ocram_start = 0x0090_0000

abbrev pub ocram_size : ℕ
ocram_size = 128 * 1024

-- DRAM, OCRAM
abbrev pub in_dram : ℕ → Bool
in_dram addr = leb dram_start addr && ltb addr (dram_start + dram_size)

abbrev pub in_ocram : ℕ → Bool
in_ocram addr = leb ocram_start addr && ltb addr (ocram_start + ocram_size)

-- SECTIONS
abbrev pub is_wanted : Option String → Bool
is_wanted none = false
is_wanted (some name) = (name is ".text") || ((name is ".rodata") || (name is ".start"))

-- What goes into the program image: bytes for an address; `none` is a panic when they are asked for.
pub record Piece : Type 0 where
  pub addr : ℕ
  pub size : ℕ
  pub bytes : Option Bytes

-- The sections and the segments that the loops take.
abbrev pub section_pieces : List Section → List Piece
section_pieces [] = []
section_pieces (sh ∷ shs) =
    let rest = section_pieces shs in
    if is_wanted sh.name && in_dram (sh.address % u32_mod)
    then record { addr = sh.address % u32_mod; size = sh.size; bytes = some sh.raw_data } ∷ rest
    else rest

abbrev pub segment_pieces : List Segment → List Piece
segment_pieces [] = []
segment_pieces (ph ∷ phs) =
    let rest = segment_pieces phs in
    if ph.is_load && (in_ocram (ph.virtual_addr % u32_mod) && in_dram (ph.physical_addr % u32_mod))
    then record { addr = ph.physical_addr % u32_mod; size = ph.mem_size; bytes = ph.get_data }
      ∷ rest
    else rest

abbrev pub pieces : ElfFile → List Piece
pieces elf = section_pieces elf.sections ++ segment_pieces elf.segments

-- The end of a piece, as a sum of `u32`s.
abbrev pub end_of : Piece → ℕ
end_of p = (p.addr + p.size % u32_mod) % u32_mod

-- `start` and `end` of the first pass.
abbrev pub widen : Option (ℕ × ℕ) → Piece → Option (ℕ × ℕ)
widen none p = some (p.addr, end_of p)
widen (some (start, end)) p = some (min start p.addr, max end (end_of p))

unfoldable pub extent : Option (ℕ × ℕ) → List Piece → Option (ℕ × ℕ)
extent known [] = known
extent known (p ∷ ps) = extent (widen known p) ps

-- `app[off..(off + size)].copy_from_slice(data)`
unfoldable pub place : ℕ → ℕ → Bytes → Bytes → Outcome ElfError Bytes
place off size bytes app =
    if leb (off + size) (length app) && (length bytes == size)
    then ok (take off app ++ (bytes ++ drop (off + size) app))
    else panic

-- The second pass.
unfoldable pub fill : ℕ → List Piece → Bytes → Outcome ElfError Bytes
unfolding place
fill start [] app = ok app
fill start (p ∷ ps) app = do
  bytes ← elim (p.bytes) [ none ↦ panic | some bytes ↦ ok bytes ]
  app' ← place (p.addr - start) p.size bytes app
  fill start ps app'

-- The loop over the symbols: the last one that is named `_start`.
abbrev pub is_start : Option String → Bool
is_start none = false
is_start (some name) = name is "_start"

abbrev pub find_start : Option ℕ → List Symbol → Option ℕ
find_start found [] = found
find_start found (entry ∷ entries) =
    find_start (if is_start entry.name then some (entry.value % u32_mod) else found) entries

abbrev pub start_of : Symtab → Outcome ElfError (Option ℕ)
start_of not_found = err symtab_not_found
start_of data_error = err symtab_data
start_of other_data = ok none
start_of (symbols entries) = ok (find_start none entries)

-- The image of the pieces between two addresses.
unfoldable pub assemble : ElfFile → Bool → ℕ → ℕ → Outcome ElfError Image
unfolding fill
assemble elf skip_dcd start end = do
  if leb start end then ok tt else panic
  app ← fill start (pieces elf) (replicate (end - start) 0)
  found ← start_of elf.symtab
  entry ← elim found [ none ↦ err start_not_found | some entry ↦ ok entry ]
  ok (record { app = app; dcd = if skip_dcd then none else some init_ddr; entry = entry })

-- `Image::from_elf`
unfoldable pub from_elf : ElfFile → Bool → Outcome ElfError Image
unfolding extent assemble
from_elf elf skip_dcd = elim (extent none (pieces elf)) [
  | none ↦ panic
  | some (start, end) ↦ assemble elf skip_dcd start end
]
