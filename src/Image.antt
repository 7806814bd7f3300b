-- ===== src/Image.antt =====
-- host/image: the program images that the boot ROM loads. The parts of an image and how they are
-- written stand in `Ivt`, `Dcd` and `Write`, how they are parsed in `Read`; `Nom` is the interface
-- of the parser library. `Elf` builds an image from an ELF file, and `Placed` is where its bytes are.
pub mod Ivt
pub mod Dcd
pub mod Ddr
pub mod Nom
pub mod Write
pub mod Read
pub mod RoundTrip
pub mod Fits
pub mod Elf
pub mod Slices
pub mod Placed
mod Tests
mod ElfTests
