-- ===== src/Image/Placed.antt =====
-- Where the sections and the segments of an ELF file are in the image of `Image::from_elf`.
use usbarmory_rust.Image.Ddr.{init_ddr}
use usbarmory_rust.Image.Elf.{
  ElfFile, Piece, pieces, end_of, extent, place, fill, start_of, assemble, from_elf,
}
use usbarmory_rust.Image.Slices.{
  slice, splice, length-splice, slice-splice_self, slice-splice_below, slice-splice_above,
}
use usbarmory_rust.Image.Write.{Image, u32_mod}
use usbarmory_rust.Prelude.{
  ℕ, ◌+◌, ◌-◌, ◌≤◌, ◌<◌, min, max, ◌≡◌, refl, sym, ap, ◌∙◌, subst, ◌⊎◌, inl, inr, Bool, true, none,
  some, List, [], ◌∷◌, ◌++◌, arith, leb, ◌==◌, if◌then◌else◌, ==_iff, length, take, drop, replicate,
  length-replicate,
}
use usbarmory_rust.Prelude.Bytes.{Bytes}
use usbarmory_rust.Prelude.Outcome.{ok}

-- A piece with these bytes, as many as its size says, that ends below 2^32.
pub record IsWhole (p : Piece) (bytes : Bytes) : Type 0 where
  pub has_bytes : p.bytes ≡ some bytes
  pub sized : length bytes ≡ p.size
  pub no_wrap : p.addr + p.size < u32_mod

abbrev pub AreWhole : List Piece → Type 0
AreWhole [] = Unit
AreWhole (p ∷ ps) = ((bytes : Bytes) × IsWhole p bytes) × AreWhole ps

-- The addresses from `a`, `n` of them, are in none of the pieces.
abbrev pub AreApart : ℕ → ℕ → List Piece → Type 0
AreApart a n [] = Unit
AreApart a n (p ∷ ps) = ((a + n ≤ p.addr) ⊎ (p.addr + p.size ≤ a)) × AreApart a n ps

abbrev AreWithin : ℕ → ℕ → List Piece → Type 0
AreWithin start end [] = Unit
AreWithin start end (p ∷ ps) = ((start ≤ p.addr) × (p.addr + p.size ≤ end)) × AreWithin start end ps

end_of-IsWhole : (p : Piece) (bytes : Bytes) → IsWhole p bytes → end_of p ≡ p.addr + p.size
end_of-IsWhole p bytes whole = omega (arith, whole.no_wrap)

-- The pass that widens the extent gives one in which all the pieces are.
extent-AreWithin :
    (s e : ℕ) (ps : List Piece)
    → AreWhole ps
    → (known : ℕ × ℕ) × (extent (some (s, e)) ps ≡ some known)
      × ((known.0 ≤ s) × (e ≤ known.1))
      × AreWithin known.0 known.1 ps
unfolding extent
extent-AreWithin s e [] wholes = ((s, e), refl, (omega arith, omega arith), tt)
extent-AreWithin s e (p ∷ ps) ((bytes, whole), wholes) =
    let (known, eq, (low, high), inside) =
      extent-AreWithin (min s p.addr) (max e (end_of p)) ps wholes in
    (
      known,
      eq,
      (omega arith, omega arith),
      ((omega arith, omega (arith, end_of-IsWhole p bytes whole)), inside),
    )

-- Bytes that fit are put in place.
place-splice :
    (off size : ℕ) (bytes app : Bytes)
    → length bytes ≡ size
    → off + size ≤ length app
    → place off size bytes app ≡ ok (splice off bytes app)
unfolding place
place-splice off size bytes app sized fits =
    let bounds : leb (off + size) (length app) ≡ true = ground arith in
    let same : (length bytes == size) ≡ true = (==_iff (length bytes) size).1 sized in
    rw (bounds, same) (ap (λ n. ok (take off app ++ (bytes ++ drop (off + n) app))) (sym sized))

-- One step of the second pass.
fill-whole :
    (start end : ℕ) (p : Piece) (bytes : Bytes) (ps : List Piece) (app : Bytes)
    → IsWhole p bytes
    → start ≤ p.addr
    → p.addr + p.size ≤ end
    → length app ≡ end - start
    → (fill start (p ∷ ps) app ≡ fill start ps (splice (p.addr - start) bytes app))
      × (p.addr - start + length bytes ≤ length app)
unfolding fill
fill-whole start end p bytes ps app whole low high sized =
    let placed = place-splice (p.addr - start) p.size bytes app whole.sized (omega arith) in
    (rw (whole.has_bytes, placed) refl, omega (arith, whole.sized))

-- The second pass ends, keeps the length, and leaves the bytes that are in no piece.
fill-rest :
    (start end : ℕ) (ps : List Piece) (app : Bytes)
    → AreWhole ps
    → AreWithin start end ps
    → length app ≡ end - start
    → (app' : Bytes) × (fill start ps app ≡ ok app')
      × (length app' ≡ end - start)
      × ((a n : ℕ)
          → start ≤ a
          → AreApart a n ps
          → slice (a - start) n app' ≡ slice (a - start) n app)
unfolding fill
fill-rest start end [] app wholes inside sized = (app, refl, sized, λ a n low apart. refl)
fill-rest start end (p ∷ ps) app ((bytes, whole), wholes) ((low, high), inside) sized =
    let (step, fits) = fill-whole start end p bytes ps app whole low high sized in
    let off = p.addr - start in
    let (app', runs, same, keeps) =
      fill-rest start end ps (splice off bytes app) wholes inside
        (length-splice off bytes app fits ∙ sized) in
    (
      app',
      step ∙ runs,
      same,
      λ a n low' apart. keeps a n low' apart.1 ∙ elim (apart.0) [
        | inl below ↦ slice-splice_below off bytes app fits (a - start) n (omega arith)
        | inr above ↦
            slice-splice_above off bytes app fits (a - start) n (omega (arith, whole.sized))
      ],
    )

-- A piece is where it belongs when none of the later ones is there too.
fill-places :
    (start end : ℕ) (before after : List Piece) (p : Piece) (content : Bytes) (app : Bytes)
    → AreWhole (before ++ p ∷ after)
    → AreWithin start end (before ++ p ∷ after)
    → IsWhole p content
    → AreApart p.addr p.size after
    → length app ≡ end - start
    → (app' : Bytes) × (fill start (before ++ p ∷ after) app ≡ ok app')
      × (length app' ≡ end - start)
      × (slice (p.addr - start) p.size app' ≡ content)
fill-places start end [] after p content app ((bytes, whole), wholes) ((low, high), inside) own
      apart sized =
    let (step, fits) = fill-whole start end p content after app own low high sized in
    let off = p.addr - start in
    let (app', runs, same, keeps) =
      fill-rest start end after (splice off content app) wholes inside
        (length-splice off content app fits ∙ sized) in
    (
      app',
      step ∙ runs,
      same,
      keeps p.addr p.size low apart
          ∙ (ap (λ n. slice off n (splice off content app)) (sym own.sized)
              ∙ slice-splice_self off content app fits),
    )
fill-places start end (q ∷ before) after p content app ((bytes, whole), wholes)
      ((low, high), inside) own apart sized =
    let (step, fits) =
      fill-whole start end q bytes (before ++ p ∷ after) app whole low high sized in
    let off = q.addr - start in
    let (app', runs, same, there) =
      fill-places start end before after p content (splice off bytes app) wholes inside own apart
        (length-splice off bytes app fits ∙ sized) in
    (app', step ∙ runs, same, there)

-- The pieces of an ELF file have an extent with all of them, from the first of them on.
extent-pieces :
    (p : Piece) (bytes : Bytes) (ps : List Piece)
    → IsWhole p bytes
    → AreWhole ps
    → (known : ℕ × ℕ) × (extent none (p ∷ ps) ≡ some known)
      × (known.0 ≤ known.1)
      × AreWithin known.0 known.1 (p ∷ ps)
unfolding extent
extent-pieces p bytes ps whole wholes =
    let (known, eq, (low, high), inside) = extent-AreWithin p.addr (end_of p) ps wholes in
    let e = end_of-IsWhole p bytes whole in (known, eq, omega arith, ((low, omega arith), inside))

extent-all :
    (before after : List Piece) (p : Piece)
    → AreWhole (before ++ p ∷ after)
    → (known : ℕ × ℕ) × (extent none (before ++ p ∷ after) ≡ some known)
      × (known.0 ≤ known.1)
      × AreWithin known.0 known.1 (before ++ p ∷ after)
extent-all [] after p ((bytes, whole), wholes) = extent-pieces p bytes after whole wholes
extent-all (q ∷ before) after p ((bytes, whole), wholes) =
    extent-pieces q bytes (before ++ p ∷ after) whole wholes

within-member :
    (start end : ℕ) (before after : List Piece) (p : Piece)
    → AreWithin start end (before ++ p ∷ after)
    → start ≤ p.addr
within-member start end [] after p ((low, high), inside) = low
within-member start end (q ∷ before) after p (here, inside) =
    within-member start end before after p inside

from_elf-assembles :
    (elf : ElfFile) (skip_dcd : Bool) (known : ℕ × ℕ) (app : Bytes) (entry : ℕ)
    → extent none (pieces elf) ≡ some known
    → known.0 ≤ known.1
    → fill known.0 (pieces elf) (replicate (known.1 - known.0) 0) ≡ ok app
    → start_of elf.symtab ≡ ok (some entry)
    → from_elf elf skip_dcd
      ≡ ok (record { app = app; dcd = if skip_dcd then none else some init_ddr; entry = entry })
unfolding from_elf assemble
from_elf-assembles elf skip_dcd (start, end) app entry extent_of ordered fills found =
    let bounds : leb start end ≡ true = ground arith in
    rw (from_elf, extent_of, bounds, fills, found) refl

-- If every section and segment that is taken has its bytes and ends below 2^32, and the symbols name
-- a `_start`, then `from_elf` gives an image with this entry, which is as long as the extent of the
-- pieces; and the bytes of each piece stand at its address, from the start of the extent on, if no
-- later piece is at these addresses.
pub from_elf-places :
    (elf : ElfFile) (skip_dcd : Bool) (before after : List Piece) (p : Piece) (content : Bytes)
    (entry : ℕ)
    → pieces elf ≡ before ++ p ∷ after
    → AreWhole (pieces elf)
    → IsWhole p content
    → AreApart p.addr p.size after
    → start_of elf.symtab ≡ ok (some entry)
    → (image : Image) × (known : ℕ × ℕ) × (extent none (pieces elf) ≡ some known)
      × (from_elf elf skip_dcd ≡ ok image)
      × (image.entry ≡ entry)
      × (length image.app ≡ known.1 - known.0)
      × (known.0 ≤ p.addr)
      × (slice (p.addr - known.0) p.size image.app ≡ content)
from_elf-places elf skip_dcd before after p content entry split wholes own apart found =
    let wholes' = subst AreWhole split wholes in
    let (known, extent_eq, ordered, inside) = extent-all before after p wholes' in
    let extent_of = ap (extent none) split ∙ extent_eq in
    let zeros = replicate (known.1 - known.0) 0 in
    let (app, fills, sized, there) =
      fill-places known.0 known.1 before after p content zeros wholes' inside own apart
        (length-replicate (known.1 - known.0) 0) in
    let fills' = ap (λ ps. fill known.0 ps zeros) split ∙ fills in
    (
      record { app = app; dcd = if skip_dcd then none else some init_ddr; entry = entry },
      known,
      extent_of,
      from_elf-assembles elf skip_dcd known app entry extent_of ordered fills' found,
      refl,
      sized,
      within-member known.0 known.1 before after p inside,
      there,
    )
