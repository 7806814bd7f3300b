-- ===== src/Image/RoundTrip/Whole.antt =====
-- The whole image: what `Image::write` of host/image/src/write.rs writes, `Image::parse` of read.rs
-- reads.
use usbarmory_rust.Prelude.{
  ℕ, ◌+◌, ◌-◌, ◌*◌, ◌^◌, ◌≤◌, ◌<◌, ◌≡◌, refl, sym, ap, ap₂, ◌∙◌, subst, inl, inr, true, Option,
  none, some, [], ◌++◌, arith, leb, Option-cases, length, take, drop, replicate,
}
use usbarmory_rust.Prelude.Bytes.{Bytes}
use usbarmory_rust.Prelude.Outcome.{ok}
use usbarmory_rust.Image.Ivt.{write_ivt, write_boot_data}
use usbarmory_rust.Image.Dcd.{Parameter, Dcd}
use usbarmory_rust.Image.Nom.{Nom, IsNom}
use usbarmory_rust.Image.Write.{
  Image, dcd_address, write, join, with_size, dcd_part, ivt_of, boot_data_of, reserved,
}
use usbarmory_rust.Image.Read.{ParsedImage, ParsedDcd, parse, parse_dcd_at}
use usbarmory_rust.Image.RoundTrip.Headers.{IsIvt, parse_ivt-write, parse_boot_data-write}
use usbarmory_rust.Image.RoundTrip.Commands.{ArePairs}
use usbarmory_rust.Image.RoundTrip.Dcd.{dcd_bytes, write_dcd-eq, parsed, parse_dcd-write}

-- The entry and the pairs are `u32`s, and there are few enough pairs for a `u16` to hold the size.
abbrev pub AreWrites : Option Dcd → Type 0
AreWrites none = Unit {0}
AreWrites (some d) = (length d.writes < 8191) × ArePairs d.writes

abbrev pub parsed_dcd : Option Dcd → Option ParsedDcd
parsed_dcd none = none
parsed_dcd (some d) = some (parsed d.writes)

-- What an image is read as.
abbrev pub read_as : Image → ParsedImage
read_as image = record {
  ivt = ivt_of image;
  boot_data = boot_data_of image;
  dcd = parsed_dcd image.dcd;
}

-- The bytes of an image, with its DCD and what follows.
abbrev layout : Image → Bytes → Bytes
layout image tail = write_ivt (ivt_of image) ++ (write_boot_data (boot_data_of image) ++ tail)

ivt_of-IsIvt : (image : Image) → image.entry < 2 ^ 32 → IsIvt (ivt_of image)
ivt_of-IsIvt image h = record {
  standard = refl;
  entry_word = h;
  dcd_word = dcd_address_lem image.dcd;
  boot_word = omega arith;
  self_word = omega arith;
  csf_word = omega arith;
}
  where
    dcd_address_lem : (d : Option Dcd) → dcd_address d < 2 ^ 32
    dcd_address_lem none = omega arith
    dcd_address_lem (some d) = omega arith

drop_32 :
    (image : Image) (tail : Bytes)
    → drop 32 (layout image tail) ≡ write_boot_data (boot_data_of image) ++ tail
unfolding write_ivt
drop_32 image tail = refl

drop_44 : (image : Image) (tail : Bytes) → drop 44 (layout image tail) ≡ tail
unfolding write_ivt write_boot_data
drop_44 image tail = refl

length-layout : (image : Image) (tail : Bytes) → length (layout image tail) ≡ 44 + length tail
unfolding write_ivt write_boot_data
length-layout image tail = omega arith

take_12 :
    (image : Image) (tail : Bytes)
    → take 12 (write_boot_data (boot_data_of image) ++ tail)
      ≡ write_boot_data (boot_data_of image) ++ []
unfolding write_boot_data
take_12 image tail = refl

module _ (nom : Nom Parameter) (is_nom : IsNom nom) where
  parse_dcd_at-none :
      (image : Image) (input : Bytes)
      → image.dcd ≡ none
      → parse_dcd_at nom input (ivt_of image) ≡ ok (parsed_dcd image.dcd)
  unfolding parse_dcd_at
  parse_dcd_at-none image input e = rw e refl

  parse_dcd_at-some :
      (image : Image) (d : Dcd) (rest : Bytes)
      → image.dcd ≡ some d
      → ArePairs d.writes
      → length d.writes ≤ 220
      → parse_dcd_at nom (layout image (dcd_bytes d.writes ++ rest)) (ivt_of image)
        ≡ ok (parsed_dcd image.dcd)
  unfolding parse_dcd_at
  parse_dcd_at-some image d rest e pairs h =
      rw
        (
          e,
          enough,
          drop_44 found (dcd_bytes d.writes ++ rest),
          parse_dcd-write nom is_nom d.writes rest pairs h,
        )
        refl
    where
      found : Image
      found = record image { dcd = some d }

      enough : leb 44 (length (layout found (dcd_bytes d.writes ++ rest))) ≡ true
      enough = ground (arith, length-layout found (dcd_bytes d.writes ++ rest))

  parse-layout :
      (image : Image) (tail : Bytes)
      → image.entry < 2 ^ 32
      → parse_dcd_at nom (layout image tail) (ivt_of image) ≡ ok (parsed_dcd image.dcd)
      → parse nom (layout image tail) ≡ ok (read_as image)
  unfolding parse
  parse-layout image tail he hd =
      rw
        (
          parse_ivt-write nom is_nom (ivt_of image) (write_boot_data (boot_data_of image) ++ tail)
              (ivt_of-IsIvt image he),
          enough,
          drop_32 image tail,
          take_12 image tail,
          parse_boot_data-write nom is_nom (boot_data_of image) [] (omega arith) (omega arith)
              (omega arith),
          hd,
        )
        refl
    where
      enough : leb 44 (length (layout image tail)) ≡ true
      enough = ground (arith, length-layout image tail)

-- What `join` makes of parts that fit.
join-some :
    (image : Image) (n : ℕ) (dcd bytes : Bytes)
    → join image (some (n, dcd)) ≡ some bytes
    → (44 + n ≤ reserved)
      × (layout image (dcd ++ (replicate (reserved - (44 + n)) 0 ++ image.app)) ≡ bytes)
join-some image n dcd bytes e = ground arith

-- The DCD's part.
pub dcd_part-some :
    (d : Dcd)
    → length d.writes < 8191
    → dcd_part (some d) ≡ some (8 + 8 * length d.writes, dcd_bytes d.writes)
dcd_part-some d h = ap₂ with_size (write_dcd-eq d h).1 (write_dcd-eq d h).0

-- An image that is not too large.
write-layout :
    (image : Image) (bytes : Bytes)
    → write image ≡ some bytes
    → join image (dcd_part image.dcd) ≡ some bytes
unfolding write
write-layout image bytes e = ground arith

module _ (nom : Nom Parameter) (is_nom : IsNom nom) where
  parse-write_some :
      (image : Image) (d : Dcd) (bytes : Bytes)
      → image.dcd ≡ some d
      → image.entry < 2 ^ 32
      → (length d.writes < 8191) × ArePairs d.writes
      → write image ≡ some bytes
      → parse nom bytes ≡ ok (read_as image)
  parse-write_some image d bytes e he hd hw =
      subst (λ bs. parse nom bs ≡ ok (read_as image)) parts.1
        (parse-layout nom is_nom image _ he
          (parse_dcd_at-some nom is_nom image d _ e hd.1 (omega (arith, parts.0))))
    where
      parts :
          (44 + (8 + 8 * length d.writes) ≤ reserved)
          × (layout image (
                dcd_bytes d.writes
                ++ (replicate (reserved - (44 + (8 + 8 * length d.writes))) 0 ++ image.app))
              ≡ bytes)
      parts = join-some image (8 + 8 * length d.writes) (dcd_bytes d.writes) bytes (
          ap (join image) (sym (ap dcd_part e ∙ dcd_part-some d hd.0))
          ∙ write-layout image bytes hw)

  -- What `Image::write` writes without a panic, `Image::parse` reads back: the IVT, the Boot Data and
  -- the DCD's header, pairs and bytes. The entry and the pairs are `u32`s, and the size of the DCD
  -- fits a `u16`.
  pub parse-write :
      (image : Image) (bytes : Bytes)
      → image.entry < 2 ^ 32
      → AreWrites image.dcd
      → write image ≡ some bytes
      → parse nom bytes ≡ ok (read_as image)
  parse-write image bytes he hd hw = elim (Option-cases image.dcd) [
    | inl e ↦
        subst (λ bs. parse nom bs ≡ ok (read_as image)) (parts e).1
          (parse-layout nom is_nom image _ he (parse_dcd_at-none nom is_nom image _ e))
    | inr (d, e) ↦ parse-write_some image d bytes e he (subst AreWrites e hd) hw
  ]
    where
      parts :
          image.dcd ≡ none
          → (44 + 0 ≤ reserved)
            × (layout image (replicate (reserved - (44 + 0)) 0 ++ image.app) ≡ bytes)
      parts e =
          join-some image 0 [] bytes
            (ap (join image) (sym (ap dcd_part e)) ∙ write-layout image bytes hw)
