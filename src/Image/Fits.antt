-- ===== src/Image/Fits.antt =====
-- When `Image::write` of host/image/src/write.rs writes an image, and how many bytes.
use usbarmory_rust.Prelude.{
  ℕ, ◌+◌, ◌-◌, ◌≤◌, ◌≡◌, refl, sym, ap, ◌∙◌, true, false, Option, none, some, [], ◌++◌, arith, ltb,
  leb, length, length-append, replicate, length-replicate,
}
use usbarmory_rust.Prelude.Bytes.{Bytes}
use usbarmory_rust.Image.Ivt.{write_ivt, write_boot_data, ivt_size, boot_data_size}
use usbarmory_rust.Image.Dcd.{Dcd}
use usbarmory_rust.Image.Write.{
  Image, write, join, dcd_part, ivt_of, boot_data_of, reserved, padding, max_image_size,
}
use usbarmory_rust.Image.RoundTrip.Dcd.{dcd_bytes, length-dcd_bytes}
use usbarmory_rust.Image.RoundTrip.Whole.{dcd_part-some}

abbrev pub pairs : Option Dcd → ℕ
pairs none = 0
pairs (some d) = length d.writes

join-fits :
    (image : Image) (dcd : Bytes)
    → 44 + length dcd ≤ reserved
    → (bytes : Bytes) × (join image (some (length dcd, dcd)) ≡ some bytes)
      × (length bytes ≡ reserved + length image.app)
unfolding write_ivt write_boot_data
join-fits image dcd h = (
  write_ivt (ivt_of image)
      ++ (write_boot_data (boot_data_of image)
          ++ (dcd ++ (replicate (reserved - (44 + length dcd)) 0 ++ image.app))),
  rw fits refl,
  omega (arith, total),
)
  where
    fits : ltb reserved (ivt_size + boot_data_size + length dcd) ≡ false
    fits = ground arith

    total :
        length (dcd ++ (replicate (reserved - (44 + length dcd)) 0 ++ image.app))
        ≡ length dcd + ((reserved - (44 + length dcd)) + length image.app)
    total =
        length-append dcd _
        ∙ ap (length dcd +◌) (
            length-append (replicate (reserved - (44 + length dcd)) 0) image.app
            ∙ ap (◌+ length image.app) (length-replicate (reserved - (44 + length dcd)) 0))

dcd_part-fits :
    (d : Option Dcd)
    → pairs d ≤ 121
    → (dcd : Bytes) × (dcd_part d ≡ some (length dcd, dcd)) × (44 + length dcd ≤ reserved)
dcd_part-fits none h = ([], refl, omega arith)
dcd_part-fits (some d) h = (
  dcd_bytes d.writes,
  dcd_part-some d (omega arith)
      ∙ ap (λ n. some (n, dcd_bytes d.writes)) (sym (length-dcd_bytes d.writes)),
  omega (arith, length-dcd_bytes d.writes),
)

-- An image is written, without a panic, when its DCD has at most 121 pairs and its application takes
-- at most 32 MB less the 2048 bytes that are left out: it takes the 1024 bytes that are reserved and
-- those of the application.
pub write_fits :
    (image : Image)
    → pairs image.dcd ≤ 121
    → padding + reserved + length image.app ≤ max_image_size
    → (bytes : Bytes) × (write image ≡ some bytes) × (length bytes ≡ reserved + length image.app)
unfolding write
write_fits image h s = (joined.0, rw (small, part.1) joined.1, joined.2)
  where
    part :
        (dcd : Bytes) × (dcd_part image.dcd ≡ some (length dcd, dcd)) × (44 + length dcd ≤ reserved)
    part = dcd_part-fits image.dcd h

    joined :
        (bytes : Bytes) × (join image (some (length part.0, part.0)) ≡ some bytes)
        × (length bytes ≡ reserved + length image.app)
    joined = join-fits image part.0 part.2

    small : leb (boot_data_of image).len max_image_size ≡ true
    small = ground arith
