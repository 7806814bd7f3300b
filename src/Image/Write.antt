-- ===== src/Image/Write.antt =====
-- host/image/src/write.rs: an image and its bytes. `u32` sums are taken as in the release profile,
-- where they wrap. An error of the sink that is written to is passed on as it is, so the bytes are
-- those of a sink that takes all, such as the `Vec` of `into_bytes`.
use usbarmory_rust.Prelude.{
  ℕ, ◌+◌, ◌-◌, ◌*◌, ◌%◌, ◌^◌, Option, none, some, [], ◌++◌, ltb, leb, if◌then◌else◌, length,
  replicate,
}
use usbarmory_rust.Prelude.Bytes.{Bytes}
use usbarmory_rust.Image.Ivt.{
  Ivt, BootData, default_header, ivt_size, boot_data_size, write_ivt, write_boot_data,
}
use usbarmory_rust.Image.Dcd.{Dcd, size, write_dcd}

abbrev pub u32_mod : ℕ
u32_mod = 2 ^ 32

abbrev pub max_image_size : ℕ
max_image_size = 32 * 1024 * 1024

abbrev pub dram_start : ℕ
dram_start = 0x8000_0000

abbrev pub reserved : ℕ
reserved = 1024

abbrev pub padding : ℕ
padding = 1024

pub record Image : Type 0 where
  pub app : Bytes
  pub dcd : Option Dcd
  pub entry : ℕ

-- `Image::self_address`
abbrev pub self_address : ℕ
self_address = dram_start + padding

abbrev pub dcd_address : Option Dcd → ℕ
dcd_address none = 0
dcd_address (some d) = dram_start + padding + (ivt_size + boot_data_size)

-- The IVT and the Boot Data that `Image::write` makes.
abbrev pub ivt_of : Image → Ivt
ivt_of image = record {
  header = default_header;
  entry = image.entry;
  dcd = dcd_address image.dcd;
  boot = dram_start + padding + ivt_size;
  self = self_address;
  csf = 0;
}

abbrev pub boot_data_of : Image → BootData
boot_data_of image = record {
  start = dram_start;
  len = (padding + reserved + length image.app % u32_mod) % u32_mod;
  plugin = 0;
}

abbrev pub with_size : ℕ → Option Bytes → Option (ℕ × Bytes)
with_size n none = none
with_size n (some bytes) = some (n, bytes)

-- The DCD's size and bytes; `none` is a panic.
abbrev pub dcd_part : Option Dcd → Option (ℕ × Bytes)
dcd_part none = some (0, [])
dcd_part (some d) = with_size (size d) (write_dcd d)

-- The parts of the reserved space, the zeros that fill it, and the application. `none` is the panic
-- where the parts do not fit.
abbrev pub join : Image → Option (ℕ × Bytes) → Option Bytes
join image none = none
join image (some (n, dcd)) =
    let pos = ivt_size + boot_data_size + n in
    if ltb reserved pos
    then none
    else some (
        write_ivt (ivt_of image)
        ++ (write_boot_data (boot_data_of image)
            ++ (dcd ++ (replicate (reserved - pos) 0 ++ image.app))))

-- `Image::write`; `none` is a panic: the image or its DCD is too large.
unfoldable pub write : Image → Option Bytes
unfolding write_ivt write_boot_data write_dcd
write image =
    if leb (boot_data_of image).len max_image_size then join image (dcd_part image.dcd) else none
