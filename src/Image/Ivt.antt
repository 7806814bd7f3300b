-- ===== src/Image/Ivt.antt =====
-- host/image/src/ivt.rs and the Boot Data of lib.rs, with how write.rs encodes them.
use usbarmory_rust.Prelude.{ℕ, [], ◌∷◌, ◌++◌, replicate}
use usbarmory_rust.Prelude.Bytes.{Bytes, be16, le32}

-- `ivt::Header`
pub record Header : Type 0 where
  pub tag : ℕ
  pub length : ℕ
  pub version : ℕ

abbrev pub tag_value : ℕ
tag_value = 0xD1

-- `LENGTH`, which is also `Ivt::SIZE`
abbrev pub ivt_size : ℕ
ivt_size = 32

abbrev pub version0 : ℕ
version0 = 0x40

abbrev pub version1 : ℕ
version1 = 0x41

-- `impl Default for Header`
abbrev pub default_header : Header
default_header = record { tag = tag_value; length = ivt_size; version = version0 }

-- `Ivt`; `self` is the field `self_`.
pub record Ivt : Type 0 where
  pub header : Header
  pub entry : ℕ
  pub dcd : ℕ
  pub boot : ℕ
  pub self : ℕ
  pub csf : ℕ

pub record BootData : Type 0 where
  pub start : ℕ
  pub len : ℕ
  pub plugin : ℕ

-- `BootData::SIZE`
abbrev pub boot_data_size : ℕ
boot_data_size = 12

-- `Header::write`
abbrev pub write_header : Header → Bytes
write_header h = h.tag ∷ (be16 h.length ++ h.version ∷ [])

-- `Ivt::write`
unfoldable pub write_ivt : Ivt → Bytes
write_ivt i =
    write_header i.header
    ++ (le32 i.entry
        ++ (replicate 4 0
            ++ (le32 i.dcd ++ (le32 i.boot ++ (le32 i.self ++ (le32 i.csf ++ replicate 4 0))))))

-- `BootData::write`
unfoldable pub write_boot_data : BootData → Bytes
write_boot_data b = le32 b.start ++ (le32 b.len ++ le32 b.plugin)
