-- ===== src/Image/RoundTrip/Headers.antt =====
-- The fixed-size parts of an image: IVT, Boot Data and the header of a DCD.
use usbarmory_rust.Prelude.{ℕ, ◌^◌, ◌<◌, ◌≡◌, refl, ap, ◌∙◌, [], ◌∷◌, ◌++◌, replicate}
use usbarmory_rust.Prelude.Bytes.{Bytes, le32}
use usbarmory_rust.Prelude.Bytes.{of_be32-be32}
use usbarmory_rust.Prelude.Outcome.{ok}
use usbarmory_rust.Image.Ivt.{Ivt, BootData, write_ivt, write_boot_data, default_header}
use usbarmory_rust.Image.Dcd.{Parameter}
use usbarmory_rust.Image.Nom.{Nom, IsNom}
use usbarmory_rust.Image.Read.{parse_ivt, parse_boot_data}

-- The words of an IVT are `u32`s.
pub record IsIvt (i : Ivt) : Type 0 where
  pub standard : i.header ≡ default_header
  pub entry_word : i.entry < 2 ^ 32
  pub dcd_word : i.dcd < 2 ^ 32
  pub boot_word : i.boot < 2 ^ 32
  pub self_word : i.self < 2 ^ 32
  pub csf_word : i.csf < 2 ^ 32

module _ (nom : Nom Parameter) (is_nom : IsNom nom) where
  le_word : (x : ℕ) (rest : Bytes) → x < 2 ^ 32 → nom.le_u32 (le32 x ++ rest) ≡ ok (rest, x)
  le_word x rest h = is_nom.le_u32_lem _ _ _ _ rest ∙ ap (λ n. ok (rest, n)) (of_be32-be32 x h)

  pub parse_boot_data-write :
      (b : BootData) (rest : Bytes)
      → b.start < 2 ^ 32
      → b.len < 2 ^ 32
      → b.plugin < 2 ^ 32
      → parse_boot_data nom (write_boot_data b ++ rest) ≡ ok (rest, b)
  unfolding parse_boot_data write_boot_data
  parse_boot_data-write b rest hs hl hp =
      rw
        (
          le_word b.start (le32 b.len ++ (le32 b.plugin ++ rest)) hs,
          le_word b.len (le32 b.plugin ++ rest) hl,
          le_word b.plugin rest hp,
        )
        refl

  -- An IVT with the standard header is parsed back.
  pub parse_ivt-write :
      (i : Ivt) (rest : Bytes) → IsIvt i → parse_ivt nom (write_ivt i ++ rest) ≡ ok (rest, i)
  unfolding parse_ivt write_ivt
  parse_ivt-write i rest v =
      rw
        (
          v.standard,
          is_nom.tag_lem (0xD1 ∷ []) (0 ∷ 32 ∷ 0x40 ∷ after_header),
          is_nom.be_u16_lem 0 32 (0x40 ∷ after_header),
          is_nom.alt-ok (nom.tag (0x40 ∷ [])) (nom.tag (0x41 ∷ [])) (0x40 ∷ after_header)
              (is_nom.tag_lem (0x40 ∷ []) after_header),
          le_word i.entry after_entry v.entry_word,
          is_nom.tag_lem (replicate 4 0) after_reserved,
          le_word i.dcd after_dcd v.dcd_word,
          le_word i.boot after_boot v.boot_word,
          le_word i.self after_self v.self_word,
          le_word i.csf after_csf v.csf_word,
          is_nom.tag_lem (replicate 4 0) rest,
        )
        refl
    where
      after_csf : Bytes
      after_csf = replicate 4 0 ++ rest

      after_self : Bytes
      after_self = le32 i.csf ++ after_csf

      after_boot : Bytes
      after_boot = le32 i.self ++ after_self

      after_dcd : Bytes
      after_dcd = le32 i.boot ++ after_boot

      after_reserved : Bytes
      after_reserved = le32 i.dcd ++ after_dcd

      after_entry : Bytes
      after_entry = replicate 4 0 ++ after_reserved

      after_header : Bytes
      after_header = le32 i.entry ++ after_entry
