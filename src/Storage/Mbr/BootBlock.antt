-- ===== src/Storage/Mbr/BootBlock.antt =====
-- The block that `PartitionTable::to_block` makes: boot code, the entries' bytes, the magic number.
use usbarmory_rust.Prelude.{
  ℕ, ◌+◌, ◌^◌, ◌<◌, ◌≡◌, refl, sym, ap, ap₂, ◌∙◌, some, [], ◌∷◌, ◌++◌, append_assoc, arith, length,
  set, length-append, drop, replicate,
}
use usbarmory_rust.Prelude.Bytes.{Bytes}
use usbarmory_rust.Prelude.Splice.{take-append, drop-append, set-append}
use usbarmory_rust.Storage.Table.{PartitionEntry, Layout, copy_from_slice, to_block}

-- The fields have the widths that the source gives them.
pub record IsEntry (e : PartitionEntry) : Type 0 where
  pub status_byte : e.status < 256
  pub start_chs_bytes : (e.start_chs.0 < 256) × (e.start_chs.1 < 256) × (e.start_chs.2 < 256)
  pub part_type_byte : e.part_type < 256
  pub end_chs_bytes : (e.end_chs.0 < 256) × (e.end_chs.1 < 256) × (e.end_chs.2 < 256)
  pub start_lba_word : e.start_lba < 2 ^ 32
  pub num_sectors_word : e.num_sectors < 2 ^ 32

-- What the derived layout is relied on for: an entry takes 16 bytes, and the bytes of four entries
-- are read back as those entries.
pub record IsLayout (layout : Layout) : Type 0 where
  pub size : (e : PartitionEntry) → length (layout.as_bytes e) ≡ 16
  pub back :
      (a b c d : PartitionEntry)
      → IsEntry a × IsEntry b × IsEntry c × IsEntry d
      → layout.new_slice
          (layout.as_bytes a ++ (layout.as_bytes b ++ (layout.as_bytes c ++ layout.as_bytes d)))
        ≡ some (a ∷ b ∷ c ∷ d ∷ [])

copy-append :
    (p q bs : Bytes) (n : ℕ)
    → n ≡ length p
    → copy_from_slice (p ++ q) n bs ≡ (p ++ bs) ++ drop (length bs) q
copy-append p q bs n e =
    ap₂ (λ s t. s ++ (bs ++ t)) (take-append p q n e)
      (drop-append p q (n + length bs) (length bs) (omega arith))
    ∙ sym (append_assoc p bs (drop (length bs) q))

-- The four rounds of the loop of `to_block` and the magic number, over any boot code.
module _ (p a b c d : Bytes) (hp : length p ≡ 446) (ha : length a ≡ 16) (hb : length b ≡ 16)
    (hc : length c ≡ 16) (hd : length d ≡ 16) where
  round :
      (s q bs : Bytes) (n : ℕ)
      → n ≡ length s
      → length bs ≡ 16
      → copy_from_slice (s ++ q) n bs ≡ (s ++ bs) ++ drop 16 q
  round s q bs n e l = copy-append s q bs n e ∙ ap (λ k. (s ++ bs) ++ drop k q) l

  four_rounds :
      copy_from_slice
        (copy_from_slice
          (copy_from_slice (copy_from_slice (p ++ replicate 66 0) 446 a) (446 + length a) b)
          (446 + length a + length b)
          c)
        (446 + length a + length b + length c)
        d
      ≡ ((((p ++ a) ++ b) ++ c) ++ d) ++ (0 ∷ 0 ∷ [])
  four_rounds =
      rw
        (
          round p (replicate 66 0) a 446 (omega arith) ha,
          round (p ++ a) (replicate 50 0) b (446 + length a) (omega (arith, length-append p a)) hb,
          round ((p ++ a) ++ b) (replicate 34 0) c (446 + length a + length b)
              (omega (arith, length-append p a, length-append (p ++ a) b)) hc,
          round (((p ++ a) ++ b) ++ c) (replicate 18 0) d (446 + length a + length b + length c)
              (omega (
                arith,
                length-append p a,
                length-append (p ++ a) b,
                length-append ((p ++ a) ++ b) c,
              ))
              hd,
        )
        refl

  magic :
      (r : Bytes)
      → r ≡ ((((p ++ a) ++ b) ++ c) ++ d) ++ (0 ∷ 0 ∷ [])
      → set (set r 510 0x55) 511 0xAA ≡ p ++ ((a ++ (b ++ (c ++ d))) ++ 0x55 ∷ 0xAA ∷ [])
  magic r e =
      rw
        (
          e,
          set-append ((((p ++ a) ++ b) ++ c) ++ d) (0 ∷ 0 ∷ []) 510 0 0x55 (omega (arith, size)),
          set-append ((((p ++ a) ++ b) ++ c) ++ d) (0x55 ∷ 0 ∷ []) 511 1 0xAA (omega (arith, size)),
        )
        (simp append_assoc)
    where
      size : length ((((p ++ a) ++ b) ++ c) ++ d) ≡ 510
      size = omega (
        arith,
        length-append p a,
        length-append (p ++ a) b,
        length-append ((p ++ a) ++ b) c,
        length-append (((p ++ a) ++ b) ++ c) d,
      )

abbrev pub boot_code : Bytes
boot_code = replicate 446 0

module _ (layout : Layout) where
  unfoldable pub flat : PartitionEntry → PartitionEntry → PartitionEntry → PartitionEntry → Bytes
  flat a b c d =
      layout.as_bytes a ++ (layout.as_bytes b ++ (layout.as_bytes c ++ layout.as_bytes d))

  module _ (is_layout : IsLayout layout) where
    -- The block that `to_block` makes, part by part.
    pub to_block_parts :
        (a b c d : PartitionEntry) (i : ℕ)
        → (to_block layout (record { entries = a ∷ b ∷ c ∷ d ∷ []; index = i })).bytes
          ≡ boot_code ++ (flat a b c d ++ 0x55 ∷ 0xAA ∷ [])
    unfolding to_block flat
    to_block_parts a b c d i =
        magic boot_code (layout.as_bytes a) (layout.as_bytes b) (layout.as_bytes c)
          (layout.as_bytes d) refl (is_layout.size a) (is_layout.size b) (is_layout.size c)
          (is_layout.size d) _
          (four_rounds boot_code (layout.as_bytes a) (layout.as_bytes b) (layout.as_bytes c)
            (layout.as_bytes d) refl (is_layout.size a) (is_layout.size b) (is_layout.size c)
            (is_layout.size d))

    pub length-flat : (a b c d : PartitionEntry) → length (flat a b c d) ≡ 64
    unfolding flat
    length-flat a b c d = omega (
      arith,
      is_layout.size a,
      is_layout.size b,
      is_layout.size c,
      is_layout.size d,
      length-append (layout.as_bytes a)
          (layout.as_bytes b ++ (layout.as_bytes c ++ layout.as_bytes d)),
      length-append (layout.as_bytes b) (layout.as_bytes c ++ layout.as_bytes d),
      length-append (layout.as_bytes c) (layout.as_bytes d),
    )
