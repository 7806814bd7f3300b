-- ===== src/Storage/Mbr/RoundTrip.antt =====
-- A table that `MbrDevice::create` wrote is what `MbrDevice::open` reads.
use usbarmory_rust.Prelude.{
  ℕ, ◌+◌, ◌≡◌, refl, sym, ◌∙◌, ◌≢◌, some, [], ◌∷◌, ◌++◌, arith, length, drop,
}
use usbarmory_rust.Prelude.Bytes.{Bytes}
use usbarmory_rust.Prelude.Splice.{take-append, drop-append}
use usbarmory_rust.Prelude.Outcome.{ok, err}
use usbarmory_rust.Storage.Device.{ManagedBlockDevice, IsStore}
use usbarmory_rust.Storage.Table.{PartitionEntry, PartitionTable, Layout, to_block}
use usbarmory_rust.Storage.Table.Add.{Built, Built-Shape}
use usbarmory_rust.Storage.Mbr.{
  check_parts, MbrDevice, invalid_part_extent, create, open_mbr, open_block, open_entries,
  table_bytes,
}
use usbarmory_rust.Storage.Mbr.Open.{AllFit, check_parts_complete}
use usbarmory_rust.Storage.Mbr.BootBlock.{
  IsEntry, IsLayout, boot_code, flat, to_block_parts, length-flat,
}

abbrev table :
    PartitionEntry → PartitionEntry → PartitionEntry → PartitionEntry → ℕ → PartitionTable
table a b c d i = record { entries = a ∷ b ∷ c ∷ d ∷ []; index = i }

-- The two parts of such a block that `open` looks at.
module _ (f : Bytes) (size : length f ≡ 64) where
  end_bytes : drop 510 (boot_code ++ (f ++ 0x55 ∷ 0xAA ∷ [])) ≡ 0x55 ∷ 0xAA ∷ []
  end_bytes =
      drop-append boot_code (f ++ 0x55 ∷ 0xAA ∷ []) 510 64 refl
      ∙ drop-append f (0x55 ∷ 0xAA ∷ []) 64 0 (omega arith)

  entry_bytes : table_bytes (boot_code ++ (f ++ 0x55 ∷ 0xAA ∷ [])) ≡ f
  entry_bytes =
      rw
        (
          drop-append boot_code (f ++ 0x55 ∷ 0xAA ∷ []) 446 0 refl,
          take-append f (0x55 ∷ 0xAA ∷ []) 64 (sym size),
        )
        (take-append f _ 64 (sym size))

module _ {D E : Type 0} (dev : ManagedBlockDevice D E) (layout : Layout) where
  create_ok :
      (raw : D) (t : PartitionTable) {m : MbrDevice D}
      → create dev layout raw t ≡ ok m
      → ((dev.write raw (to_block layout t) 0).1 ≡ ok tt)
        × (m ≡ record { raw = (dev.write raw (to_block layout t) 0).0; part_table = t.entries })
  unfolding create
  create_ok raw t h = (ground arith, ground arith)

  -- `create` on a table that was built by `add` never reports an invalid extent, whatever the extents
  -- and the size of the device.
  pub create_unchecked :
      (raw : D) {t : PartitionTable} → Built t → create dev layout raw t ≢ err invalid_part_extent
  unfolding create
  create_unchecked raw b h = ground (arith, Built-Shape b)

  module _ (store : IsStore dev) (is_layout : IsLayout layout) where
    opened :
        (raw : D) (a b c d : PartitionEntry) (i : ℕ)
        → IsEntry a × IsEntry b × IsEntry c × IsEntry d
        → dev.read raw 0 ≡ ok (to_block layout (table a b c d i))
        → open_mbr dev layout raw ≡ open_entries dev layout raw (some (a ∷ b ∷ c ∷ d ∷ []))
    unfolding open_mbr open_block
    opened raw a b c d i entries e =
        rw
          (
            e,
            to_block_parts layout is_layout a b c d i,
            end_bytes (flat layout a b c d) (length-flat layout is_layout a b c d),
            entry_bytes (flat layout a b c d) (length-flat layout is_layout a b c d),
          )
          (unfold flat in rw (is_layout.back a b c d entries) refl)

    -- Over a device that stores blocks: what `create` wrote from a table of four entries is opened
    -- again with the same table, if the allocated partitions start behind the MBR and their ends are
    -- less than the number of blocks and than 2^32.
    pub open-create :
        (raw : D) (a b c d : PartitionEntry) (i : ℕ) {m : MbrDevice D}
        → IsEntry a × IsEntry b × IsEntry c × IsEntry d
        → AllFit (dev.total_blocks raw) (a ∷ b ∷ c ∷ d ∷ [])
        → create dev layout raw (table a b c d i) ≡ ok m
        → open_mbr dev layout m.raw ≡ ok m
    unfolding open_entries
    open-create raw a b c d i entries fit h =
        let (written, e) = create_ok raw (table a b c d i) h in
        let raw' : D = (dev.write raw (to_block layout (table a b c d i)) 0).0 in
        rw e (
          opened raw' a b c d i entries
            (store.read-write_self raw (to_block layout (table a b c d i)) 0 written)
          ∙ rw (
              check_parts_complete {E = E} (dev.total_blocks raw') (a ∷ b ∷ c ∷ d ∷ [])
                (rw store.total_blocks-write fit)))

    -- Over a device that stores blocks: when `create` has written a table whose first partition is
    -- allocated and ends with the last block of the device, `open` refuses what was written.
    pub open-create_full :
        (raw : D) (a b c d : PartitionEntry) (i : ℕ) {m : MbrDevice D}
        → IsEntry a × IsEntry b × IsEntry c × IsEntry d
        → a.part_type ≢ 0
        → a.start_lba + a.num_sectors ≡ dev.total_blocks raw
        → create dev layout raw (table a b c d i) ≡ ok m
        → open_mbr dev layout m.raw ≡ err invalid_part_extent
    unfolding open_entries check_parts
    open-create_full raw a b c d i entries taken reaches h =
        let (written, e) = create_ok raw (table a b c d i) h in
        let raw' : D = (dev.write raw (to_block layout (table a b c d i)) 0).0 in
        rw e (
          opened raw' a b c d i entries
            (store.read-write_self raw (to_block layout (table a b c d i)) 0 written)
          ∙ ground (arith, store.total_blocks-write raw (to_block layout (table a b c d i)) 0))
