-- ===== src/Storage/Mbr.antt =====
-- `MbrDevice` and `MbrPartitionRef`.
pub mod Open
pub mod BootBlock
pub mod RoundTrip
pub mod Partition
mod Tests
use usbarmory_rust.Prelude.{
  ℕ, ◌+◌, ◌-◌, ◌*◌, ◌^◌, ◌≡◌, Bool, true, false, ◌||◌, Option, none, some, List, [], ◌∷◌, ltb, leb,
  ◌==◌, not, if◌then◌else◌, length, take, drop, get_elem?, ◌&&◌,
}
use usbarmory_rust.Prelude.Bytes.{Bytes}
use usbarmory_rust.Prelude.Outcome.{Outcome, ok, err, panic, map_err, ◌>>=◌}
use usbarmory_rust.Storage.Device.{Block, ManagedBlockDevice, block_size}
use usbarmory_rust.Storage.Table.{
  PartitionEntry, PartExtent, PartitionTable, Layout, extent, as_slice, last, end_of,
  copy_from_slice, to_block,
}

pub data MbrError (E : Type 0) : Type 0 where
  device : E → MbrError E
  invalid_magic invalid_part_extent no_partition out_of_range_access : MbrError E

pub record MbrDevice (D : Type 0) : Type 0 where
  pub raw : D
  pub part_table : List PartitionEntry

abbrev pub u32_max : ℕ
u32_max = 2 ^ 32 - 1

-- `!=` on slices, negated
abbrev pub bytes_eq : Bytes → Bytes → Bool
bytes_eq [] [] = true
bytes_eq [] (y ∷ ys) = false
bytes_eq (x ∷ xs) [] = false
bytes_eq (x ∷ xs) (y ∷ ys) = x == y && bytes_eq xs ys

-- The extent of an allocated entry is refused by one of the three tests of `open`.
abbrev pub refused : ℕ → PartitionEntry → Bool
refused total part =
    let start = part.start_lba in
    let end = part.start_lba + part.num_sectors in
    (start == 0 || leb total start) || (end == 0 || leb total end) || ltb u32_max end

-- The loop of `open` over the four entries.
pub check_parts : {E : Type 0} → ℕ → List PartitionEntry → Outcome (MbrError E) (Unit {0})
check_parts total [] = ok tt
check_parts total (part ∷ parts) =
    let rest = check_parts total parts in
    if part.part_type == 0
    then rest
    else if refused total part
    then err invalid_part_extent
    else rest

-- `mbr.bytes.copy_within(446..510, 0)`, and the first four entries' bytes
abbrev pub table_bytes : Bytes → Bytes
table_bytes bytes = take 64 (copy_from_slice bytes 0 (take 64 (drop 446 bytes)))

module _ {D E : Type 0} (dev : ManagedBlockDevice D E) (layout : Layout) where
  create_after :
      D → PartitionTable → Option (List PartitionEntry) → Outcome (MbrError E) (MbrDevice D)
  create_after raw table none = panic
  create_after raw table (some slice) =
      if ltb (dev.total_blocks raw) (end_of (last slice))
      then err invalid_part_extent
      else let (raw', r) = dev.write raw (to_block layout table) 0 in
        map_err device r >>= λ _. ok (record { raw = raw'; part_table = table.entries })

  -- `MbrDevice::create`
  pub create : D → PartitionTable → Outcome (MbrError E) (MbrDevice D)
  unfolding create_after as_slice
  create raw table = create_after raw table (as_slice table)

  pub open_entries : D → Option (List PartitionEntry) → Outcome (MbrError E) (MbrDevice D)
  open_entries raw none = panic
  open_entries raw (some parts) = check_parts (dev.total_blocks raw) parts >>= λ _.
      ok (record { raw = raw; part_table = parts })

  pub open_block : D → Block → Outcome (MbrError E) (MbrDevice D)
  unfolding open_entries
  open_block raw mbr =
      if bytes_eq (drop (block_size - 2) mbr.bytes) (0x55 ∷ 0xAA ∷ [])
      then open_entries raw (layout.new_slice (table_bytes mbr.bytes))
      else err invalid_magic

  -- `MbrDevice::open`
  pub open_mbr : D → Outcome (MbrError E) (MbrDevice D)
  unfolding open_block
  open_mbr raw = map_err device (dev.read raw 0) >>= λ mbr. open_block raw mbr

extent_of : {E : Type 0} → Option PartitionEntry → Outcome (MbrError E) PartExtent
extent_of none = panic
extent_of (some entry) = if entry.part_type == 0 then err no_partition else ok (extent entry)

-- `MbrDevice::part_extent`
pub part_extent : {D E : Type 0} → MbrDevice D → ℕ → Outcome (MbrError E) PartExtent
unfolding extent_of
part_extent m part =
    if leb 4 part then err no_partition else extent_of (get_elem? m.part_table part)

-- `MbrPartitionRef`
pub record MbrPartitionRef (D : Type 0) : Type 0 where
  pub raw : D
  pub extent : PartExtent

-- `MbrDevice::partition`
pub partition : {D E : Type 0} → MbrDevice D → ℕ → Outcome (MbrError E) (MbrPartitionRef D)
partition m part = part_extent m part >>= λ e. ok (record { raw = m.raw; extent = e })

module _ {D E : Type 0} (dev : ManagedBlockDevice D E) where
  pub read_part : MbrPartitionRef D → ℕ → Outcome (MbrError E) Block
  read_part p lba =
      if leb p.extent.sectors lba
      then err out_of_range_access
      else map_err device (dev.read p.raw (lba + p.extent.start))

  pub write_part :
      MbrPartitionRef D → Block → ℕ → MbrPartitionRef D × Outcome (MbrError E) (Unit {0})
  write_part p block lba =
      if leb p.extent.sectors lba
      then (p, err out_of_range_access)
      else let (raw', r) = dev.write p.raw block (lba + p.extent.start) in
        (record p { raw = raw' }, map_err device r)

  pub flush_part : MbrPartitionRef D → MbrPartitionRef D × Outcome (MbrError E) (Unit {0})
  flush_part p = let (raw', r) = dev.flush p.raw in (record p { raw = raw' }, map_err device r)

  -- `impl ManagedBlockDevice for MbrPartitionRef`
  abbrev pub partition_device : ManagedBlockDevice (MbrPartitionRef D) (MbrError E)
  partition_device = record {
    total_blocks = λ p. p.extent.sectors;
    read = read_part;
    write = write_part;
    flush = flush_part;
  }
