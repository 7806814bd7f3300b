-- ===== src/Storage/Table.antt =====
-- `PartitionEntry` and `PartitionTable`.
pub mod Add
use usbarmory_rust.Prelude.{
  ℕ, zero, suc, ◌+◌, ◌*◌, ◌%◌, ◌^◌, ◌≡◌, ◌<◌, Option, none, some, List, [], ◌∷◌, ◌++◌, ltb, leb,
  if◌then◌else◌, length, set, take, drop, replicate,
}
use usbarmory_rust.Prelude.Bytes.{Bytes}
use usbarmory_rust.Prelude.Outcome.{Outcome, ok, err, panic}
use usbarmory_rust.Storage.Device.{Block, zeroed_block, block_size}

-- `[u8; 3]`
abbrev pub Chs : Type 0
Chs = ℕ × ℕ × ℕ

pub record PartitionEntry : Type 0 where
  pub status : ℕ
  pub start_chs : Chs
  pub part_type : ℕ
  pub end_chs : Chs
  pub start_lba : ℕ
  pub num_sectors : ℕ

pub record PartExtent : Type 0 where
  pub start : ℕ
  pub sectors : ℕ

-- `PartitionEntry::new`; 0x83 is `PART_TYPE_LINUX`.
abbrev pub new_entry : ℕ → ℕ → PartitionEntry
new_entry start_lba num_sectors = record {
  status = 0;
  start_chs = (0, 0, 0);
  part_type = 0x83;
  end_chs = (0, 0, 0);
  start_lba = start_lba;
  num_sectors = num_sectors;
}

-- `PartitionEntry::zeroed`
abbrev pub zeroed_entry : PartitionEntry
zeroed_entry = record {
  status = 0;
  start_chs = (0, 0, 0);
  part_type = 0;
  end_chs = (0, 0, 0);
  start_lba = 0;
  num_sectors = 0;
}

-- `PartitionEntry::extent`
abbrev pub extent : PartitionEntry → PartExtent
extent e = record { start = e.start_lba; sectors = e.num_sectors }

pub record PartitionTable : Type 0 where
  pub entries : List PartitionEntry
  pub index : ℕ

pub data PartError : Type 0 where
  partition_collision too_many_partitions : PartError

-- `PartitionTable::new`
abbrev pub new_table : PartitionTable
new_table = record { entries = replicate 4 zeroed_entry; index = 0 }

-- `PartitionTable::as_slice`; `none` is the panic of a slice that is too long.
unfoldable pub as_slice : PartitionTable → Option (List PartitionEntry)
as_slice t = if leb t.index (length t.entries) then some (take t.index t.entries) else none

-- `[T]::last`
abbrev pub last : List PartitionEntry → Option PartitionEntry
last [] = none
last (e ∷ []) = some e
last (e ∷ es) = last es

abbrev pub add_u32 : ℕ → ℕ → ℕ
add_u32 a b = (a + b) % 2 ^ 32

-- `.map(|entry| entry.start_lba + entry.num_sectors).unwrap_or(0)`
abbrev pub end_of : Option PartitionEntry → ℕ
end_of none = 0
end_of (some e) = add_u32 e.start_lba e.num_sectors

add_after :
    PartitionTable
    → PartitionEntry
    → Option (List PartitionEntry)
    → Outcome PartError PartitionTable
add_after t entry none = panic
add_after t entry (some slice) =
    if ltb entry.start_lba (end_of (last slice))
    then err partition_collision
    else if ltb t.index (length t.entries)
    then ok (record t { entries = set t.entries t.index entry })
    else err too_many_partitions

-- `PartitionTable::add`: the table after an `Ok`; an `Err` leaves the table as it was.
unfoldable pub add : PartitionTable → PartitionEntry → Outcome PartError PartitionTable
unfolding as_slice add_after
add t entry = add_after t entry (as_slice t)

-- `dst[at..at + src.len()].copy_from_slice(src)`, within `dst`
abbrev pub copy_from_slice : Bytes → ℕ → Bytes → Bytes
copy_from_slice dst at src = take at dst ++ (src ++ drop (at + length src) dst)

-- The derived memory layout of an entry (`zerocopy`): its bytes, and the entries that a slice of
-- bytes holds (`none` where `LayoutVerified::new_slice` has no result).
pub record Layout : Type 0 where
  pub as_bytes : PartitionEntry → Bytes
  pub new_slice : Bytes → Option (List PartitionEntry)

module _ (layout : Layout) where
  unfoldable pub copy_entries : Bytes → ℕ → List PartitionEntry → Bytes
  copy_entries bytes start [] = bytes
  copy_entries bytes start (e ∷ es) =
      copy_entries (copy_from_slice bytes start (layout.as_bytes e))
        (start + length (layout.as_bytes e)) es

  -- `PartitionTable::to_block`
  unfoldable pub to_block : PartitionTable → Block
  unfolding copy_entries
  to_block t = record {
    bytes = set (set (copy_entries zeroed_block.bytes 446 t.entries) 510 0x55) 511 0xAA;
  }
