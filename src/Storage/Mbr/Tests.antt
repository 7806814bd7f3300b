-- ===== src/Storage/Mbr/Tests.antt =====
-- A device in memory and the layout that `repr(C)` gives an entry, as concrete parameters, and the
-- theorems of the MBR code at them.
use usbarmory_rust.Prelude.{
  ℕ, ◌<◌, ◌≡◌, refl, subst, ◌≢◌, inl, Option, none, some, List, [], ◌∷◌, ◌++◌, append-nil, arith,
}
use usbarmory_rust.Prelude.Bytes.{Bytes, le32, of_le32}
use usbarmory_rust.Prelude.Outcome.{ok, err, ◌>>=◌}
use usbarmory_rust.Storage.Device.{IsStore, zeroed_block}
use usbarmory_rust.Storage.Memory.{Disk, write_disk, disk_device, disk_device-IsStore}
use usbarmory_rust.Storage.Table.{
  PartitionEntry, PartExtent, PartitionTable, Layout, new_entry, zeroed_entry, new_table, to_block,
  as_slice, add,
}
use usbarmory_rust.Storage.Table.Add.{empty, replaced, add_replaces, add-add}
use usbarmory_rust.Storage.Mbr.{
  MbrDevice, invalid_part_extent, create, open_mbr, read_part, write_part, partition_device,
}
use usbarmory_rust.Storage.Mbr.Open.{AllFit, open_mbr_sound}
use usbarmory_rust.Storage.Mbr.BootBlock.{IsEntry, IsLayout}
use usbarmory_rust.Storage.Mbr.RoundTrip.{open-create, open-create_full, create_unchecked}
use usbarmory_rust.Storage.Mbr.Partition.{partition_device-IsStore, partitions_apart}

entry_bytes : PartitionEntry → Bytes
entry_bytes e =
    e.status
    ∷ e.start_chs.0
    ∷ e.start_chs.1
    ∷ e.start_chs.2
    ∷ e.part_type
    ∷ e.end_chs.0
    ∷ e.end_chs.1
    ∷ e.end_chs.2
    ∷ (le32 e.start_lba ++ le32 e.num_sectors)

entries_of : Bytes → Option (List PartitionEntry)
entries_of [] = some []
entries_of (s ∷ a ∷ b ∷ c ∷ t ∷ d ∷ e ∷ f ∷ p ∷ q ∷ r ∷ u ∷ v ∷ w ∷ x ∷ y ∷ rest) =
    elim (entries_of rest) [
      | none ↦ none
      | some es ↦ some (
          record {
            status = s;
            start_chs = (a, b, c);
            part_type = t;
            end_chs = (d, e, f);
            start_lba = of_le32 p q r u;
            num_sectors = of_le32 v w x y;
          }
          ∷ es)
    ]
entries_of _ = none

abbrev c_layout : Layout
c_layout = record { as_bytes = entry_bytes; new_slice = entries_of }

entries_of-cons :
    (e : PartitionEntry) (rest : Bytes) (es : List PartitionEntry)
    → IsEntry e
    → entries_of rest ≡ some es
    → entries_of (entry_bytes e ++ rest) ≡ some (e ∷ es)
unfolding entries_of entry_bytes
entries_of-cons e rest es v h = rw h (ground (arith, v))

c_layout-IsLayout : IsLayout c_layout
c_layout-IsLayout = record {
  size = λ e. unfold entry_bytes in refl;
  back = λ a b c d v. entries_of-cons a _ _ v.0 (
      entries_of-cons b _ _ v.1 (
        entries_of-cons c _ _ v.2 (
          subst (λ bs. entries_of bs ≡ some (d ∷ [])) (append-nil (entry_bytes d))
            (entries_of-cons d [] [] v.3 (unfold entries_of in refl)))));
}

abbrev disk : Disk
disk = record { total = 100; blocks = λ _. zeroed_block }

-- A partition that ends before the last block, and one that ends with it.
abbrev small : PartitionEntry
small = new_entry 1 50

abbrev whole : PartitionEntry
whole = new_entry 1 99

abbrev with_first : PartitionEntry → PartitionTable
with_first e = record { entries = e ∷ zeroed_entry ∷ zeroed_entry ∷ zeroed_entry ∷ []; index = 0 }

abbrev opened : PartitionEntry → MbrDevice Disk
opened e = record {
  raw = (write_disk disk (to_block c_layout (with_first e)) 0).0;
  part_table = (with_first e).entries;
}

create_with : (e : PartitionEntry) → create disk_device c_layout disk (with_first e) ≡ ok (opened e)
unfolding create
create_with e = refl

new_entry-IsEntry : (s n : ℕ) → s < 1000 → n < 1000 → IsEntry (new_entry s n)
new_entry-IsEntry s n h k = omega arith

four_entries :
    (s n : ℕ)
    → s < 1000
    → n < 1000
    → IsEntry (new_entry s n) × IsEntry zeroed_entry × IsEntry zeroed_entry × IsEntry zeroed_entry
four_entries s n h k = omega arith

small_fits : AllFit 100 (with_first small).entries
small_fits = (
  λ _. omega arith,
  (λ ne. absurd (ne refl), (λ ne. absurd (ne refl), (λ ne. absurd (ne refl), tt))),
)

open-create_example : open_mbr disk_device c_layout (opened small).raw ≡ ok (opened small)
open-create_example =
    open-create disk_device c_layout disk_device-IsStore c_layout-IsLayout disk small zeroed_entry
      zeroed_entry zeroed_entry 0 (four_entries 1 50 (omega arith) (omega arith)) small_fits
      (create_with small)

open-create_full_example :
    open_mbr disk_device c_layout (opened whole).raw ≡ err invalid_part_extent
open-create_full_example =
    open-create_full disk_device c_layout disk_device-IsStore c_layout-IsLayout disk whole
      zeroed_entry zeroed_entry zeroed_entry 0 (four_entries 1 99 (omega arith) (omega arith))
      (omega arith) refl (create_with whole)

open_mbr_sound_example :
    ((opened small).raw ≡ (opened small).raw) × AllFit 100 (with_first small).entries
open_mbr_sound_example = open_mbr_sound disk_device c_layout (opened small).raw open-create_example

add_replaces_example :
    (add new_table small ≡ ok (replaced new_table small))
    × (as_slice (replaced new_table small) ≡ some [])
add_replaces_example = add_replaces small empty

add-add_test : (add new_table small >>= λ u. add u whole) ≡ add new_table whole
add-add_test = add-add small whole empty

create_unchecked_test : create disk_device c_layout disk new_table ≢ err invalid_part_extent
create_unchecked_test = create_unchecked disk_device c_layout disk empty

partition_device-IsStore_example : IsStore (partition_device disk_device)
partition_device-IsStore_example = partition_device-IsStore disk_device disk_device-IsStore

partitions_apart_test :
    let a : PartExtent = record { start = 1; sectors = 10 } in
    let b : PartExtent = record { start = 11; sectors = 20 } in
    let p = (write_part disk_device (record { raw = disk; extent = a }) zeroed_block 9).0 in
    read_part disk_device (record { raw = p.raw; extent = b }) 0
    ≡ read_part disk_device (record { raw = disk; extent = b }) 0
partitions_apart_test =
    partitions_apart disk_device disk_device-IsStore disk (record { start = 1; sectors = 10 })
      (record { start = 11; sectors = 20 }) zeroed_block 9 0 (inl (omega arith))
