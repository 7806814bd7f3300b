-- ===== src/Storage/Mbr/Partition.antt =====
-- A partition of an MBR device is a block device of its own, apart from the other partitions.
use usbarmory_rust.Prelude.{ℕ, ◌+◌, ◌≤◌, ◌≡◌, ◌≢◌, ◌⊎◌, arith}
use usbarmory_rust.Prelude.Outcome.{ok}
use usbarmory_rust.Storage.Device.{Block, ManagedBlockDevice, IsStore}
use usbarmory_rust.Storage.Table.{PartExtent}
use usbarmory_rust.Storage.Mbr.{
  out_of_range_access, MbrPartitionRef, read_part, write_part, partition_device,
}

module _ {D E : Type 0} (dev : ManagedBlockDevice D E) (store : IsStore dev) where
  self :
      (p : MbrPartitionRef D) (b : Block) (lba : ℕ)
      → (write_part dev p b lba).1 ≡ ok tt
      → read_part dev (write_part dev p b lba).0 lba ≡ ok b
  unfolding read_part write_part
  self p b lba h = ground (arith, store.read-write_self p.raw b (lba + p.extent.start))

  other :
      (p : MbrPartitionRef D) (b : Block) (i lba : ℕ)
      → i ≢ lba
      → read_part dev (write_part dev p b lba).0 i ≡ read_part dev p i
  unfolding read_part write_part
  other p b i lba ne =
      ground (arith, store.read-write_ne p.raw b (i + p.extent.start) (lba + p.extent.start))

  -- Over a device that keeps what is written and refuses accesses out of its range, a partition
  -- does so too, at its own size.
  pub partition_device-IsStore : IsStore (partition_device dev)
  partition_device-IsStore = record {
    read_range = λ p lba h. (out_of_range_access, unfold read_part in ground arith);
    write_range = λ p b lba h. (out_of_range_access, unfold write_part in ground arith);
    read-write_self = self;
    read-write_ne = other;
    total_blocks-write = λ p b lba. unfold write_part in ground arith;
  }

  -- A write through one partition, in or out of its range, leaves what is read through another
  -- one of the same device, where the extents do not overlap.
  pub partitions_apart :
      (raw : D) (a b : PartExtent) (block : Block) (lba i : ℕ)
      → (a.start + a.sectors ≤ b.start) ⊎ (b.start + b.sectors ≤ a.start)
      → let p = (write_part dev (record { raw = raw; extent = a }) block lba).0 in
        read_part dev (record { raw = p.raw; extent = b }) i
        ≡ read_part dev (record { raw = raw; extent = b }) i
  unfolding read_part write_part
  partitions_apart raw a b block lba i apart =
      ground (arith, store.read-write_ne raw block (i + b.start) (lba + a.start))
