-- ===== src/Storage/Memory.antt =====
-- A device in memory, a concrete block device for the tests.
use usbarmory_rust.Storage.Device.{Block, ManagedBlockDevice, IsStore}
use usbarmory_rust.Prelude.{ℕ, arith, leb, ◌==◌, if◌then◌else◌}
use usbarmory_rust.Prelude.Outcome.{Outcome, ok, err}

pub record Disk : Type 0 where
  pub total : ℕ
  pub blocks : ℕ → Block

pub data DiskError : Type 0 where
  out_of_range : DiskError

abbrev read_disk : Disk → ℕ → Outcome DiskError Block
read_disk d lba = if leb d.total lba then err out_of_range else ok (d.blocks lba)

abbrev pub write_disk : Disk → Block → ℕ → Disk × Outcome DiskError (Unit {0})
write_disk d b lba =
    if leb d.total lba
    then (d, err out_of_range)
    else (record d { blocks = λ i. if i == lba then b else d.blocks i }, ok tt)

abbrev pub disk_device : ManagedBlockDevice Disk DiskError
disk_device = record {
  total_blocks = λ d. d.total;
  read = read_disk;
  write = write_disk;
  flush = λ d. (d, ok tt);
}

pub disk_device-IsStore : IsStore disk_device
disk_device-IsStore = record {
  read_range = λ d lba h. (out_of_range, ground arith);
  write_range = λ d b lba h. (out_of_range, ground arith);
  read-write_self = λ d b lba h. ground arith;
  read-write_ne = λ d b i lba ne. ground arith;
  total_blocks-write = λ d b lba. ground arith;
}
