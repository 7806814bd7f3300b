-- ===== src/Fs/Tests.antt =====
-- The storage of a file system over a device in memory.
use usbarmory_rust.Storage.Device.{zeroed_block, block_size}
use usbarmory_rust.Storage.Memory.{Disk, disk_device, disk_device-IsStore}
use usbarmory_rust.Fs.Storage.{FsError, io, no_space, read, write}
use usbarmory_rust.Fs.Lfs.{Run, done, Lfs, IsLfs}
use usbarmory_rust.Fs.Files
use usbarmory_rust.Fs.Files.{File, mount, open_file, open_and_then, create_and_then}
use usbarmory_rust.Fs.Closing.{open_and_then-closes, open_file-leaks}
use usbarmory_rust.Fs.Blocks.{IsFlushed, read-write}
use usbarmory_rust.Prelude.{
  ℕ, suc, ◌≡◌, refl, Bool, true, false, List, [], ◌∷◌, ◌++◌, if◌then◌else◌, length, replicate,
}
use usbarmory_rust.Prelude.Bytes.{Bytes}
use usbarmory_rust.Prelude.Outcome.{ok, err}

abbrev disk : Disk
disk = record { total = 4; blocks = λ i. zeroed_block }

disk_device-IsFlushed : IsFlushed disk_device
disk_device-IsFlushed = record { read-flush = λ d lba. refl }

-- Two blocks of data.
abbrev data_bytes : Bytes
data_bytes = replicate block_size 7 ++ replicate block_size 9

read-write_example :
    (read disk_device (write disk_device disk 512 data_bytes).0 512 (replicate 1024 0)
      ≡ ok (data_bytes, length data_bytes))
    × (length data_bytes ≡ length data_bytes)
unfolding write
read-write_example =
    read-write disk_device disk_device-IsStore disk_device-IsFlushed disk 512 2 (length data_bytes)
      data_bytes (replicate 1024 0) refl refl refl

-- Behind the end of the device, the error is `io`.
write_out_of_range : (write disk_device disk 2048 (replicate block_size 7)).1 ≡ err io
unfolding write
write_out_of_range = refl

-- A file system of which only the handles are kept: the next one, and those of the files that are open.
-- Files can be opened and created, and all other calls are errors.
abbrev Handles : Type 0
Handles = ℕ × List ℕ

abbrev no_call : {A : Type 0} → Run Handles FsError A
no_call = done (err io)

abbrev next_handle : Run Handles FsError ℕ
next_handle (n, files) = (ok n, (suc n, n ∷ files))

abbrev close_handle : ℕ → Run Handles FsError (Unit {0})
close_handle file (n, []) = (err io, (n, []))
close_handle file (n, f ∷ files) = (ok tt, (n, files))

abbrev seek_handle : Bool → ℕ → ℕ → Run Handles FsError (Unit {0})
seek_handle can file n = done (if can then ok tt else err io)

abbrev handles_lfs : Bool → Lfs Handles ℕ FsError
handles_lfs can_seek = record {
  no_space = no_space;
  mount = done (ok tt);
  format = no_call;
  available_space = no_call;
  create_dir = λ path. no_call;
  remove = λ path. no_call;
  open_file = λ path. next_handle;
  create_file = λ path. next_handle;
  seek = seek_handle can_seek;
  close = close_handle;
  len = λ file. no_call;
  read = λ file buf. no_call;
  write = λ file buf. no_call;
  sync = λ file. no_call;
}

abbrev open_now : Handles → List ℕ
open_now s = s.1

close_handle-closes :
    (file : ℕ) (rest : List ℕ) (s : Handles)
    → open_now s ≡ file ∷ rest
    → open_now (close_handle file s).1 ≡ rest
close_handle-closes file rest (n, []) h = cc
close_handle-closes file rest (n, f ∷ files) h = cc

handles_lfs-IsLfs : (can_seek : Bool) → IsLfs (handles_lfs can_seek) open_now
handles_lfs-IsLfs can_seek = record {
  opens = λ path s. refl;
  creates = λ path s. refl;
  seeks = λ file n s. refl;
  closes = close_handle-closes;
}

-- A closure that writes, which is an error.
abbrev write_one : File ℕ → Run Handles FsError ℕ
write_one file = Files.write (handles_lfs true) file (7 ∷ [])

open_and_then-closes_example :
    (open_now (open_and_then (handles_lfs true) [] write_one (3, 1 ∷ [])).1 ≡ 1 ∷ [])
    × (open_now (create_and_then (handles_lfs true) [] write_one (3, 1 ∷ [])).1 ≡ 1 ∷ [])
open_and_then-closes_example =
    open_and_then-closes (handles_lfs true) open_now (handles_lfs-IsLfs true) write_one
      (λ file s. refl) (λ file s h. cc) [] (3, 1 ∷ []) (λ file s. refl)

open_file-leaks_example :
    ((open_file (handles_lfs false) [] (3, 1 ∷ [])).0 ≡ err io)
    × (open_now (open_file (handles_lfs false) [] (3, 1 ∷ [])).1 ≡ 3 ∷ 1 ∷ [])
open_file-leaks_example =
    open_file-leaks (handles_lfs false) open_now (handles_lfs-IsLfs false) [] (3, 1 ∷ [])
      (4, 3 ∷ 1 ∷ []) 3 io refl refl

mount_too_small : mount (handles_lfs true) 131071 (0, []) ≡ (err no_space, (0, []))
unfolding mount
mount_too_small = refl
