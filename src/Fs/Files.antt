-- ===== src/Fs/Files.antt =====
-- The file system and the files of firmware/usbarmory/src/fs.rs, over the crate littlefs2. A panic does
-- not unwind, so that nothing is dropped by it. The borrows of the file system and of the storage end
-- with each call, and are left out.
use usbarmory_rust.Fs.Storage.{block_count}
use usbarmory_rust.Fs.Lfs.{Run, ◌>>=◌, ◌>>◌, done, or_panic, Lfs}
use usbarmory_rust.Prelude.Bytes.{Bytes}
use usbarmory_rust.Prelude.{ℕ, Option, none, some, ltb, if◌then◌else◌}
use usbarmory_rust.Prelude.Bytes.{Bytes}
use usbarmory_rust.Prelude.Outcome.{Outcome, ok, err, panic}

-- `File`
pub record File (F : Type 0) : Type 0 where
  pub inner : Option F

module _ {S F E : Type 0} (lfs : Lfs S F E) where
  -- `LittleFs::mount`, on a device of so many blocks
  unfoldable pub mount : ℕ → Run S E (Unit {0})
  mount total_blocks = if ltb total_blocks block_count then done (err lfs.no_space) else lfs.mount

  -- `LittleFs::mount_and_then`
  unfoldable pub mount_and_then : {R : Type 0} → ℕ → Run S E R → Run S E R
  unfolding mount
  mount_and_then total_blocks f = mount total_blocks >> f

  -- `File::open`
  unfoldable pub open_file : Bytes → Run S E (File F)
  open_file path = do
    inner ← lfs.open_file path
    lfs.seek inner 0
    done (ok (record { inner = some inner }))

  -- `File::create`
  unfoldable pub create_file : Bytes → Run S E (File F)
  create_file path = do inner ← lfs.create_file path; done (ok (record { inner = some inner }))

  -- `take` or `as_ref`, with `assume_unreachable!`
  abbrev pub inner_of : File F → Run S E F
  inner_of file = elim (file.inner) [ none ↦ done panic | some inner ↦ done (ok inner) ]

  -- `File::close`
  unfoldable pub close : File F → Run S E (Unit {0})
  close file = inner_of file >>= lfs.close

  -- `File::len`, `File::read`, `File::write`, `File::sync`
  abbrev pub len : File F → Run S E ℕ
  len file = inner_of file >>= lfs.len

  abbrev pub read : File F → Bytes → Run S E (Bytes × ℕ)
  read file buf = inner_of file >>= λ inner. lfs.read inner buf

  abbrev pub write : File F → Bytes → Run S E ℕ
  write file buf = inner_of file >>= λ inner. lfs.write inner buf

  abbrev pub sync : File F → Run S E (Unit {0})
  sync file = inner_of file >>= lfs.sync

  -- `drop` of a `File`
  unfoldable pub drop_file : File F → Run S E (Unit {0})
  drop_file file s = elim (file.inner) [
    | none ↦ (ok tt, s)
    | some inner ↦ or_panic (lfs.close inner s)
  ]

  -- What `open_and_then` does with the result of the closure.
  abbrev pub close_after : {R : Type 0} → File F → Outcome E R × S → Outcome E R × S
  close_after file (panic, s) = (panic, s)
  close_after file (ok r, s) = (close file >> done (ok r)) s
  close_after file (err e, s) = (close file >> done (err e)) s

  -- `File::open_and_then`
  unfoldable pub open_and_then : {R : Type 0} → Bytes → (File F → Run S E R) → Run S E R
  unfolding open_file close
  open_and_then path f = open_file path >>= λ file s. close_after file (f file s)

  -- What `create_and_then` does with the result of the closure.
  abbrev pub close_or_drop : {R : Type 0} → File F → Outcome E R × S → Outcome E R × S
  close_or_drop file (panic, s) = (panic, s)
  close_or_drop file (ok r, s) = (close file >> done (ok r)) s
  close_or_drop file (err e, s) = (drop_file file >> done (err e)) s

  -- `File::create_and_then`
  unfoldable pub create_and_then : {R : Type 0} → Bytes → (File F → Run S E R) → Run S E R
  unfolding create_file close drop_file
  create_and_then path f = create_file path >>= λ file s. close_or_drop file (f file s)
