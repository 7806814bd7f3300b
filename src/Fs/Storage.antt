-- ===== src/Fs/Storage.antt =====
-- `LfsStorage` of firmware/usbarmory/src/fs.rs: bytes are read and written in blocks of a device.
use usbarmory_rust.Prelude.Chunks.{chunks}
use usbarmory_rust.Storage.Device.{ManagedBlockDevice, block_size}
use usbarmory_rust.Prelude.{ℕ, suc, ◌/◌, List, [], ◌∷◌, ◌++◌, ◌==◌, if◌then◌else◌, length}
use usbarmory_rust.Prelude.Bytes.{Bytes}
use usbarmory_rust.Prelude.Outcome.{Outcome, ok, err, panic, ◌>>=◌, ◌>>◌, map_err}

-- The errors of the crate littlefs2 that this code names.
pub data FsError : Type 0 where
  io no_space : FsError

-- `Storage::BLOCK_COUNT`
abbrev pub block_count : ℕ
block_count = 131072

module _ {D E : Type 0} (dev : ManagedBlockDevice D E) where
  -- The loop of `read` over the chunks of the caller's buffer: the bytes that are left there.
  unfoldable pub read_chunks : D → ℕ → List Bytes → Outcome FsError Bytes
  read_chunks d lba [] = ok []
  read_chunks d lba (chunk ∷ rest) = do
    block ← map_err (λ e. io) (dev.read d lba)
    if length chunk == block_size then ok tt else panic
    more ← read_chunks d (suc lba) rest
    ok (block.bytes ++ more)

  -- `read`: the bytes that are left in the buffer, and how many they are.
  unfoldable pub read : D → ℕ → Bytes → Outcome FsError (Bytes × ℕ)
  unfolding read_chunks
  read d off buf = do
    bytes ← read_chunks d (off / block_size) (chunks block_size buf)
    ok (bytes, length buf)

  -- The loop of `write` over the chunks of the data.
  unfoldable pub write_chunks : D → ℕ → List Bytes → D × Outcome FsError (Unit {0})
  write_chunks d lba [] = (d, ok tt)
  write_chunks d lba (chunk ∷ rest) =
      let (d', written) = dev.write d (record { bytes = chunk }) lba in
      let more = write_chunks d' (suc lba) rest in
      if length chunk == block_size
      then elim written [ ok done ↦ more | err e ↦ (d', err io) | panic ↦ (d', panic) ]
      else (d, panic)

  -- The end of `write`.
  unfoldable pub flushed : ℕ → D × Outcome FsError (Unit {0}) → D × Outcome FsError ℕ
  flushed n (d, panic) = (d, panic)
  flushed n (d, err e) = (d, err e)
  flushed n (d, ok done) =
      let (d', flushes) = dev.flush d in (d', map_err (λ e. io) flushes >>= λ done. ok n)

  -- `write`
  unfoldable pub write : D → ℕ → Bytes → D × Outcome FsError ℕ
  unfolding write_chunks flushed
  write d off bytes =
      flushed (length bytes) (write_chunks d (off / block_size) (chunks block_size bytes))

  -- `erase`
  abbrev pub erase : D → ℕ → ℕ → D × Outcome FsError ℕ
  erase d off len = (d, ok len)
