-- ===== src/Fs/Blocks.antt =====
-- Over a device that stores blocks, the storage of firmware/usbarmory/src/fs.rs stores bytes.
use usbarmory_rust.Prelude.Chunks.{
  chunks, chunks_within, concat, concat-chunks_within, AreSized, chunks_within-AreSized,
  length-chunks_within,
}
use usbarmory_rust.Storage.Device.{ManagedBlockDevice, IsStore, block_size}
use usbarmory_rust.Fs.Storage.{FsError, read_chunks, read, write_chunks, flushed, write}
use usbarmory_rust.Prelude.{
  ℕ, suc, ◌*◌, ◌/◌, ◌<◌, ◌≡◌, refl, sym, ap, ◌∙◌, List, [], ◌∷◌, arith, ==_iff, length,
}
use usbarmory_rust.Prelude.Bytes.{Bytes}
use usbarmory_rust.Prelude.Outcome.{Outcome, ok, err, panic, ◌>>=◌}

-- `flush` leaves what is read.
pub record IsFlushed {D E : Type 0} (dev : ManagedBlockDevice D E) : Type 0 where
  pub read-flush : (d : D) (lba : ℕ) → dev.read (dev.flush d).0 lba ≡ dev.read d lba

module _ {D E : Type 0} (dev : ManagedBlockDevice D E) (store : IsStore dev)
    (flushes : IsFlushed dev) where
  open store use {read-write_self, read-write_ne}
  open flushes use {read-flush}

  -- Blocks from an address on leave those below it.
  write_chunks-below :
      (d : D) (lba i : ℕ) (cs : List Bytes)
      → i < lba
      → dev.read (write_chunks dev d lba cs).0 i ≡ dev.read d i
  unfolding write_chunks
  write_chunks-below d lba i [] h = refl
  write_chunks-below d lba i (c ∷ cs) h = ground (
    arith,
    read-write_ne d (record { bytes = c }) i lba,
    write_chunks-below (dev.write d (record { bytes = c }) lba).0 (suc lba) i cs,
  )

  -- A first block that is written, when all are.
  first_written :
      (d : D) (lba : ℕ) (c : Bytes) (cs : List Bytes)
      → (write_chunks dev d lba (c ∷ cs)).1 ≡ ok tt
      → ((dev.write d (record { bytes = c }) lba).1 ≡ ok tt)
        × (write_chunks dev d lba (c ∷ cs)
            ≡ write_chunks dev (dev.write d (record { bytes = c }) lba).0 (suc lba) cs)
  unfolding write_chunks
  first_written d lba c cs written = ground arith

  read_chunks-write_chunks :
      (d : D) (lba : ℕ) (cs buf : List Bytes)
      → AreSized block_size buf
      → length cs ≡ length buf
      → (write_chunks dev d lba cs).1 ≡ ok tt
      → read_chunks dev (write_chunks dev d lba cs).0 lba buf ≡ ok (concat cs)
  unfolding read_chunks
  read_chunks-write_chunks d lba [] [] sized same written = refl
  read_chunks-write_chunks d lba [] (b ∷ buf) sized same written = absurd (omega arith)
  read_chunks-write_chunks d lba (c ∷ cs) [] sized same written = absurd (omega arith)
  read_chunks-write_chunks d lba (c ∷ cs) (b ∷ buf) sized same written =
      let (first, rest) = first_written d lba c cs written in
      let d' = (dev.write d (record { bytes = c }) lba).0 in
      let first_read =
        ap (λ (x : D × Outcome FsError (Unit {0})). dev.read x.0 lba) rest
        ∙ (write_chunks-below d' (suc lba) lba cs (omega arith)
            ∙ read-write_self d (record { bytes = c }) lba first) in
      let more =
        read_chunks-write_chunks d' (suc lba) cs buf sized.1 (omega arith)
          (sym (ap (λ (x : D × Outcome FsError (Unit {0})). x.1) rest) ∙ written) in
      let more' =
        ap (λ (x : D × Outcome FsError (Unit {0})). read_chunks dev x.0 (suc lba) buf) rest
        ∙ more in
      rw (read_chunks, first_read, (==_iff (length b) block_size).1 sized.0, more') refl

  -- What `flushed` makes of an `Ok`.
  all_written :
      (n m : ℕ) (r : D × Outcome FsError (Unit {0}))
      → (flushed dev n r).1 ≡ ok m
      → (r.1 ≡ ok tt) × ((flushed dev n r).0 ≡ (dev.flush r.0).0) × (m ≡ n)
  unfolding flushed
  all_written n m (d, panic) h = cc
  all_written n m (d, err e) h = cc
  all_written n m (d, ok done) h = ground arith

  read_chunks-flush :
      (d : D) (lba : ℕ) (buf : List Bytes)
      → read_chunks dev (dev.flush d).0 lba buf ≡ read_chunks dev d lba buf
  unfolding read_chunks
  read_chunks-flush d lba [] = refl
  read_chunks-flush d lba (b ∷ buf) =
      rw (read_chunks, read-flush d lba, read_chunks-flush d (suc lba) buf) refl

  -- Data in whole blocks that `write` has put at an offset, with `Ok`, are what `read` returns there
  -- for a buffer of the same length, whatever it held; and both return that length.
  pub read-write :
      (d : D) (off k n : ℕ) (bytes buf : Bytes)
      → length bytes ≡ k * block_size
      → length buf ≡ length bytes
      → (write dev d off bytes).1 ≡ ok n
      → (read dev (write dev d off bytes).0 off buf ≡ ok (bytes, length bytes)) × (n ≡ length bytes)
  unfolding read write
  read-write d off k n bytes buf whole same written =
      let cs = chunks block_size bytes in
      let (sent, flushes_d, n_eq) =
        all_written (length bytes) n (write_chunks dev d (off / block_size) cs) written in
      let blocks = chunks block_size buf in
      let counted : length cs ≡ length blocks =
        length-chunks_within (length bytes) block_size bytes buf (sym same)
        ∙ ap (λ fuel. length (chunks_within fuel block_size buf)) (sym same) in
      let sized = chunks_within-AreSized (length buf) block_size k buf (same ∙ whole) in
      let runs =
        ap (λ x. read_chunks dev x (off / block_size) blocks) flushes_d
        ∙ (read_chunks-flush (write_chunks dev d (off / block_size) cs).0 (off / block_size) blocks
            ∙ (read_chunks-write_chunks d (off / block_size) cs blocks sized counted sent
                ∙ ap ok (
                    concat-chunks_within (length bytes) block_size bytes (omega arith)
                      (omega arith)))) in
      (
        ap (λ (r : Outcome FsError Bytes). r >>= λ found. ok (found, length buf)) runs
            ∙ ap (λ m. ok (bytes, m)) same,
        n_eq,
      )
