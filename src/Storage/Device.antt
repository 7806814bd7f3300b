-- ===== src/Storage/Device.antt =====
-- The trait `ManagedBlockDevice`, and what its documentation asks of an implementation.
use usbarmory_rust.Prelude.{ℕ, ◌≤◌, ◌≡◌, ◌≢◌, replicate}
use usbarmory_rust.Prelude.Bytes.{Bytes}
use usbarmory_rust.Prelude.Outcome.{Outcome, ok, err}

-- `BLOCK_SIZE`
abbrev pub block_size : ℕ
block_size = 512

pub record Block : Type 0 where
  pub bytes : Bytes

-- `Block::zeroed`
abbrev pub zeroed_block : Block
zeroed_block = record { bytes = replicate block_size 0 }

-- A `&mut self` method returns the device beside its result. `read` fills the block that it is
-- lent; on an error that block is not looked at by its callers.
pub record ManagedBlockDevice (D E : Type 0) : Type 0 where
  pub total_blocks : D → ℕ
  pub read : D → ℕ → Outcome E Block
  pub write : D → Block → ℕ → D × Outcome E (Unit {0})
  pub flush : D → D × Outcome E (Unit {0})

-- What a client relies on. An access outside of the range is an error (that is documented), a
-- block that was written is read back, and a write touches no other block and no size.
pub record IsStore {D E : Type 0} (dev : ManagedBlockDevice D E) : Type 0 where
  pub read_range : (d : D) (lba : ℕ) → dev.total_blocks d ≤ lba → (e : E) × (dev.read d lba ≡ err e)
  pub write_range :
      (d : D) (b : Block) (lba : ℕ)
      → dev.total_blocks d ≤ lba
      → (e : E) × (dev.write d b lba ≡ (d, err e))
  pub read-write_self :
      (d : D) (b : Block) (lba : ℕ)
      → (dev.write d b lba).1 ≡ ok tt
      → dev.read (dev.write d b lba).0 lba ≡ ok b
  pub read-write_ne :
      (d : D) (b : Block) (i lba : ℕ) → i ≢ lba → dev.read (dev.write d b lba).0 i ≡ dev.read d i
  pub total_blocks-write :
      (d : D) (b : Block) (lba : ℕ) → dev.total_blocks (dev.write d b lba).0 ≡ dev.total_blocks d
