-- ===== src/Emmc/Bounds.antt =====
-- The numbers of blocks that `read` and `write` of firmware/usbarmory/src/emmc.rs take.
use usbarmory_rust.Prelude.{ℕ, ◌%◌, ◌^◌, ◌≤◌, ◌<◌, ◌≡◌, refl, true, false, some, arith, ltb, lt→ltb}
use usbarmory_rust.Prelude.Outcome.{err, panic}
use usbarmory_rust.Emmc.Machine.{Controller, other, error, Machine}
use usbarmory_rust.Emmc.Driver.{
  read_single_block, write_single_block, read_block, write_block, device_read, device_write,
}

ltb-false : {a b : ℕ} → b ≤ a → ltb a b ≡ false
ltb-false h = ground arith

mod-small : {n : ℕ} → n < 2 ^ 32 → n % 2 ^ 32 ≡ n
mod-small h = omega arith

module _ (controller : Controller) (lba addr : ℕ) (m : Machine) where
  module _ (nr : ℕ) where
    read-block :
        ltb nr m.emmc.blocks ≡ true
        → read_block controller nr addr m ≡ read_single_block controller (some nr) addr m
    unfolding read_block
    read-block h = rw (h) refl

    write-block :
        ltb nr m.emmc.blocks ≡ true
        → write_block controller nr addr m ≡ write_single_block controller nr addr m
    unfolding write_block
    write-block h = rw (h) refl

    read-none : ltb nr m.emmc.blocks ≡ false → read_block controller nr addr m ≡ (panic, m)
    unfolding read_block
    read-none h = rw (h) refl

    write-none : ltb nr m.emmc.blocks ≡ false → write_block controller nr addr m ≡ (panic, m)
    unfolding write_block
    write-none h = rw (h) refl

  pub read-in_range :
      lba < m.emmc.blocks
      → m.emmc.blocks ≤ 2 ^ 32
      → device_read controller lba addr m ≡ read_single_block controller (some lba) addr m
  unfolding device_read
  read-in_range small cut =
      rw (ltb-false {a = m.emmc.blocks} {b = lba} (omega arith), mod-small {n = lba} (omega arith))
        (read-block lba (lt→ltb lba m.emmc.blocks small))

  pub write-in_range :
      lba < m.emmc.blocks
      → m.emmc.blocks ≤ 2 ^ 32
      → device_write controller lba addr m ≡ write_single_block controller lba addr m
  unfolding device_write
  write-in_range small cut =
      rw (ltb-false {a = m.emmc.blocks} {b = lba} (omega arith), mod-small {n = lba} (omega arith))
        (write-block lba (lt→ltb lba m.emmc.blocks small))

  -- A number above the number of blocks is an error for both of `read` and `write`, and the number of
  -- blocks itself is a panic for both; neither does anything to the controller.
  pub device-out_of_range :
      m.emmc.blocks < 2 ^ 32
      → (m.emmc.blocks < lba
          → (device_read controller lba addr m ≡ (err (error other), m))
            × (device_write controller lba addr m ≡ (err (error other), m)))
        × (lba ≡ m.emmc.blocks
            → (device_read controller lba addr m ≡ (panic, m))
              × (device_write controller lba addr m ≡ (panic, m)))
  unfolding device_read device_write
  device-out_of_range cut = (
    λ above. (rw (lt→ltb m.emmc.blocks lba above) refl, rw (lt→ltb m.emmc.blocks lba above) refl),
    λ e. (
      rw (ltb-false {a = m.emmc.blocks} {b = lba} (omega arith), mod-small {n = lba} (omega arith))
          (read-none lba (ltb-false {a = lba} {b = m.emmc.blocks} (omega arith))),
      rw (ltb-false {a = m.emmc.blocks} {b = lba} (omega arith), mod-small {n = lba} (omega arith))
          (write-none lba (ltb-false {a = lba} {b = m.emmc.blocks} (omega arith))),
    ),
  )
