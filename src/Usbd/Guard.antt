-- ===== src/Usbd/Guard.antt =====
-- The mutex of firmware/usbarmory/src/usbd.rs, through which the methods of UsbBus in usbd/bus.rs call
-- the operations, and the methods that only look at a register or do nothing.
use usbarmory_rust.Usbd.Bus.{Run, Inner, assert, write, usbsts}
use usbarmory_rust.Prelude.{ℕ, bit_and, ◌≡◌, refl, Bool, true, false, not, ◌==◌, if◌then◌else◌}
use usbarmory_rust.Prelude.Outcome.{ok, panic, ◌>>=◌, ◌>>◌}
use usbarmory_rust.Prelude.Bits.{◌<<<◌}

-- `Mutex` with the processor's mask of interrupts.
pub record Guard : Type 0 where
  pub irq_masked : Bool
  pub borrowed : Bool
  pub data_ : Inner

-- The closure is called on the borrowed data.
unfoldable pub borrow : {R : Type 0} → (Guard → Run (R × Guard)) → Guard → Run (R × Guard)
borrow f g = do
  assert (not g.borrowed)
  (r, g') ← f (record g { borrowed = true })
  ok (r, record g' { borrowed = false })

-- `lock`: interrupts are masked during the call, and enabled after it when they were before.
unfoldable pub lock : {R : Type 0} → (Guard → Run (R × Guard)) → Guard → Run (R × Guard)
unfolding borrow
lock f g =
    if not g.irq_masked
    then (do
      (r, g') ← borrow f (record g { irq_masked = true })
      ok (r, record g' { irq_masked = false }))
    else borrow f g

-- An operation on the data, as the closures of UsbBus.
abbrev pub on_data : {R : Type 0} → (Inner → Run (R × Inner)) → Guard → Run (R × Guard)
on_data f g = f g.data_ >>= λ x. ok (x.0, record g { data_ = x.1 })

-- `set_stalled`
abbrev pub set_stalled : Bool → Guard → Run Guard
set_stalled stalled g = if stalled then panic else ok g

-- `interrupts_pending`, of what `USBSTS` reads as
abbrev pub interrupts_pending : ℕ → Bool
interrupts_pending register = not (bit_and register 1 == 0)

-- `clear_start_of_frame_interrupt`
abbrev pub clear_start_of_frame_interrupt : Inner → Inner
clear_start_of_frame_interrupt s = write (usbsts (1 <<< 7)) s

-- A mutex that is not borrowed.
abbrev pub free : Bool → Inner → Guard
free irq_masked s = record { irq_masked = irq_masked; borrowed = false; data_ = s }

-- A call through the mutex, with a result, is the operation on the data, whether interrupts were
-- masked or not, and leaves the mask as it was and the mutex free; a call from within a call panics.
pub lock-on_data :
    {R : Type 0} (f : Inner → Run (R × Inner)) (irq_masked : Bool) (s s' : Inner) (r : R)
    → f s ≡ ok (r, s')
    → (lock (on_data f) (free irq_masked s) ≡ ok (r, free irq_masked s'))
      × (lock (lock (on_data f)) (free irq_masked s) ≡ panic)
unfolding lock borrow
lock-on_data f true s s' r runs = (rw (lock, runs) refl, refl)
lock-on_data f false s s' r runs = (rw (lock, runs) refl, refl)
