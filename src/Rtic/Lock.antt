-- ===== src/Rtic/Lock.antt =====
-- `lock`, `run` and `Priority` of firmware/cortex-a-rtic/src/export.rs. A closure is a function of
-- the context that it runs in, which has the resource as its data.
use usbarmory_rust.Prelude.{ℕ, ltb, ◌==◌, if◌then◌else◌}
use usbarmory_rust.Rtic.Mask.{logical2hw, idle_priority}

-- The cell `Priority` of the handler, the register `GICC.PMR`, and what `ptr` points to.
pub record Context (T : Type 0) : Type 0 where
  pub priority : ℕ
  pub pmr : ℕ
  pub resource : T

-- `set_priority_mask`
abbrev pub set_priority_mask : {T : Type 0} → ℕ → Context T → Context T
unfolding logical2hw
set_priority_mask logical c = record c { pmr = logical2hw logical }

-- `lock` up to the call of `f`, and after it; the closure runs in between, in both of the branches.
unfoldable pub lock_begin : {T : Type 0} → ℕ → Context T → Context T
unfolding logical2hw
lock_begin ceiling c =
    if ltb c.priority ceiling
    then set_priority_mask ceiling (record c { priority = ceiling })
    else c

unfoldable pub lock_end : {T : Type 0} → ℕ → ℕ → Context T → Context T
unfolding logical2hw
lock_end current ceiling c =
    if ltb current ceiling then record (set_priority_mask current c) { priority = current } else c

-- `lock`
unfoldable pub lock : {T R : Type 0} → ℕ → (Context T → R × Context T) → Context T → R × Context T
unfolding lock_begin lock_end
lock ceiling f c = let (r, c') = f (lock_begin ceiling c) in (r, lock_end c.priority ceiling c')

-- `run`
unfoldable pub run : {T : Type 0} → ℕ → (Context T → Context T) → Context T → Context T
unfolding logical2hw
run priority f c =
    if priority == 1
    then record (f c) { pmr = logical2hw idle_priority }
    else record (f c) { pmr = c.pmr }
