-- ===== src/Rtic/Tests.antt =====
-- The runtime of firmware/cortex-a-rtic/src/export.rs at concrete priorities.
use usbarmory_rust.Prelude.{ℕ, suc, ◌≤◌, ◌<◌, max, ◌≡◌, refl, ◌↔◌, [], ◌∷◌, arith}
use usbarmory_rust.Rtic.Mask.{logical2hw, logical2hw-lt, enable_write, sgi_write}
use usbarmory_rust.Rtic.Lock.{Context, lock_begin, lock}
use usbarmory_rust.Rtic.Nested.{lock-restores}
use usbarmory_rust.Rtic.System.{Frame, CanStart, Reach, holders, interrupt, enter, start, later}
use usbarmory_rust.Rtic.Exclusion.{mutual_exclusion, CanStart-iff}

-- A resource that tasks of the priorities 2 and 3 share, and their handlers.
abbrev shared : ℕ → ℕ
shared r = 3

abbrev main_frame : Frame
main_frame = record { static_priority = 0; cell = 0; sections = []; initial = 0 }

abbrev task : Frame
task = record { static_priority = 2; cell = 2; sections = []; initial = 248 }

abbrev in_section : Frame
in_section = record {
  static_priority = 2;
  cell = 3;
  sections = record { resource = 7; current = 2 } ∷ [];
  initial = 248;
}

Reach-in_section : Reach shared (record { pmr = 224; frames = in_section ∷ main_frame ∷ [] })
unfolding lock_begin logical2hw
Reach-in_section =
    later (later start (interrupt 2 248 main_frame [] (omega arith) (omega arith, omega arith)))
      (enter 7 248 task (main_frame ∷ []) (omega arith) (omega arith))

mutual_exclusion_example : holders 7 (in_section ∷ main_frame ∷ []) ≤ 1
mutual_exclusion_example = mutual_exclusion shared Reach-in_section 7

CanStart-iff_example : CanStart 3 224 in_section ↔ (3 < 3)
CanStart-iff_example =
    CanStart-iff shared 3 224 in_section (main_frame ∷ []) (omega arith) Reach-in_section

-- A closure with a critical section of its own, which adds one to its resource.
abbrev bump : Context ℕ → ℕ × Context ℕ
bump c = (c.resource, record c { resource = suc c.resource })

lock-restores_test :
    (inside : Context ℕ) × (inside.priority ≡ max 2 3)
    × (inside.pmr ≡ logical2hw (max 2 3))
    × (inside.resource ≡ 41)
    × ((lock 3 bump (record { priority = 2; pmr = 232; resource = 41 })).0 ≡ (bump inside).0)
    × ((lock 3 bump (record { priority = 2; pmr = 232; resource = 41 })).1
        ≡ record { priority = 2; pmr = 232; resource = (bump inside).1.resource })
unfolding logical2hw
lock-restores_test =
    lock-restores 3 bump (record { priority = 2; pmr = 232; resource = 41 }) (λ d. (refl, refl))
      refl

logical2hw-lt_example : (logical2hw 3 < logical2hw 2) ↔ (2 < 3)
logical2hw-lt_example = logical2hw-lt 3 2 (omega arith) (omega arith)

enable_write_test : enable_write 65 ≡ (2, 2)
unfolding enable_write
enable_write_test = refl

sgi_write_test : sgi_write 5 ≡ 0x02000005
unfolding sgi_write
sgi_write_test = refl
