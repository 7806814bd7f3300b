-- ===== src/Rtic/System.antt =====
-- A system of the handlers that run under `run` of firmware/cortex-a-rtic/src/export.rs. The
-- interrupt controller starts a handler when the priority of the interrupt is higher than the mask
-- and than that of the handler that runs, as the architecture of the controller documents.
use usbarmory_rust.Prelude.{
  ℕ, suc, ◌≤◌, ◌<◌, ◌≡◌, Bool, true, false, List, [], ◌∷◌, ◌==◌, if◌then◌else◌,
}
use usbarmory_rust.Rtic.Mask.{logical2hw, idle_priority, max_priority}
use usbarmory_rust.Rtic.Lock.{Context, lock_begin, lock_end, run}

-- A call of `lock` that has not returned: its resource, and its local `current`.
pub record Section : Type 0 where
  pub resource : ℕ
  pub current : ℕ

-- A handler that has started and not ended: the priority of its interrupt, its `Priority`, its
-- critical sections, the newest first, and the local `initial` of `run`.
pub record Frame : Type 0 where
  pub static_priority : ℕ
  pub cell : ℕ
  pub sections : List Section
  pub initial : ℕ

pub record System : Type 0 where
  pub pmr : ℕ
  pub frames : List Frame

abbrev pub context : ℕ → Frame → Context (Unit {0})
context pmr f = record { priority = f.cell; pmr = pmr; resource = tt }

abbrev pub begin_section : (ℕ → ℕ) → ℕ → ℕ → Frame → List Frame → System
unfolding lock_begin
begin_section ceiling r pmr f fs =
    let c = lock_begin (ceiling r) (context pmr f) in
    record {
      pmr = c.pmr;
      frames =
          record f {
            cell = c.priority;
            sections = record { resource = r; current = f.cell } ∷ f.sections;
          }
          ∷ fs;
    }

abbrev pub end_section : (ℕ → ℕ) → Section → List Section → ℕ → Frame → List Frame → System
unfolding lock_end
end_section ceiling l ls pmr f fs =
    let c = lock_end l.current (ceiling l.resource) (context pmr f) in
    record { pmr = c.pmr; frames = record f { cell = c.priority; sections = ls } ∷ fs }

-- `main` runs at the lowest priority, and the mask is open for all that is higher.
abbrev pub init : System
init = record {
  pmr = logical2hw idle_priority;
  frames =
      record { static_priority = idle_priority; cell = idle_priority; sections = []; initial = 0 }
      ∷ [];
}

abbrev pub CanStart : ℕ → ℕ → Frame → Type 0
CanStart q pmr f = (logical2hw q < pmr) × (logical2hw q < logical2hw f.static_priority)

pub data Step (ceiling : ℕ → ℕ) : System → System → Type 0 where
  interrupt :
      (q pmr : ℕ) (f : Frame) (fs : List Frame)
      → q ≤ max_priority
      → CanStart q pmr f
      → Step ceiling
          (record { pmr = pmr; frames = f ∷ fs })
          (record {
            pmr = pmr;
            frames =
                record { static_priority = q; cell = q; sections = []; initial = pmr } ∷ f ∷ fs;
          })
  enter :
      (r pmr : ℕ) (f : Frame) (fs : List Frame)
      → f.static_priority ≤ ceiling r
      → ceiling r ≤ max_priority
      → Step ceiling (record { pmr = pmr; frames = f ∷ fs }) (begin_section ceiling r pmr f fs)
  leave :
      (l : Section) (ls : List Section) (pmr : ℕ) (f : Frame) (fs : List Frame)
      → f.sections ≡ l ∷ ls
      → Step ceiling (record { pmr = pmr; frames = f ∷ fs }) (end_section ceiling l ls pmr f fs)
  finish :
      (pmr : ℕ) (f g : Frame) (fs : List Frame)
      → f.sections ≡ []
      → Step ceiling
          (record { pmr = pmr; frames = f ∷ g ∷ fs })
          (record {
            pmr = (run f.static_priority (λ c. record c { pmr = pmr }) (context f.initial f)).pmr;
            frames = g ∷ fs;
          })

pub data Reach (ceiling : ℕ → ℕ) : System → Type 0 where
  start : Reach ceiling init
  later : {s t : System} → Reach ceiling s → Step ceiling s t → Reach ceiling t

-- Whether a handler is in a critical section of a resource, and how many are.
abbrev pub holds : ℕ → List Section → Bool
holds r [] = false
holds r (l ∷ ls) = if l.resource == r then true else holds r ls

abbrev pub holders : ℕ → List Frame → ℕ
holders r [] = 0
holders r (f ∷ fs) = let rest = holders r fs in if holds r f.sections then suc rest else rest
