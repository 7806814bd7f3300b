-- ===== src/Rtic/Nested.antt =====
-- What a critical section of firmware/cortex-a-rtic/src/export.rs does to the mask and to the cell.
use usbarmory_rust.Prelude.{ℕ, ◌<◌, max, ◌≡◌, refl, ap, ◌∙◌, arith, dec_lt}
use usbarmory_rust.Rtic.Mask.{logical2hw}
use usbarmory_rust.Rtic.Lock.{Context, lock_begin, lock_end, lock}

module _ {T : Type 0} (ceiling : ℕ) (c : Context T) where
  begin-raises :
      c.priority < ceiling
      → lock_begin ceiling c ≡ record c { priority = ceiling; pmr = logical2hw ceiling }
  unfolding lock_begin
  begin-raises lt = ground arith

  begin-keeps : ¬ (c.priority < ceiling) → lock_begin ceiling c ≡ c
  unfolding lock_begin
  begin-keeps ge = ground arith

  module _ (d : Context T) where
    end-lowers :
        c.priority < ceiling
        → c.pmr ≡ logical2hw c.priority
        → lock_end c.priority ceiling d ≡ record c { resource = d.resource }
    unfolding lock_end
    end-lowers lt masked = ground arith

    end-keeps :
        ¬ (c.priority < ceiling)
        → (d.priority ≡ c.priority) × (d.pmr ≡ c.pmr)
        → lock_end c.priority ceiling d ≡ record c { resource = d.resource }
    unfolding lock_end
    end-keeps ge kept = ground (arith, kept.0, kept.1)

-- A closure that leaves the cell and the mask as it finds them runs under a priority that is at
-- least the ceiling and at least the one before, on the resource as it was; and `lock` leaves the
-- cell as it was, and the mask too where that was the one of the cell. What the closure did to the
-- resource, and its result, stay.
pub lock-restores :
    {T R : Type 0} (ceiling : ℕ) (f : Context T → R × Context T) (c : Context T)
    → ((d : Context T) → ((f d).1.priority ≡ d.priority) × ((f d).1.pmr ≡ d.pmr))
    → c.pmr ≡ logical2hw c.priority
    → (inside : Context T) × (inside.priority ≡ max c.priority ceiling)
      × (inside.pmr ≡ logical2hw (max c.priority ceiling))
      × (inside.resource ≡ c.resource)
      × ((lock ceiling f c).0 ≡ (f inside).0)
      × ((lock ceiling f c).1 ≡ record c { resource = (f inside).1.resource })
unfolding lock lock_begin lock_end
lock-restores {T} ceiling f c keeps masked = elim (dec_lt c.priority ceiling) [
  | yes lt ↦ (
    raised,
    ground arith,
    ap logical2hw (omega arith),
    refl,
    ap (λ d. (f d).0) (begin-raises ceiling c lt),
    ap (λ d. lock_end c.priority ceiling (f d).1) (begin-raises ceiling c lt)
        ∙ end-lowers ceiling c (f raised).1 lt masked,
  )
  | no ge ↦ (
    c,
    ground arith,
    masked ∙ ap logical2hw (omega arith),
    refl,
    ap (λ d. (f d).0) (begin-keeps ceiling c ge),
    ap (λ d. lock_end c.priority ceiling (f d).1) (begin-keeps ceiling c ge)
        ∙ end-keeps ceiling c (f c).1 ge (keeps c),
  )
]
  where
    raised : Context T
    raised = record c { priority = ceiling; pmr = logical2hw ceiling }
