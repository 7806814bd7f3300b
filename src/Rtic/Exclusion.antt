-- ===== src/Rtic/Exclusion.antt =====
-- Mutual exclusion and preemption in a system of handlers.
use usbarmory_rust.Prelude.{
  ℕ, suc, ◌≤◌, ◌<◌, max, ◌≡◌, refl, ap, subst, ◌↔◌, ◌⊎◌, inl, inr, true, false, List, [], ◌∷◌,
  arith, ltb, ◌==◌, ltb→lt, ==_iff, Bool-cases,
}
use usbarmory_rust.Rtic.Mask.{logical2hw, idle_priority, max_priority, logical2hw-lt}
use usbarmory_rust.Rtic.Lock.{lock_begin, lock_end, run}
use usbarmory_rust.Rtic.System.{
  Section, Frame, System, context, begin_section, end_section, CanStart, Step, Reach, holds,
  holders, interrupt, enter, leave, finish, start, later,
}

-- The critical sections of a handler raise its cell one by one, from its own priority.
abbrev IsNested : (ℕ → ℕ) → ℕ → ℕ → List Section → Type 0
IsNested ceiling own cell [] = cell ≡ own
IsNested ceiling own cell (l ∷ ls) =
    (cell ≡ max l.current (ceiling l.resource))
    × (own ≤ ceiling l.resource)
    × (ceiling l.resource ≤ max_priority)
    × IsNested ceiling own l.current ls

-- The mask is that of a priority up to the cell's, and of less only outside of critical sections.
abbrev IsMasked : ℕ → Frame → Type 0
IsMasked pmr f =
    (p : ℕ) × (p ≤ f.cell) × (pmr ≡ logical2hw p) × ((p ≡ f.cell) ⊎ (f.cell ≡ f.static_priority))

-- Each handler is above the cell of the one that it interrupted, and has saved its mask.
abbrev IsStack : (ℕ → ℕ) → ℕ → ℕ → List Frame → Type 0
IsStack ceiling limit pmr [] = Unit
IsStack ceiling limit pmr (f ∷ fs) =
    (f.cell < limit)
    × IsNested ceiling f.static_priority f.cell f.sections
    × IsMasked pmr f
    × IsStack ceiling f.static_priority f.initial fs

abbrev IsSound : (ℕ → ℕ) → System → Type 0
IsSound ceiling s = IsStack ceiling (suc max_priority) s.pmr s.frames

not_ltb : (a b : ℕ) → ltb a b ≡ false → b ≤ a
not_ltb a b h = ground arith

module _ (ceiling : ℕ → ℕ) where
  own-cell : {own cell : ℕ} (ls : List Section) → IsNested ceiling own cell ls → own ≤ cell
  own-cell [] nested = omega (arith, nested)
  own-cell (l ∷ ls) (eq, low, high, rest) = omega arith

  holds-cell :
      (r own cell : ℕ) (ls : List Section)
      → IsNested ceiling own cell ls
      → holds r ls ≡ true
      → (own ≤ ceiling r) × (ceiling r ≤ cell)
  holds-cell r own cell [] nested h = cc
  holds-cell r own cell (l ∷ ls) (eq, low, high, rest) h = elim (Bool-cases (l.resource == r)) [
    | inl t ↦ let e = ap ceiling ((==_iff l.resource r).0 t) in (omega arith, omega arith)
    | inr t ↦ let (a, b) = holds-cell r own l.current ls rest (ground arith) in (a, omega arith)
  ]

  -- What the controller compares, in logical priorities.
  CanStart-cell :
      (q pmr : ℕ) (f : Frame)
      → q ≤ max_priority
      → f.cell ≤ max_priority
      → f.static_priority ≤ f.cell
      → IsMasked pmr f
      → CanStart q pmr f ↔ (f.cell < q)
  CanStart-cell q pmr f small a le (p, p_le, e, which) = (
    λ can. (elim which [
      | inl at_cell ↦
          let lt = (logical2hw-lt q p small (omega arith)).0 (omega (arith, can.0, e)) in
          omega arith
      | inr own ↦
          let lt = (logical2hw-lt q f.static_priority small (omega arith)).0 can.1 in omega arith
    ]),
    λ lt. (
      omega (arith, e, (logical2hw-lt q p small (omega arith)).1 (omega arith)),
      (logical2hw-lt q f.static_priority small (omega arith)).1 (omega arith),
    ),
  )

  enter-IsSound :
      (r pmr : ℕ) (f : Frame) (fs : List Frame)
      → f.static_priority ≤ ceiling r
      → ceiling r ≤ max_priority
      → IsSound ceiling (record { pmr = pmr; frames = f ∷ fs })
      → IsSound ceiling (begin_section ceiling r pmr f fs)
  unfolding lock_begin
  enter-IsSound r pmr f fs low high (a, b, c, d) = elim (Bool-cases (ltb f.cell (ceiling r))) [
    | inl t ↦ rw (t) (
      omega arith,
      (omega (arith, ltb→lt f.cell (ceiling r) t), low, high, b),
      (ceiling r, omega arith, refl, inl refl),
      d,
    )
    | inr t ↦ rw (t) (a, (omega (arith, not_ltb f.cell (ceiling r) t), low, high, b), c, d)
  ]

  leave-IsSound :
      (l : Section) (ls : List Section) (pmr : ℕ) (f : Frame) (fs : List Frame)
      → f.sections ≡ l ∷ ls
      → IsSound ceiling (record { pmr = pmr; frames = f ∷ fs })
      → IsSound ceiling (end_section ceiling l ls pmr f fs)
  unfolding lock_end
  leave-IsSound l ls pmr f fs e (a, b, c, d) =
      let (eq, low, high, rest) = subst (IsNested ceiling f.static_priority f.cell) e b in
      elim (Bool-cases (ltb l.current (ceiling l.resource))) [
        | inl t ↦ rw (t) (omega arith, rest, (l.current, omega arith, refl, inl refl), d)
        | inr t ↦ rw (t) (
          a,
          subst (λ n. IsNested ceiling f.static_priority n ls) {x = l.current} {y = f.cell}
              (omega (arith, not_ltb l.current (ceiling l.resource) t)) rest,
          c,
          d,
        )
      ]

  finish-IsMasked :
      (pmr : ℕ) (f g : Frame)
      → g.cell < f.static_priority
      → g.static_priority ≤ g.cell
      → IsMasked f.initial g
      → IsMasked (run f.static_priority (λ c. record c { pmr = pmr }) (context f.initial f)).pmr g
  unfolding run
  finish-IsMasked pmr f g lt le masked = elim (Bool-cases (f.static_priority == 1)) [
    | inl t ↦
        rw (t)
          (idle_priority, omega arith, refl, inr (omega (arith, (==_iff f.static_priority 1).0 t)))
    | inr t ↦ rw (t) masked
  ]

  Step-IsSound : {s t : System} → Step ceiling s t → IsSound ceiling s → IsSound ceiling t
  Step-IsSound (interrupt q pmr f fs small can) (a, b, c, d) =
      let lt = (CanStart-cell q pmr f small (omega arith) (own-cell f.sections b) c).0 can in
      let (p, p_le, e, which) = c in
      (omega arith, refl, (p, omega arith, e, inr refl), (lt, b, c, d))
  Step-IsSound (enter r pmr f fs low high) sound = enter-IsSound r pmr f fs low high sound
  Step-IsSound (leave l ls pmr f fs e) sound = leave-IsSound l ls pmr f fs e sound
  Step-IsSound (finish pmr f g fs e) (a, b, c, (g_lt, nested, masked, d)) = (
    omega (arith, own-cell f.sections b),
    nested,
    finish-IsMasked pmr f g g_lt (own-cell g.sections nested) masked,
    d,
  )

  Reach-IsSound : {s : System} → Reach ceiling s → IsSound ceiling s
  Reach-IsSound start = (omega arith, refl, (idle_priority, omega arith, refl, inl refl), tt)
  Reach-IsSound (later r st) = Step-IsSound st (Reach-IsSound r)

  -- No handler under a limit is in a section of a resource with a ceiling from the limit on.
  no-holders :
      (r limit pmr : ℕ) (fs : List Frame)
      → limit ≤ ceiling r
      → IsStack ceiling limit pmr fs
      → holders r fs ≡ 0
  no-holders r limit pmr [] h stack = refl
  no-holders r limit pmr (f ∷ fs) h (a, b, c, d) = elim (Bool-cases (holds r f.sections)) [
    | inl t ↦
        let (low, high) = holds-cell r f.static_priority f.cell f.sections b t in
        absurd (omega arith)
    | inr t ↦
        rw (t)
          (no-holders r f.static_priority f.initial fs (omega (arith, own-cell f.sections b)) d)
  ]

  one-holder : (r limit pmr : ℕ) (fs : List Frame) → IsStack ceiling limit pmr fs → holders r fs ≤ 1
  one-holder r limit pmr [] stack = omega arith
  one-holder r limit pmr (f ∷ fs) (a, b, c, d) = elim (Bool-cases (holds r f.sections)) [
    | inl t ↦
        let (low, high) = holds-cell r f.static_priority f.cell f.sections b t in
        rw (t) (omega (arith, no-holders r f.static_priority f.initial fs low d))
    | inr t ↦ rw (t) (one-holder r f.static_priority f.initial fs d)
  ]

  -- In every state that the handlers reach, at most one of them is in a critical section of a
  -- resource, when `lock` is called with ceilings that are at least the priority of the handler.
  pub mutual_exclusion : {s : System} → Reach ceiling s → (r : ℕ) → holders r s.frames ≤ 1
  mutual_exclusion {s} reach r =
      one-holder r (suc max_priority) s.pmr s.frames (Reach-IsSound reach)

  -- In every state that the handlers reach, the controller starts the handler of an interrupt
  -- exactly when its priority is above that in the cell of the handler that runs: a critical section
  -- holds back no other, and no mask is left behind that does.
  pub CanStart-iff :
      (q pmr : ℕ) (f : Frame) (fs : List Frame)
      → q ≤ max_priority
      → Reach ceiling (record { pmr = pmr; frames = f ∷ fs })
      → CanStart q pmr f ↔ (f.cell < q)
  CanStart-iff q pmr f fs small reach =
      let (a, b, c, d) = Reach-IsSound reach in
      CanStart-cell q pmr f small (omega arith) (own-cell f.sections b) c
