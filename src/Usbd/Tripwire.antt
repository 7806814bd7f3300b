-- ===== src/Usbd/Tripwire.antt =====
-- The packets that `read` of firmware/usbarmory/src/usbd/bus.rs copies are whole.
use usbarmory_rust.Usbd.Bus.{Inner, usbcmd_set, write}
use usbarmory_rust.Usbd.Setup.{Wire, cmd_sutw, copy_from, copy_setup_bytes, copy_packet, IsWire}
use usbarmory_rust.Prelude.{
  ℕ, zero, suc, ◌+◌, ◌*◌, ◌≤◌, ◌<◌, ◌≡◌, refl, sym, ap, ap₂, ◌∙◌, inl, inr, Bool, true, false, some,
  [], ◌∷◌, arith, Bool-cases, length, get_or, drop,
}
use usbarmory_rust.Prelude.Bytes.{Bytes}

drop-get_or : (p : Bytes) (i : ℕ) → i < length p → drop i p ≡ get_or p i 0 ∷ drop (suc i) p
drop-get_or [] i h = absurd (omega arith)
drop-get_or (x ∷ p) zero h = refl
drop-get_or (x ∷ p) (suc i) h = drop-get_or p i (omega arith)

drop-all : (p : Bytes) (i : ℕ) → length p ≡ i → drop i p ≡ []
drop-all [] zero h = refl
drop-all [] (suc i) h = refl
drop-all (x ∷ p) zero h = absurd (omega arith)
drop-all (x ∷ p) (suc i) h = drop-all p i (omega arith)

module _ (wire : Wire) (arrives : ℕ → Bool) (laws : IsWire wire arrives) where
  open laws use {sized, kept, holds, stays}

  -- No packet arrives during so many moments.
  abbrev IsQuiet : ℕ → ℕ → Type 0
  IsQuiet now n = (i : ℕ) → i < n → arrives (now + i) ≡ false

  setup-quiet : (now n j : ℕ) → IsQuiet now n → j ≤ n → wire.setup (now + j) ≡ wire.setup now
  setup-quiet now n zero quiet le = ap wire.setup (omega arith)
  setup-quiet now n (suc j) quiet le =
      ap wire.setup {x = now + suc j} {y = suc (now + j)} (omega arith)
      ∙ (kept (now + j) (quiet j (omega arith)) ∙ setup-quiet now n j quiet (omega arith))

  copy_from-quiet :
      (n i now : ℕ) (p : Bytes)
      → ((j : ℕ) → j < n → wire.setup (now + j) ≡ p)
      → length p ≡ i + n
      → copy_from wire n i now ≡ drop i p
  copy_from-quiet zero i now p same size = sym (drop-all p i (omega arith))
  copy_from-quiet (suc n) i now p same size =
      ap₂ (λ q rest. get_or q i 0 ∷ rest)
        (ap wire.setup {x = now} {y = now + 0} (omega arith) ∙ same 0 (omega arith))
        (copy_from-quiet n (suc i) (suc now) p
          (λ j h.
            ap wire.setup {x = suc now + j} {y = now + suc j} (omega arith)
            ∙ same (suc j) (omega arith))
          (omega arith))
      ∙ sym (drop-get_or p i (omega arith))

  copy_setup_bytes-quiet :
      (now : ℕ) → IsQuiet now 8 → copy_setup_bytes wire now ≡ wire.setup (now + 8)
  copy_setup_bytes-quiet now quiet =
      copy_from-quiet 8 0 now (wire.setup now) (λ j h. setup-quiet now 8 j quiet (omega arith))
        (sized now)
      ∙ sym (setup-quiet now 8 8 quiet (omega arith))

  -- A round at whose end the tripwire is still set.
  ends :
      (rounds now : ℕ) (s : Inner)
      → wire.sutw now (now + 8) ≡ true
      → copy_packet wire (suc rounds) now s
        ≡ some (wire.setup (now + 8), now + 8, write (usbcmd_set cmd_sutw) s)
  unfolding copy_packet
  ends rounds now s t =
      rw (copy_packet, t)
        (ap (λ bytes. some (bytes, now + 8, write (usbcmd_set cmd_sutw) s))
          (copy_setup_bytes-quiet now (holds now 8 t)))

  -- When no packet arrives during one of the rounds of the loop, each of nine moments, the loop has
  -- ended by then, and what it has copied is the packet that the queue head holds at its end: no bytes
  -- of two packets are mixed.
  pub copy_packet-whole :
      (k more now : ℕ) (s : Inner)
      → ((i : ℕ) → i < 8 → arrives (now + 9 * k + i) ≡ false)
      → (end : ℕ) × (s' : Inner) × (copy_packet wire (suc (k + more)) now s
          ≡ some (wire.setup end, end, s'))
        × (now < end)
        × (end ≤ now + 9 * k + 8)
  unfolding copy_packet
  copy_packet-whole zero more now s quiet = (
    now + 8,
    write (usbcmd_set cmd_sutw) s,
    ends (0 + more) now s (
        stays now 8
          (λ i h. ap arrives {x = now + i} {y = now + 9 * 0 + i} (omega arith) ∙ quiet i h)),
    omega arith,
    omega arith,
  )
  copy_packet-whole (suc k) more now s quiet = elim (Bool-cases (wire.sutw now (now + 8))) [
    | inl t ↦ (
      now + 8,
      write (usbcmd_set cmd_sutw) s,
      ends (suc k + more) now s t,
      omega arith,
      omega arith,
    )
    | inr f ↦ later f (
        copy_packet-whole k more (suc (now + 8)) (write (usbcmd_set cmd_sutw) s) (λ i h.
          ap arrives {x = suc (now + 8) + 9 * k + i} {y = now + 9 * suc k + i} (omega arith)
          ∙ quiet i h))
  ]
    where
      later :
          wire.sutw now (now + 8) ≡ false
          → (end : ℕ) × (s' : Inner) × (copy_packet wire
                (suc (k + more))
                (suc (now + 8))
                (write (usbcmd_set cmd_sutw) s)
              ≡ some (wire.setup end, end, s'))
            × (suc (now + 8) < end)
            × (end ≤ suc (now + 8) + 9 * k + 8)
          → (end : ℕ) × (s' : Inner) × (copy_packet wire (suc (suc k + more)) now s
              ≡ some (wire.setup end, end, s'))
            × (now < end)
            × (end ≤ now + 9 * suc k + 8)
      later f (end, s', runs, after, before) = (
        end,
        s',
        rw (copy_packet, f)
            (ap (λ n. copy_packet wire n (suc (now + 8)) (write (usbcmd_set cmd_sutw) s))
                {x = suc k + more} {y = suc (k + more)} (omega arith)
              ∙ runs),
        omega arith,
        omega arith,
      )
