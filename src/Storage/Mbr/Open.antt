-- ===== src/Storage/Mbr/Open.antt =====
-- Which partition tables `MbrDevice::open` accepts.
use usbarmory_rust.Prelude.{
  ℕ, ◌+◌, ◌-◌, ◌≤◌, ◌<◌, ◌≡◌, ◌≢◌, ◌↔◌, refl, sym, subst, Option, some, none, List, [], ◌∷◌, arith,
  Bool-cases, ap, drop, false, inl, inr, ◌==◌,
}
use usbarmory_rust.Prelude.Outcome.{
  Outcome, ok, err, panic, ◌>>=◌, map_err, >>=-eq-ok, ok-injective,
}
use usbarmory_rust.Storage.Device.{Block, ManagedBlockDevice, block_size}
use usbarmory_rust.Storage.Table.{PartitionEntry, Layout}
use usbarmory_rust.Storage.Mbr.{
  MbrError, MbrDevice, invalid_magic, device, u32_max, refused, check_parts, open_entries,
  open_block, open_mbr, bytes_eq, table_bytes,
}

-- An allocated partition starts behind the MBR and ends before the last block of the device.
abbrev pub Fits : ℕ → PartitionEntry → Type 0
Fits total part =
    part.part_type ≢ 0
    → (0 < part.start_lba)
      × (part.start_lba + part.num_sectors < total)
      × (part.start_lba + part.num_sectors ≤ u32_max)

abbrev pub AllFit : ℕ → List PartitionEntry → Type 0
AllFit total [] = Unit {0}
AllFit total (p ∷ ps) = Fits total p × AllFit total ps

-- The loop's tests together.
pub refused_iff :
    (total : ℕ) (p : PartitionEntry)
    → (refused total p ≡ false) ↔ (
        (0 < p.start_lba)
        × (p.start_lba + p.num_sectors < total)
        × (p.start_lba + p.num_sectors ≤ u32_max))
refused_iff total p = ground arith

pub check_parts_sound :
    {E : Type 0} (total : ℕ) (ps : List PartitionEntry)
    → check_parts {E = E} total ps ≡ ok tt
    → AllFit total ps
unfolding check_parts
check_parts_sound {E} total [] h = tt
check_parts_sound {E} total (p ∷ ps) h = elim (Bool-cases (p.part_type == 0)) [
  | inl free ↦ (λ ne. absurd (ground arith), check_parts_sound {E = E} total ps (ground (arith, h)))
  | inr taken ↦ (
    λ ne. (refused_iff total p).0 (ground (arith, h)),
    check_parts_sound {E = E} total ps (ground (arith, h)),
  )
]

pub check_parts_complete :
    {E : Type 0} (total : ℕ) (ps : List PartitionEntry)
    → AllFit total ps
    → check_parts {E = E} total ps ≡ ok tt
unfolding check_parts
check_parts_complete total [] h = refl
check_parts_complete {E} total (p ∷ ps) h =
    ground (arith, refused_iff total p, h.0, check_parts_complete {E = E} total ps h.1)

module _ {D E : Type 0} (dev : ManagedBlockDevice D E) (layout : Layout) where
  entries_sound :
      (raw : D) (parts : Option (List PartitionEntry)) {m : MbrDevice D}
      → open_entries dev layout raw parts ≡ ok m
      → (m.raw ≡ raw) × AllFit (dev.total_blocks raw) m.part_table
  unfolding open_entries
  entries_sound raw none h = cc
  entries_sound raw (some parts) {m} h =
      let (u, checked, e) =
        >>=-eq-ok (check_parts (dev.total_blocks raw) parts)
          (λ _. ok (record { raw = raw; part_table = parts })) h in
      (
        ap (λ d. d.raw) (sym (ok-injective e)),
        subst (λ d. AllFit (dev.total_blocks raw) d.part_table) (ok-injective e)
            (check_parts_sound {E = E} (dev.total_blocks raw) parts checked),
      )

  -- What `open` accepts has its allocated partitions inside the device, and behind the MBR.
  pub open_mbr_sound :
      (raw : D) {m : MbrDevice D}
      → open_mbr dev layout raw ≡ ok m
      → (m.raw ≡ raw) × AllFit (dev.total_blocks raw) m.part_table
  unfolding open_mbr open_block
  open_mbr_sound raw {m} h = go (dev.read raw 0) h
    where
      go :
          (r : Outcome E Block)
          → (map_err device r >>= λ mbr. open_block dev layout raw mbr) ≡ ok m
          → (m.raw ≡ raw) × AllFit (dev.total_blocks raw) m.part_table
      go (ok mbr) e =
          elim (Bool-cases (bytes_eq (drop (block_size - 2) mbr.bytes) (0x55 ∷ 0xAA ∷ []))) [
            | inl good ↦ entries_sound raw (layout.new_slice (table_bytes mbr.bytes)) (rw good at e)
            | inr bad ↦ absurd (
                let f : ◌≡◌ {A = Outcome (MbrError E) (MbrDevice D)} (err invalid_magic) (ok m) =
                  rw bad at e in
                cc)
          ]
      go (err x) e = cc
      go panic e = cc
