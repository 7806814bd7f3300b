-- ===== src/Usbd/Endpoint.antt =====
-- The places of an endpoint in the tables of the controller: firmware/usbarmory/src/usbd/util.rs. An
-- address is its index and whether its direction is OUT.
use usbarmory_rust.Prelude.{
  ℕ, ◌+◌, ◌*◌, ◌/◌, ◌%◌, ◌≡◌, ap₂, Bool, true, false, arith, ◌==◌, if◌then◌else◌,
}
use usbarmory_rust.Prelude.Bits.{◌<<<◌}

pub record Address : Type 0 where
  pub index : ℕ
  pub is_out : Bool

-- `epaddr2dqhidx`
abbrev pub epaddr2dqhidx : Address → ℕ
epaddr2dqhidx a = 2 * a.index + (if a.is_out then 0 else 1)

-- `dqhidx2epaddr`
abbrev pub dqhidx2epaddr : ℕ → Address
dqhidx2epaddr idx = record { index = idx / 2; is_out = idx % 2 == 0 }

-- `epaddr2endptmask`
abbrev pub epaddr2endptmask : Address → ℕ
epaddr2endptmask a = if a.is_out then 1 <<< a.index else 1 <<< (16 + a.index)

there :
    (i : ℕ) (out : Bool)
    → dqhidx2epaddr (epaddr2dqhidx (record { index = i; is_out = out }))
      ≡ record { index = i; is_out = out }
there i true = ap₂ (λ x b. record { index = x; is_out = b }) (omega arith) (ground arith)
there i false = ap₂ (λ x b. record { index = x; is_out = b }) (omega arith) (ground arith)

-- The queue head of each endpoint has an index of its own, from which the endpoint is found again.
pub dqhidx-epaddr :
    (a : Address) (idx : ℕ)
    → (dqhidx2epaddr (epaddr2dqhidx a) ≡ a) × (epaddr2dqhidx (dqhidx2epaddr idx) ≡ idx)
dqhidx-epaddr a idx = (there a.index a.is_out, ground arith)
