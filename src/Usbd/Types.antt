-- ===== src/Usbd/Types.antt =====
-- The endpoint types that `configure_ep` of firmware/usbarmory/src/usbd/bus.rs writes to a register.
use usbarmory_rust.Prelude.{ℕ, ◌/◌, ◌%◌, ◌^◌, bit_or, ◌≡◌, refl, true, false}
use usbarmory_rust.Usbd.Bus.{
  EndpointType, control, isochronous, bulk, interrupt, type_code, configured,
}

-- The field of the endpoint's type for IN, and for OUT.
abbrev pub tx_type : ℕ → ℕ
tx_type ctrl = ctrl / 2 ^ 18 % 4

abbrev pub rx_type : ℕ → ℕ
rx_type ctrl = ctrl / 2 ^ 2 % 4

-- The types of the two directions of endpoint 1, configured one after the other from the register's
-- value after a reset: when OUT comes first, IN has its type, and OUT has its own with the bits of a
-- bulk endpoint; when IN comes first, its type is that of a bulk endpoint, whatever was asked for.
pub configured-types :
    (t u : EndpointType)
    → (tx_type (configured false t (configured true u 0)) ≡ type_code t)
      × (rx_type (configured false t (configured true u 0)) ≡ bit_or (type_code u) 0b10)
      × (tx_type (configured true u (configured false t 0)) ≡ type_code bulk)
      × (rx_type (configured true u (configured false t 0)) ≡ bit_or (type_code u) 0b10)
unfolding configured
configured-types control control = (refl, refl, refl, refl)
configured-types control isochronous = (refl, refl, refl, refl)
configured-types control bulk = (refl, refl, refl, refl)
configured-types control interrupt = (refl, refl, refl, refl)
configured-types isochronous control = (refl, refl, refl, refl)
configured-types isochronous isochronous = (refl, refl, refl, refl)
configured-types isochronous bulk = (refl, refl, refl, refl)
configured-types isochronous interrupt = (refl, refl, refl, refl)
configured-types bulk control = (refl, refl, refl, refl)
configured-types bulk isochronous = (refl, refl, refl, refl)
configured-types bulk bulk = (refl, refl, refl, refl)
configured-types bulk interrupt = (refl, refl, refl, refl)
configured-types interrupt control = (refl, refl, refl, refl)
configured-types interrupt isochronous = (refl, refl, refl, refl)
configured-types interrupt bulk = (refl, refl, refl, refl)
configured-types interrupt interrupt = (refl, refl, refl, refl)
