-- ===== src/Usbd/Tests.antt =====
-- A token at concrete values.
use usbarmory_rust.Prelude.{◌%◌, ◌^◌, ◌≡◌, refl, true, false, some, arith}
use usbarmory_rust.Usbd.Token.{
  Token, active, set_total_bytes, get_total_bytes, set_ioc, get_status, set_status, clear_status,
  is_active, has_errors, set_total_bytes-get, token-fields,
}

abbrev word : Token
word = record { inner = 0x0200_8081 }

set_total_bytes-get_test :
    (t' : Token) × (set_total_bytes word 0x4000 ≡ some t')
    × (get_total_bytes t' ≡ 0x4000)
    × (get_status t' ≡ get_status word)
    × (t'.inner % 2 ^ 16 ≡ word.inner % 2 ^ 16)
set_total_bytes-get_test = set_total_bytes-get word 0x4000 (omega arith)

token-fields_test :
    (get_status (set_status word active) ≡ active)
    × (get_total_bytes (set_status word active) ≡ get_total_bytes word)
    × (get_status (clear_status word) ≡ record { inner = 0 })
    × (get_total_bytes (clear_status word) ≡ get_total_bytes word)
    × (get_status (set_ioc word) ≡ get_status word)
    × (get_total_bytes (set_ioc word) ≡ get_total_bytes word)
token-fields_test = token-fields word active (omega arith) (omega arith)

active_lem : (is_active active ≡ true) × (has_errors active ≡ false)
active_lem = (refl, refl)
