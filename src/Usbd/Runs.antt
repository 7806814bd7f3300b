-- ===== src/Usbd/Runs.antt =====
-- The device of firmware/usbarmory/src/usbd at concrete endpoints and words.
use usbarmory_rust.Prelude.{ℕ, ◌+◌, ◌<◌, bit_or, ◌≡◌, refl, true, false, none, some, [], ◌∷◌, arith}
use usbarmory_rust.Prelude.Bits.{◌<<<◌}
use usbarmory_rust.Prelude.Outcome.{ok, err, panic, ◌>>=◌}
use usbarmory_rust.Usbd.Endpoint.{Address, epaddr2dqhidx}
use usbarmory_rust.Usbd.Indices.{collect, ones, collect-ones}
use usbarmory_rust.Usbd.Queue.{dqh_new, dtd_new, set_pages}
use usbarmory_rust.Usbd.Pages.{byte_address, set_pages-bytes}
use usbarmory_rust.Usbd.Bus.{
  Run, Inner, control, bulk, interrupt, endpoints, is_ep_being_used, type_code, configured,
}
use usbarmory_rust.Usbd.Alloc.{alloc_ep}
use usbarmory_rust.Usbd.Types.{tx_type, rx_type, configured-types}
use usbarmory_rust.Usbd.Loans.{alloc_ep-fresh}
use usbarmory_rust.Usbd.Transfer.{start_write}

-- The word with the bits 0, 4 and 31.
collect-ones_example : collect 32 33 0x80000011 ≡ some (ones 32 0x80000011)
collect-ones_example = collect-ones 32 33 0x80000011 (omega arith) (omega arith)

set_pages-bytes_example : byte_address (set_pages 0x80001ff0 dtd_new).pages 5000 ≡ 0x80001ff0 + 5000
set_pages-bytes_example = set_pages-bytes 0x80001ff0 5000 dtd_new (omega arith) (omega arith)

configured-types_example :
    (tx_type (configured false interrupt (configured true bulk 0)) ≡ type_code interrupt)
    × (rx_type (configured false interrupt (configured true bulk 0)) ≡ bit_or (type_code bulk) 0b10)
    × (tx_type (configured true bulk (configured false interrupt 0)) ≡ type_code bulk)
    × (rx_type (configured true bulk (configured false interrupt 0)) ≡ bit_or (type_code bulk) 0b10)
configured-types_example = configured-types interrupt bulk

-- The state that `Usbd::take` makes.
abbrev pub taken : Inner
taken = record {
  dqhs = dqh_new ∷ dqh_new ∷ dqh_new ∷ dqh_new ∷ [];
  descriptors = λ i. dtd_new;
  buffers = λ i. [];
  endptctrl1 = 0;
  written = [];
  dtds = 0x100 ∷ 0x120 ∷ 0x140 ∷ 0x160 ∷ [];
  b64s = 0x200 ∷ 0x240 ∷ [];
  b512s = 0x400 ∷ 0x600 ∷ [];
  used_dqhs = 0;
  setupstat = none;
  ep_in_complete = none;
  last_poll_was_none = false;
  pre_status_out = 0;
  status_out = 0;
}

abbrev pub in_ : ℕ → Address
in_ i = record { index = i; is_out = false }

abbrev pub out_ : ℕ → Address
out_ i = record { index = i; is_out = true }

abbrev state_after : {A : Type 0} → Run (A × Inner) → Inner
state_after (ok r) = r.1
state_after (err e) = taken
state_after panic = taken

abbrev with_out : Inner
unfolding alloc_ep
with_out = state_after (alloc_ep true none bulk 64 taken)

alloc_ep-fresh_example :
    (epaddr2dqhidx (out_ 1) < endpoints)
    × (is_ep_being_used (out_ 1) taken ≡ false)
    × (with_out.used_dqhs ≡ bit_or taken.used_dqhs (1 <<< epaddr2dqhidx (out_ 1)))
    × (is_ep_being_used (out_ 1) with_out ≡ true)
unfolding alloc_ep with_out
alloc_ep-fresh_example = alloc_ep-fresh true none bulk 64 taken with_out (out_ 1) refl

-- Three endpoints with packets of 64 bytes need a buffer of 64 bytes each, and there are two.
abbrev three : Run (ℕ × Inner)
unfolding alloc_ep start_write
three = do
  (a, s) ← alloc_ep true (some (out_ 1)) bulk 64 taken
  (b, s) ← alloc_ep false (some (in_ 0)) control 64 s
  (c, s) ← alloc_ep false (some (in_ 1)) bulk 64 s
  (n, s) ← start_write (in_ 0) (1 ∷ []) s
  start_write (in_ 1) (1 ∷ []) s

three_test : three ≡ panic
unfolding three
three_test = refl
