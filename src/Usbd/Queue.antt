-- ===== src/Usbd/Queue.antt =====
-- The queue head of an endpoint and the transfer descriptor: firmware/usbarmory/src/usbd/dqh.rs and
-- dtd.rs. A pointer is its address.
use usbarmory_rust.Prelude.{
  ℕ, zero, suc, ◌+◌, ◌-◌, ◌*◌, ◌%◌, ◌^◌, ◌≤◌, bit_and, bit_or, ◌≡◌, ap, Bool, true, false, Option,
  none, some, List, [], ◌∷◌, arith, leb, ◌==◌, if◌then◌else◌,
}
use usbarmory_rust.Prelude.Bits.{◌<<<◌, ◌>>>◌, zero-bit_or, bit_or_fields}
use usbarmory_rust.Usbd.Token.{Token, empty}

-- `Caps::new`; `none` is the panic of its assertion.
unfoldable pub caps_new : ℕ → Option ℕ
caps_new max_packet_size =
    if leb max_packet_size 0x400
    then some (bit_or (bit_or (0b00 <<< 30) (0 <<< 29)) (max_packet_size <<< 16))
    else none

-- `Caps::max_packet_size`
unfoldable pub caps_max_packet_size : ℕ → ℕ
caps_max_packet_size inner = (inner >>> 16) % 2 ^ 16

-- `Caps::set_ios`
unfoldable pub set_ios : ℕ → ℕ
set_ios inner = bit_or inner (1 <<< 15)

abbrev pub no_next_dtd : ℕ
no_next_dtd = 1

-- `dQH`; its setup bytes are the hardware's.
pub record Dqh : Type 0 where
  pub caps : ℕ
  pub current_dtd : ℕ
  pub next_dtd : ℕ
  pub token : Token
  pub addr : Option ℕ

-- `dQH::new`
abbrev pub dqh_new : Dqh
dqh_new = record { caps = 0; current_dtd = 1; next_dtd = 1; token = empty; addr = none }

-- `dQH::set_max_packet_size`
unfoldable pub set_max_packet_size : ℕ → Bool → Dqh → Option Dqh
unfolding caps_new set_ios
set_max_packet_size max_packet_size ios q = elim (caps_new max_packet_size) [
  | none ↦ none
  | some caps ↦ some (record q { caps = if ios then set_ios caps else caps })
]

-- `dQH::get_max_packet_size`
unfoldable pub get_max_packet_size : Dqh → ℕ
unfolding caps_max_packet_size
get_max_packet_size q = caps_max_packet_size q.caps

-- `dQH::get_current_dtd`, `dQH::get_next_dtd`
abbrev pub get_current_dtd : Dqh → Option ℕ
get_current_dtd q = if bit_and q.current_dtd 0b11111 == 0 then some q.current_dtd else none

abbrev pub get_next_dtd : Dqh → Option ℕ
get_next_dtd q = if q.next_dtd == no_next_dtd then none else some q.next_dtd

-- `dQH::clear_current_dtd`, `dQH::set_next_dtd`, `dQH::set_address`
abbrev pub clear_current_dtd : Dqh → Dqh
clear_current_dtd q = record q { current_dtd = no_next_dtd }

abbrev pub set_next_dtd : Option ℕ → Dqh → Dqh
set_next_dtd none q = record q { next_dtd = no_next_dtd }
set_next_dtd (some dtd) q = record q { next_dtd = dtd }

abbrev pub set_address : ℕ → Dqh → Dqh
set_address addr q = record q { addr = some addr }

-- `dTD`, with all the five pages in one list.
pub record Dtd : Type 0 where
  pub next_dtd : ℕ
  pub token : Token
  pub pages : List ℕ

-- `dTD::new`
abbrev pub dtd_new : Dtd
dtd_new = record { next_dtd = no_next_dtd; token = empty; pages = 0 ∷ 0 ∷ 0 ∷ 0 ∷ 0 ∷ [] }

-- `dTD::set_pages`: the pages after the first, from the second on, in the loop over `pages`.
abbrev further_pages : ℕ → ℕ → List ℕ
further_pages zero addr = []
further_pages (suc n) addr = let addr' = addr + 0x1000 in addr' ∷ further_pages n addr'

unfoldable pub set_pages : ℕ → Dtd → Dtd
set_pages ptr d =
    let second = bit_and ptr (2 ^ 32 - 1 - 0xfff) + 0x1000 in
    record d { pages = ptr ∷ second ∷ further_pages 3 second }

-- `dTD::set_token`, `dTD::set_next_dtd`
abbrev pub set_token : Token → Dtd → Dtd
set_token token d = record d { token = token }

abbrev pub dtd_set_next_dtd : Option ℕ → Dtd → Dtd
dtd_set_next_dtd none d = record d { next_dtd = no_next_dtd }
dtd_set_next_dtd (some dtd) d = record d { next_dtd = dtd }

-- A packet size that is accepted is read back from the capabilities, with the flag or without it.
pub set_max_packet_size-get :
    (n : ℕ) (ios : Bool) (q : Dqh)
    → n ≤ 0x400
    → (q' : Dqh) × (set_max_packet_size n ios q ≡ some q') × (get_max_packet_size q' ≡ n)
unfolding set_max_packet_size get_max_packet_size caps_new set_ios caps_max_packet_size
set_max_packet_size-get n true q h = (
  record q { caps = set_ios (bit_or 0 (n * 2 ^ 16)) },
  ground arith,
  omega (
    arith,
    zero-bit_or (n * 2 ^ 16),
    ap (λ c. bit_or c (2 ^ 15)) (zero-bit_or (n * 2 ^ 16)),
    bit_or_fields 16 n (2 ^ 15) (omega arith),
  ),
)
set_max_packet_size-get n false q h = (
  record q { caps = bit_or 0 (n * 2 ^ 16) },
  ground arith,
  omega (arith, zero-bit_or (n * 2 ^ 16)),
)
