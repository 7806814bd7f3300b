-- ===== src/Usbd/Token.antt =====
-- `Token` and `Status` of firmware/usbarmory/src/usbd/token.rs: the fields of the second word of a
-- transfer descriptor.
use usbarmory_rust.Prelude.{
  ℕ, zero, suc, ◌+◌, ◌-◌, ◌*◌, ◌/◌, ◌%◌, ◌^◌, ◌<◌, bit_and, bit_or, ◌≡◌, refl, ap, ap₂, ◌∙◌, Bool,
  not, ◌||◌, Option, none, some, arith, ltb, ◌==◌, if◌then◌else◌, lt→ltb,
}
use usbarmory_rust.Prelude.Bits.{
  ◌<<<◌, ◌>>>◌, bit_or_at, bit_or-zero, bit_and_mask, bit_and_field, bit_or_fields, bit_or_fields',
}

pub record Token : Type 0 where
  pub inner : ℕ

-- `Status`
pub record Status : Type 0 where
  pub inner : ℕ

-- `Token::empty`
abbrev pub empty : Token
empty = record { inner = 0 }

-- `!(0xffff << 16)` and `!0xff`, of 32 bits
abbrev not_total_bytes : ℕ
not_total_bytes = 2 ^ 16 - 1

abbrev not_status : ℕ
not_status = (2 ^ 24 - 1) * 2 ^ 8

-- `Token::set_total_bytes`; `none` is the panic of its assertion.
unfoldable pub set_total_bytes : Token → ℕ → Option Token
set_total_bytes t n =
    if ltb n 0x5000
    then some (record { inner = bit_or (bit_and t.inner not_total_bytes) (n <<< 16) })
    else none

-- `Token::get_total_bytes`
unfoldable pub get_total_bytes : Token → ℕ
get_total_bytes t = (t.inner >>> 16) % 2 ^ 16

-- `Token::set_ioc`
unfoldable pub set_ioc : Token → Token
set_ioc t = record { inner = bit_or t.inner (2 ^ 15) }

-- `Token::get_status`
unfoldable pub get_status : Token → Status
get_status t = record { inner = t.inner % 2 ^ 8 }

-- `Token::set_status`
unfoldable pub set_status : Token → Status → Token
set_status t s = record { inner = bit_or (bit_and t.inner not_status) s.inner }

-- `Token::clear_status`
unfoldable pub clear_status : Token → Token
clear_status t = record { inner = bit_and t.inner not_status }

-- `Status::active`
abbrev pub active : Status
active = record { inner = 2 ^ 7 }

-- `Status::is_active`, `is_halted`, `has_data_buffer_error`, `has_transaction_error`, `has_errors`
abbrev pub is_active : Status → Bool
is_active s = not (bit_and s.inner (2 ^ 7) == 0)

abbrev pub is_halted : Status → Bool
is_halted s = not (bit_and s.inner (2 ^ 6) == 0)

abbrev pub has_data_buffer_error : Status → Bool
has_data_buffer_error s = not (bit_and s.inner (2 ^ 5) == 0)

abbrev pub has_transaction_error : Status → Bool
has_transaction_error s = not (bit_and s.inner (2 ^ 3) == 0)

abbrev pub has_errors : Status → Bool
has_errors s = has_data_buffer_error s || has_transaction_error s

-- The field of the byte count takes a number below 0x5000 and gives it back; the status stays as it
-- is, and so do the other bits of the lower half.
pub set_total_bytes-get :
    (t : Token) (n : ℕ)
    → n < 0x5000
    → (t' : Token) × (set_total_bytes t n ≡ some t')
      × (get_total_bytes t' ≡ n)
      × (get_status t' ≡ get_status t)
      × (t'.inner % 2 ^ 16 ≡ t.inner % 2 ^ 16)
unfolding set_total_bytes get_total_bytes get_status
set_total_bytes-get t n h = (
  record { inner = n * 2 ^ 16 + t.inner % 2 ^ 16 },
  rw (lt→ltb n 0x5000 h) (ap (λ x. some (record { inner = x })) stored),
  omega arith,
  ap (λ x. record { inner = x }) low,
  omega arith,
)
  where
    stored : bit_or (bit_and t.inner not_total_bytes) (n * 2 ^ 16) ≡ n * 2 ^ 16 + t.inner % 2 ^ 16
    stored =
        ap (λ x. bit_or x (n * 2 ^ 16)) (bit_and_mask 16 t.inner)
        ∙ bit_or_fields' 16 n (t.inner % 2 ^ 16) (omega arith)

    low : (n * 2 ^ 16 + t.inner % 2 ^ 16) % 2 ^ 8 ≡ t.inner % 2 ^ 8
    low = omega arith

cleared : (x : ℕ) → x < 2 ^ 32 → bit_and x not_status ≡ x / 2 ^ 8 * 2 ^ 8
cleared x h = bit_and_field 24 8 x ∙ omega arith

or_one : (b : ℕ) → b < 2 → bit_or b 1 ≡ 1
or_one zero h = refl
or_one (suc zero) h = refl
or_one (suc (suc b)) h = absurd (omega arith)

or_lowest : (q : ℕ) → bit_or q 1 ≡ q / 2 * 2 + 1
or_lowest q =
    bit_or_at 1 q 1 ∙ ap₂ (λ h l. h * 2 + l) (bit_or-zero (q / 2)) (or_one (q % 2) (omega arith))

or_bit : (x : ℕ) → bit_or x (2 ^ 15) ≡ x / 2 ^ 16 * 2 ^ 16 + 2 ^ 15 + x % 2 ^ 15
or_bit x =
    bit_or_at 15 x (2 ^ 15)
    ∙ (ap₂ (λ h l. h * 2 ^ 15 + l) (or_lowest (x / 2 ^ 15)) (bit_or-zero (x % 2 ^ 15))
        ∙ omega arith)

pub set_status-inner :
    (t : Token) (s : Status)
    → t.inner < 2 ^ 32
    → s.inner < 2 ^ 8
    → (set_status t s).inner ≡ t.inner / 2 ^ 8 * 2 ^ 8 + s.inner
unfolding set_status
set_status-inner t s ht hs =
    ap (λ x. bit_or x s.inner) (cleared t.inner ht) ∙ bit_or_fields 8 (t.inner / 2 ^ 8) s.inner hs

-- In a token of 32 bits, a status of 8 bits that is set is got back, and leaves the byte count;
-- clearing the status makes it zero, and leaves the byte count; asking for an interrupt leaves both.
pub token-fields :
    (t : Token) (s : Status)
    → t.inner < 2 ^ 32
    → s.inner < 2 ^ 8
    → (get_status (set_status t s) ≡ s)
      × (get_total_bytes (set_status t s) ≡ get_total_bytes t)
      × (get_status (clear_status t) ≡ record { inner = 0 })
      × (get_total_bytes (clear_status t) ≡ get_total_bytes t)
      × (get_status (set_ioc t) ≡ get_status t)
      × (get_total_bytes (set_ioc t) ≡ get_total_bytes t)
unfolding get_status set_status get_total_bytes clear_status set_ioc
token-fields t s ht hs = (
  ap (λ x. record { inner = x }) (ap (λ x. x % 2 ^ 8) joined ∙ omega arith),
  ap (λ x. x / 2 ^ 16 % 2 ^ 16) joined ∙ in_total,
  ap (λ x. record { inner = x }) (ap (λ x. x % 2 ^ 8) (cleared t.inner ht) ∙ omega arith),
  ap (λ x. x / 2 ^ 16 % 2 ^ 16) (cleared t.inner ht) ∙ cleared_total,
  ap (λ x. record { inner = x }) (ap (λ x. x % 2 ^ 8) with_ioc ∙ ioc_low),
  ap (λ x. x / 2 ^ 16 % 2 ^ 16) with_ioc ∙ ioc_total,
)
  where
    joined : bit_or (bit_and t.inner not_status) s.inner ≡ t.inner / 2 ^ 8 * 2 ^ 8 + s.inner
    joined = set_status-inner t s ht hs

    with_ioc : bit_or t.inner (2 ^ 15) ≡ t.inner / 2 ^ 16 * 2 ^ 16 + 2 ^ 15 + t.inner % 2 ^ 15
    with_ioc = or_bit t.inner

    in_total : (t.inner / 2 ^ 8 * 2 ^ 8 + s.inner) / 2 ^ 16 % 2 ^ 16 ≡ t.inner / 2 ^ 16 % 2 ^ 16
    in_total = omega arith

    cleared_total : t.inner / 2 ^ 8 * 2 ^ 8 / 2 ^ 16 % 2 ^ 16 ≡ t.inner / 2 ^ 16 % 2 ^ 16
    cleared_total = omega arith

    ioc_low : (t.inner / 2 ^ 16 * 2 ^ 16 + 2 ^ 15 + t.inner % 2 ^ 15) % 2 ^ 8 ≡ t.inner % 2 ^ 8
    ioc_low = omega arith

    ioc_total :
        (t.inner / 2 ^ 16 * 2 ^ 16 + 2 ^ 15 + t.inner % 2 ^ 15) / 2 ^ 16 % 2 ^ 16
        ≡ t.inner / 2 ^ 16 % 2 ^ 16
    ioc_total = omega arith
