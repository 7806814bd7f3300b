-- ===== src/Emmc/Status.antt =====
-- `Status` of firmware/usbarmory/src/emmc/card.rs: the card's status register, its flags and the
-- state, and which values of the register are errors.
use usbarmory_rust.Prelude.{
  ℕ, ◌+◌, ◌/◌, ◌%◌, ◌^◌, bit_and, bit_or, ◌≡◌, refl, sym, ap, subst, ◌↔◌, Bool, true, false, not,
  ◌||◌, List, [], ◌∷◌, arith, ◌==◌, if◌then◌else◌,
}
use usbarmory_rust.Prelude.Outcome.{Outcome, ok, err}
use usbarmory_rust.Prelude.Bits.{◌>>>◌, bit_and-zero, bit_or-zero, bit_and_mask}
use usbarmory_rust.Prelude.Bits.Masks.{bit_and-or_zero}

-- The state of the card, `State`.
pub data State : Type 0 where
  idle ready identification standby transfer sending_data receive_data programming other : State

abbrev pub state_of : ℕ → State
state_of n =
    if n == 0
    then idle
    else if n == 1
    then ready
    else if n == 2
    then identification
    else if n == 3
    then standby
    else if n == 4
    then transfer
    else if n == 5
    then sending_data
    else if n == 6
    then receive_data
    else if n == 7
    then programming
    else other

-- The fields that the macro `status!` makes.
pub record Status : Type 0 where
  pub bits : ℕ
  pub state : State
  pub address_out_of_range : Bool
  pub address_misalign : Bool
  pub block_len_error : Bool
  pub erase_seq_error : Bool
  pub erase_param : Bool
  pub wp_violation : Bool
  pub lock_unlock_failed : Bool
  pub com_crc_error : Bool
  pub illegal_command : Bool
  pub card_ecc_failed : Bool
  pub cc_error : Bool
  pub error : Bool
  pub underrun : Bool
  pub overrun : Bool
  pub cid_csd_overwrite : Bool
  pub wp_erase_skip : Bool
  pub erase_reset : Bool
  pub switch_error : Bool
  pub card_is_locked : Bool
  pub ready_for_data : Bool
  pub urgent_bkops : Bool
  pub app_cmd : Bool

-- `bits & (1 << pos) != 0`
abbrev pub flag : ℕ → ℕ → Bool
flag bits pos = not (bit_and bits (2 ^ pos) == 0)

-- `$epos` of each error
abbrev pub error_positions : List ℕ
error_positions =
    31 ∷ 30 ∷ 29 ∷ 28 ∷ 27 ∷ 26 ∷ 24 ∷ 23 ∷ 22 ∷ 21 ∷ 20 ∷ 19 ∷ 18 ∷ 17 ∷ 16 ∷ 15 ∷ 13 ∷ 7 ∷ []

-- `$(1 << $epos)|*`
abbrev or_all : List ℕ → ℕ
or_all [] = 0
or_all (pos ∷ ps) = bit_or (2 ^ pos) (or_all ps)

abbrev pub error_mask : ℕ
error_mask = or_all error_positions

abbrev pub status_of : ℕ → Status
status_of bits = record {
  bits = bits;
  state = state_of (bit_and (bits >>> 9) 0b1111);
  address_out_of_range = flag bits 31;
  address_misalign = flag bits 30;
  block_len_error = flag bits 29;
  erase_seq_error = flag bits 28;
  erase_param = flag bits 27;
  wp_violation = flag bits 26;
  lock_unlock_failed = flag bits 24;
  com_crc_error = flag bits 23;
  illegal_command = flag bits 22;
  card_ecc_failed = flag bits 21;
  cc_error = flag bits 20;
  error = flag bits 19;
  underrun = flag bits 18;
  overrun = flag bits 17;
  cid_csd_overwrite = flag bits 16;
  wp_erase_skip = flag bits 15;
  erase_reset = flag bits 13;
  switch_error = flag bits 7;
  card_is_locked = flag bits 25;
  ready_for_data = flag bits 8;
  urgent_bkops = flag bits 6;
  app_cmd = flag bits 5;
}

-- `Status::from`
unfoldable pub from : ℕ → Outcome Status Status
from bits =
    let has_errors = not (bit_and bits error_mask == 0) in
    if has_errors then err (status_of bits) else ok (status_of bits)

-- Some error field of a status is set.
abbrev pub has_error : Status → Bool
has_error s =
    s.address_out_of_range
    || (s.address_misalign
        || (s.block_len_error
            || (s.erase_seq_error
                || (s.erase_param
                    || (s.wp_violation
                        || (s.lock_unlock_failed
                            || (s.com_crc_error
                                || (s.illegal_command
                                    || (s.card_ecc_failed
                                        || (s.cc_error
                                            || (s.error
                                                || (s.underrun
                                                    || (s.overrun
                                                        || (s.cid_csd_overwrite
                                                            || (s.wp_erase_skip
                                                            || (s.erase_reset
                                                            || s.switch_error))))))))))))))))

or-false : (a b : Bool) → ((a || b) ≡ false) ↔ ((a ≡ false) × (b ≡ false))
or-false true b = (λ e. cc, λ e. e.0)
or-false false b = (λ e. (refl, e), λ e. e.1)

zero_test : (n : ℕ) → (n ≡ 0) ↔ (not (n == 0) ≡ false)
zero_test n = ground arith

-- The flags at places, one after the other.
abbrev any_flag : ℕ → List ℕ → Bool
any_flag bits [] = false
any_flag bits (pos ∷ []) = flag bits pos
any_flag bits (pos ∷ next ∷ ps) = flag bits pos || any_flag bits (next ∷ ps)

masked : (x : ℕ) (ps : List ℕ) → (bit_and x (or_all ps) ≡ 0) ↔ (any_flag x ps ≡ false)
masked x [] = (λ e. refl, λ e. bit_and-zero x)
masked x (p ∷ []) =
    subst (λ m. (bit_and x m ≡ 0) ↔ (flag x p ≡ false)) (sym (bit_or-zero (2 ^ p)))
      (zero_test (bit_and x (2 ^ p)))
masked x (p ∷ q ∷ ps) =
    let both =
      bit_and-or_zero (2 ^ p + or_all (q ∷ ps)) x (2 ^ p) (or_all (q ∷ ps)) (omega arith)
        (omega arith) in
    let rest = masked x (q ∷ ps) in
    let split = or-false (flag x p) (any_flag x (q ∷ ps)) in
    let here = zero_test (bit_and x (2 ^ p)) in
    (
      λ e. split.1 (here.0 (both.0 e).0, rest.0 (both.0 e).1),
      λ e. both.1 (here.1 (split.0 e).0, rest.1 (split.0 e).1),
    )

same_tests : (a b : Bool) → (a ≡ false) ↔ (b ≡ false) → a ≡ b
same_tests true true h = refl
same_tests true false h = h.1 refl
same_tests false true h = sym (h.0 refl)
same_tests false false h = refl

mask-errors : (bits : ℕ) → not (bit_and bits error_mask == 0) ≡ has_error (status_of bits)
mask-errors bits =
    let test = zero_test (bit_and bits error_mask) in
    let each = masked bits error_positions in
    same_tests (not (bit_and bits error_mask == 0)) (has_error (status_of bits))
      (λ e. each.0 (test.1 e), λ e. test.0 (each.1 e))

-- Every value of the register is read as a status with the state of its bits 9 to 12, and as an
-- error just when one of the 18 error fields of that status is set.
pub from-errors :
    (bits : ℕ)
    → (from bits
        ≡ (if has_error (status_of bits) then err (status_of bits) else ok (status_of bits)))
      × ((status_of bits).state ≡ state_of (bits / 2 ^ 9 % 2 ^ 4))
unfolding from
from-errors bits = (
  ap (λ b. if b then err (status_of bits) else ok (status_of bits)) (mask-errors bits),
  ap state_of (bit_and_mask 4 (bits / 2 ^ 9)),
)
