-- ===== src/Emmc/Command.antt =====
-- firmware/usbarmory/src/emmc/cmd.rs: the commands, their table, and what the controller is told of
-- each.
use usbarmory_rust.Prelude.{
  ℕ, ◌-◌, ◌*◌, ◌/◌, ◌%◌, ◌^◌, ◌<◌, bit_and, ◌≡◌, refl, ap, ◌∙◌, Bool, true, false, ◌||◌, Option,
  none, some, arith, ◌==◌, if◌then◌else◌,
}
use usbarmory_rust.Prelude.Bits.{◌<<<◌, bit_and_mask}

-- `Rca` is a `NonZeroU16`.
pub data Command : Type 0 where
  go_idle_state : Command
  send_op_cond : (ocr : ℕ) → Command
  all_send_cid : Command
  set_relative_addr : (rca : ℕ) → Command
  switch : (data_ : ℕ) → Command
  select_card : (rca : Option ℕ) → Command
  send_ext_csd : Command
  send_csd : (rca : ℕ) → Command
  send_status : (rca : ℕ) → Command
  set_block_len : (len : ℕ) → Command
  read_single_block : (block_nr : ℕ) → Command
  write_single_block : (block_nr : ℕ) → Command

pub data Kind : Type 0 where
  bc bcr ac adtc : Kind

pub data Response : Type 0 where
  no_response r1 r1b r2 r3 r4 r5 r6 : Response

-- `!OCR_BUSY`
abbrev not_ocr_busy : ℕ
not_ocr_busy = 2 ^ 31 - 1

abbrev rca_or_zero : Option ℕ → ℕ
rca_or_zero none = 0
rca_or_zero (some rca) = rca

abbrev Row : Type 0
Row = ℕ × Kind × ℕ × Response

-- `index_type_arg_resp`
unfoldable pub index_type_arg_resp : Command → Row
index_type_arg_resp go_idle_state = (0, bc, 0, no_response)
index_type_arg_resp (send_op_cond ocr) = (1, bcr, bit_and ocr not_ocr_busy, r3)
index_type_arg_resp all_send_cid = (2, bcr, 0, r2)
index_type_arg_resp (set_relative_addr rca) = (3, ac, rca <<< 16, r1)
index_type_arg_resp (switch data_) = (6, ac, data_, r1b)
index_type_arg_resp (select_card rca) = (7, ac, rca_or_zero rca <<< 16, r1)
index_type_arg_resp send_ext_csd = (8, adtc, 0, r1)
index_type_arg_resp (send_csd rca) = (9, ac, rca <<< 16, r2)
index_type_arg_resp (send_status rca) = (13, ac, rca <<< 16, r1)
index_type_arg_resp (set_block_len len) = (16, ac, len, r1)
index_type_arg_resp (read_single_block block_nr) = (17, adtc, block_nr, r1)
index_type_arg_resp (write_single_block block_nr) = (24, adtc, block_nr, r1)

abbrev pub index : Command → ℕ
unfolding index_type_arg_resp
index c = (index_type_arg_resp c).0

abbrev pub type : Command → Kind
unfolding index_type_arg_resp
type c = (index_type_arg_resp c).1

abbrev pub arg : Command → ℕ
unfolding index_type_arg_resp
arg c = (index_type_arg_resp c).2

abbrev pub response : Command → Response
unfolding index_type_arg_resp
response c = (index_type_arg_resp c).3

-- `cmdtyp`; `none` is the panic of its assertion.
abbrev pub cmdtyp : Command → Option ℕ
cmdtyp c = if index c == 52 then none else if index c == 12 then some 3 else some 0

abbrev is_adtc : Kind → Bool
is_adtc adtc = true
is_adtc _ = false

abbrev is_r1b : Response → Bool
is_r1b r1b = true
is_r1b _ = false

abbrev pub data_present : Command → Bool
data_present c = is_adtc (type c)

abbrev pub uses_data_line : Command → Bool
uses_data_line c = data_present c || is_r1b (response c)

-- `resp_cicen_cccen`, of the response
abbrev pub resp_cicen_cccen : Response → ℕ × ℕ × ℕ
resp_cicen_cccen no_response = (0, 0, 0)
resp_cicen_cccen r2 = (1, 0, 1)
resp_cicen_cccen r3 = (2, 0, 0)
resp_cicen_cccen r4 = (2, 0, 0)
resp_cicen_cccen r1 = (2, 1, 1)
resp_cicen_cccen r5 = (2, 1, 1)
resp_cicen_cccen r6 = (2, 1, 1)
resp_cicen_cccen r1b = (3, 1, 1)

abbrev pub response_type : Command → ℕ
response_type c = (resp_cicen_cccen (response c)).0

abbrev pub cicen : Command → Bool
cicen c = (resp_cicen_cccen (response c)).1 == 1

abbrev pub cccen : Command → Bool
cccen c = (resp_cicen_cccen (response c)).2 == 1

-- The command that a card is sent, as the tables 22 to 25 of the eMMC standard read the index and
-- the argument.
abbrev card_of : ℕ → Option ℕ
card_of rca = if rca == 0 then none else some rca

abbrev read_blocks : ℕ → ℕ → Option Command
read_blocks index a =
    if index == 13
    then some (send_status (a / 2 ^ 16))
    else if index == 16
    then some (set_block_len a)
    else if index == 17
    then some (read_single_block a)
    else if index == 24
    then some (write_single_block a)
    else none

abbrev read_later : ℕ → ℕ → Option Command
read_later index a =
    if index == 6
    then some (switch a)
    else if index == 7
    then some (select_card (card_of (a / 2 ^ 16)))
    else if index == 8
    then some send_ext_csd
    else if index == 9
    then some (send_csd (a / 2 ^ 16))
    else read_blocks index a

abbrev pub read_command : ℕ → ℕ → Option Command
read_command index a =
    if index == 0
    then some go_idle_state
    else if index == 1
    then some (send_op_cond a)
    else if index == 2
    then some all_send_cid
    else if index == 3
    then some (set_relative_addr (a / 2 ^ 16))
    else read_later index a

-- The address of a card that is not zero.
abbrev IsRca : Option ℕ → Type 0
IsRca none = Unit {0}
IsRca (some rca) = 0 < rca

-- What a command says to the card: all but the busy bit.
abbrev pub said : Command → Command
said (send_op_cond ocr) = send_op_cond (ocr % 2 ^ 31)
said c = c

abbrev pub IsCommand : Command → Type 0
IsCommand (select_card rca) = IsRca rca
IsCommand _ = Unit {0}

address_back : (rca : ℕ) → rca * 2 ^ 16 / 2 ^ 16 ≡ rca
address_back rca = omega arith

-- The index and the argument tell the command, as the tables of the standard read them, but for the
-- busy bit of SEND_OP_COND, which is cleared; the address of a card that is selected is not zero.
pub read_command-arg : (c : Command) → IsCommand c → read_command (index c) (arg c) ≡ some (said c)
unfolding index_type_arg_resp
read_command-arg go_idle_state h = refl
read_command-arg (send_op_cond ocr) h = ap (λ n. some (send_op_cond n)) (bit_and_mask 31 ocr)
read_command-arg all_send_cid h = refl
read_command-arg (set_relative_addr rca) h = ap (λ n. some (set_relative_addr n)) (address_back rca)
read_command-arg (switch data_) h = refl
read_command-arg (select_card none) h = refl
read_command-arg (select_card (some rca)) h =
    ap (λ n. some (select_card (card_of n))) (address_back rca)
    ∙ ap (λ o. some (select_card o)) (ground arith)
read_command-arg send_ext_csd h = refl
read_command-arg (send_csd rca) h = ap (λ n. some (send_csd n)) (address_back rca)
read_command-arg (send_status rca) h = ap (λ n. some (send_status n)) (address_back rca)
read_command-arg (set_block_len len) h = refl
read_command-arg (read_single_block block_nr) h = refl
read_command-arg (write_single_block block_nr) h = refl
