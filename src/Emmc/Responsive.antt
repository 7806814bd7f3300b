-- ===== src/Emmc/Responsive.antt =====
-- What a controller and a card promise the driver of firmware/usbarmory/src/emmc.rs: a controller that
-- completes each command and a card that responds to it.
use usbarmory_rust.Prelude.{
  ℕ, zero, suc, ◌+◌, ◌/◌, ◌%◌, ◌^◌, ◌<◌, ◌≡◌, ◌≢◌, ◌⊎◌, Bool, true, false, ◌&&◌, Option, none, some,
  List, ◌∷◌, ◌==◌, if◌then◌else◌,
}
use usbarmory_rust.Prelude.Bytes.{Bytes}
use usbarmory_rust.Prelude.Outcome.{ok}
use usbarmory_rust.Prelude.Bits.{◌<<<◌}
use usbarmory_rust.Emmc.Command.{Command, arg, data_present, index_type_arg_resp, send_status}
use usbarmory_rust.Emmc.Status.{Status, transfer, programming, from}
use usbarmory_rust.Emmc.Machine.{
  pres_state, int_status, cmd_arg, cmd_xfr_typ, cmd_rsp0, sys_ctrl, Event, reading, writing,
  clearing, resetting, waiting, Controller,
}
use usbarmory_rust.Emmc.Send.{int_status_cc, meets, transfer_done, command_word}
use usbarmory_rust.Emmc.Card.{
  is_reg, Job, jobs, commands, due, relative_address, is_selected, is_quiet,
}
use usbarmory_rust.Emmc.Driver.{sdstb}

-- A flag as a number.
abbrev pub flag : Bool → ℕ → ℕ
flag true n = n
flag false n = 0

-- The events up to the reading of a command's response, and of the whole command.
unfoldable pub sent : Command → List Event → List Event
unfolding command_word index_type_arg_resp
sent c es =
    clearing int_status int_status_cc
    ∷ reading int_status
    ∷ writing cmd_xfr_typ (command_word c 0)
    ∷ writing cmd_arg (arg c)
    ∷ waiting 20
    ∷ reading pres_state
    ∷ reading int_status
    ∷ es

unfoldable pub completed : Command → List Event → List Event
unfolding command_word index_type_arg_resp
completed c es =
    if data_present c
    then clearing int_status transfer_done ∷ reading int_status ∷ reading cmd_rsp0 ∷ sent c es
    else reading cmd_rsp0 ∷ sent c es

-- The events of so many questions for the card's status.
abbrev pub queries : ℕ → ℕ → List Event → List Event
queries zero r es = es
queries (suc n) r es = queries n r (completed (send_status r) es)

-- A card: what EXT_CSD holds, what is in its blocks after the events so far, and whether a block that
-- it was told to write has not been programmed then.
pub record Card : Type 0 where
  pub ext_csd : Bytes
  pub content : List Event → ℕ → Bytes
  pub is_programming : List Event → Bool

-- What programs a block.
abbrev pub starts : Event → Bool
starts (writing r value) = is_reg cmd_xfr_typ r && (value / 2 ^ 24 == 24)
starts (reading r) = false
starts (clearing r mask) = false
starts (resetting r) = false
starts (waiting us) = false

-- A transfer of one block of 512 bytes by DMA, into memory, and from memory to be stored.
abbrev pub IsFetch : Job → Type 0
IsFetch job = (job.size ≡ 2 ^ 16 + 512) × (job.mode / 2 ^ 4 % 2 ≡ 1) × (job.mode % 2 ≡ 1)

abbrev pub IsStore : Job → Type 0
IsStore job =
    (job.index ≡ 24) × (job.size ≡ 2 ^ 16 + 512) × (job.mode / 2 ^ 4 % 2 ≡ 0) × (job.mode % 2 ≡ 1)

-- What the two commands that fetch a block move.
abbrev pub fetched : Card → List Event → Job → Option Bytes
fetched card es job =
    if job.index == 17
    then some (card.content es job.argument)
    else if job.index == 8
    then some card.ext_csd
    else none

-- A controller and a card that are prompt: a command and its transfer are done when the driver looks
-- first, and raise their flags, which are up until they are cleared (a transfer may also raise TC when
-- it has no data); between commands the bus is idle. The clock is stable, and a reset done at once; the
-- card has power, its responses have no error, and when it is selected its status is that of a card
-- that awaits a block, unless it is programming one, which only a write starts and which ends while the
-- driver asks. What a selected card has sent is in memory when the transfer has been acknowledged, and what it
-- has been sent is in the block when it does not program it any more.
pub record IsResponsive (controller : Controller) (card : Card) : Type 0 where
  pub spins : ℕ
  pub spins_eq : controller.spins ≡ suc spins
  pub polls : ℕ
  pub polls_eq : controller.polls ≡ suc polls
  pub free :
      (es : List Event) (mask : ℕ)
      → is_quiet es ≡ true
      → mask < 8
      → meets mask (controller.answer es pres_state) ≡ false
  pub stable : (es : List Event) → meets sdstb (controller.answer es pres_state) ≡ true
  pub is_reset : (es : List Event) → meets (1 <<< 24) (controller.answer es sys_ctrl) ≡ false
  pub raises :
      (es : List Event)
      → (tc : Bool) × (controller.answer es int_status
          ≡ flag (due 1 false es) 1 + flag tc 2 + flag (due 8 true es) 8)
        × ((due 2 true es ≡ false) ⊎ (tc ≡ true))
  pub powered :
      (es : List Event) (a : ℕ) (cs : List (ℕ × ℕ))
      → commands es ≡ (1, a) ∷ cs
      → meets (1 <<< 31) (controller.answer es cmd_rsp0) ≡ true
  pub no_error :
      (es : List Event) (i a : ℕ) (cs : List (ℕ × ℕ))
      → commands es ≡ (i, a) ∷ cs
      → i ≢ 1
      → (status : Status) × (from (controller.answer es cmd_rsp0) ≡ ok status)
  pub awaits_block :
      (es : List Event) (a : ℕ) (cs : List (ℕ × ℕ))
      → commands es ≡ (13, a) ∷ cs
      → is_selected cs ≡ true
      → a ≡ relative_address cs
      → (status : Status) × (from (controller.answer es cmd_rsp0) ≡ ok status)
        × (((card.is_programming es ≡ false)
              × (status.ready_for_data ≡ true)
              × (status.state ≡ transfer))
            ⊎ ((card.is_programming es ≡ true) × (status.state ≡ programming)))
  pub idles :
      (es : List Event) (e : Event)
      → card.is_programming es ≡ false
      → starts e ≡ false
      → (card.is_programming (e ∷ es) ≡ false) × (card.content (e ∷ es) ≡ card.content es)
  pub ends :
      (r : ℕ) (es : List Event)
      → (n : ℕ) × (n < controller.polls)
        × (card.is_programming (sent (send_status r) (queries n r es)) ≡ false)
  pub fetches :
      (es : List Event) (job : Job) (rest : List Job) (bytes : Bytes)
      → jobs es ≡ job ∷ rest
      → is_selected (commands es) ≡ true
      → is_quiet es ≡ true
      → IsFetch job
      → fetched card es job ≡ some bytes
      → controller.memory es job.address ≡ bytes
  pub stores :
      (es : List Event) (job : Job) (rest : List Job)
      → jobs es ≡ job ∷ rest
      → is_selected (commands es) ≡ true
      → is_quiet es ≡ true
      → IsStore job
      → card.is_programming es ≡ false
      → card.content es job.argument ≡ controller.memory es job.address
