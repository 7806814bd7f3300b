-- ===== src/Emmc/Move.antt =====
-- The parts of moving a block in firmware/usbarmory/src/emmc.rs, on a controller and a card that respond:
-- the card's status, the transfer and the command.
use usbarmory_rust.Prelude.{
  ℕ, ◌+◌, ◌^◌, bit_or, ◌≡◌, refl, ap, ◌∙◌, ◌≢◌, inl, inr, true, false, not, ◌||◌, some, List, ◌∷◌,
  arith, if◌then◌else◌,
}
use usbarmory_rust.Prelude.Bits.{◌<<<◌}
use usbarmory_rust.Prelude.Outcome.{ok}
use usbarmory_rust.Emmc.Command.{Command, index, arg, send_status}
use usbarmory_rust.Emmc.Status.{Status, transfer}
use usbarmory_rust.Emmc.Machine.{
  pres_state, int_status, mix_ctrl, ds_addr, blk_att, wtmk_lvl, cmd_rsp0, Event, reading, writing,
  clearing, resetting, Controller, error, not_in_transfer_state, Emmc, Machine, Run, spin_until,
  >>=-ok, ◌>>=◌, ◌>>◌, return, throw, write, clear, reset,
}
use usbarmory_rust.Emmc.Send.{
  meets, int_status_tc, pres_state_dla, send_command, get_card_status, status_from,
}
use usbarmory_rust.Emmc.Driver.{
  prepare_transfer, check_ready, set_up_transfer, send, move_block, selected_rca, mix_ctrl_value,
  block_size, is_transfer,
}
use usbarmory_rust.Emmc.Card.{commands, is_quiet}
use usbarmory_rust.Emmc.Responsive.{Card, IsResponsive, sent, completed}
use usbarmory_rust.Emmc.Sending.{commands-sent, completed-quiet, send-runs, spin-ok, status-runs}
use usbarmory_rust.Emmc.Status.{from}
use usbarmory_rust.Emmc.Listening.{IsListening, status-runs_of, query-IsStill}

-- What is done between the card's status and a command with data.
abbrev pub set_up : Emmc → ℕ → ℕ → List Event → List Event
set_up emmc direction addr es =
    resetting wtmk_lvl
    ∷ writing blk_att (2 ^ 16 + 512)
    ∷ writing ds_addr addr
    ∷ clearing int_status int_status_tc
    ∷ reading pres_state
    ∷ writing mix_ctrl (mix_ctrl_value emmc.width direction)
    ∷ es

-- A command that moves a block, with its preparation and its response.
abbrev pub moved : Command → ℕ → ℕ → ℕ → Machine → Machine
moved c direction addr r m = record m {
  events = completed c (set_up m.emmc direction addr (completed (send_status r) m.events));
}

module _ (controller : Controller) (card : Card) (laws : IsResponsive controller card) where
  open laws use {free, no_error}

  check-ready-runs :
      (r : ℕ) (m : Machine)
      → IsListening r m.events
      → card.is_programming m.events ≡ false
      → m.emmc.selected ≡ some r
      → check_ready controller m ≡ (ok tt, record m { events = completed (send_status r) m.events })
  unfolding check_ready
  check-ready-runs r m listens idle selected =
      let (status, runs, which) = status-runs_of controller card laws r m listens in
      let still =
        query-IsStill controller card laws (card.content m.events) r m.events (idle, refl) in
      let (ready, state) : (status.ready_for_data ≡ true) × (status.state ≡ transfer) = elim which [
        | inl (down, ready, state) ↦ (ready, state)
        | inr (up, state) ↦ let down = still.0 in cc
      ] in
      >>=-ok (selected_rca controller) (λ r'. get_card_status controller r' >>= test) m
        (rw (selected) refl)
      ∙ (>>=-ok (get_card_status controller r) test m runs ∙ rw (ready, state) refl)
    where
      test : Status → Run (Unit {0})
      test status =
          if not status.ready_for_data || not (is_transfer status.state)
          then throw (error not_in_transfer_state)
          else return tt

  set_up-runs :
      (direction addr : ℕ) (m : Machine)
      → is_quiet m.events ≡ true
      → set_up_transfer controller direction addr m
        ≡ (ok tt, record m { events = set_up m.emmc direction addr m.events })
  unfolding set_up_transfer
  set_up-runs direction addr m quiet =
      >>=-ok (spin_until controller controller.spins pres_state (λ v. not (meets pres_state_dla v)))
        (λ done.
          clear int_status int_status_tc
          >> (write ds_addr addr
              >> (write blk_att (bit_or (1 <<< 16) block_size) >> reset wtmk_lvl)))
        mixed
        (spin-ok controller card laws pres_state (λ v. not (meets pres_state_dla v)) mixed
          (ap not (free mixed.events pres_state_dla quiet (omega arith))))
    where
      mixed : Machine
      mixed = record m {
        events = writing mix_ctrl (mix_ctrl_value m.emmc.width direction) ∷ m.events;
      }

  prepare-runs :
      (direction addr r : ℕ) (m : Machine)
      → IsListening r m.events
      → card.is_programming m.events ≡ false
      → m.emmc.selected ≡ some r
      → prepare_transfer controller direction addr m ≡ (
        ok tt,
        record m { events = set_up m.emmc direction addr (completed (send_status r) m.events) },
      )
  unfolding prepare_transfer
  prepare-runs direction addr r m listens idle selected =
      >>=-ok (check_ready controller) (λ done. set_up_transfer controller direction addr) m
        (check-ready-runs r m listens idle selected)
      ∙ set_up-runs direction addr (record m { events = completed (send_status r) m.events })
          (completed-quiet (send_status r) m.events listens.0)

  pub move-runs :
      (c : Command) (direction addr r : ℕ) (m : Machine)
      → index c ≢ 1
      → IsListening r m.events
      → card.is_programming m.events ≡ false
      → m.emmc.selected ≡ some r
      → (status : Status) × (from (
            controller.answer
              (sent c (set_up m.emmc direction addr (completed (send_status r) m.events)))
              cmd_rsp0)
          ≡ ok status)
        × (move_block controller direction addr c m ≡ (ok status, moved c direction addr r m))
  unfolding move_block send
  move-runs c direction addr r m not_ocr listens idle selected =
      let (status, e) =
        no_error (sent c before.events) (index c) (arg c) (commands before.events)
          (commands-sent c before.events) not_ocr in
      (
        status,
        e,
        >>=-ok (prepare_transfer controller direction addr)
              (λ done. send_command controller c >>= status_from) m
              (prepare-runs direction addr r m listens idle selected)
            ∙ (>>=-ok (send_command controller c) status_from before (
                  send-runs controller card laws c before
                    (completed-quiet (send_status r) m.events listens.0) (λ t. not_ocr))
                ∙ status-runs controller card laws
                    (controller.answer (sent c before.events) cmd_rsp0) status _ e),
      )
    where
      before : Machine
      before = record m {
        events = set_up m.emmc direction addr (completed (send_status r) m.events);
      }
