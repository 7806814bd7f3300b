-- ===== src/Emmc/Listening.antt =====
-- The status of the card in firmware/usbarmory/src/emmc.rs, on a controller and a card that respond, and
-- the transfers that the commands start.
use usbarmory_rust.Prelude.{
  ℕ, ◌≡◌, refl, sym, ap, ap₂, ◌∙◌, ◌⊎◌, Bool, true, false, List, ◌∷◌, ◌==◌, if◌then◌else◌,
}
use usbarmory_rust.Prelude.Bytes.{Bytes}
use usbarmory_rust.Prelude.Bits.{◌<<<◌}
use usbarmory_rust.Prelude.Outcome.{ok}
use usbarmory_rust.Emmc.Command.{
  Command, index, arg, data_present, send_status, index_type_arg_resp,
}
use usbarmory_rust.Emmc.Status.{Status, transfer, programming}
use usbarmory_rust.Emmc.Machine.{
  int_status, mix_ctrl, ds_addr, blk_att, cmd_rsp0, Event, reading, clearing, Controller, Machine,
  >>=-ok,
}
use usbarmory_rust.Emmc.Send.{transfer_done}
use usbarmory_rust.Emmc.Send.{send_command, get_card_status, status_from}
use usbarmory_rust.Emmc.Word.{command_word-fields}
use usbarmory_rust.Emmc.Card.{
  Job, jobs, commands, relative_address, is_selected, is_quiet, last_written,
}
use usbarmory_rust.Emmc.Responsive.{Card, starts, IsResponsive, sent, completed}
use usbarmory_rust.Emmc.Sending.{
  commands-sent, commands-completed, completed-quiet, send-runs, status-runs, on-either,
}

-- The transfer that a command starts, if any.
unfoldable pub job_of : Command → List Event → Job
unfolding index_type_arg_resp
job_of c es = record {
  index = index c;
  argument = arg c;
  address = last_written ds_addr es;
  size = last_written blk_att es;
  mode = last_written mix_ctrl es;
}

jobs-sent :
    (c : Command) (es : List Event)
    → jobs (sent c es) ≡ (if data_present c then job_of c es ∷ jobs es else jobs es)
unfolding sent job_of
jobs-sent c es =
    ap₂ (λ d i. if d then record (job_of c es) { index = i } ∷ jobs es else jobs es)
      (command_word-fields c).1.2 (command_word-fields c).1.0

pub jobs-completed :
    (c : Command) (es : List Event)
    → jobs (completed c es) ≡ (if data_present c then job_of c es ∷ jobs es else jobs es)
unfolding completed
jobs-completed c es = on-either jobs (data_present c) _ _ (jobs-sent c es) (jobs-sent c es)

pub query-jobs : (r : ℕ) (es : List Event) → jobs (completed (send_status r) es) ≡ jobs es
unfolding index_type_arg_resp
query-jobs r es = jobs-completed (send_status r) es

-- A card that a relative address selects, on a controller that has nothing to do.
abbrev pub IsListening : ℕ → List Event → Type 0
IsListening r es =
    (is_quiet es ≡ true)
    × (is_selected (commands es) ≡ true)
    × (r <<< 16 ≡ relative_address (commands es))

pub IsListening-query :
    (r : ℕ) (es : List Event) → IsListening r es → IsListening r (completed (send_status r) es)
unfolding index_type_arg_resp
IsListening-query r es (quiet, selected, address) = (
  completed-quiet (send_status r) es quiet,
  ap is_selected (commands-completed (send_status r) es) ∙ selected,
  address ∙ sym (ap relative_address (commands-completed (send_status r) es)),
)

module _ (controller : Controller) (card : Card) (laws : IsResponsive controller card) where
  open laws use {polls, polls_eq, free, no_error, awaits_block, idles, ends}

  -- The card is not programming a block, and its blocks are such.
  abbrev pub IsStill : (ℕ → Bytes) → List Event → Type 0
  IsStill content es = (card.is_programming es ≡ false) × (card.content es ≡ content)

  module _ (content : ℕ → Bytes) where
    pub IsStill-event :
        (es : List Event) (e : Event)
        → IsStill content es
        → starts e ≡ false
        → IsStill content (e ∷ es)
    IsStill-event es e (idle, same) other =
        let (idle', same') = idles es e idle other in (idle', same' ∙ same)

    -- No command but one that starts to program a block makes the card do so.
    pub sent-IsStill :
        (c : Command) (es : List Event)
        → (index c == 24) ≡ false
        → IsStill content es
        → IsStill content (sent c es)
    unfolding sent
    sent-IsStill c es other still =
        IsStill-event _ _
          (IsStill-event _ _
            (IsStill-event _ _
              (IsStill-event _ _
                (IsStill-event _ _ (IsStill-event _ _ (IsStill-event _ _ still refl) refl) refl)
                refl)
              (ap (λ i. i == 24) (command_word-fields c).1.0 ∙ other))
            refl)
          refl

    pub completed-IsStill :
        (c : Command) (es : List Event)
        → IsStill content (sent c es)
        → IsStill content (completed c es)
    unfolding completed
    completed-IsStill c es still = either (data_present c)
      where
        either :
            (b : Bool)
            → IsStill content (
                if b
                then clearing int_status transfer_done
                  ∷ reading int_status
                  ∷ reading cmd_rsp0
                  ∷ sent c es
                else reading cmd_rsp0 ∷ sent c es)
        either true = IsStill-event _ _ (IsStill-event _ _ (IsStill-event _ _ still refl) refl) refl
        either false = IsStill-event _ _ still refl

    pub query-IsStill :
        (r : ℕ) (es : List Event) → IsStill content es → IsStill content (sent (send_status r) es)
    unfolding index_type_arg_resp
    query-IsStill r es still = sent-IsStill (send_status r) es refl still

  -- The status of a card that listens says whether it is programming a block.
  pub status-runs_of :
      (r : ℕ) (m : Machine)
      → IsListening r m.events
      → (status : Status) × (get_card_status controller r m
          ≡ (ok status, record m { events = completed (send_status r) m.events }))
        × (((card.is_programming (sent (send_status r) m.events) ≡ false)
              × (status.ready_for_data ≡ true)
              × (status.state ≡ transfer))
            ⊎ ((card.is_programming (sent (send_status r) m.events) ≡ true)
                × (status.state ≡ programming)))
  unfolding get_card_status index_type_arg_resp
  status-runs_of r m (quiet, selected, address) =
      let (status, e, which) =
        awaits_block (sent (send_status r) m.events) (r <<< 16) (commands m.events)
          (commands-sent (send_status r) m.events) selected address in
      (
        status,
        >>=-ok (send_command controller (send_status r)) status_from m
              (send-runs controller card laws (send_status r) m quiet (λ t e. cc))
            ∙ status-runs controller card laws
                (controller.answer (sent (send_status r) m.events) cmd_rsp0) status _ e,
        which,
      )
