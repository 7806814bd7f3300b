-- ===== src/Emmc/Live.antt =====
-- Reading and writing a block with the driver of firmware/usbarmory/src/emmc.rs, on a controller and a
-- card that respond.
use usbarmory_rust.Prelude.{ℕ, ◌≡◌, refl, ap, ◌∙◌, ◌≢◌, false, Option, none, some, List, ◌∷◌, ◌==◌}
use usbarmory_rust.Prelude.Bytes.{Bytes}
use usbarmory_rust.Prelude.Bits.{◌<<<◌}
use usbarmory_rust.Prelude.Outcome.{ok}
use usbarmory_rust.Emmc.Command.{Command, index, arg, send_status, index_type_arg_resp}
use usbarmory_rust.Emmc.Status.{Status}
use usbarmory_rust.Emmc.Machine.{Event, Controller, Machine, >>=-ok, return}
use usbarmory_rust.Emmc.Driver.{move_block, mix_ctrl_value}
use usbarmory_rust.Emmc.Card.{jobs, is_selected}
use usbarmory_rust.Emmc.Responsive.{Card, starts, IsResponsive, completed, fetched}
use usbarmory_rust.Emmc.Listening.{IsListening, query-IsStill}
use usbarmory_rust.Emmc.Driver.{is_programming}
use usbarmory_rust.Emmc.Listening.{completed-IsStill}
use usbarmory_rust.Emmc.Command.{read_single_block as read_cmd, write_single_block as write_cmd}
use usbarmory_rust.Emmc.Driver.{read_command, read_single_block, write_single_block}
use usbarmory_rust.Emmc.Move.{moved, move-runs}
use usbarmory_rust.Emmc.Jobs.{block_job, moved-jobs, moved-quiet, moved-commands}
use usbarmory_rust.Emmc.Listening.{IsStill, IsStill-event, sent-IsStill}

module _ (controller : Controller) (card : Card) (laws : IsResponsive controller card) where
  open laws use {fetches, stores}

  -- What a read of a block, or of EXT_CSD where none is named, does.
  pub read-runs :
      (block : Option ℕ) (addr r : ℕ) (m : Machine)
      → IsListening r m.events
      → card.is_programming m.events ≡ false
      → m.emmc.selected ≡ some r
      → read_single_block controller block addr m
        ≡ (ok tt, moved (read_command block) (1 <<< 4) addr r m)
  unfolding read_single_block index_type_arg_resp
  read-runs block addr r m listens idle selected =
      let (status, e, runs) =
        move-runs controller card laws (read_command block) (1 <<< 4) addr r m (reads block) listens
          idle selected in
      >>=-ok (move_block controller (1 <<< 4) addr (read_command block)) (λ s. return tt) m runs
    where
      reads : (block : Option ℕ) → index (read_command block) ≢ 1
      reads none e = cc
      reads (some nr) e = cc

  pub read-fetches :
      (block : Option ℕ) (addr r : ℕ) (bytes : Bytes) (m : Machine)
      → IsListening r m.events
      → fetched card (moved (read_command block) (1 <<< 4) addr r m).events (
          block_job
            (index (read_command block))
            (arg (read_command block))
            addr
            (mix_ctrl_value m.emmc.width (1 <<< 4)))
        ≡ some bytes
      → controller.memory (moved (read_command block) (1 <<< 4) addr r m).events addr ≡ bytes
  unfolding index_type_arg_resp
  read-fetches none addr r bytes m (quiet, selected, address) e =
      fetches _ _ (jobs m.events) bytes (moved-jobs (read_command none) (1 <<< 4) addr r m refl)
        (ap is_selected (moved-commands (read_command none) (1 <<< 4) addr r m) ∙ selected)
        (moved-quiet (read_command none) (1 <<< 4) addr r m quiet) (refl, refl, refl) e
  read-fetches (some nr) addr r bytes m (quiet, selected, address) e =
      fetches _ _ (jobs m.events) bytes (moved-jobs (read_cmd nr) (1 <<< 4) addr r m refl)
        (ap is_selected (moved-commands (read_cmd nr) (1 <<< 4) addr r m) ∙ selected)
        (moved-quiet (read_cmd nr) (1 <<< 4) addr r m quiet) (refl, refl, refl) e

  pub moved-IsStill :
      (content : ℕ → Bytes) (c : Command) (direction addr r : ℕ) (m : Machine)
      → (index c == 24) ≡ false
      → IsStill controller card laws content m.events
      → IsStill controller card laws content (moved c direction addr r m).events
  moved-IsStill content c direction addr r m other still =
      completed-IsStill controller card laws content c _ (
        sent-IsStill controller card laws content c _ other (
          event _ _
            (event _ _ (event _ _ (event _ _ (event _ _ (event _ _ asked refl) refl) refl) refl)
              refl)
            refl))
    where
      event :
          (es : List Event) (e : Event)
          → IsStill controller card laws content es
          → starts e ≡ false
          → IsStill controller card laws content (e ∷ es)
      event = IsStill-event controller card laws content

      asked : IsStill controller card laws content (completed (send_status r) m.events)
      asked =
          completed-IsStill controller card laws content (send_status r) m.events
            (query-IsStill controller card laws content r m.events still)
