-- ===== src/Emmc/Jobs.antt =====
-- The transfers that are started by the driver of firmware/usbarmory/src/emmc.rs, on a controller and a
-- card that respond.
use usbarmory_rust.Prelude.{ℕ, ◌+◌, ◌^◌, ◌≡◌, ap, ◌∙◌, true, ◌∷◌}
use usbarmory_rust.Emmc.Command.{Command, index, arg, data_present, send_status}
use usbarmory_rust.Emmc.Machine.{Machine}
use usbarmory_rust.Emmc.Driver.{mix_ctrl_value}
use usbarmory_rust.Emmc.Card.{Job, jobs, commands, is_quiet}
use usbarmory_rust.Emmc.Responsive.{completed}
use usbarmory_rust.Emmc.Sending.{commands-completed, completed-quiet}
use usbarmory_rust.Emmc.Listening.{query-jobs}
use usbarmory_rust.Emmc.Move.{set_up, moved}
use usbarmory_rust.Emmc.Listening.{job_of, jobs-completed}

-- The transfer of a block of 512 bytes by DMA: the command, the number of the block, the buffer, and
-- the value of `MIX_CTRL`.
abbrev pub block_job : ℕ → ℕ → ℕ → ℕ → Job
block_job index argument addr mode = record {
  index = index;
  argument = argument;
  address = addr;
  size = 2 ^ 16 + 512;
  mode = mode;
}

-- A command with data starts one transfer, of the block that the driver has set up.
pub moved-jobs :
    (c : Command) (direction addr r : ℕ) (m : Machine)
    → data_present c ≡ true
    → jobs (moved c direction addr r m).events
      ≡ block_job (index c) (arg c) addr (mix_ctrl_value m.emmc.width direction) ∷ jobs m.events
unfolding job_of
moved-jobs c direction addr r m present =
    jobs-completed c (set_up m.emmc direction addr (completed (send_status r) m.events))
    ∙ (rw (present) (
        ap (λ js. block_job (index c) (arg c) addr (mix_ctrl_value m.emmc.width direction) ∷ js)
          (query-jobs r m.events)))

pub moved-quiet :
    (c : Command) (direction addr r : ℕ) (m : Machine)
    → is_quiet m.events ≡ true
    → is_quiet (moved c direction addr r m).events ≡ true
moved-quiet c direction addr r m quiet =
    completed-quiet c (set_up m.emmc direction addr (completed (send_status r) m.events))
      (completed-quiet (send_status r) m.events quiet)

pub moved-commands :
    (c : Command) (direction addr r : ℕ) (m : Machine)
    → commands (moved c direction addr r m).events
      ≡ (index c, arg c) ∷ (index (send_status r), arg (send_status r)) ∷ commands m.events
moved-commands c direction addr r m =
    commands-completed c (set_up m.emmc direction addr (completed (send_status r) m.events))
    ∙ ap (λ cs. (index c, arg c) ∷ cs) (commands-completed (send_status r) m.events)
