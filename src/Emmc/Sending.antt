-- ===== src/Emmc/Sending.antt =====
-- A command of firmware/usbarmory/src/emmc.rs on a controller and a card that respond.
use usbarmory_rust.Prelude.{
  ℕ, ◌+◌, ◌≡◌, refl, ap, ◌∙◌, ◌≢◌, inl, inr, Bool, true, false, not, some, List, ◌∷◌, arith,
  if◌then◌else◌, Bool-cases,
}
use usbarmory_rust.Prelude.Outcome.{ok}
use usbarmory_rust.Emmc.Command.{Command, index, arg, response, data_present}
use usbarmory_rust.Emmc.Status.{Status, from}
use usbarmory_rust.Emmc.Machine.{
  Reg, clear, return, ◌>>◌, pres_state, int_status, cmd_arg, cmd_xfr_typ, cmd_rsp0, Event, reading,
  writing, clearing, waiting, Controller, read, assert, Machine, wait_for_or_timeout, spin_until,
  >>=-ok, ◌>>=◌,
}
use usbarmory_rust.Emmc.Send.{
  int_status_cc, meets, transfer_done, command_word, send_command, start_command, take_response,
  type_command, with_type, await_transfer, status_from, int_status_ctoe, int_status_any_error,
  int_status_arms, has_command_completed, has_transfer_completed, is_r1_or_r1b, check_response,
}
use usbarmory_rust.Emmc.Word.{command_word-fields}
use usbarmory_rust.Emmc.Card.{with_data, commands, due, is_quiet}
use usbarmory_rust.Emmc.Responsive.{sent, completed, Card, IsResponsive, flag}

pub commands-sent :
    (c : Command) (es : List Event) → commands (sent c es) ≡ (index c, arg c) ∷ commands es
unfolding sent
commands-sent c es = ap (λ i. (i, arg c) ∷ commands es) (command_word-fields c).1.0

pub on-either :
    {A B : Type 0} (f : A → B) (b : Bool) (x y : A) {value : B}
    → f x ≡ value
    → f y ≡ value
    → f (if b then x else y) ≡ value
on-either f true x y e e' = e
on-either f false x y e e' = e'

pub commands-completed :
    (c : Command) (es : List Event) → commands (completed c es) ≡ (index c, arg c) ∷ commands es
unfolding completed
commands-completed c es =
    on-either commands (data_present c) _ _ (commands-sent c es) (commands-sent c es)

quiet-flags :
    (es : List Event) → is_quiet es ≡ true → (due 1 false es ≡ false) × (due 8 true es ≡ false)
quiet-flags es quiet = ground arith

-- The events of a command with a word and an argument.
abbrev sent_with : ℕ → ℕ → List Event → List Event
sent_with word argument es =
    clearing int_status int_status_cc
    ∷ reading int_status
    ∷ writing cmd_xfr_typ word
    ∷ writing cmd_arg argument
    ∷ waiting 20
    ∷ reading pres_state
    ∷ reading int_status
    ∷ es

sent_with-quiet :
    (word argument : ℕ) (b : Bool) (es : List Event)
    → is_quiet es ≡ true
    → with_data word ≡ b
    → is_quiet (
        if b
        then clearing int_status transfer_done
          ∷ reading int_status
          ∷ reading cmd_rsp0
          ∷ sent_with word argument es
        else reading cmd_rsp0 ∷ sent_with word argument es)
      ≡ true
sent_with-quiet word argument true es quiet e = refl
sent_with-quiet word argument false es quiet e =
    ap (λ d. not (if d then true else due 8 true es)) e ∙ ap not (quiet-flags es quiet).1

-- A command that has completed is acknowledged.
pub completed-quiet :
    (c : Command) (es : List Event) → is_quiet es ≡ true → is_quiet (completed c es) ≡ true
unfolding completed sent
completed-quiet c es quiet =
    sent_with-quiet (command_word c 0) (arg c) (data_present c) es quiet (command_word-fields c).1.2

-- The values of `INT_STATUS`, by its flags.
no_cc_in : (tc : Bool) → meets 1 (0 + flag tc 2 + 0) ≡ false
no_cc_in true = refl
no_cc_in false = refl

command_value :
    (tc dint : Bool)
    → (has_command_completed (1 + flag tc 2 + flag dint 8) ≡ true)
      × (meets int_status_ctoe (1 + flag tc 2 + flag dint 8) ≡ false)
      × (meets int_status_any_error (1 + flag tc 2 + flag dint 8) ≡ false)
command_value true true = (refl, refl, refl)
command_value true false = (refl, refl, refl)
command_value false true = (refl, refl, refl)
command_value false false = (refl, refl, refl)

transfer_value :
    (cc_up : Bool)
    → (has_transfer_completed (flag cc_up 1 + 2 + 8) ≡ true)
      × (meets int_status_ctoe (flag cc_up 1 + 2 + 8) ≡ false)
      × (meets int_status_any_error (flag cc_up 1 + 2 + 8) ≡ false)
transfer_value true = (refl, refl, refl)
transfer_value false = (refl, refl, refl)

-- The events up to the first look at the flags that a command raises.
abbrev sent_word : Command → List Event → List Event
sent_word c es =
    reading int_status
    ∷ writing cmd_xfr_typ (command_word c 0)
    ∷ writing cmd_arg (arg c)
    ∷ waiting 20
    ∷ es

module _ (controller : Controller) (card : Card) (laws : IsResponsive controller card) where
  open laws use {
    spins_eq, polls_eq, free, stable, is_reset, raises, powered, no_error, awaits_block,
  }

  pub spin-ok :
      (r : Reg) (done : ℕ → Bool) (m : Machine)
      → done (controller.answer m.events r) ≡ true
      → spin_until controller controller.spins r done m
        ≡ (ok tt, record m { events = reading r ∷ m.events })
  spin-ok r done m h = rw (spins_eq, h) refl

  wait-ok :
      (r : Reg) (done : ℕ → Bool) (m : Machine)
      → done (controller.answer m.events r) ≡ true
      → wait_for_or_timeout controller controller.polls r done m
        ≡ (ok (some (controller.answer m.events r)), record m { events = reading r ∷ m.events })
  wait-ok r done m h = rw (polls_eq, h) refl

  pub acknowledged :
      (es : List Event) → is_quiet es ≡ true → meets 1 (controller.answer es int_status) ≡ false
  acknowledged es quiet =
      let (tc, eq, _) = raises es in
      let (no_cc, no_dint) = quiet-flags es quiet in rw (eq, no_cc, no_dint) (no_cc_in tc)

  start-runs :
      (c : Command) (m : Machine)
      → start_command controller c 0 m
        ≡ take_response controller c (record m { events = sent_word c m.events })
  unfolding start_command
  start-runs c m =
      let (tc, eq, _) = raises issued.events in
      let (done, no_ctoe, no_error) = command_value tc (due 8 true issued.events) in
      >>=-ok (wait_for_or_timeout controller controller.polls int_status has_command_completed)
        (λ status. int_status_arms status (take_response controller c)) issued
        (wait-ok int_status has_command_completed issued (ap has_command_completed eq ∙ done))
      ∙ rw (eq, no_ctoe, no_error) refl
    where
      issued : Machine
      issued = record m {
        events =
            writing cmd_xfr_typ (command_word c 0)
            ∷ writing cmd_arg (arg c)
            ∷ waiting 20
            ∷ m.events;
      }

  abbrev taken : Command → List Event → List Event
  taken c es =
      let answered = reading cmd_rsp0 ∷ clearing int_status int_status_cc ∷ es in
      if data_present c
      then clearing int_status transfer_done ∷ reading int_status ∷ answered
      else answered

  transfer-runs :
      (rsp : ℕ) (m : Machine)
      → due 2 true m.events ≡ true
      → due 8 true m.events ≡ true
      → await_transfer controller rsp m ≡ (
        ok rsp,
        record m { events = clearing int_status transfer_done ∷ reading int_status ∷ m.events },
      )
  transfer-runs rsp m tc_due dint_due =
      let (tc, eq, which) = raises m.events in
      let tc_up : tc ≡ true = elim which [ inl down ↦ cc | inr up ↦ up ] in
      let value : controller.answer m.events int_status ≡ flag (due 1 false m.events) 1 + 2 + 8 =
        eq ∙ rw (tc_up, dint_due) refl in
      let (done, no_ctoe, no_error) = transfer_value (due 1 false m.events) in
      >>=-ok (wait_for_or_timeout controller controller.polls int_status has_transfer_completed)
        (λ status. int_status_arms status (clear int_status transfer_done >> return rsp)) m
        (wait-ok int_status has_transfer_completed m (ap has_transfer_completed value ∙ done))
      ∙ rw (value, no_ctoe, no_error) refl

  pub status-runs :
      (rsp : ℕ) (status : Status) (m : Machine)
      → from rsp ≡ ok status
      → status_from rsp m ≡ (ok status, m)
  unfolding status_from
  status-runs rsp status m e = rw (status_from, e) refl

  check-runs :
      (c : Command) (rsp : ℕ) (m : Machine)
      → ((is_r1_or_r1b (response c) ≡ true) → (status : Status) × (from rsp ≡ ok status))
      → check_response controller c rsp m ≡ (ok tt, m)
  unfolding check_response
  check-runs c rsp m h = elim (Bool-cases (is_r1_or_r1b (response c))) [
    | inl t ↦
        let (status, e) = h t in
        rw (t) (>>=-ok (status_from rsp) (λ s. return tt) m (status-runs rsp status m e))
    | inr t ↦ rw (t) refl
  ]

  take-runs :
      (c : Command) (m : Machine) (cs : List (ℕ × ℕ))
      → ((is_r1_or_r1b (response c) ≡ true) → (index c ≢ 1))
      → commands m.events ≡ (index c, arg c) ∷ cs
      → (data_present c ≡ true → (due 2 true m.events ≡ true) × (due 8 true m.events ≡ true))
      → take_response controller c m ≡ (
        ok (controller.answer (clearing int_status int_status_cc ∷ m.events) cmd_rsp0),
        record m { events = taken c m.events },
      )
  unfolding take_response
  take-runs c m cs h e raised =
      >>=-ok (check_response controller c rsp)
        (λ done. if data_present c then await_transfer controller rsp else return rsp) answered
        (check-runs c rsp answered (λ t.
          no_error (clearing int_status int_status_cc ∷ m.events) (index c) (arg c) cs e (h t)))
      ∙ (elim (Bool-cases (data_present c)) [
        | inl d ↦ rw (d) (transfer-runs rsp answered (raised d).0 (raised d).1)
        | inr d ↦ rw (d) refl
      ])
    where
      answered : Machine
      answered = record m {
        events = reading cmd_rsp0 ∷ clearing int_status int_status_cc ∷ m.events;
      }

      rsp : ℕ
      rsp = controller.answer (clearing int_status int_status_cc ∷ m.events) cmd_rsp0

  typed-runs :
      (c : Command) (m : Machine) → type_command controller c m ≡ start_command controller c 0 m
  unfolding type_command with_type
  typed-runs c m = ap (λ o. with_type controller c o m) (command_word-fields c).0

  -- Between commands, a command runs to its end and returns the response to it.
  pub send-runs :
      (c : Command) (m : Machine)
      → is_quiet m.events ≡ true
      → ((is_r1_or_r1b (response c) ≡ true) → (index c ≢ 1))
      → send_command controller c m ≡ (
        ok (controller.answer (sent c m.events) cmd_rsp0),
        record m { events = completed c m.events },
      )
  unfolding send_command sent completed
  send-runs c m quiet h =
      >>=-ok (read controller int_status >>= λ status. assert (not (meets int_status_cc status)))
        (λ done.
          spin_until controller controller.spins pres_state idle_bus >> type_command controller c)
        m (rw (acknowledged m.events quiet) refl)
      ∙ (>>=-ok (spin_until controller controller.spins pres_state idle_bus)
            (λ done. type_command controller c) looked
            (spin-ok pres_state idle_bus looked (ap not (free looked.events 7 quiet (omega arith))))
          ∙ (typed-runs c spun
              ∙ (start-runs c spun
                  ∙ take-runs c _ (commands m.events) h (commands-sent c m.events) raised)))
    where
      idle_bus : ℕ → Bool
      idle_bus v = not (meets 7 v)

      looked : Machine
      looked = record m { events = reading int_status ∷ m.events }

      spun : Machine
      spun = record m { events = reading pres_state ∷ looked.events }

      raised :
          data_present c ≡ true
          → (due 2 true (sent_word c spun.events) ≡ true)
            × (due 8 true (sent_word c spun.events) ≡ true)
      raised d =
          (rw ((command_word-fields c).1.2 ∙ d) refl, rw ((command_word-fields c).1.2 ∙ d) refl)
