-- ===== src/Emmc/Leaves.antt =====
-- Calls of firmware/usbarmory/src/emmc.rs that return `Ok` on a controller and a card that respond,
-- and the handle they leave.
use usbarmory_rust.Prelude.{
  ℕ, zero, suc, bit_or, ◌≡◌, refl, ap, ◌∙◌, ◌≢◌, Bool, true, false, ◌==◌, List, ◌∷◌, if◌then◌else◌,
}
use usbarmory_rust.Prelude.Outcome.{ok}
use usbarmory_rust.Prelude.Bits.{◌<<<◌}
use usbarmory_rust.Emmc.Command.{Command, index, arg, send_op_cond, index_type_arg_resp, response}
use usbarmory_rust.Emmc.Machine.{
  Reg, pres_state, cmd_xfr_typ, cmd_rsp0, sys_ctrl, vend_spec, Event, reading, writing, waiting,
  Controller, restart, Width, Emmc, Run, >>=-ok, ◌>>=◌, ◌>>◌, return, throw, expect, expected, wait,
  this, set_this, read, rmw, spin_until,
}
use usbarmory_rust.Emmc.Send.{meets, send_command, is_r1_or_r1b}
use usbarmory_rust.Emmc.Driver.{
  send, Frequency, prescaler_and_divisor, sdstb, vend_spec_cken, clear_bits,
}
use usbarmory_rust.Emmc.Setup.{await_power_up, with_clock, change_frequency}
use usbarmory_rust.Prelude.Bytes.{Bytes}
use usbarmory_rust.Emmc.Card.{is_reg, commands, is_quiet}
use usbarmory_rust.Emmc.Listening.{IsStill, IsStill-event, sent-IsStill, completed-IsStill}
use usbarmory_rust.Emmc.Responsive.{Card, starts, IsResponsive, sent, completed}
use usbarmory_rust.Emmc.Sending.{
  commands-sent, commands-completed, completed-quiet, send-runs, spin-ok,
}

module _ (controller : Controller) (card : Card) (laws : IsResponsive controller card)
    (content : ℕ → Bytes) where
  open laws use {free, stable, is_reset, powered}

  -- Between two calls: nothing is due and the blocks are as they were.
  abbrev pub IsCalm : List Event → Type 0
  IsCalm es = (is_quiet es ≡ true) × IsStill controller card laws content es

  -- A call returns `Ok`, takes one handle to another and the commands that were sent so far to more.
  pub record Leaves {A : Type 0} (before : Emmc) (cs : List (ℕ × ℕ)) (after : Emmc)
      (cs' : List (ℕ × ℕ)) (call : Run A) : Type 0 where
    pub runs :
        (es : List Event)
        → IsCalm es
        → commands es ≡ cs
        → (value : A) × (es' : List Event) × (call (record { emmc = before; events = es })
            ≡ (ok value, record { emmc = after; events = es' }))
          × IsCalm es'
          × (commands es' ≡ cs')

  pub Leaves-bind :
      {A B : Type 0} {e e' e'' : Emmc} {cs cs' cs'' : List (ℕ × ℕ)} (call : Run A)
      (next : A → Run B)
      → Leaves e cs e' cs' call
      → ((value : A) → Leaves e' cs' e'' cs'' (next value))
      → Leaves e cs e'' cs'' (call >>= next)
  Leaves-bind {e} call next first second = record {
    runs = λ es calm told.
        let (value, es', runs, calm', told') = first.runs es calm told in
        let (value', es'', runs', calm'', told'') = (second value).runs es' calm' told' in
        (
          value',
          es'',
          >>=-ok call next (record { emmc = e; events = es }) runs ∙ runs',
          calm'',
          told'',
        );
  }

  pub Leaves-expect :
      {A : Type 0} {e e' : Emmc} {cs cs' : List (ℕ × ℕ)} (call : Run A)
      → Leaves e cs e' cs' call
      → Leaves e cs e' cs' (expect call)
  Leaves-expect call leaves = record {
    runs = λ es calm told.
        let (value, es', runs, calm', told') = leaves.runs es calm told in
        (value, es', ap expected runs, calm', told');
  }

  step :
      (es : List Event) (ev : Event)
      → IsStill controller card laws content es
      → starts ev ≡ false
      → IsStill controller card laws content (ev ∷ es)
  step = IsStill-event controller card laws content

  module _ (e : Emmc) (cs : List (ℕ × ℕ)) where
    pub Leaves-wait : (us : ℕ) → Leaves e cs e cs (wait us)
    Leaves-wait us = record {
      runs = λ es (quiet, still) told.
          (tt, waiting us ∷ es, refl, (quiet, step es _ still refl), told);
    }

    pub Leaves-width :
        (w : Width)
        → Leaves e cs
            (record e { width = w })
            cs
            (this >>= λ emmc. set_this (record emmc { width = w }))
    Leaves-width w = record { runs = λ es calm told. (tt, es, refl, calm, told) }

    pub Leaves-return : Leaves e cs e cs (return tt)
    Leaves-return = record { runs = λ es calm told. (tt, es, refl, calm, told) }

    -- A register whose writing neither sends a command nor takes a flag down.
    pub Leaves-rmw :
        (r : Reg) (f : ℕ → ℕ) → is_reg cmd_xfr_typ r ≡ false → Leaves e cs e cs (rmw controller r f)
    Leaves-rmw r f plain = record {
      runs = λ es (quiet, still) told. (
        tt,
        writing r (f (controller.answer es r)) ∷ reading r ∷ es,
        refl,
        ((rw (plain) quiet), step _ _ (step es (reading r) still refl) (rw (plain) refl)),
        (rw (plain) told),
      );
    }

    pub Leaves-read : (r : Reg) → Leaves e cs e cs (read controller r)
    Leaves-read r = record {
      runs = λ es (quiet, still) told. (
        controller.answer es r,
        reading r ∷ es,
        refl,
        (quiet, step es (reading r) still refl),
        told,
      );
    }

    pub Leaves-spin :
        (r : Reg) (done : ℕ → Bool)
        → ((es : List Event) → is_quiet es ≡ true → done (controller.answer es r) ≡ true)
        → Leaves e cs e cs (spin_until controller controller.spins r done)
    Leaves-spin r done h = record {
      runs = λ es (quiet, still) told. (
        tt,
        reading r ∷ es,
        spin-ok controller card laws r done (record { emmc = e; events = es }) (h es quiet),
        (quiet, step es (reading r) still refl),
        told,
      );
    }

    completed-IsCalm :
        (c : Command) (es : List Event)
        → (index c == 24) ≡ false
        → IsCalm es
        → IsCalm (completed c es)
    completed-IsCalm c es other (quiet, still) = (
      completed-quiet c es quiet,
      completed-IsStill controller card laws content c es
          (sent-IsStill controller card laws content c es other still),
    )

    pub Leaves-send :
        (c : Command)
        → ((is_r1_or_r1b (response c) ≡ true) → (index c ≢ 1))
        → (index c == 24) ≡ false
        → Leaves e cs e ((index c, arg c) ∷ cs) (send controller c)
    unfolding send
    Leaves-send c h other = record {
      runs = λ es calm told. (
        _,
        completed c es,
        send-runs controller card laws c (record { emmc = e; events = es }) calm.0 h,
        completed-IsCalm c es other calm,
        commands-completed c es ∙ ap (λ cs. (index c, arg c) ∷ cs) told,
      );
    }

    pub Leaves-change_frequency : (f : Frequency) → Leaves e cs e cs (change_frequency controller f)
    unfolding change_frequency
    Leaves-change_frequency f =
        Leaves-bind _ _ (Leaves-spin pres_state (meets sdstb) (λ es quiet. stable es)) λ s.
          Leaves-bind _ _ (Leaves-rmw vend_spec (clear_bits vend_spec_cken) refl) λ s.
            Leaves-bind _ _ (Leaves-rmw sys_ctrl (with_clock (prescaler_and_divisor f)) refl) λ s.
              Leaves-bind _ _ (Leaves-spin pres_state (meets sdstb) (λ es quiet. stable es))
                λ s. Leaves-rmw vend_spec (λ r. bit_or r vend_spec_cken) refl

    Leaves-ready :
        (otherwise : Run ℕ)
        → Leaves e cs e ((1, 0x00FF8000) ∷ cs) (
            send controller (send_op_cond 0x00FF8000) >>= λ ocr.
            if meets (1 <<< 31) ocr then return ocr else otherwise)
    unfolding index_type_arg_resp send
    Leaves-ready otherwise = record {
      runs = λ es calm told.
          let ask = send_op_cond 0x00FF8000 in
          let answered =
            send-runs controller card laws ask (record { emmc = e; events = es }) calm.0
              (λ t i. cc) in
          (
            controller.answer (sent ask es) cmd_rsp0,
            completed ask es,
            >>=-ok (send_command controller ask)
                  (λ ocr. if meets (1 <<< 31) ocr then return ocr else otherwise)
                  (record { emmc = e; events = es }) answered
                ∙ rw (powered (sent ask es) 0x00FF8000 (commands es) (commands-sent ask es)) refl,
            completed-IsCalm ask es refl calm,
            commands-completed ask es ∙ ap (λ cs. (1, 0x00FF8000) ∷ cs) told,
          );
    }

    pub Leaves-power : (n : ℕ) → Leaves e cs e ((1, 0x00FF8000) ∷ cs) (await_power_up controller n)
    unfolding await_power_up
    Leaves-power zero = Leaves-ready (throw restart)
    Leaves-power (suc n) = Leaves-ready (wait 1000 >> await_power_up controller n)
