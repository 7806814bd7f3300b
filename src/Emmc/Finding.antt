-- ===== src/Emmc/Finding.antt =====
-- How `take` of firmware/usbarmory/src/emmc.rs finds the card, on a controller and a card that respond.
use usbarmory_rust.Prelude.{
  ℕ, ◌+◌, bit_or, ◌≡◌, refl, ap, Bool, true, false, not, some, List, arith, ◌==◌,
}
use usbarmory_rust.Prelude.Bits.{◌<<<◌}
use usbarmory_rust.Emmc.Command.{
  go_idle_state, all_send_cid, set_relative_addr, switch, select_card as select_card_cmd,
  set_block_len, index_type_arg_resp,
}
use usbarmory_rust.Emmc.Machine.{
  pres_state, prot_ctrl, cmd_rsp1, cmd_rsp2, cmd_rsp3, sys_ctrl, vend_spec, Event, Controller,
  Width, b1, b8, Emmc, ◌>>=◌, assert, expect, this, set_this,
}
use usbarmory_rust.Emmc.Send.{pres_state_cihb, pres_state_cdihb, meets}
use usbarmory_rust.Emmc.Driver.{rca, block_size, dtw, k400, m20, vend_spec_cken, clear_bits}
use usbarmory_rust.Emmc.Setup.{
  switch_data, select_card, register_cards, voltage_validation, reset_cards, find_card,
  change_bus_width, software_reset,
}
use usbarmory_rust.Prelude.Bytes.{Bytes}
use usbarmory_rust.Emmc.Card.{is_quiet}
use usbarmory_rust.Emmc.Responsive.{Card, IsResponsive}
use usbarmory_rust.Emmc.Leaves.{
  Leaves, Leaves-bind, Leaves-expect, Leaves-wait, Leaves-width, Leaves-return, Leaves-rmw,
  Leaves-read, Leaves-spin, Leaves-send, Leaves-change_frequency, Leaves-power,
}
use usbarmory_rust.Emmc.Command.{Command, index, arg, response}
use usbarmory_rust.Emmc.Send.{is_r1_or_r1b}
use usbarmory_rust.Emmc.Card.{is_reg}
use usbarmory_rust.Emmc.Machine.{Reg, cmd_xfr_typ, Run, return, rmw, spin_until}
use usbarmory_rust.Emmc.Driver.{Frequency, send}
use usbarmory_rust.Emmc.Setup.{change_frequency}
use usbarmory_rust.Prelude.{◌≢◌, [], ◌∷◌, ◌++◌}

-- The commands that find and select the card, with their arguments, the newest first.
abbrev pub finding : List (ℕ × ℕ)
finding =
    (6, 0x03B70200)
    ∷ (16, 512)
    ∷ (7, rca <<< 16)
    ∷ (3, rca <<< 16)
    ∷ (2, 0)
    ∷ (1, 0x00FF8000)
    ∷ (0, 0)
    ∷ []

abbrev handle : ℕ → Width → Emmc
handle blocks width = record {
  selected = some rca;
  blocks = blocks;
  verbose = false;
  width = width;
}

module _ (controller : Controller) (card : Card) (laws : IsResponsive controller card)
    (content : ℕ → Bytes) where
  open laws use {free, is_reset}

  -- The lemmas on calls, at this controller.
  module _ (e : Emmc) (cs : List (ℕ × ℕ)) where
    plain :
        (r : Reg) (f : ℕ → ℕ)
        → is_reg cmd_xfr_typ r ≡ false
        → Leaves controller card laws content e cs e cs (rmw controller r f)
    plain = Leaves-rmw controller card laws content e cs

    sends :
        (c : Command)
        → ((is_r1_or_r1b (response c) ≡ true) → (index c ≢ 1))
        → (index c == 24) ≡ false
        → Leaves controller card laws content e cs e ((index c, arg c) ∷ cs) (send controller c)
    sends = Leaves-send controller card laws content e cs

    returns : Leaves controller card laws content e cs e cs (return tt)
    returns = Leaves-return controller card laws content e cs

  then :
      {A B : Type 0} {e e' e'' : Emmc} {cs cs' cs'' : List (ℕ × ℕ)} (call : Run A)
      (next : A → Run B)
      → Leaves controller card laws content e cs e' cs' call
      → ((value : A) → Leaves controller card laws content e' cs' e'' cs'' (next value))
      → Leaves controller card laws content e cs e'' cs'' (call >>= next)
  then = Leaves-bind controller card laws content

  module _ (e : Emmc) (cs : List (ℕ × ℕ)) where
    sets_width :
        (w : Width)
        → Leaves controller card laws content e cs
            (record e { width = w })
            cs
            (change_bus_width controller w false)
    unfolding change_bus_width
    sets_width w = then _ _ (returns e cs) λ s.
        then _ _ (plain e cs prot_ctrl (λ r. bit_or (clear_bits (0b11 <<< 1) r) (dtw w <<< 1)) refl)
          λ s. Leaves-width controller card laws content e cs w

    switches_width :
        (w : Width)
        → Leaves controller card laws content e cs
            (record e { width = w })
            ((6, switch_data w) ∷ cs)
            (change_bus_width controller w true)
    unfolding change_bus_width index_type_arg_resp
    switches_width w =
        then _ _ (then _ _ (sends e cs (switch (switch_data w)) (λ t i. cc) refl) λ s. returns e _)
          λ s.
            then _ _
              (plain e _ prot_ctrl (λ r. bit_or (clear_bits (0b11 <<< 1) r) (dtw w <<< 1)) refl)
              λ s. Leaves-width controller card laws content e _ w

    changes_frequency :
        (f : Frequency)
        → Leaves controller card laws content e cs e cs (change_frequency controller f)
    changes_frequency = Leaves-change_frequency controller card laws content e cs

    chooses :
        (r : ℕ)
        → Leaves controller card laws content e cs
            (record e { selected = some r })
            cs
            (this >>= λ emmc. set_this (record emmc { selected = some r }))
    chooses r = record { runs = λ es calm told. (tt, es, refl, calm, told) }

    spins :
        (r : Reg) (done : ℕ → Bool)
        → ((es : List Event) → is_quiet es ≡ true → done (controller.answer es r) ≡ true)
        → Leaves controller card laws content e cs e cs
            (spin_until controller controller.spins r done)
    spins = Leaves-spin controller card laws content e cs

  Leaves-software_reset :
      (e : Emmc) (cs : List (ℕ × ℕ))
      → Leaves controller card laws content e cs
          (record e { width = b1 })
          cs
          (software_reset controller)
  unfolding software_reset
  Leaves-software_reset e cs =
      then _ _
        (spins e cs pres_state (λ v. not (meets (pres_state_cdihb + pres_state_cihb) v))
          (λ es quiet. ap not (free es (pres_state_cdihb + pres_state_cihb) quiet (omega arith))))
        λ s. then _ _ (plain e cs vend_spec (clear_bits vend_spec_cken) refl) λ s.
          then _ _ (plain e cs sys_ctrl (λ r. bit_or r (1 <<< 24)) refl) λ s.
            then _ _
              (spins e cs sys_ctrl (λ v. not (meets (1 <<< 24) v))
                (λ es quiet. ap not (is_reset es)))
              λ s. then _ _ (sets_width e cs b1) λ s.
                then _ _ (changes_frequency (record e { width = b1 }) cs k400) λ s.
                  then _ _
                    (Leaves-wait controller card laws content (record e { width = b1 }) cs 1000)
                    λ s. plain (record e { width = b1 }) cs sys_ctrl (λ r. bit_or r (1 <<< 27)) refl

  module _ (e : Emmc) (cs : List (ℕ × ℕ)) where
    resets_cards : Leaves controller card laws content e cs e ((0, 0) ∷ cs) (reset_cards controller)
    unfolding reset_cards index_type_arg_resp
    resets_cards = then _ _ (sends e cs go_idle_state (λ t i. cc) refl) λ s. returns e _

    validates :
        Leaves controller card laws content e cs e
          ((1, 0x00FF8000) ∷ cs)
          (voltage_validation controller)
    unfolding voltage_validation
    validates =
        then _ _ (Leaves-power controller card laws content e cs controller.polls) λ s. returns e _

    registers :
        Leaves controller card laws content e cs e
          ((3, rca <<< 16) ∷ (2, 0) ∷ cs)
          (register_cards controller)
    unfolding register_cards index_type_arg_resp
    registers = then _ _ (sends e cs all_send_cid (λ t i. cc) refl) λ s.
        then _ _ (Leaves-read controller card laws content e _ cmd_rsp1) λ s.
          then _ _ (Leaves-read controller card laws content e _ cmd_rsp2) λ s.
            then _ _ (Leaves-read controller card laws content e _ cmd_rsp3)
              λ s. then _ _ (sends e _ (set_relative_addr rca) (λ t i. cc) refl) λ s. returns e _

    selects :
        Leaves controller card laws content e cs
          (record e { selected = some rca })
          ((16, 512) ∷ (7, rca <<< 16) ∷ cs)
          (select_card controller rca)
    unfolding select_card index_type_arg_resp
    selects = then (assert (rca == rca)) _ (returns e cs) λ s.
        then _ _ (sends e cs (select_card_cmd (some rca)) (λ t i. cc) refl) λ s.
          then _ (λ v. this >>= λ emmc. set_this (record emmc { selected = some rca }))
            (sends e _ (set_block_len block_size) (λ t i. cc) refl) λ s. chooses e _ rca

  pub Leaves-find_card :
      (cs : List (ℕ × ℕ))
      → Leaves controller card laws content
          (handle 0 b8)
          cs
          (handle 0 b8)
          (finding ++ cs)
          (find_card controller)
  unfolding find_card
  Leaves-find_card cs = then _ _ (Leaves-software_reset (handle 0 b8) cs) λ s.
      then _ _ (expects _ (resets_cards (handle 0 b1) cs)) λ s.
        then _ _ (expects _ (validates (handle 0 b1) _)) λ s.
          then _ _ (expects _ (registers (handle 0 b1) _)) λ s.
            then _ _ (expects _ (selects (handle 0 b1) _)) λ s.
              then _ _ (expects _ (switches_width (handle 0 b1) _ b8))
                λ s. changes_frequency (handle 0 b8) _ m20
    where
      expects :
          {e e' : Emmc} {cs cs' : List (ℕ × ℕ)} (call : Run (Unit {0}))
          → Leaves controller card laws content e cs e' cs' call
          → Leaves controller card laws content e cs e' cs' (expect call)
      expects = Leaves-expect controller card laws content
