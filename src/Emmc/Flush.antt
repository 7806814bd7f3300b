-- ===== src/Emmc/Flush.antt =====
-- The wait for a block that is programmed in firmware/usbarmory/src/emmc.rs, on a controller and a card
-- that respond.
use usbarmory_rust.Prelude.{
  ℕ, zero, suc, ◌<◌, ◌≡◌, refl, ◌∙◌, ◌⊎◌, inl, inr, Bool, true, false, some, List, arith,
  if◌then◌else◌, Bool-cases,
}
use usbarmory_rust.Prelude.Outcome.{ok}
use usbarmory_rust.Emmc.Command.{send_status}
use usbarmory_rust.Emmc.Status.{Status}
use usbarmory_rust.Emmc.Machine.{Event, Controller, Machine, >>=-ok, return}
use usbarmory_rust.Emmc.Send.{get_card_status}
use usbarmory_rust.Emmc.Driver.{selected_rca, flush_block, is_transfer}
use usbarmory_rust.Emmc.Card.{jobs}
use usbarmory_rust.Emmc.Responsive.{Card, IsResponsive, sent, completed, queries}
use usbarmory_rust.Emmc.Listening.{IsListening, status-runs_of}
use usbarmory_rust.Emmc.Driver.{flush_write, is_programming}
use usbarmory_rust.Emmc.Listening.{IsListening-query, completed-IsStill, query-jobs}

module _ (controller : Controller) (card : Card) (laws : IsResponsive controller card) where
  open laws use {ends}

  -- What the loop does with so many rounds left: it has only asked for the status at its end, when the
  -- card has programmed its block.
  abbrev Flushes : ℕ → ℕ → Machine → Type 0
  Flushes k r m =
      (es : List Event) × (flush_block controller k r m ≡ (ok tt, record m { events = es }))
      × (jobs es ≡ jobs m.events)
      × IsListening r es
      × (card.is_programming es ≡ false)

  flush-again :
      (k r : ℕ) (m : Machine)
      → IsListening r m.events
      → (card.is_programming (sent (send_status r) m.events) ≡ true
          → Flushes k r (record m { events = completed (send_status r) m.events }))
      → Flushes (suc k) r m
  unfolding flush_block
  flush-again k r m listens again =
      let (status, runs, which) = status-runs_of controller card laws r m listens in
      let first =
        >>=-ok (get_card_status controller r)
          (λ s. if is_transfer s.state then return tt else flush_block controller k r) m runs in
      elim which [
        | inl (down, ready, state) ↦ (
          completed (send_status r) m.events,
          first ∙ rw (state) refl,
          query-jobs r m.events,
          IsListening-query r m.events listens,
          (completed-IsStill controller card laws (card.content (sent (send_status r) m.events))
              (send_status r) m.events (down, refl)).0,
        )
        | inr (up, state) ↦
            let (es, runs', same, listens', idle) = again up in
            (es, first ∙ rw (state) runs', same ∙ query-jobs r m.events, listens', idle)
      ]

  flush-runs :
      (k n r : ℕ) (m : Machine)
      → n < k
      → IsListening r m.events
      → card.is_programming (sent (send_status r) (queries n r m.events)) ≡ false
      → Flushes k r m
  flush-runs zero n r m below listens idle = let no : ◌≡◌ {A = Bool} true false = ground arith in cc
  flush-runs (suc k) zero r m below listens idle = flush-again k r m listens λ up. cc
  flush-runs (suc k) (suc n) r m below listens idle = flush-again k r m listens λ up.
      flush-runs k n r (record m { events = completed (send_status r) m.events }) (omega arith)
        (IsListening-query r m.events listens) idle

  pub flush_write-runs :
      (status : Status) (r : ℕ) (m : Machine)
      → m.emmc.selected ≡ some r
      → IsListening r m.events
      → (es : List Event) × (flush_write controller status m ≡ (ok tt, record m { events = es }))
        × (jobs es ≡ jobs m.events)
        × IsListening r es
        × (((is_programming status.state ≡ true) × (card.is_programming es ≡ false))
            ⊎ ((is_programming status.state ≡ false) × (es ≡ m.events)))
  unfolding flush_write
  flush_write-runs status r m selected listens = elim (Bool-cases (is_programming status.state)) [
    | inl t ↦
        let (n, below, idle) = ends r m.events in
        let (es, runs, same, listens', idle') =
          flush-runs controller.polls n r m below listens idle in
        (
          es,
          rw (t) (
              >>=-ok (selected_rca controller) (flush_block controller controller.polls) m
                (rw (selected) refl)
              ∙ runs),
          same,
          listens',
          inl (t, idle'),
        )
    | inr t ↦ (m.events, rw (t) refl, refl, listens, inr (t, refl))
  ]
