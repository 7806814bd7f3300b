-- ===== src/Usbd/Sent.antt =====
-- `poll` of firmware/usbarmory/src/usbd/bus.rs when the controller has sent a packet of an endpoint IN.
use usbarmory_rust.Prelude.{
  Option, ℕ, zero, suc, ◌+◌, ◌*◌, ◌%◌, ◌^◌, ◌≤◌, ◌<◌, bit_and, ◌≡◌, refl, ap, ◌∙◌, ◌≢◌, Bool, true,
  false, none, some, List, [], ◌∷◌, arith, ◌==◌, if◌then◌else◌, length, take,
}
use usbarmory_rust.Prelude.Bytes.{Bytes}
use usbarmory_rust.Prelude.Bits.{◌<<<◌, ◌>>>◌, zero-bit_and}
use usbarmory_rust.Prelude.Outcome.{ok}
use usbarmory_rust.Usbd.Endpoint.{epaddr2endptmask}
use usbarmory_rust.Usbd.Indices.{collect}
use usbarmory_rust.Usbd.Queue.{Dqh, get_max_packet_size}
use usbarmory_rust.Usbd.Bus.{Write, Inner, endptcomplete, usbsts, write}
use usbarmory_rust.Usbd.Transfer.{data_, start_write, report, poll}
use usbarmory_rust.Usbd.Writes.{IsIdle, IsSent, in_address, start_write-runs, end_write-IsIdle}

-- The controller reports one endpoint IN in the upper half of `ENDPTCOMPLETE`.
one_bit :
    (idx low : ℕ)
    → idx < 2
    → low < 2 ^ 16
    → collect 32 33 (((1 <<< idx) * 2 ^ 16 + low) >>> 16) ≡ some (idx ∷ [])
unfolding collect
one_bit zero low h small = ap (collect 32 33) {x = (1 * 2 ^ 16 + low) >>> 16} {y = 1} (omega arith)
one_bit (suc zero) low h small =
    ap (collect 32 33) {x = (2 * 2 ^ 16 + low) >>> 16} {y = 2} (omega arith)
one_bit (suc (suc idx)) low h small = absurd (omega arith)

report_complete :
    (setup low m : ℕ) (s : Inner)
    → s.ep_in_complete ≡ some m
    → m ≢ 0
    → report setup low s
      ≡ (data_ low m setup, record s { ep_in_complete = none; last_poll_was_none = false })
unfolding report
report_complete setup low m s complete some_bit = ground arith

IsSent-if :
    (b : Bool) (x y : Inner) (idx : ℕ) (q : Dqh) (dtd addr : ℕ)
    → IsSent x idx q dtd addr
    → IsSent y idx q dtd addr
    → IsSent (if b then x else y) idx q dtd addr
IsSent-if true x y idx q dtd addr first second = first
IsSent-if false x y idx q dtd addr first second = second

-- What `poll` does before it ends the writes.
abbrev changed : ℕ → Inner → Inner
changed sts s =
    let begun = write (usbsts (1 <<< 7)) s in
    if bit_and sts (1 <<< 2) == 0 then begun else write (usbsts (1 <<< 2)) begun

abbrev cached : ℕ → Inner → Inner
cached setupstat s = if setupstat == 0 then s else record s { setupstat = some setupstat }

module _ (idx : ℕ) (q : Dqh) (dtd addr : ℕ) (s : Inner) (sent : IsSent s idx q dtd addr) where
  open sent use {within, head, current, ended, no_error, no_halt, address, size}

  IsSent-with :
      (written : List Write) (setupstat : Option ℕ)
      → IsSent (record s { written = written; setupstat = setupstat }) idx q dtd addr
  IsSent-with written setupstat = record {
    within = within;
    head = head;
    current = current;
    ended = ended;
    no_error = no_error;
    no_halt = no_halt;
    address = address;
    size = size;
  }

  IsSent-changed : (sts : ℕ) → IsSent (changed sts s) idx q dtd addr
  IsSent-changed sts =
      IsSent-if (bit_and sts (1 <<< 2) == 0) _ _ idx q dtd addr (IsSent-with _ _) (IsSent-with _ _)

IsSent-cached :
    (idx : ℕ) (q : Dqh) (dtd addr setupstat : ℕ) (s : Inner)
    → IsSent s idx q dtd addr
    → IsSent (cached setupstat s) idx q dtd addr
IsSent-cached idx q dtd addr setupstat s sent =
    IsSent-if (setupstat == 0) _ _ idx q dtd addr sent (IsSent-with idx q dtd addr s sent _ _)

-- When the controller has sent a packet of an endpoint IN without an error and reports that, `poll`
-- reports the endpoint's bit and what else is complete; the transfer has been acknowledged, the bit is
-- not reported again, and the endpoint takes the next packet, which is then in its buffer.
pub poll-sent :
    (idx : ℕ) (q : Dqh) (dtd addr : ℕ) (s : Inner) (sent : IsSent s idx q dtd addr)
    (sts setup low : ℕ) (packet : Bytes)
    → low < 2 ^ 16
    → bit_and sts (1 <<< 6) ≡ 0
    → length packet ≤ get_max_packet_size q
    → (s' s'' : Inner) × (m : ℕ) × (before : List Write) × (poll sts setup
          ((1 <<< idx) * 2 ^ 16 + low)
          s
        ≡ ok (data_ low m (setup % 2 ^ 16), s'))
      × (bit_and m (1 <<< idx) ≢ 0)
      × (s'.ep_in_complete ≡ none)
      × (s'.written ≡ usbsts 1 ∷ endptcomplete (epaddr2endptmask (in_address idx)) ∷ before)
      × (start_write (in_address idx) packet s' ≡ ok (length packet, s''))
      × (take (length packet) (s''.buffers addr) ≡ packet)
unfolding poll
poll-sent idx q dtd addr s sent sts setup low packet small no_reset fits =
    let setupstat = setup % 2 ^ 16 in
    let ready = cached setupstat (changed sts s) in
    let (e, q', m, runs, idle, complete, some_bit, same_size, acked) =
      end_write-IsIdle idx q dtd addr ready (
        IsSent-cached idx q dtd addr setupstat (changed sts s)
          (IsSent-changed idx q dtd addr s sent sts)) in
    let s' : Inner = record e { ep_in_complete = none; last_poll_was_none = false } in
    let idle' : IsIdle s' (in_address idx) q' dtd addr = record {
      head = idle.head;
      not_busy = idle.not_busy;
      next = idle.next;
      address = idle.address;
      size = idle.size;
    } in
    let nonzero : m ≢ 0 =
      λ z. some_bit (ap (λ n. bit_and n (1 <<< idx)) z ∙ zero-bit_and (1 <<< idx)) in
    let (s'', sends, copied, total, on, new_head, primed) =
      start_write-runs (in_address idx) q' dtd addr packet s' idle' (omega (arith, same_size)) in
    let low_half : ((1 <<< idx) * 2 ^ 16 + low) % 2 ^ 16 ≡ low = omega arith in
    (
      s',
      s'',
      m,
      ready.written,
      rw
          (
            poll,
            no_reset,
            one_bit idx low sent.within small,
            runs,
            low_half,
            report_complete setupstat low m e complete nonzero,
          )
          refl,
      some_bit,
      refl,
      acked,
      sends,
      copied,
    )
