-- ===== src/Usbd/Writes.antt =====
-- A packet to the host, from `start_write` to `end_write` of firmware/usbarmory/src/usbd/bus.rs.
use usbarmory_rust.Prelude.{
  ℕ, zero, suc, ◌/◌, ◌%◌, ◌^◌, ◌≤◌, ◌<◌, bit_and, bit_or, ◌≡◌, refl, ap, ◌∙◌, ◌≢◌, true, false,
  ◌||◌, Option, none, some, ◌∷◌, ◌++◌, arith, ltb, ◌==◌, if◌then◌else◌, length, get_elem?, take,
  drop,
}
use usbarmory_rust.Prelude.Bytes.{Bytes}
use usbarmory_rust.Prelude.Splice.{take-append}
use usbarmory_rust.Prelude.Outcome.{ok}
use usbarmory_rust.Prelude.Bits.{◌<<<◌, bit_and_mask}
use usbarmory_rust.Prelude.Bits.Masks.{bit_or-keeps_right}
use usbarmory_rust.Usbd.Token.{get_status, get_total_bytes, is_active, has_errors, is_halted}
use usbarmory_rust.Usbd.Endpoint.{Address, epaddr2dqhidx, epaddr2endptmask}
use usbarmory_rust.Usbd.Queue.{
  Dqh, set_token, set_pages, get_max_packet_size, get_current_dtd, get_next_dtd, set_address,
  set_next_dtd, clear_current_dtd,
}
use usbarmory_rust.Usbd.Bus.{
  Inner, update, write, get_dqh, put_dqh, endptprime, endptcomplete, usbsts, endpoints,
  clear_interrupt,
}
use usbarmory_rust.Usbd.Transfer.{start_write, set_ep_in_complete, move_status, end_write}
use usbarmory_rust.Usbd.Packets.{install-ok, update_self, installed-token, get_dqh-put_dqh}

-- An endpoint IN with a buffer, on which no transfer is in progress.
pub record IsIdle (s : Inner) (a : Address) (q : Dqh) (dtd addr : ℕ) : Type 0 where
  pub head : get_dqh a s ≡ some q
  pub not_busy : get_current_dtd q ≡ none
  pub next : get_next_dtd q ≡ some dtd
  pub address : q.addr ≡ some addr
  pub size : get_max_packet_size q ≤ 0x400

module _ (a : Address) (q : Dqh) (dtd addr : ℕ) (packet : Bytes) (s : Inner)
    (idle : IsIdle s a q dtd addr) where
  open idle use {head, not_busy, next, address, size}

  -- A packet that is not longer than the endpoint's packets is copied to the endpoint's buffer, its
  -- descriptor is active for as many bytes, and the endpoint is primed.
  pub start_write-runs :
      length packet ≤ get_max_packet_size q
      → (s' : Inner) × (start_write a packet s ≡ ok (length packet, s'))
        × (take (length packet) (s'.buffers addr) ≡ packet)
        × (get_total_bytes (s'.descriptors dtd).token ≡ length packet)
        × (is_active (get_status (s'.descriptors dtd).token) ≡ true)
        × (get_dqh a s' ≡ some (set_address addr q))
        × (s'.written ≡ endptprime (epaddr2endptmask a) ∷ s.written)
  unfolding start_write
  start_write-runs fits =
      let (t, installs, total, on) = install-ok dtd addr (length packet) s (omega arith) in
      (
        write (endptprime (epaddr2endptmask a)) (
            put_dqh a (set_address addr q) (record s {
              descriptors =
                  update s.descriptors dtd (set_pages addr (set_token t (s.descriptors dtd)));
              buffers = update s.buffers addr (packet ++ drop (length packet) (s.buffers addr));
            })),
        rw
            (
              start_write,
              head,
              not-ltb (get_max_packet_size q) (length packet) fits,
              not_busy,
              next,
              address,
              installs,
            )
            refl,
        ap (take (length packet))
              (update_self s.buffers addr (packet ++ drop (length packet) (s.buffers addr)))
            ∙ take-append packet (drop (length packet) (s.buffers addr)) (length packet) refl,
        ap get_total_bytes (installed-token s.descriptors dtd addr t) ∙ total,
        ap (λ u. is_active (get_status u)) (installed-token s.descriptors dtd addr t) ∙ on,
        get_dqh-put_dqh a q (set_address addr q) s head,
        refl,
      )
    where
      not-ltb : (m n : ℕ) → n ≤ m → ltb m n ≡ false
      not-ltb m n h = ground arith

-- The address that `end_write` takes for an index.
abbrev pub in_address : ℕ → Address
in_address idx = record { index = idx; is_out = false }

-- A packet that has been sent: the controller has taken the descriptor, and ended the transfer without
-- an error.
pub record IsSent (s : Inner) (idx : ℕ) (q : Dqh) (dtd addr : ℕ) : Type 0 where
  pub within : idx < 2
  pub head : get_dqh (in_address idx) s ≡ some q
  pub current : get_current_dtd q ≡ some dtd
  pub ended : is_active (get_status (s.descriptors dtd).token) ≡ false
  pub no_error : has_errors (get_status (s.descriptors dtd).token) ≡ false
  pub no_halt : is_halted (get_status (s.descriptors dtd).token) ≡ false
  pub address : q.addr ≡ some addr
  pub size : get_max_packet_size q ≤ 0x400

current-ne_one : (q : Dqh) (dtd : ℕ) → get_current_dtd q ≡ some dtd → (dtd == 1) ≡ false
current-ne_one q dtd h = ground (arith, bit_and_mask 5 q.current_dtd)

own_bit : (idx : ℕ) → idx < 2 → bit_and (1 <<< idx) (1 <<< idx) ≢ 0
own_bit zero h e = absurd (omega arith)
own_bit (suc zero) h e = absurd (omega arith)
own_bit (suc (suc idx)) h e = absurd (omega arith)

abbrev with_bit : ℕ → Option ℕ → ℕ
with_bit idx none = 1 <<< idx
with_bit idx (some m) = bit_or m (1 <<< idx)

with_bit-has : (idx : ℕ) (o : Option ℕ) → idx < 2 → bit_and (with_bit idx o) (1 <<< idx) ≢ 0
with_bit-has idx none h = own_bit idx h
with_bit-has idx (some m) h = bit_or-keeps_right (1 <<< idx) m (1 <<< idx) (own_bit idx h)

set_ep_in_complete-ok :
    (idx : ℕ) (s : Inner)
    → idx < 2
    → set_ep_in_complete idx s
      ≡ ok (record s { ep_in_complete = some (with_bit idx s.ep_in_complete) })
unfolding set_ep_in_complete
set_ep_in_complete-ok idx s h = ground arith

move_status-keeps :
    (half : ℕ) (s : Inner)
    → ((move_status half s).dqhs ≡ s.dqhs)
      × ((move_status half s).ep_in_complete ≡ s.ep_in_complete)
      × ((move_status half s).written ≡ s.written)
unfolding move_status
move_status-keeps half s = ground arith

module _ (idx : ℕ) (q : Dqh) (dtd addr : ℕ) (s : Inner) (sent : IsSent s idx q dtd addr) where
  open sent use {within, head, current, ended, no_error, no_halt, address, size}

  -- When the controller has ended the transfer of a packet without an error, `end_write` returns, the
  -- endpoint is idle again with the same descriptor, the same buffer and packets of the same size, its
  -- bit is among those in `ep_in_complete`, and the transfer has been acknowledged.
  pub end_write-IsIdle :
      (s' : Inner) × (q' : Dqh) × (m : ℕ) × (end_write idx s ≡ ok s')
      × IsIdle s' (in_address idx) q' dtd addr
      × (s'.ep_in_complete ≡ some m)
      × (bit_and m (1 <<< idx) ≢ 0)
      × (get_max_packet_size q' ≡ get_max_packet_size q)
      × (s'.written ≡ usbsts 1 ∷ endptcomplete (epaddr2endptmask (in_address idx)) ∷ s.written)
  unfolding end_write get_max_packet_size
  end_write-IsIdle =
      let q' = set_next_dtd (some dtd) (clear_current_dtd q) in
      let (same_heads, same_complete, same_written) = move_status-keeps half ended_s in
      (
        put_dqh (in_address idx) q' (move_status half ended_s),
        q',
        with_bit idx s.ep_in_complete,
        rw
            (
              end_write,
              head,
              current,
              not_failed,
              set_ep_in_complete-ok idx
                  (clear_interrupt (write (endptcomplete (epaddr2endptmask (in_address idx))) s))
                  within,
            )
            refl,
        record {
          head = get_dqh-put_dqh (in_address idx) q q' (move_status half ended_s) (
              ap
                (λ qs.
                  if ltb (epaddr2dqhidx (in_address idx)) endpoints
                  then get_elem? qs (epaddr2dqhidx (in_address idx))
                  else none)
                same_heads
              ∙ head);
          not_busy = refl;
          next = rw (current-ne_one q dtd current) refl;
          address = address;
          size = size;
        },
        same_complete,
        with_bit-has idx s.ep_in_complete within,
        refl,
        same_written,
      )
    where
      half : ℕ
      half = epaddr2endptmask (in_address idx) / 2 ^ 16 % 2 ^ 16

      ended_s : Inner
      ended_s = record s {
        written = usbsts 1 ∷ endptcomplete (epaddr2endptmask (in_address idx)) ∷ s.written;
        ep_in_complete = some (with_bit idx s.ep_in_complete);
      }

      not_failed :
          (is_active (get_status (s.descriptors dtd).token)
            || (has_errors (get_status (s.descriptors dtd).token)
                || is_halted (get_status (s.descriptors dtd).token)))
          ≡ false
      not_failed = ground arith
