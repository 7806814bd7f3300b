-- ===== src/Usbd/Packets.antt =====
-- The packets of an endpoint OUT of firmware/usbarmory/src/usbd/bus.rs: what `read` makes of one that
-- the controller has received, and how the endpoint is left for the next one.
use usbarmory_rust.Usbd.Token.{
  Token, empty, active, get_status, get_total_bytes, set_total_bytes, set_status, set_ioc,
  is_active, has_errors, is_halted, token-fields, set_status-inner,
}
use usbarmory_rust.Usbd.Endpoint.{Address, epaddr2dqhidx, epaddr2endptmask}
use usbarmory_rust.Usbd.Queue.{Dqh, Dtd, set_token, set_pages, get_max_packet_size, get_current_dtd}
use usbarmory_rust.Usbd.Bus.{
  Inner, update, write, get_dqh, put_dqh, install, active_token, endptprime, endptcomplete, usbsts,
  endpoints,
}
use usbarmory_rust.Usbd.Read.{
  Port, fill, check_transfer, leave_dtd, read_data, take_setup, read_on, read,
}
use usbarmory_rust.Prelude.{
  get_elem?-set_self, ℕ, zero, suc, ◌+◌, ◌-◌, ◌*◌, ◌%◌, ◌^◌, ◌≤◌, ◌<◌, bit_and, ◌≡◌, refl, ap, ◌∙◌,
  ◌≢◌, inl, inr, true, false, Option, none, some, List, [], ◌∷◌, ◌++◌, arith, ltb, leb, ◌==◌,
  lt→ltb, ==_iff, Bool-cases, length, get_elem?, take, drop,
}
use usbarmory_rust.Prelude.Bytes.{Bytes}
use usbarmory_rust.Prelude.Splice.{take-append}
use usbarmory_rust.Prelude.Outcome.{ok}
use usbarmory_rust.Prelude.Bits.{zero-bit_or}

-- A packet that stands in an endpoint's buffer: the controller has taken the descriptor, ended the
-- transfer without an error, and counted the bytes that are left.
pub record IsReceived (s : Inner) (a : Address) (q : Dqh) (dtd addr : ℕ) (packet : Bytes)
    : Type 0 where
  pub head : get_dqh a s ≡ some q
  pub current : get_current_dtd q ≡ some dtd
  pub ended : is_active (get_status (s.descriptors dtd).token) ≡ false
  pub no_error : has_errors (get_status (s.descriptors dtd).token) ≡ false
  pub no_halt : is_halted (get_status (s.descriptors dtd).token) ≡ false
  pub address : q.addr ≡ some addr
  pub left : get_total_bytes q.token + length packet ≡ get_max_packet_size q
  pub size : get_max_packet_size q ≤ 0x400
  pub bytes : take (length packet) (s.buffers addr) ≡ packet

set_total_bytes-empty :
    (n : ℕ) → n < 0x5000 → set_total_bytes empty n ≡ some (record { inner = n * 2 ^ 16 })
unfolding set_total_bytes
set_total_bytes-empty n small =
    rw (set_total_bytes, lt→ltb n 0x5000 small)
      (ap (λ x. some (record { inner = x })) (zero-bit_or (n * 2 ^ 16)))

-- The token for a transfer of a number of bytes that fits is active, and has the number.
pub active_token-ok :
    (n : ℕ)
    → n < 0x5000
    → (t : Token) × (active_token n ≡ ok t)
      × (get_total_bytes t ≡ n)
      × (is_active (get_status t) ≡ true)
unfolding active_token get_total_bytes
active_token-ok n small =
    let sized : Token = record { inner = n * 2 ^ 16 } in
    let marked = set_status sized active in
    let (status, total, _, _, _, _) = token-fields sized active (omega arith) (omega arith) in
    let (_, _, _, _, status', total') =
      token-fields marked active
        (omega (arith, set_status-inner sized active (omega arith) (omega arith))) (omega arith) in
    (
      set_ioc marked,
      rw (active_token, set_total_bytes-empty n small) refl,
      total' ∙ (total ∙ omega arith),
      ap is_active (status' ∙ status),
    )

le→leb : (m n : ℕ) → m ≤ n → leb m n ≡ true
le→leb m n h = ground arith

-- What an installed descriptor has.
pub install-ok :
    (dtd addr n : ℕ) (s : Inner)
    → n < 0x5000
    → (t : Token) × (install dtd addr n s
        ≡ ok (record s {
          descriptors = update s.descriptors dtd (set_pages addr (set_token t (s.descriptors dtd)));
        }))
      × (get_total_bytes t ≡ n)
      × (is_active (get_status t) ≡ true)
unfolding install
install-ok dtd addr n s small =
    let (t, e, total, on) = active_token-ok n small in (t, rw (install, e) refl, total, on)

pub fill-ok :
    (buf n : ℕ) (bytes : Bytes) (s : Inner)
    → n ≤ length (s.buffers buf)
    → fill buf n bytes s
      ≡ ok (record s { buffers = update s.buffers buf (take n bytes ++ drop n (s.buffers buf)) })
unfolding fill
fill-ok buf n bytes s fits = rw (fill, le→leb n (length (s.buffers buf)) fits) refl

ne→==-false : (m n : ℕ) → m ≢ n → (m == n) ≡ false
ne→==-false m n h = ground arith

pub check_transfer-ok :
    (dtd : ℕ) (s : Inner)
    → is_active (get_status (s.descriptors dtd).token) ≡ false
    → has_errors (get_status (s.descriptors dtd).token) ≡ false
    → is_halted (get_status (s.descriptors dtd).token) ≡ false
    → check_transfer dtd s ≡ ok tt
unfolding check_transfer
check_transfer-ok dtd s ended no_error no_halt = ground arith

pub update_self : {A : Type 0} (f : ℕ → A) (i : ℕ) (x : A) → update f i x i ≡ x
update_self f i x = rw ((==_iff i i).1 refl) refl

-- The token of a descriptor that has been installed.
pub installed-token :
    (f : ℕ → Dtd) (dtd addr : ℕ) (t : Token)
    → (update f dtd (set_pages addr (set_token t (f dtd))) dtd).token ≡ t
unfolding set_pages
installed-token f dtd addr t =
    ap (λ (d : Dtd). d.token) (update_self f dtd (set_pages addr (set_token t (f dtd))))

get_elem?-bound :
    {A : Type 0} (xs : List A) (i : ℕ) (x : A) → get_elem? xs i ≡ some x → i < length xs
get_elem?-bound [] i x h = cc
get_elem?-bound (y ∷ xs) zero x h = omega arith
get_elem?-bound (y ∷ xs) (suc i) x h = omega (arith, get_elem?-bound xs i x h)

pub get_dqh-put_dqh :
    (a : Address) (q q' : Dqh) (s : Inner)
    → get_dqh a s ≡ some q
    → get_dqh a (put_dqh a q' s) ≡ some q'
get_dqh-put_dqh a q q' s head = elim (Bool-cases (ltb (epaddr2dqhidx a) endpoints)) [
  | inl t ↦ rw (t) (
      get_elem?-set_self s.dqhs (epaddr2dqhidx a) q'
        (get_elem?-bound s.dqhs (epaddr2dqhidx a) q (rw t at head)))
  | inr f ↦ absurd_head (rw f at head)
]
  where
    absurd_head : ◌≡◌ {A = Option Dqh} none (some q) → get_dqh a (put_dqh a q' s) ≡ some q'
    absurd_head e = cc

module _ (port : Port) (a : Address) (buf : ℕ) (q : Dqh) (dtd addr : ℕ) (packet : Bytes) (s : Inner)
    (received : IsReceived s a q dtd addr packet) where
  open received use {head, current, ended, no_error, no_halt, address, left, size, bytes}

  acknowledged : Inner
  acknowledged = record s {
    setupstat = none;
    written = usbsts 1 ∷ endptcomplete (epaddr2endptmask a) ∷ s.written;
  }

  copied : Inner
  copied = record acknowledged {
    buffers =
        update s.buffers buf
          (take (length packet) (s.buffers addr) ++ drop (length packet) (s.buffers buf));
  }

  read_data-received :
      bit_and port.endptcomplete (epaddr2endptmask a) ≢ 0
      → length packet ≤ length (s.buffers buf)
      → (t : Token) × (read_data port a buf q (record s { setupstat = none })
          ≡ ok (
            length packet,
            write (endptprime (epaddr2endptmask a)) (
                put_dqh a (leave_dtd dtd q) (record copied {
                  descriptors =
                      update s.descriptors dtd (set_pages addr (set_token t (s.descriptors dtd)));
                })),
          ))
        × (get_total_bytes t ≡ get_max_packet_size q)
        × (is_active (get_status t) ≡ true)
  unfolding read_data acknowledged copied
  read_data-received ready fits =
      let (t, installs, total, on) =
        install-ok dtd addr (get_max_packet_size q) copied (omega arith) in
      (
        t,
        rw
            (
              read_data,
              ne→==-false _ 0 ready,
              current,
              check_transfer-ok dtd acknowledged ended no_error no_halt,
              count,
              address,
              fill-ok buf (length packet) (s.buffers addr) acknowledged fits,
              installs,
            )
            refl,
        total,
        on,
      )
    where
      count : (get_max_packet_size q + 2 ^ 16 - get_total_bytes q.token) % 2 ^ 16 ≡ length packet
      count = omega arith

  read-plain :
      s.setupstat ≡ none
      → a.index ≢ 0
      → read port a buf s ≡ read_data port a buf q (record s { setupstat = none })
  unfolding read
  read-plain no_setup not_control =
      ap (λ o. read_on port a buf s (take_setup a.index o)) no_setup
      ∙ rw (read_on, head, ne→==-false a.index 0 not_control) refl

  -- A packet that the controller has received for an endpoint OUT, whose bit is set in ENDPTCOMPLETE,
  -- is read whole into a buffer that is long enough; the endpoint's descriptor is active again with
  -- the endpoint's packet size, is the next one of the queue head, and is primed.
  pub read-received :
      s.setupstat ≡ none
      → a.index ≢ 0
      → bit_and port.endptcomplete (epaddr2endptmask a) ≢ 0
      → length packet ≤ length (s.buffers buf)
      → (s' : Inner) × (read port a buf s ≡ ok (length packet, s'))
        × (take (length packet) (s'.buffers buf) ≡ packet)
        × (get_total_bytes (s'.descriptors dtd).token ≡ get_max_packet_size q)
        × (is_active (get_status (s'.descriptors dtd).token) ≡ true)
        × (get_dqh a s' ≡ some (leave_dtd dtd q))
        × (s'.written
            ≡ endptprime (epaddr2endptmask a)
              ∷ usbsts 1
              ∷ endptcomplete (epaddr2endptmask a)
              ∷ s.written)
  unfolding acknowledged copied
  read-received no_setup not_control ready fits =
      let (t, runs, total, on) = read_data-received ready fits in
      (
        write (endptprime (epaddr2endptmask a)) (
            put_dqh a (leave_dtd dtd q) (record copied {
              descriptors =
                  update s.descriptors dtd (set_pages addr (set_token t (s.descriptors dtd)));
            })),
        read-plain no_setup not_control ∙ runs,
        ap (take (length packet)) (
              update_self s.buffers buf
                (take (length packet) (s.buffers addr) ++ drop (length packet) (s.buffers buf)))
            ∙ (ap (λ x. take (length packet) (x ++ drop (length packet) (s.buffers buf))) bytes
                ∙ take-append packet (drop (length packet) (s.buffers buf)) (length packet) refl),
        ap get_total_bytes (installed-token s.descriptors dtd addr t) ∙ total,
        ap (λ u. is_active (get_status u)) (installed-token s.descriptors dtd addr t) ∙ on,
        get_dqh-put_dqh a q (leave_dtd dtd q) s head,
        refl,
      )
