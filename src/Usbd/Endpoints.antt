-- ===== src/Usbd/Endpoints.antt =====
-- The endpoints of a device that `take` of firmware/usbarmory/src/usbd.rs has returned.
use usbarmory_rust.Usbd.Alloc.{
  find_ep, choose_ep, give_buffer, give_descriptor, alloc_ep, is_isochronous,
}
use usbarmory_rust.Usbd.Bus.{
  UsbError, endpoint_overflow, usb, Run, Inner, EndpointType, control, configure_ep, take_buffer,
  put_dqh, configured, mark_ep_as_used, update,
}
use usbarmory_rust.Usbd.Endpoint.{Address}
use usbarmory_rust.Usbd.Packets.{install-ok}
use usbarmory_rust.Usbd.Queue.{
  Dqh, Dtd, dqh_new, set_max_packet_size, set_max_packet_size-get, set_next_dtd, set_address,
  set_pages, set_token,
}
use usbarmory_rust.Usbd.Started.{IsBoard, nothing_taken, all_taken, start-runs}
use usbarmory_rust.Usbd.Start.{Registers, Board, Statics, new_inner, take_usbd}
use usbarmory_rust.Prelude.{
  ℕ, ◌≤◌, ◌≡◌, refl, ap, inl, inr, Bool, true, false, not, Option, none, some, List, [], ◌∷◌, map,
  arith, leb, ◌==◌, if◌then◌else◌, Bool-cases,
}
use usbarmory_rust.Prelude.Outcome.{ok, err, ◌>>=◌}

-- A buffer for packets of a size, from pools that are not empty.
take_buffer-runs :
    (n a b : ℕ) (xs ys : List ℕ) (s : Inner)
    → n ≤ 512
    → s.b64s ≡ a ∷ xs
    → s.b512s ≡ b ∷ ys
    → (addr : ℕ) × (smaller larger : List ℕ) × (take_buffer n s
        ≡ ok (addr, record s { b64s = smaller; b512s = larger }))
unfolding take_buffer
take_buffer-runs n a b xs ys s small h64 h512 = elim (Bool-cases (leb n 64)) [
  | inl t ↦ (a, xs, s.b512s, rw (t, h64) refl)
  | inr f ↦ (b, s.b64s, ys, ground (arith, h64, h512))
]

alloc_ep-runs :
    (out : Bool) (named : Option Address) (ty : EndpointType) (n : ℕ) (a : Address) (q q' : Dqh)
    (s given final : Inner)
    → is_isochronous ty ≡ false
    → choose_ep out named s ≡ ok (a, q)
    → set_max_packet_size n true q ≡ some q'
    → give_descriptor a n q' s ≡ ok given
    → (if not (a.index == 0)
        then configure_ep a ty (mark_ep_as_used a given)
        else ok (mark_ep_as_used a given))
      ≡ ok final
    → alloc_ep out named ty n s ≡ ok (a, final)
unfolding alloc_ep
alloc_ep-runs out named ty n a q q' s given final kind chosen sized gives ends =
    rw (alloc_ep, kind, chosen, sized, gives, ends) refl

alloc_ep-fails :
    (out : Bool) (named : Option Address) (ty : EndpointType) (n : ℕ) (s : Inner) (e : UsbError)
    → is_isochronous ty ≡ false
    → choose_ep out named s ≡ err (usb e)
    → alloc_ep out named ty n s ≡ err (usb e)
unfolding alloc_ep
alloc_ep-fails out named ty n s e kind chosen = rw (alloc_ep, kind, chosen) refl

abbrev pub control_out : Address
control_out = record { index = 0; is_out = true }

abbrev pub control_in : Address
control_in = record { index = 0; is_out = false }

abbrev pub data_out : Address
data_out = record { index = 1; is_out = true }

abbrev pub data_in : Address
data_in = record { index = 1; is_out = false }

-- The device with the two endpoints 0 allocated, whose heads are these.
abbrev after_control : Statics → Registers → Dqh → Dqh → Inner
after_control statics r h h' = record (new_inner statics r) {
  dqhs = h ∷ h' ∷ dqh_new ∷ dqh_new ∷ [];
  dtds = map statics.dtd (1 ∷ 0 ∷ []);
  used_dqhs = 3;
}

alloc_ep-control :
    (statics : Statics) (r : Registers) (n n' : ℕ)
    → n ≤ 0x400
    → n' ≤ 0x400
    → (s_1 : Inner) × (h h' : Dqh) × (alloc_ep true
          (some control_out)
          control
          n
          (new_inner statics r)
        ≡ ok (control_out, s_1))
      × (alloc_ep false (some control_in) control n' s_1
          ≡ ok (control_in, after_control statics r h h'))
unfolding give_descriptor choose_ep
alloc_ep-control statics r n n' small small' =
    let s = new_inner statics r in
    let (q, sized, _) = set_max_packet_size-get n true dqh_new small in
    let (q', sized', _) = set_max_packet_size-get n' true dqh_new small' in
    let h = set_next_dtd (some (statics.dtd 3)) q in
    let h' = set_next_dtd (some (statics.dtd 2)) q' in
    let given : Inner =
      put_dqh control_out h (record s { dtds = map statics.dtd (2 ∷ 1 ∷ 0 ∷ []) }) in
    let s_1 : Inner = mark_ep_as_used control_out given in
    let given' : Inner =
      put_dqh control_in h' (record s_1 { dtds = map statics.dtd (1 ∷ 0 ∷ []) }) in
    (
      s_1,
      h,
      h',
      alloc_ep-runs true (some control_out) control n control_out dqh_new q s given s_1 refl refl
          sized refl refl,
      alloc_ep-runs false (some control_in) control n' control_in dqh_new q' s_1 given'
          (after_control statics r h h') refl refl sized' refl refl,
    )

-- The descriptor and the buffer of the endpoint OUT 1.
give_descriptor-data_out :
    (statics : Statics) (r : Registers) (h h' p : Dqh) (m : ℕ)
    → m ≤ 512
    → (p' : Dqh) × (descriptors : ℕ → Dtd) × (smaller larger : List ℕ) × (give_descriptor data_out m
          p
          (after_control statics r h h')
        ≡ ok (record (after_control statics r h h') {
          dqhs = h ∷ h' ∷ p' ∷ dqh_new ∷ [];
          descriptors = descriptors;
          dtds = map statics.dtd (0 ∷ []);
          b64s = smaller;
          b512s = larger;
        }))
unfolding give_descriptor give_buffer
give_descriptor-data_out statics r h h' p m fits =
    let popped : Inner = record (after_control statics r h h') {
      dtds = map statics.dtd (0 ∷ []);
    } in
    let (addr, smaller, larger, buffer) =
      take_buffer-runs m (statics.b64 1) (statics.b512 1) (statics.b64 0 ∷ []) (statics.b512 0 ∷ [])
        popped fits refl refl in
    let taken : Inner = record popped { b64s = smaller; b512s = larger } in
    let (token, installs, _, _) = install-ok (statics.dtd 1) addr m taken (omega arith) in
    (
      set_next_dtd (some (statics.dtd 1)) (set_address addr p),
      update popped.descriptors (statics.dtd 1)
          (set_pages addr (set_token token (popped.descriptors (statics.dtd 1)))),
      smaller,
      larger,
      rw (give_descriptor, buffer, installs) refl,
    )

alloc_ep-data :
    (statics : Statics) (r : Registers) (h h' : Dqh) (ty ty' : EndpointType) (m m' : ℕ)
    → is_isochronous ty ≡ false
    → is_isochronous ty' ≡ false
    → m ≤ 512
    → m' ≤ 512
    → (s_3 s_4 : Inner) × (alloc_ep true none ty m (after_control statics r h h')
        ≡ ok (data_out, s_3))
      × (alloc_ep false none ty' m' s_3 ≡ ok (data_in, s_4))
      × (s_4.used_dqhs ≡ 0b1111)
      × (alloc_ep true none ty m s_4 ≡ err (usb endpoint_overflow))
      × (alloc_ep false none ty m s_4 ≡ err (usb endpoint_overflow))
unfolding choose_ep find_ep give_descriptor configure_ep
alloc_ep-data statics r h h' ty ty' m m' kind kind' fits fits' =
    let s_2 = after_control statics r h h' in
    let (p, sized, _) = set_max_packet_size-get m true dqh_new (omega arith) in
    let (p', sized', _) = set_max_packet_size-get m' true dqh_new (omega arith) in
    let (head, descriptors, smaller, larger, gives) =
      give_descriptor-data_out statics r h h' p m fits in
    let given : Inner = record s_2 {
      dqhs = h ∷ h' ∷ head ∷ dqh_new ∷ [];
      descriptors = descriptors;
      dtds = map statics.dtd (0 ∷ []);
      b64s = smaller;
      b512s = larger;
    } in
    let s_3 : Inner = record given {
      used_dqhs = 7;
      endptctrl1 = configured true ty r.endptctrl1;
    } in
    let given' : Inner =
      put_dqh data_in (set_next_dtd (some (statics.dtd 0)) p') (record s_3 { dtds = [] }) in
    let s_4 : Inner = record given' {
      used_dqhs = 15;
      endptctrl1 = configured false ty' s_3.endptctrl1;
    } in
    (
      s_3,
      s_4,
      alloc_ep-runs true none ty m data_out dqh_new p s_2 given s_3 kind refl sized gives refl,
      alloc_ep-runs false none ty' m' data_in dqh_new p' s_3 given' s_4 kind' refl sized' refl refl,
      refl,
      alloc_ep-fails true none ty m s_4 endpoint_overflow kind refl,
      alloc_ep-fails false none ty m s_4 endpoint_overflow kind refl,
    )

-- On a board on which the loops end, the first call of `take` returns a device, on which the two
-- endpoints 0, for packets of up to 1024 bytes, and a pair of endpoints 1, for packets of up to 512 bytes
-- of types that are supported, can be allocated; then all are in use, and a further endpoint, OUT or IN,
-- is refused.
pub take_usbd-alloc_ep :
    (board : Board) (statics : Statics) (r : Registers) (ty ty' : EndpointType) (n n' m m' : ℕ)
    → IsBoard board
    → is_isochronous ty ≡ false
    → is_isochronous ty' ≡ false
    → n ≤ 0x400
    → n' ≤ 0x400
    → m ≤ 512
    → m' ≤ 512
    → (s s_1 s_2 s_3 s_4 : Inner) × (r' : Registers) × (take_usbd board statics nothing_taken r
        ≡ ok (some s, all_taken, r'))
      × (alloc_ep true (some control_out) control n s ≡ ok (control_out, s_1))
      × (alloc_ep false (some control_in) control n' s_1 ≡ ok (control_in, s_2))
      × (alloc_ep true none ty m s_2 ≡ ok (data_out, s_3))
      × (alloc_ep false none ty' m' s_3 ≡ ok (data_in, s_4))
      × (s_4.used_dqhs ≡ 0b1111)
      × (alloc_ep true none ty m s_4 ≡ err (usb endpoint_overflow))
      × (alloc_ep false none ty m s_4 ≡ err (usb endpoint_overflow))
unfolding take_usbd
take_usbd-alloc_ep board statics r ty ty' n n' m m' good kind kind' small small' fits fits' =
    let (r', starts) = start-runs board statics r good in
    let (s_1, h, h', first, second) = alloc_ep-control statics r' n n' small small' in
    let (s_3, s_4, third, fourth, used, over, over_in) =
      alloc_ep-data statics r' h h' ty ty' m m' kind kind' fits fits' in
    let takes =
      ap
        (λ (x : Run Registers).
          x >>= λ started. ok (some (new_inner statics started), all_taken, started))
        starts in
    (
      new_inner statics r',
      s_1,
      after_control statics r' h h',
      s_3,
      s_4,
      r',
      takes,
      first,
      second,
      third,
      fourth,
      used,
      over,
      over_in,
    )
