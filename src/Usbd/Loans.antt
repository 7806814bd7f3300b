-- ===== src/Usbd/Loans.antt =====
-- What `alloc_ep` and `configure_ep` of firmware/usbarmory/src/usbd/bus.rs do to the endpoints.
use native.Mathlib.Nat.{one-le-pow}
use usbarmory_rust.Prelude.Bits.{mul-div-pow, mul-mod-pow}
use usbarmory_rust.Prelude.{
  ℕ, zero, suc, ◌+◌, ◌*◌, ◌/◌, ◌%◌, ◌^◌, ◌<◌, bit_and, bit_or, ◌≡◌, refl, sym, ap, ap₂, ◌∙◌, subst,
  ◌≢◌, ◌⊎◌, inl, inr, Bool, true, false, not, ◌&&◌, Option, none, some, arith, ltb, leb, ◌==◌,
  if◌then◌else◌, ltb→lt, Bool-cases, get_elem?,
}
use usbarmory_rust.Prelude.Bits.{◌<<<◌, bit_or_at, bit_or-zero, bit_and_flag}
use usbarmory_rust.Prelude.Outcome.{ok, err, panic, >>=-eq-ok, ok-injective}
use usbarmory_rust.Usbd.Endpoint.{Address, epaddr2dqhidx}
use usbarmory_rust.Usbd.Queue.{Dqh, set_max_packet_size}
use usbarmory_rust.Usbd.Alloc.{
  find_ep, choose_ep, give_buffer, give_descriptor, alloc_ep, is_isochronous,
}
use usbarmory_rust.Usbd.Bus.{
  Stop, UsbError, endpoint_overflow, invalid_endpoint, usb, Run, Inner, EndpointType, assert,
  expect, ok_or, pop, get_dqh, is_ep_being_used, mark_ep_as_used, configure_ep, take_buffer,
  install, endpoints, active_token,
}

if-cases : {A : Type 0} (b : Bool) {x y r : A} → (if b then x else y) ≡ r → (x ≡ r) ⊎ (y ≡ r)
if-cases true e = inl e
if-cases false e = inr e

none≢some : {A : Type 0} {a : A} → ◌≢◌ {A = Option A} none (some a)
none≢some h = cc

nonzero : {n : ℕ} → n ≢ 0 → not (n == 0) ≡ true
nonzero h = ground arith

panic≢ok : {A : Type 0} {a : A} → ◌≢◌ {A = Run A} panic (ok a)
panic≢ok h = cc

err≢ok : {A : Type 0} {e : Stop} {a : A} → ◌≢◌ {A = Run A} (err e) (ok a)
err≢ok h = cc

ok_or-ok : {A : Type 0} (e : UsbError) (o : Option A) {a : A} → ok_or e o ≡ ok a → o ≡ some a
ok_or-ok e none h = cc
ok_or-ok e (some a) h = ap some (ok-injective h)

-- What is chosen is not in use, and has a queue head.
IsFree : Inner → Address × Dqh → Type 0
IsFree s chosen = (is_ep_being_used chosen.0 s ≡ false) × (get_dqh chosen.0 s ≡ some chosen.1)

find_ep-IsFree :
    (n idx : ℕ) (out : Bool) (s : Inner) {chosen : Address × Dqh}
    → find_ep n idx out s ≡ ok chosen
    → IsFree s chosen
unfolding find_ep IsFree
find_ep-IsFree zero idx out s h = cc
find_ep-IsFree (suc n) idx out s {chosen} h =
    let (q, e, e') =
      >>=-eq-ok (ok_or endpoint_overflow (get_dqh a s))
        (λ q. if not (is_ep_being_used a s) then ok (a, q) else find_ep n (suc idx) out s) h in
    elim (Bool-cases (is_ep_being_used a s)) [
      | inl t ↦
          find_ep-IsFree n (suc idx) out s
            (subst (λ b. (if not b then ok (a, q) else find_ep n (suc idx) out s) ≡ ok chosen) t e')
      | inr t ↦
          subst (IsFree s)
            (ok-injective (
              subst (λ b. (if not b then ok (a, q) else find_ep n (suc idx) out s) ≡ ok chosen) t
                e'))
            (t, ok_or-ok endpoint_overflow (get_dqh a s) e)
    ]
  where
    a : Address
    a = record { index = idx; is_out = out }

choose_ep-IsFree :
    (out : Bool) (named : Option Address) (s : Inner) {chosen : Address × Dqh}
    → choose_ep out named s ≡ ok chosen
    → IsFree s chosen
unfolding choose_ep IsFree
choose_ep-IsFree out none s h = find_ep-IsFree 2 1 out s h
choose_ep-IsFree out (some a) s {chosen} h =
    let (q, e, e') =
      >>=-eq-ok (ok_or endpoint_overflow (get_dqh a s))
        (λ q. if is_ep_being_used a s then err (usb invalid_endpoint) else ok (a, q)) h in
    elim (Bool-cases (is_ep_being_used a s)) [
      | inl t ↦ absurd (
          err≢ok
            (subst (λ b. (if b then err (usb invalid_endpoint) else ok (a, q)) ≡ ok chosen) t e'))
      | inr t ↦
          subst (IsFree s)
            (ok-injective
              (subst (λ b. (if b then err (usb invalid_endpoint) else ok (a, q)) ≡ ok chosen) t e'))
            (t, ok_or-ok endpoint_overflow (get_dqh a s) e)
    ]

install-used :
    (dtd addr n : ℕ) (s : Inner) {s' : Inner}
    → install dtd addr n s ≡ ok s'
    → s'.used_dqhs ≡ s.used_dqhs
unfolding install
install-used dtd addr n s h =
    let (token, e, e') = >>=-eq-ok (active_token n) _ h in
    ap (λ (x : Inner). x.used_dqhs) (sym (ok-injective e'))

take_buffer-used :
    (n : ℕ) (s : Inner) {taken : ℕ × Inner}
    → take_buffer n s ≡ ok taken
    → taken.1.used_dqhs ≡ s.used_dqhs
unfolding take_buffer
take_buffer-used n s h = elim (if-cases (leb n 64) h) [
  | inl small ↦
      let (taken, e, e') = >>=-eq-ok (expect (pop s.b64s)) _ small in
      ap (λ (x : ℕ × Inner). x.1.used_dqhs) (sym (ok-injective e'))
  | inr large ↦ elim (if-cases (leb n 512) large) [
    | inl fits ↦
        let (taken, e, e') = >>=-eq-ok (expect (pop s.b512s)) _ fits in
        ap (λ (x : ℕ × Inner). x.1.used_dqhs) (sym (ok-injective e'))
    | inr over ↦ absurd (panic≢ok over)
  ]
]

give_descriptor-used :
    (a : Address) (n : ℕ) (q : Dqh) (s : Inner) {s' : Inner}
    → give_descriptor a n q s ≡ ok s'
    → s'.used_dqhs ≡ s.used_dqhs
unfolding give_descriptor give_buffer
give_descriptor-used a n q s h =
    let ((dtd, dtds), e, e') = >>=-eq-ok (expect (pop s.dtds)) _ h in
    elim (if-cases (a.is_out && not (a.index == 0)) e') [
      | inl out ↦
          let (taken, f, f') = >>=-eq-ok (take_buffer n (record s { dtds = dtds })) _ out in
          let (installed, g, g') = >>=-eq-ok (install dtd taken.0 n taken.1) _ f' in
          ap (λ (x : Inner). x.used_dqhs) (sym (ok-injective g'))
          ∙ (install-used dtd taken.0 n taken.1 g ∙ take_buffer-used n (record s { dtds = dtds }) f)
      | inr other ↦ ap (λ (x : Inner). x.used_dqhs) (sym (ok-injective other))
    ]

or-one : (y : ℕ) → bit_or y 1 % 2 ≡ 1
or-one y = omega (arith, bit_or_at 1 y 1, low (y % 2) (omega arith))
  where
    low : (b : ℕ) → b < 2 → bit_or b 1 ≡ 1
    low zero h = refl
    low (suc zero) h = refl
    low (suc (suc b)) h = absurd (omega arith)

bit_or-has : (k u : ℕ) → bit_and (bit_or u (1 <<< k)) (1 <<< k) ≢ 0
bit_or-has k u h =
    absurd
      (positive (omega (arith, bit_and_flag k (bit_or u (2 ^ k)), ap (λ b. b * 2 ^ k) one, same)))
  where
    same : bit_and (bit_or u (2 ^ k)) (2 ^ k) ≡ 0
    same = ap (λ m. bit_and (bit_or u m) m) {x = 2 ^ k} {y = 1 <<< k} (omega arith) ∙ h

    positive : ¬ (2 ^ k ≡ 0)
    positive e = omega (arith, e, one-le-pow k 2)

    flat : bit_or u (2 ^ k) ≡ bit_or (u / 2 ^ k) 1 * 2 ^ k + u % 2 ^ k
    flat =
        bit_or_at k u (2 ^ k)
        ∙ (ap₂ (λ a b. bit_or (u / 2 ^ k) a * 2 ^ k + bit_or (u % 2 ^ k) b) whole none_left
            ∙ ap (λ b. bit_or (u / 2 ^ k) 1 * 2 ^ k + b) (bit_or-zero (u % 2 ^ k)))
      where
        whole : 2 ^ k / 2 ^ k ≡ 1
        whole = ap (λ x. x / 2 ^ k) {x = 2 ^ k} {y = 1 * 2 ^ k} (omega arith) ∙ mul-div-pow k 1

        none_left : 2 ^ k % 2 ^ k ≡ 0
        none_left = ap (λ x. x % 2 ^ k) {x = 2 ^ k} {y = 1 * 2 ^ k} (omega arith) ∙ mul-mod-pow k 1

    shifted : bit_or u (2 ^ k) / 2 ^ k ≡ bit_or (u / 2 ^ k) 1
    shifted = ap (λ n. n / 2 ^ k) flat ∙ grind (arith, one-le-pow k 2)

    one : bit_or u (2 ^ k) / 2 ^ k % 2 ≡ 1
    one = ap (λ n. n % 2) shifted ∙ or-one (u / 2 ^ k)

configure_ep-used :
    (a : Address) (ty : EndpointType) (s : Inner) {s' : Inner}
    → configure_ep a ty s ≡ ok s'
    → s'.used_dqhs ≡ s.used_dqhs
unfolding configure_ep
configure_ep-used a ty s h =
    let (done, e, e') = >>=-eq-ok (assert (a.index == 1)) _ h in
    ap (λ (x : Inner). x.used_dqhs) (sym (ok-injective e'))

get_dqh-bound :
    (a : Address) (s : Inner) {q : Dqh} → get_dqh a s ≡ some q → epaddr2dqhidx a < endpoints
get_dqh-bound a s {q} h = elim (Bool-cases (ltb (epaddr2dqhidx a) endpoints)) [
  | inl t ↦ ltb→lt (epaddr2dqhidx a) endpoints t
  | inr t ↦ absurd (
      none≢some
        (subst (λ b. (if b then get_elem? s.dqhs (epaddr2dqhidx a) else none) ≡ some q) t h))
]

-- What `alloc_ep` says of an endpoint that it has allocated.
abbrev IsFresh : Inner → Address × Inner → Type 0
IsFresh s r =
    (epaddr2dqhidx r.0 < endpoints)
    × (is_ep_being_used r.0 s ≡ false)
    × (r.1.used_dqhs ≡ bit_or s.used_dqhs (1 <<< epaddr2dqhidx r.0))
    × (is_ep_being_used r.0 r.1 ≡ true)

fresh :
    (a : Address) (q : Dqh) (s s' : Inner)
    → IsFree s (a, q)
    → s'.used_dqhs ≡ bit_or s.used_dqhs (1 <<< epaddr2dqhidx a)
    → IsFresh s (a, s')
unfolding IsFree
fresh a q s s' (unused, found) used = (
  get_dqh-bound a s found,
  unused,
  used,
  ap (λ n. not (bit_and n (1 <<< epaddr2dqhidx a) == 0)) used
      ∙ nonzero (bit_or-has (epaddr2dqhidx a) s.used_dqhs),
)

-- An endpoint that is allocated was not in use before, has a queue head, and is in use after, as are
-- those that were, and no other.
pub alloc_ep-fresh :
    (out : Bool) (named : Option Address) (ty : EndpointType) (n : ℕ) (s s' : Inner) (a : Address)
    → alloc_ep out named ty n s ≡ ok (a, s')
    → (epaddr2dqhidx a < endpoints)
      × (is_ep_being_used a s ≡ false)
      × (s'.used_dqhs ≡ bit_or s.used_dqhs (1 <<< epaddr2dqhidx a))
      × (is_ep_being_used a s' ≡ true)
unfolding alloc_ep
alloc_ep-fresh out named ty n s s' a h =
    let (checked, e, h) = >>=-eq-ok (assert (not (is_isochronous ty))) _ h in
    let ((b, q), chosen, h) = >>=-eq-ok (choose_ep out named s) _ h in
    let (sized, e, h) = >>=-eq-ok (expect (set_max_packet_size n true q)) _ h in
    let (given, gives, h) = >>=-eq-ok (give_descriptor b n sized s) _ h in
    let marks =
      ap (λ u. bit_or u (1 <<< epaddr2dqhidx b)) (give_descriptor-used b n sized s gives) in
    let (last, ends, h) =
      >>=-eq-ok
        (if not (b.index == 0)
          then configure_ep b ty (mark_ep_as_used b given)
          else ok (mark_ep_as_used b given))
        _ h in
    let used : last.used_dqhs ≡ bit_or s.used_dqhs (1 <<< epaddr2dqhidx b) =
      elim (if-cases (not (b.index == 0)) ends) [
        | inl e ↦ configure_ep-used b ty (mark_ep_as_used b given) e ∙ marks
        | inr e ↦ ap (λ (x : Inner). x.used_dqhs) (sym (ok-injective e)) ∙ marks
      ] in
    subst (IsFresh s) (ok-injective h) (fresh b q s last (choose_ep-IsFree out named s chosen) used)
