-- ===== src/Dcp/Handles.antt =====
-- The handles of firmware/usbarmory/src/dcp/aes128.rs and dcp/sha256.rs, as contexts ask for them and
-- drop them in any order.
use usbarmory_rust.Prelude.{
  ℕ, ◌+◌, ◌-◌, ◌≤◌, ◌<◌, ◌≡◌, refl, ◌≢◌, Bool, true, false, Option, none, some, List, [], ◌∷◌,
  arith,
}
use usbarmory_rust.Prelude.Bytes.{Bytes}
use usbarmory_rust.Prelude.Outcome.{ok}
use usbarmory_rust.Prelude.Bits.{◌<<<◌}
use usbarmory_rust.Dcp.Control.{KeySelect, key0, unique_key, otp_key}
use usbarmory_rust.Dcp.Aes.{
  Coprocessor, Engine, Spurious, Aes128, HardwareKey, context, init, new_ram, new_hardware,
  take_sha, drop_aes, drop_sha, install_key, write, channelctrl_set, aes128_ram_channel,
}

-- The coprocessor with the numbers of handles that are alive.
pub record System : Type 0 where
  pub engine : Engine
  pub ram : ℕ
  pub hardware : ℕ
  pub sha : ℕ

abbrev pub one_if : {A : Type 0} → Option A → ℕ
one_if none = 0
one_if (some a) = 1

abbrev pub count : Bool → ℕ
count false = 0
count true = 1

-- A context asks for a handle, or drops one that is alive.
pub data Step (dcp : Coprocessor) : System → System → Type 0 where
  ask_ram :
      (s : System) (spurious : Spurious) (key : Bytes) (handle : Option Aes128) (e : Engine)
      → new_ram dcp spurious key s.engine ≡ ok (handle, e)
      → Step dcp s (record s { engine = e; ram = one_if handle + s.ram })
  ask_hardware :
      (s : System) (spurious : Spurious) (key : HardwareKey) (handle : Option Aes128) (e : Engine)
      → new_hardware dcp spurious key s.engine ≡ ok (handle, e)
      → Step dcp s (record s { engine = e; hardware = one_if handle + s.hardware })
  ask_sha :
      (s : System) (spurious : Spurious) (taken : Bool) (e : Engine)
      → take_sha dcp spurious s.engine ≡ ok (taken, e)
      → Step dcp s (record s { engine = e; sha = count taken + s.sha })
  drop_ram :
      (s : System)
      → 0 < s.ram
      → Step dcp s (record s { engine = drop_aes key0 s.engine; ram = s.ram - 1 })
  drop_hardware :
      (s : System) (key : KeySelect)
      → key ≢ key0
      → 0 < s.hardware
      → Step dcp s (record s { engine = drop_aes key s.engine; hardware = s.hardware - 1 })
  drop_digest :
      (s : System)
      → 0 < s.sha
      → Step dcp s (record s { engine = drop_sha s.engine; sha = s.sha - 1 })

pub data Reach (dcp : Coprocessor) (s : System) : System → Type 0 where
  here : Reach dcp s s
  next : {t u : System} → Reach dcp s t → Step dcp t u → Reach dcp s u

abbrev pub All : {A : Type 0} → (A → Type 0) → List A → Type 0
All P [] = Unit
All P (x ∷ xs) = P x × All P xs

-- The flags say how many handles are alive.
pub record IsCounted (s : System) : Type 0 where
  pub ram : s.ram ≡ count s.engine.ram_aes_in_use
  pub hardware : s.hardware ≡ count s.engine.hw_aes_in_use
  pub sha : s.sha ≡ count s.engine.sha_in_use

-- Each of the calls that make a handle sets its own flag when it gives one, and leaves the others.
ram-flags :
    (dcp : Coprocessor) (spurious : Spurious) (key : Bytes) (handle : Option Aes128) (e e' : Engine)
    → new_ram dcp spurious key e ≡ ok (handle, e')
    → (one_if handle + count e.ram_aes_in_use ≡ count e'.ram_aes_in_use)
      × (e'.hw_aes_in_use ≡ e.hw_aes_in_use)
      × (e'.sha_in_use ≡ e.sha_in_use)
unfolding new_ram init
ram-flags dcp spurious key handle e e' h = ground arith

hardware-flags :
    (dcp : Coprocessor) (spurious : Spurious) (key : HardwareKey) (handle : Option Aes128)
    (e e' : Engine)
    → new_hardware dcp spurious key e ≡ ok (handle, e')
    → (one_if handle + count e.hw_aes_in_use ≡ count e'.hw_aes_in_use)
      × (e'.ram_aes_in_use ≡ e.ram_aes_in_use)
      × (e'.sha_in_use ≡ e.sha_in_use)
unfolding new_hardware init
hardware-flags dcp spurious key handle e e' h = ground arith

sha-flags :
    (dcp : Coprocessor) (spurious : Spurious) (taken : Bool) (e e' : Engine)
    → take_sha dcp spurious e ≡ ok (taken, e')
    → (count taken + count e.sha_in_use ≡ count e'.sha_in_use)
      × (e'.ram_aes_in_use ≡ e.ram_aes_in_use)
      × (e'.hw_aes_in_use ≡ e.hw_aes_in_use)
unfolding take_sha init
sha-flags dcp spurious taken e e' h = ground arith

Step-IsCounted : {dcp : Coprocessor} {s t : System} → Step dcp s t → IsCounted s → IsCounted t
Step-IsCounted {dcp} (ask_ram s spurious key handle e h) c =
    ground (arith, ram-flags dcp spurious key handle s.engine e h)
Step-IsCounted {dcp} (ask_hardware s spurious key handle e h) c =
    ground (arith, hardware-flags dcp spurious key handle s.engine e h)
Step-IsCounted {dcp} (ask_sha s spurious taken e h) c =
    ground (arith, sha-flags dcp spurious taken s.engine e h)
Step-IsCounted (drop_ram s alive) c = ground arith
Step-IsCounted (drop_hardware s key0 other alive) c = absurd (other refl)
Step-IsCounted (drop_hardware s unique_key other alive) c = ground arith
Step-IsCounted (drop_hardware s otp_key other alive) c = ground arith
Step-IsCounted (drop_digest s alive) c = ground arith

at_most_one : {s : System} → IsCounted s → (s.ram ≤ 1) × (s.hardware ≤ 1) × (s.sha ≤ 1)
at_most_one c = ground arith

-- However contexts ask for handles and drop them, each kind of handle is alive once at most, and a flag
-- is set exactly while there is a handle of its kind.
pub Reach-IsCounted :
    {dcp : Coprocessor} {s t : System}
    → Reach dcp s t
    → IsCounted s
    → IsCounted t × ((t.ram ≤ 1) × (t.hardware ≤ 1) × (t.sha ≤ 1))
Reach-IsCounted here c = (c, at_most_one c)
Reach-IsCounted (next r step) c =
    let counted = Step-IsCounted step (Reach-IsCounted r c).0 in (counted, at_most_one counted)

-- A handle is given by a coprocessor that has not been set up, when the exchange in `init` fails
-- without a reason: no context is written, and the version and the capabilities are not looked at.
pub new_ram-uninitialized :
    (dcp : Coprocessor) (key : Bytes) (e : Engine)
    → e.ram_aes_in_use ≡ false
    → e.initialized ≡ false
    → e.written ≡ []
    → (aes : Aes128) × (e' : Engine) × (new_ram dcp
          (record { at_flag = false; at_init = true })
          key
          e
        ≡ ok (some aes, e'))
      × (e'.initialized ≡ false)
      × (All (λ w. w ≢ context) e'.written)
unfolding new_ram init
new_ram-uninitialized dcp key e free fresh none_yet = (
  record { key = key0 },
  write (channelctrl_set ((1 <<< aes128_ram_channel) + (1 <<< 3)))
      (install_key key (record e { ram_aes_in_use = true })),
  rw (new_ram, free) refl,
  fresh,
  rw (none_yet) (ground arith),
)
