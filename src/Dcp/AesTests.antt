-- ===== src/Dcp/AesTests.antt =====
-- The ciphers of firmware/usbarmory/src/dcp/aes128.rs on a coprocessor with a toy cipher.
use usbarmory_rust.Prelude.{
  ℕ, ◌+◌, ◌-◌, ◌%◌, ◌^◌, ◌≤◌, ◌≡◌, refl, ap, ◌≢◌, Bool, true, false, Option, none, some, [], ◌∷◌,
  map, arith, get_or, replicate,
}
use usbarmory_rust.Prelude.Bytes.{Bytes}
use usbarmory_rust.Prelude.Outcome.{Outcome, ok, err, panic, ◌>>=◌}
use usbarmory_rust.Dcp.Control.{key0}
use usbarmory_rust.Dcp.Sha.{Restart}
use usbarmory_rust.Dcp.Aes.{
  Coprocessor, Engine, Spurious, Aes128, new_ram, new, new_otp, new_unique, xcrypt, encrypt_block,
  decrypt_block, context,
}
use usbarmory_rust.Dcp.Cipher.{
  Secret, ram, device_unique, device_otp, job, IsCoprocessor, new_ram-cipher,
}
use usbarmory_rust.Dcp.Handles.{
  System, Reach, here, next, ask_ram, IsCounted, Reach-IsCounted, All, new_ram-uninitialized,
}

-- Bytes are shifted by the first byte of the key.
abbrev shift : Secret → ℕ
shift (ram key) = get_or key 0 0
shift device_unique = 77
shift device_otp = 78

abbrev toy_cipher : Secret → Bool → Bytes → Bytes
toy_cipher secret true block = map (λ b. (b + shift secret) % 256) block
toy_cipher secret false block = map (λ b. (b + 256 - shift secret) % 256) block

abbrev toy_destination : Option (Secret × Bool × Bytes) → Bytes
toy_destination none = []
toy_destination (some (secret, encrypt, block)) = toy_cipher secret encrypt block

abbrev toy : Coprocessor
toy = record {
  version = 2 ^ 25 + 2 ^ 16;
  capability1 = 2 ^ 18 + 1;
  stat = λ ws. 0 ∷ 2 ^ 28 ∷ [];
  samples = λ ws. (0, 0) ∷ (1, 0) ∷ [];
  destination = λ ws. toy_destination (job ws);
}

toy-IsCoprocessor : IsCoprocessor toy_cipher toy
toy-IsCoprocessor = record {
  version = refl;
  has_aes128 = λ q. omega arith;
  has_sha256 = λ q. omega arith;
  completes = λ ws secret encrypt block e. ((1, 0), refl, refl, ap toy_destination e);
}

abbrev fresh : Engine
fresh = record {
  hw_aes_in_use = false;
  ram_aes_in_use = false;
  sha_in_use = false;
  initialized = false;
  taken = false;
  written = [];
}

abbrev key : Bytes
key = 5 ∷ replicate 15 9

new_ram-cipher_example :
    (aes : Aes128) × (e' e'' : Engine) × (new_ram toy
        (record { at_flag = false; at_init = false })
        key
        fresh
      ≡ ok (some aes, e'))
    × (xcrypt toy aes (replicate 16 254) true e'
        ≡ ok (toy_cipher (ram key) true (replicate 16 254), e''))
new_ram-cipher_example =
    new_ram-cipher toy_cipher toy toy-IsCoprocessor false key (replicate 16 254) true fresh refl
      refl refl refl refl (omega arith) refl

abbrev calm : Spurious
calm = record { at_flag = false; at_init = false }

-- A block is encrypted and decrypted with the OTP key.
there_and_back : Outcome Restart (Bytes × Engine)
unfolding new_otp encrypt_block decrypt_block
there_and_back = do
  (handle, e) ← new_otp toy calm fresh
  aes ← elim handle [ none ↦ panic | some aes ↦ ok aes ]
  (block, e') ← encrypt_block toy aes (replicate 16 254) e
  decrypt_block toy aes block e'

there_and_back_test : (e : Engine) × (there_and_back ≡ ok (replicate 16 254, e))
unfolding there_and_back
there_and_back_test = (_, refl)

-- A second handle with the unique key, a key in memory while one is in use, and a digest.
second_test :
    (e : Engine) × (new_unique toy calm (record fresh { hw_aes_in_use = true }) ≡ ok (none, e))
unfolding new_unique
second_test = (_, refl)

in_use_test : new toy calm key (record fresh { ram_aes_in_use = true }) ≡ panic
unfolding new
in_use_test = refl

abbrev idle_system : System
idle_system = record { engine = fresh; ram = 0; hardware = 0; sha = 0 }

abbrev engine_after : {A : Type 0} → Outcome Restart (A × Engine) → Engine
engine_after (ok r) = r.1
engine_after (err e) = fresh
engine_after panic = fresh

abbrev busy : System
unfolding new_ram
busy = record idle_system { engine = engine_after (new_ram toy calm key fresh); ram = 1 }

busy-Reach : Reach toy idle_system busy
unfolding new_ram
busy-Reach =
    next here (ask_ram idle_system calm key (some (record { key = key0 })) busy.engine refl)

Reach-IsCounted_example : IsCounted busy × ((busy.ram ≤ 1) × (busy.hardware ≤ 1) × (busy.sha ≤ 1))
Reach-IsCounted_example = Reach-IsCounted busy-Reach (omega arith)

new_ram-uninitialized_example :
    (aes : Aes128) × (e' : Engine) × (new_ram toy
        (record { at_flag = false; at_init = true })
        key
        fresh
      ≡ ok (some aes, e'))
    × (e'.initialized ≡ false)
    × (All (λ w. w ≢ context) e'.written)
new_ram-uninitialized_example = new_ram-uninitialized toy key fresh refl refl refl
