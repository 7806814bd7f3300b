-- ===== src/Dcp/Cipher.antt =====
-- What the coprocessor makes of the commands of firmware/usbarmory/src/dcp/aes128.rs, as the manual of
-- the processor says of the fields of a command; and the driver on such a coprocessor.
use usbarmory_rust.Prelude.{
  ℕ, ◌+◌, ◌/◌, ◌%◌, ◌^◌, bit_and, ◌≡◌, refl, ap, ◌∙◌, ◌≢◌, inl, inr, Bool, true, false, not, ◌&&◌,
  Option, none, some, List, [], ◌∷◌, ◌++◌, arith, ltb, ◌==◌, if◌then◌else◌, ==_iff, Bool-cases,
  length,
}
use usbarmory_rust.Prelude.Bytes.{Bytes, le32, of_le32, AreBytes}
use usbarmory_rust.Prelude.Outcome.{ok}
use usbarmory_rust.Prelude.Bits.{◌<<<◌}
use usbarmory_rust.Dcp.Control.{
  KeySelect, key0, unique_key, otp_key, stat_error_mask, Cmd, is_done_or_error, wait_for_or_timeout,
}
use usbarmory_rust.Dcp.Channel.{has_flag}
use mathlib.Core.Option
use usbarmory_rust.Dcp.Aes.{
  Write, context, key_register, keydata, channelctrl_set, channelctrl_clr, ch3sema, ch3cmdptr,
  Coprocessor, Engine, Aes128, aes128_ram_channel, write, init, install_key, new_ram, xcrypt_cmd,
  xcrypt,
}

-- The key of a cipher: one that was written, or one of the two that cannot be read.
pub data Secret : Type 0 where
  ram : Bytes → Secret
  device_unique device_otp : Secret

-- The key of a slot: the bytes that have been written to `KEYDATA` since a write to `KEY` that names the
-- slot (bits 4 and 5) and its first word (bits 0 and 1), which is the last one, before some others.
abbrev pub key_before : ℕ → List Write → Bytes → Option Bytes
key_before slot [] later = none
key_before slot (keydata w ∷ ws) later = key_before slot ws (le32 w ++ later)
key_before slot (key_register n ∷ ws) later =
    if (n / 2 ^ 4 % 2 ^ 2 == slot) && (n % 2 ^ 2 == 0) then some later else none
key_before slot (context ∷ ws) later = key_before slot ws later
key_before slot (channelctrl_set n ∷ ws) later = key_before slot ws later
key_before slot (channelctrl_clr n ∷ ws) later = key_before slot ws later
key_before slot (ch3sema n ∷ ws) later = key_before slot ws later
key_before slot (ch3cmdptr cmd ∷ ws) later = key_before slot ws later

-- The key that a command selects: of a slot, or one of those that cannot be read.
abbrev pub secret_of : ℕ → List Write → Option Secret
secret_of select ws =
    if ltb select 4
    then Option.map ram (key_before select ws [])
    else if select == 0xfe
    then some device_unique
    else if select == 0xff
    then some device_otp
    else none

-- A context has been installed.
abbrev pub has_context : List Write → Bool
has_context [] = false
has_context (context ∷ ws) = true
has_context (_ ∷ ws) = has_context ws

-- A channel is enabled.
abbrev pub is_enabled : ℕ → List Write → Bool
is_enabled channel [] = false
is_enabled channel (channelctrl_set n ∷ ws) =
    let before = is_enabled channel ws in if has_flag channel n then true else before
is_enabled channel (channelctrl_clr n ∷ ws) =
    let before = is_enabled channel ws in if has_flag channel n then false else before
is_enabled channel (_ ∷ ws) = is_enabled channel ws

-- A command for AES-128 in ECB mode on one block, with a place for the result.
abbrev pub is_aes128 : Cmd → Bool
is_aes128 cmd =
    has_flag 1 cmd.control0
    && (has_flag 5 cmd.control0
        && (not (has_flag 6 cmd.control0)
            && ((cmd.control1 % 2 ^ 8 == 0) && (cmd.dest_buffer && (cmd.buffer_size == 16)))))

-- The key, the direction (`true` is to encrypt) and the block of the command that is started last, on
-- channel 3, which is enabled, with a context.
abbrev pub job : List Write → Option (Secret × Bool × Bytes)
job (ch3sema n ∷ ch3cmdptr cmd ∷ ws) =
    if is_aes128 cmd && (has_context ws && (is_enabled 3 ws && not (n == 0)))
    then elim (secret_of (cmd.control1 / 2 ^ 8 % 2 ^ 8) ws) [
      | none ↦ none
      | some secret ↦ Option.map (λ block. (secret, has_flag 8 cmd.control0, block)) cmd.src_buffer
    ]
    else none
job ws = none

-- A coprocessor that does the jobs by a cipher.
pub record IsCoprocessor (cipher : Secret → Bool → Bytes → Bytes) (dcp : Coprocessor) : Type 0 where
  pub version : dcp.version ≡ (1 <<< 25) + (1 <<< 16)
  pub has_aes128 : bit_and dcp.capability1 1 ≢ 0
  pub has_sha256 : bit_and dcp.capability1 (1 <<< 18) ≢ 0
  pub completes :
      (ws : List Write) (secret : Secret) (encrypt : Bool) (block : Bytes)
      → job ws ≡ some (secret, encrypt, block)
      → (sample : ℕ × ℕ) × (wait_for_or_timeout is_done_or_error (dcp.samples ws) ≡ some sample)
        × (bit_and sample.1 stat_error_mask ≡ 0)
        × (dcp.destination ws ≡ cipher secret encrypt block)

-- The key that a handle stands for.
abbrev pub secret_for : KeySelect → List Write → Option Secret
secret_for key0 ws = Option.map ram (key_before 0 ws [])
secret_for unique_key ws = some device_unique
secret_for otp_key ws = some device_otp

job-xcrypt_cmd :
    (key : KeySelect) (block : Bytes) (encrypt : Bool) (ws : List Write) (secret : Secret)
    → length block ≡ 16
    → has_context ws ≡ true
    → is_enabled 3 ws ≡ true
    → secret_for key ws ≡ some secret
    → job (ch3sema 1 ∷ ch3cmdptr (xcrypt_cmd key block encrypt) ∷ ws)
      ≡ some (secret, encrypt, block)
unfolding xcrypt_cmd
job-xcrypt_cmd key0 block true ws secret size ready on has = rw (size, ready, on, has) refl
job-xcrypt_cmd key0 block false ws secret size ready on has = rw (size, ready, on, has) refl
job-xcrypt_cmd unique_key block true ws secret size ready on has = rw (size, ready, on) (cc)
job-xcrypt_cmd unique_key block false ws secret size ready on has = rw (size, ready, on) (cc)
job-xcrypt_cmd otp_key block true ws secret size ready on has = rw (size, ready, on) (cc)
job-xcrypt_cmd otp_key block false ws secret size ready on has = rw (size, ready, on) (cc)

-- Four bytes of a key, and the word that they make.
quad :
    (n : ℕ) (bytes : Bytes)
    → length bytes ≡ 4 + n
    → AreBytes bytes
    → (a b c d : ℕ) × (rest : Bytes) × (bytes ≡ a ∷ b ∷ c ∷ d ∷ rest)
      × (length rest ≡ n)
      × AreBytes rest
      × (le32 (of_le32 a b c d) ≡ a ∷ b ∷ c ∷ d ∷ [])
quad n [] size small = absurd (omega arith)
quad n (a ∷ []) size small = absurd (omega arith)
quad n (a ∷ b ∷ []) size small = absurd (omega arith)
quad n (a ∷ b ∷ c ∷ []) size small = absurd (omega arith)
quad n (a ∷ b ∷ c ∷ d ∷ rest) size small =
    (a, b, c, d, rest, refl, omega arith, small.1.1.1.1, ground arith)

empty_of_length : (bytes : Bytes) → length bytes ≡ 0 → bytes ≡ []
empty_of_length [] size = refl
empty_of_length (b ∷ bytes) size = absurd (omega arith)

-- The words that are written make up the key.
written-install_key :
    (bytes : Bytes) (e : Engine)
    → length bytes ≡ 16
    → AreBytes bytes
    → key_before 0 (install_key bytes e).written [] ≡ some bytes
written-install_key bytes e size small =
    let (a, b, c, d, rest, eq, size_1, small_1, word) = quad 12 bytes size small in
    let (a_1, b_1, c_1, d_1, rest_1, eq_1, size_2, small_2, word_1) = quad 8 rest size_1 small_1 in
    let (a_2, b_2, c_2, d_2, rest_2, eq_2, size_3, small_3, word_2) =
      quad 4 rest_1 size_2 small_2 in
    let (a_3, b_3, c_3, d_3, end, eq_3, none_left, s, word_3) = quad 0 rest_2 size_3 small_3 in
    rw (eq, eq_1, eq_2, eq_3, empty_of_length end none_left) (cc (word, word_1, word_2, word_3))

module _ (cipher : Secret → Bool → Bytes → Bytes) (dcp : Coprocessor)
    (laws : IsCoprocessor cipher dcp) where
  open laws use {version, has_aes128, has_sha256, completes}

  -- A block is left as the cipher makes it, under the key of the handle, for both directions.
  pub xcrypt-cipher :
      (key : KeySelect) (block : Bytes) (encrypt : Bool) (secret : Secret) (e : Engine)
      → length block ≡ 16
      → has_context e.written ≡ true
      → is_enabled 3 e.written ≡ true
      → secret_for key e.written ≡ some secret
      → xcrypt dcp (record { key = key }) block encrypt e
        ≡ ok (
          cipher secret encrypt block,
          write (ch3sema 1) (write (ch3cmdptr (xcrypt_cmd key block encrypt)) e),
        )
  unfolding xcrypt
  xcrypt-cipher key block encrypt secret e size ready on has =
      let ws : List Write = ch3sema 1 ∷ ch3cmdptr (xcrypt_cmd key block encrypt) ∷ e.written in
      let (sample, waits, clear, result) =
        completes ws secret encrypt block
          (job-xcrypt_cmd key block encrypt e.written secret size ready on has) in
      rw (xcrypt, waits, clear, result) refl

  -- `init` succeeds when it is the only one that takes the coprocessor, and there is a context then,
  -- unless its exchange fails on a coprocessor that is not set up.
  init-ok :
      (spurious : Bool) (e : Engine)
      → e.taken ≡ e.initialized
      → has_context e.written ≡ e.initialized
      → spurious && not e.initialized ≡ false
      → (first : Bool) × (e' : Engine) × (init dcp spurious e ≡ ok (first, e'))
        × (has_context e'.written ≡ true)
  unfolding init
  init-ok true e same ready no_failure = (false, e, refl, ground arith)
  init-ok false e same ready no_failure = elim (Bool-cases e.initialized) [
    | inl t ↦ (false, e, ground arith, ready ∙ t)
    | inr f ↦ (
      true,
      write context (record e { initialized = true; taken = true }),
      ground (
        arith,
        ==_iff dcp.version ((1 <<< 25) + (1 <<< 16)),
        ==_iff (bit_and dcp.capability1 1) 0,
        ==_iff (bit_and dcp.capability1 (1 <<< 18)) 0,
      ),
      refl,
    )
  ]

  -- On a coprocessor that is free or already set up, with a context just when it is, and when the
  -- exchange of `init` does not fail on one that is not set up: a handle is given for a key of 16 bytes,
  -- and a block of 16 bytes is then left as the cipher makes it under that key, in both directions.
  pub new_ram-cipher :
      (spurious : Bool) (key block : Bytes) (encrypt : Bool) (e : Engine)
      → e.ram_aes_in_use ≡ false
      → e.taken ≡ e.initialized
      → has_context e.written ≡ e.initialized
      → spurious && not e.initialized ≡ false
      → length key ≡ 16
      → AreBytes key
      → length block ≡ 16
      → (aes : Aes128) × (e' e'' : Engine) × (new_ram dcp
            (record { at_flag = false; at_init = spurious })
            key
            e
          ≡ ok (some aes, e'))
        × (xcrypt dcp aes block encrypt e' ≡ ok (cipher (ram key) encrypt block, e''))
  unfolding new_ram
  new_ram-cipher spurious key block encrypt e free same ready no_failure size bytes block_size =
      let (first, e', starts, context_on) =
        init-ok spurious (record e { ram_aes_in_use = true }) same ready no_failure in
      let installed = install_key key e' in
      let enabled = write (channelctrl_set ((1 <<< aes128_ram_channel) + (1 <<< 3))) installed in
      (
        record { key = key0 },
        enabled,
        write (ch3sema 1) (write (ch3cmdptr (xcrypt_cmd key0 block encrypt)) enabled),
        rw (new_ram, free, starts) refl,
        xcrypt-cipher key0 block encrypt (ram key) enabled block_size context_on refl
            (ap (Option.map ram) (written-install_key key e' size bytes)),
      )
