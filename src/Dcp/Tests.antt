-- ===== src/Dcp/Tests.antt =====
-- The digest of firmware/usbarmory/src/dcp/sha256.rs on a coprocessor with a toy hash.
use usbarmory_rust.Prelude.Chunks.{concat}
use usbarmory_rust.Prelude.{
  ◌-◌, ◌*◌, ◌≡◌, refl, ap, false, List, [], ◌∷◌, ◌++◌, arith, length, get_or, replicate,
}
use usbarmory_rust.Prelude.Bytes.{Bytes}
use usbarmory_rust.Prelude.Outcome.{ok, panic, ◌>>=◌}
use usbarmory_rust.Dcp.Control.{Cmd}
use usbarmory_rust.Dcp.Sha.{Platform, Sha, input_slice, fixed_result, sha_new, reset}
use usbarmory_rust.Dcp.Channel.{Channel, idle, absorbing, done, fault, channel}
use usbarmory_rust.Dcp.Digest.{IsPlatform}
use usbarmory_rust.Dcp.Whole.{input_all, digest_of_pieces, reset-panics}
use mathlib.Core.List.{reverse}

abbrev toy_hash : Bytes → Bytes
toy_hash message = length message ∷ get_or message 0 0 ∷ []

abbrev toy_payload : Channel → Bytes
toy_payload (done message) = reverse (toy_hash message)
toy_payload idle = []
toy_payload (absorbing message) = []
toy_payload fault = []

abbrev toy : Platform
toy = record {
  samples = λ cmds. (0, 0) ∷ (1, 0) ∷ [];
  payload = λ cmds. toy_payload (channel idle cmds);
  extend_from_slice = λ buffer slice. buffer ++ slice;
}

toy-IsPlatform : IsPlatform toy_hash toy
toy-IsPlatform = record {
  extends = λ xs ys h. refl;
  completes = λ cmds h. ((1, 0), refl, refl);
  digests = λ cmds message e. ap toy_payload e;
}

abbrev pieces : List Bytes
pieces = replicate 10 7 ∷ [] ∷ replicate 130 8 ∷ replicate 3 9 ∷ []

digest_of_pieces_example :
    (issued : List Cmd) × ((input_all toy pieces (sha_new []) >>= fixed_result toy)
      ≡ ok (toy_hash (concat pieces), issued))
digest_of_pieces_example = digest_of_pieces toy_hash toy toy-IsPlatform pieces [] (omega arith)

-- Two bytes below the limit, with a byte that waits in the buffer.
abbrev used_up : Sha
used_up = record {
  next_is_first_block = false;
  buffer = 7 ∷ [];
  count = 512 * 1024 * 1024 - 2;
  issued = [];
}

reset-panics_example :
    (issued issued' : List Cmd) × ((input_all toy ((8 ∷ []) ∷ (9 ∷ []) ∷ []) (reset used_up)
        >>= fixed_result toy)
      ≡ ok (toy_hash (8 ∷ 9 ∷ []), issued))
    × (input_slice toy (reset used_up) (1 ∷ 2 ∷ 3 ∷ []) ≡ panic)
    × ((input_slice toy (sha_new []) (1 ∷ 2 ∷ 3 ∷ []) >>= fixed_result toy)
        ≡ ok (toy_hash (1 ∷ 2 ∷ 3 ∷ []), issued'))
reset-panics_example =
    reset-panics toy_hash toy toy-IsPlatform used_up ((8 ∷ []) ∷ (9 ∷ []) ∷ []) (1 ∷ 2 ∷ 3 ∷ []) []
      (omega arith) (omega arith) (omega arith) (omega arith)
