-- ===== src/Memlog.antt =====
-- firmware/memlog/src/lib.rs: the in-memory logger, two ring buffers that contexts at two priorities
-- fill and that the main context drains.
-- `usize` has 32 bits on the target. The counters are taken as in the release profile, where they
-- wrap. A `copy_nonoverlapping` outside the array is undefined behaviour, here `out_of_bounds`.
pub mod Contents
pub mod Push
pub mod Peek
mod Tests
use usbarmory_rust.Prelude.{
  ℕ, ◌+◌, ◌-◌, ◌*◌, ◌%◌, ◌^◌, min, Bool, true, false, ◌||◌, Option, none, some, List, [], ◌∷◌, leb,
  ltb, ◌==◌, if◌then◌else◌, length, set, take, drop,
}
use usbarmory_rust.Prelude.Bytes.{Bytes}

abbrev pub usize_mod : ℕ
usize_mod = 2 ^ 32

-- `N0` and `N1`
abbrev pub buffer_size : ℕ
buffer_size = 8 * 1024

-- `bufferp` is the array that it points to; `read` and `write` count bytes modulo `usize_mod`.
pub record Buffer : Type 0 where
  pub mem : Bytes
  pub cap : ℕ
  pub read : ℕ
  pub write : ℕ

-- The memory of `L0` or `L1`, both of which are built over 8 KB.
abbrev pub buffer : Bytes → ℕ → ℕ → Buffer
buffer mem read write = record { mem = mem; cap = buffer_size; read = read; write = write }

-- `Buffer::new`
abbrev pub new : ℕ → Bytes → Buffer
new cap bufferp = record { mem = bufferp; cap = cap; read = 0; write = 0 }

abbrev pub wrapping_add : ℕ → ℕ → ℕ
wrapping_add a b = (a + b) % usize_mod

abbrev pub wrapping_sub : ℕ → ℕ → ℕ
wrapping_sub a b = (a + usize_mod - b) % usize_mod

-- The bytes that `copy_nonoverlapping` moves, lowest address first.
abbrev pub copy_bytes : Bytes → ℕ → Bytes → Bytes
copy_bytes mem at [] = mem
copy_bytes mem at (b ∷ bs) = copy_bytes (set mem at b) (at + 1) bs

-- `ptr::copy_nonoverlapping(src, bufferp.add(at), src.len())`
abbrev pub copy_nonoverlapping : Bytes → ℕ → Bytes → Option Bytes
copy_nonoverlapping mem at src =
    if leb (at + length src) (length mem) then some (copy_bytes mem at src) else none

pub data Pushed : Type 0 where
  stored : Buffer → Pushed
  full : Pushed
  out_of_bounds : Pushed

abbrev store : Buffer → ℕ → Option Bytes → Pushed
store b n none = out_of_bounds
store b n (some mem) = stored (record b { mem = mem; write = wrapping_add b.write n })

abbrev then_copy : Option Bytes → ℕ → Bytes → Option Bytes
then_copy none at src = none
then_copy (some mem) at src = copy_nonoverlapping mem at src

-- The two copies of a message that does not fit before the end of the array.
split_copy : Buffer → ℕ → Bytes → Option Bytes
split_copy b cursor bytes =
    let pivot = cursor + length bytes - b.cap in
    then_copy (copy_nonoverlapping b.mem cursor (take pivot bytes)) 0 (drop pivot bytes)

-- `Buffer::push`
pub push : Buffer → Bytes → Pushed
unfolding split_copy
push b bytes =
    let n = length bytes in
    let cursor = b.write % b.cap in
    if leb n (wrapping_sub (wrapping_add b.read b.cap) b.write)
    then store b n (
        if ltb b.cap (cursor + n)
        then split_copy b cursor bytes
        else copy_nonoverlapping b.mem cursor bytes)
    else full

-- `f` in `peek`: the closure returns how many bytes it has read of those that it is shown.
abbrev pub Closure : Type 0
Closure = Bytes → ℕ

-- The buffer after `peek`, the closure if it was not called, and what it was shown if it was.
pub record Peeked : Type 0 where
  pub after : Buffer
  pub left : Option Closure
  pub shown : Option Bytes

show : Buffer → ℕ → ℕ → Option Closure → Peeked
show b cursor n none = record { after = b; left = none; shown = none }
show b cursor n (some f) =
    let slice = take n (drop cursor b.mem) in
    record {
      after = record b { read = wrapping_add b.read (min (f slice) n) };
      left = none;
      shown = some slice;
    }

-- `Buffer::peek`
pub peek : Buffer → Option Closure → Peeked
unfolding show
peek b f =
    let n = min (wrapping_sub b.write b.read) (b.cap - b.read % b.cap) in
    let cursor = b.read % b.cap in
    if n == 0 then record { after = b; left = f; shown = none } else show b cursor n f

-- The statics `L0` and `L1`.
pub record Logger : Type 0 where
  pub l0 : Buffer
  pub l1 : Buffer

-- `in_main`, on the value of the register `GICC.RPR`
abbrev pub in_main : ℕ → Bool
in_main rpr = rpr == 0xff

pub data Logged : Type 0 where
  logged : Logger → Logged
  failed : Pushed → Logged

abbrev into_l0 : Logger → Pushed → Logged
into_l0 s (stored b) = logged (record s { l0 = b })
into_l0 s r = failed r

abbrev into_l1 : Logger → Pushed → Logged
into_l1 s (stored b) = logged (record s { l1 = b })
into_l1 s r = failed r

-- `log`
pub log : ℕ → Logger → Bytes → Logged
log rpr s bytes = if in_main rpr then into_l0 s (push s.l0 bytes) else into_l1 s (push s.l1 bytes)

-- `peek` of the module: what the closure is shown, if it is called.
pub record Drained : Type 0 where
  pub logger : Logger
  pub from_l1 : Option Bytes
  pub from_l0 : Option Bytes

pub peek_all : ℕ → Bool → Closure → Logger → Drained
peek_all rpr all f s =
    let p1 = peek s.l1 (some f) in
    let p0 = peek s.l0 p1.left in
    if all || in_main rpr
    then record {
      logger = record { l0 = p0.after; l1 = p1.after };
      from_l1 = p1.shown;
      from_l0 = p0.shown;
    }
    else record { logger = s; from_l1 = none; from_l0 = none }
