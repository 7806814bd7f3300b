-- ===== src/Memlog/Tests.antt =====
-- The logger's theorems at concrete buffers, and runs of its operations.
use usbarmory_rust.Prelude.{
  ℕ, ◌+◌, ◌-◌, ◌≤◌, ◌<◌, ◌≡◌, [], ◌∷◌, ◌++◌, some, none, true, arith, length, replicate,
  length-replicate, get_or, drop, min,
}
use usbarmory_rust.Prelude.Bytes.{Bytes}
use usbarmory_rust.Memlog.{buffer, buffer_size, push, peek, peek_all, stored, full, out_of_bounds}
use usbarmory_rust.Memlog.Contents.{used, contents, IsValid}
use usbarmory_rust.Memlog.Push.{
  appended, push-full, push-append, push-out_of_bounds, push-split_stale, split_appended,
}
use usbarmory_rust.Memlog.Peek.{slice, peek_shows, peek_drains, take_all, peek_all-l1}

array : Bytes
array = replicate buffer_size 7

length-array : length array ≡ buffer_size
unfolding array
length-array = length-replicate {A = ℕ} buffer_size 7

-- A buffer over the array whose counters stand `n` bytes apart.
array-IsValid : (at n : ℕ) → at < 1000000 → n < 8193 → IsValid (buffer array at (at + n))
array-IsValid at n h k = omega (arith, length-array)

message : ℕ → Bytes
message n = replicate n 1

length-message : (n : ℕ) → length (message n) ≡ n
unfolding message
length-message n = length-replicate {A = ℕ} n 1

push-append_example :
    let b = appended (buffer array 5 5) (1 ∷ 2 ∷ []) in
    (push (buffer array 5 5) (1 ∷ 2 ∷ []) ≡ stored b)
    × (contents b ≡ contents (buffer array 5 5) ++ (1 ∷ 2 ∷ []))
    × IsValid b
push-append_example =
    push-append array (1 ∷ 2 ∷ []) 5 5 (array-IsValid 5 0 (omega arith) (omega arith)) (omega arith)
      (omega arith)

push-full_test : push (buffer array 0 8190) (1 ∷ 2 ∷ 3 ∷ []) ≡ full
push-full_test =
    push-full array (1 ∷ 2 ∷ 3 ∷ []) 0 8190 (array-IsValid 0 8190 (omega arith) (omega arith))
      (omega arith)

-- A message of 4 bytes, 1 byte before the end of the array.
push-out_of_bounds_example : push (buffer array 8191 8191) (message 4) ≡ out_of_bounds
push-out_of_bounds_example =
    push-out_of_bounds array (message 4) 8191 8191
      (array-IsValid 8191 0 (omega arith) (omega arith)) (omega (arith, length-message 4))
      (omega (arith, length-message 4)) (omega (arith, length-message 4))

-- A message of 4 bytes, 3 bytes before the end of the array.
push-split_stale_test :
    let b = split_appended (buffer array 8189 8189) (message 4) in
    (push (buffer array 8189 8189) (message 4) ≡ stored b)
    × (get_or (contents b) (used (buffer array 8189 8189) + (buffer_size - 1 - 8189)) 0
        ≡ get_or array (buffer_size - 1) 0)
push-split_stale_test =
    push-split_stale array (message 4) 8189 8189 (array-IsValid 8189 0 (omega arith) (omega arith))
      (omega (arith, length-message 4)) (omega (arith, length-message 4))
      (omega (arith, length-message 4))

peek_shows_example :
    let b = buffer array 8190 8194 in
    let p = peek b (some take_all) in
    (1 ≤ length (slice b))
    × (p.shown ≡ some (slice b))
    × (p.left ≡ none)
    × (contents p.after ≡ drop (min (take_all (slice b)) (length (slice b))) (contents b))
    × IsValid p.after
peek_shows_example =
    peek_shows array 8190 8194 take_all (array-IsValid 8190 4 (omega arith) (omega arith))
      (omega arith)

peek_drains_test :
    contents (peek (peek (buffer array 8190 8194) (some take_all)).after (some take_all)).after ≡ []
peek_drains_test = peek_drains array 8190 8194 (array-IsValid 8190 4 (omega arith) (omega arith))

peek_all-l1_test :
    let d = peek_all 0x80 true take_all (record { l0 = buffer array 0 1; l1 = buffer array 3 5 }) in
    (d.from_l1 ≡ some (slice (buffer array 3 5)))
    × (d.from_l0 ≡ none)
    × (d.logger.l0 ≡ buffer array 0 1)
peek_all-l1_test =
    peek_all-l1 0x80 take_all array array 0 1 3 5 (array-IsValid 0 1 (omega arith) (omega arith))
      (array-IsValid 3 2 (omega arith) (omega arith)) (omega arith)
