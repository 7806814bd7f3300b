-- ===== src/Memlog/Push.antt =====
-- `Buffer::push`: what it stores, and what its split copy does at the end of the array.
use usbarmory_rust.Prelude.{
  ℕ, ◌+◌, ◌-◌, ◌%◌, ◌≤◌, ◌<◌, ◌≡◌, ap, ◌∙◌, inr, ◌++◌, arith, length, get_or, take, drop,
  length-take, length-drop,
}
use usbarmory_rust.Prelude.Bytes.{Bytes}
use usbarmory_rust.Memlog.{
  Buffer, buffer, buffer_size, wrapping_add, wrapping_sub, copy_bytes, stored, full, out_of_bounds,
  push,
}
use usbarmory_rust.Memlog.Contents.{
  cells, used, contents, IsValid, cells-copy_bytes, length-copy_bytes, get_or-copy_bytes,
  get_or-cells,
}

-- What a copy of the message at the write counter makes of the buffer.
abbrev pub appended : Buffer → Bytes → Buffer
appended b bytes = record b {
  mem = copy_bytes b.mem (b.write % b.cap) bytes;
  write = wrapping_add b.write (length bytes);
}

-- What the two copies of a split message make of it: the first copy has as many bytes as go over.
abbrev pub split_appended : Buffer → Bytes → Buffer
split_appended b bytes =
    let pivot = b.write % b.cap + length bytes - b.cap in
    record b {
      mem = copy_bytes (copy_bytes b.mem (b.write % b.cap) (take pivot bytes)) 0 (drop pivot bytes);
      write = wrapping_add b.write (length bytes);
    }

module _ (mem bytes : Bytes) (r w : ℕ) (v : IsValid (buffer mem r w)) where
  -- The room that `push` computes is what the contents leave.
  room : wrapping_sub (wrapping_add r buffer_size) w ≡ buffer_size - used (buffer mem r w)
  room = omega arith

  -- On a valid buffer, a message that is longer than the free space panics.
  pub push-full :
      buffer_size - used (buffer mem r w) < length bytes → push (buffer mem r w) bytes ≡ full
  unfolding push
  push-full h = ground (arith, room)

  -- On a valid buffer, a message that fits in the free space and before the end of the array is
  -- appended to the contents, and the buffer stays valid.
  pub push-append :
      length bytes ≤ buffer_size - used (buffer mem r w)
      → w % buffer_size + length bytes ≤ buffer_size
      → (push (buffer mem r w) bytes ≡ stored (appended (buffer mem r w) bytes))
        × (contents (appended (buffer mem r w) bytes) ≡ contents (buffer mem r w) ++ bytes)
        × IsValid (appended (buffer mem r w) bytes)
  unfolding push
  push-append h k = (
    ground (arith, room),
    ap (cells (copy_bytes mem (w % buffer_size) bytes) r) count
        ∙ cells-copy_bytes bytes mem r (used (buffer mem r w)) (w % buffer_size) v.array
            (omega arith) k (omega arith),
    omega (arith, length-copy_bytes mem (w % buffer_size) bytes),
  )
    where
      count : used (appended (buffer mem r w) bytes) ≡ used (buffer mem r w) + length bytes
      count = omega arith

  abbrev cursor : ℕ
  cursor = w % buffer_size

  module _ (fits : length bytes ≤ buffer_size - used (buffer mem r w))
      (wraps : buffer_size < cursor + length bytes) where
    lengths :
        (p : ℕ)
        → p ≤ length bytes
        → (length (take p bytes) ≡ p) × (length (drop p bytes) ≡ length bytes - p)
    lengths p h = omega (arith, length-take p bytes, length-drop p bytes)

    -- On a valid buffer, a message that fits in the free space, but goes over the end of the array
    -- by more bytes than are left before the end, is written out of the bounds of the array.
    pub push-out_of_bounds :
        buffer_size - cursor < cursor + length bytes - buffer_size
        → push (buffer mem r w) bytes ≡ out_of_bounds
    unfolding push
    push-out_of_bounds h =
        ground (arith, room, lengths (cursor + length bytes - buffer_size) (omega arith))

    -- On a valid buffer, a message that fits in the free space, and goes over the end of the array
    -- by fewer bytes than are left before the end, is taken, but the byte of it that belongs in the
    -- last cell of the array is not written: the log shows what that cell held before.
    pub push-split_stale :
        cursor + length bytes - buffer_size < buffer_size - cursor
        → (push (buffer mem r w) bytes ≡ stored (split_appended (buffer mem r w) bytes))
          × (get_or
                (contents (split_appended (buffer mem r w) bytes))
                (used (buffer mem r w) + (buffer_size - 1 - cursor))
                0
              ≡ get_or mem (buffer_size - 1) 0)
    unfolding push
    push-split_stale h = (
      ground (
        arith,
        room,
        lengths pivot (omega arith),
        length-copy_bytes mem cursor (take pivot bytes),
      ),
      get_or-cells (split_appended (buffer mem r w) bytes).mem r
            (used (split_appended (buffer mem r w) bytes))
            (used (buffer mem r w) + (buffer_size - 1 - cursor)) (omega arith)
          ∙ ap (λ k. get_or (split_appended (buffer mem r w) bytes).mem k 0) last
          ∙ get_or-copy_bytes (drop pivot bytes) (copy_bytes mem cursor (take pivot bytes)) 0
              (buffer_size - 1) (inr (omega (arith, lengths pivot (omega arith))))
          ∙ get_or-copy_bytes (take pivot bytes) mem cursor (buffer_size - 1)
              (inr (omega (arith, lengths pivot (omega arith)))),
    )
      where
        pivot : ℕ
        pivot = cursor + length bytes - buffer_size

        last :
            (r + (used (buffer mem r w) + (buffer_size - 1 - cursor))) % buffer_size
            ≡ buffer_size - 1
        last = omega arith
