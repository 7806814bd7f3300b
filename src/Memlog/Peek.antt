-- ===== src/Memlog/Peek.antt =====
-- `Buffer::peek` and the draining of the log.
use usbarmory_rust.Prelude.{
  [], ℕ_discrete, true, ℕ, ◌+◌, ◌-◌, ◌%◌, ◌≤◌, ◌≡◌, ◌≢◌, refl, ap, ◌∙◌, none, some, arith, min,
  length, length-take, sym, take, drop,
}
use usbarmory_rust.Prelude.Bytes.{Bytes}
use usbarmory_rust.Memlog.{peek_all, Buffer, buffer, buffer_size, wrapping_add, Closure, peek}
use usbarmory_rust.Memlog.Contents.{
  cells, used, contents, IsValid, cells-mod, length-cells, take-cells, drop-cells, take-drop-cells,
}

-- How many bytes the closure is shown: those up to the end of the array.
abbrev pub shown_size : Buffer → ℕ
shown_size b = min (used b) (buffer_size - b.read % buffer_size)

-- What the closure is shown.
abbrev pub slice : Buffer → Bytes
slice b = take (shown_size b) (contents b)

module _ (mem : Bytes) (r w : ℕ) (f : Closure) (v : IsValid (buffer mem r w)) where
  -- An empty buffer is left alone, and the closure is left for the next buffer.
  pub peek_empty :
      used (buffer mem r w) ≡ 0
      → peek (buffer mem r w) (some f)
        ≡ record { after = buffer mem r w; left = some f; shown = none }
  unfolding peek
  peek_empty e = ground arith

  abbrev pub advanced : ℕ
  advanced = min (f (slice (buffer mem r w))) (shown_size (buffer mem r w))

  peek-eq :
      used (buffer mem r w) ≢ 0
      → peek (buffer mem r w) (some f) ≡ record {
        after = buffer mem (wrapping_add r advanced) w;
        left = none;
        shown = some (slice (buffer mem r w));
      }
  unfolding peek
  peek-eq ne = ground (
    arith,
    take-drop-cells mem r (shown_size (buffer mem r w)) (omega arith) v.array,
    take-cells mem r (used (buffer mem r w)) (shown_size (buffer mem r w)) (omega arith),
  )

  count : length (slice (buffer mem r w)) ≡ shown_size (buffer mem r w)
  count = omega (
    arith,
    length-take (shown_size (buffer mem r w)) (contents (buffer mem r w)),
    length-cells mem r (used (buffer mem r w)),
  )

  -- A valid buffer that holds bytes shows the closure the oldest of them, at least one, and advances
  -- by what the closure reports, but not past what it was shown; the buffer stays valid.
  pub peek_shows :
      used (buffer mem r w) ≢ 0
      → let p = peek (buffer mem r w) (some f) in
        (1 ≤ length (slice (buffer mem r w)))
        × (p.shown ≡ some (slice (buffer mem r w)))
        × (p.left ≡ none)
        × (contents p.after
            ≡ drop
                (min (f (slice (buffer mem r w))) (length (slice (buffer mem r w))))
                (contents (buffer mem r w)))
        × IsValid p.after
  peek_shows ne = rw (peek-eq ne, count) (omega arith, refl, refl, rest, omega arith)
    where
      rest :
          contents (buffer mem (wrapping_add r advanced) w)
          ≡ drop advanced (contents (buffer mem r w))
      rest =
          cells-mod mem (wrapping_add r advanced) (r + advanced)
            (used (buffer mem (wrapping_add r advanced) w)) (omega arith)
          ∙ ap (cells mem (r + advanced)) (omega arith)
          ∙ sym (drop-cells mem r (used (buffer mem r w)) advanced (omega arith))

-- A closure that reads all that it is shown.
abbrev pub take_all : Closure
take_all = length

module _ (mem : Bytes) (r w : ℕ) (v : IsValid (buffer mem r w)) where
  after_eq :
      used (buffer mem r w) ≢ 0
      → (peek (buffer mem r w) (some take_all)).after
        ≡ buffer mem (wrapping_add r (shown_size (buffer mem r w))) w
  after_eq ne = rw (peek-eq mem r w take_all v ne, count mem r w take_all v) (rw min_self refl)
    where
      min_self :
          min (shown_size (buffer mem r w)) (shown_size (buffer mem r w))
          ≡ shown_size (buffer mem r w)
      min_self = omega arith

no_cells : (b : Buffer) → used b ≡ 0 → contents b ≡ []
no_cells b e = rw e refl

-- What the first round leaves starts at the first cell of the array, so one more round is enough.
drain_rest :
    (mem : Bytes) (r w : ℕ)
    → IsValid (buffer mem r w)
    → used (buffer mem r w) ≤ buffer_size - r % buffer_size
    → contents (peek (buffer mem r w) (some take_all)).after ≡ []
drain_rest mem r w v h = elim (ℕ_discrete (used (buffer mem r w)) 0) [
  | yes e ↦ rw (peek_empty mem r w take_all v e) (no_cells (buffer mem r w) e)
  | no ne ↦
      rw (after_eq mem r w v ne)
        (no_cells (buffer mem (wrapping_add r (shown_size (buffer mem r w))) w) (omega arith))
]

-- Two rounds with a closure that reads all that it is shown leave nothing in a valid buffer.
pub peek_drains :
    (mem : Bytes) (r w : ℕ)
    → IsValid (buffer mem r w)
    → let once = (peek (buffer mem r w) (some take_all)).after in
      contents (peek once (some take_all)).after ≡ []
peek_drains mem r w v = elim (ℕ_discrete (used (buffer mem r w)) 0) [
  | yes e ↦ rw (peek_empty mem r w take_all v e) (rw (peek_empty mem r w take_all v e) (rw e refl))
  | no ne ↦
      rw (after_eq mem r w v ne) (
        drain_rest mem (wrapping_add r (shown_size (buffer mem r w))) w (omega arith) (omega arith))
]

-- Which buffer a call of `peek` of the module drains: here with `all`, in any context.
module _ (rpr : ℕ) (f : Closure) (mem0 mem1 : Bytes) (r0 w0 r1 w1 : ℕ)
    (v0 : IsValid (buffer mem0 r0 w0)) (v1 : IsValid (buffer mem1 r1 w1)) where
  -- With `all`, and on valid buffers: if the interrupts' buffer holds bytes, the closure is called
  -- on those, and not on the other buffer, which is left alone.
  pub peek_all-l1 :
      used (buffer mem1 r1 w1) ≢ 0
      → let d = peek_all rpr true f (record { l0 = buffer mem0 r0 w0; l1 = buffer mem1 r1 w1 }) in
        (d.from_l1 ≡ some (slice (buffer mem1 r1 w1)))
        × (d.from_l0 ≡ none)
        × (d.logger.l0 ≡ buffer mem0 r0 w0)
  unfolding peek_all peek
  peek_all-l1 ne = rw (peek-eq mem1 r1 w1 f v1 ne) (refl, ground arith, ground arith)

  -- If only the main context's buffer holds bytes, the closure is called on those.
  pub peek_all-l0 :
      used (buffer mem1 r1 w1) ≡ 0
      → used (buffer mem0 r0 w0) ≢ 0
      → let d = peek_all rpr true f (record { l0 = buffer mem0 r0 w0; l1 = buffer mem1 r1 w1 }) in
        (d.from_l1 ≡ none)
        × (d.from_l0 ≡ some (slice (buffer mem0 r0 w0)))
        × (d.logger.l1 ≡ buffer mem1 r1 w1)
  unfolding peek_all
  peek_all-l0 e ne =
      rw (peek_empty mem1 r1 w1 f v1 e, peek-eq mem0 r0 w0 f v0 ne) (refl, refl, refl)
