-- ===== src/Memlog/Contents.antt =====
-- The bytes that a ring buffer holds, oldest first, and its representation invariant.
use usbarmory_rust.Prelude.{
  ℕ, zero, suc, ◌+◌, ◌-◌, ◌%◌, ◌≤◌, ◌<◌, ◌≡◌, ◌≢◌, refl, ap, ap₂, sym, ◌∙◌, ◌⊎◌, append-nil,
  append_assoc, length-set, [], ◌∷◌, ◌++◌, arith, length, get_or, set, take, drop,
}
use usbarmory_rust.Prelude.Bytes.{Bytes}
use usbarmory_rust.Memlog.{Buffer, buffer_size, usize_mod, wrapping_sub, copy_bytes}

-- The `n` bytes from the counter `i` on; a counter names the cell at its remainder.
abbrev pub cells : Bytes → ℕ → ℕ → Bytes
cells mem i zero = []
cells mem i (suc n) = get_or mem (i % buffer_size) 0 ∷ cells mem (i + 1) n

-- The bytes between the two counters.
abbrev pub used : Buffer → ℕ
used b = wrapping_sub b.write b.read

abbrev pub contents : Buffer → Bytes
contents b = cells b.mem b.read (used b)

-- The array is in place, the counters are machine words, at most `cap` apart.
pub record IsValid (b : Buffer) : Type 0 where
  pub sized : b.cap ≡ buffer_size
  pub array : length b.mem ≡ buffer_size
  pub read_word : b.read < usize_mod
  pub write_word : b.write < usize_mod
  pub fits : used b ≤ buffer_size

pub length-cells : (mem : Bytes) (i n : ℕ) → length (cells mem i n) ≡ n
length-cells mem i zero = refl
length-cells mem i (suc n) = ap suc (length-cells mem (i + 1) n)

-- Only the remainder of the counter matters.
pub cells-mod :
    (mem : Bytes) (i j n : ℕ) → i % buffer_size ≡ j % buffer_size → cells mem i n ≡ cells mem j n
cells-mod mem i j zero e = refl
cells-mod mem i j (suc n) e =
    ap₂ ◌∷◌ (ap (λ k. get_or mem k 0) e) (cells-mod mem (i + 1) (j + 1) n (omega arith))

get_or-set_self : (xs : Bytes) (i v : ℕ) → i < length xs → get_or (set xs i v) i 0 ≡ v
get_or-set_self [] i v h = absurd (omega arith)
get_or-set_self (x ∷ xs) zero v h = refl
get_or-set_self (x ∷ xs) (suc i) v h = get_or-set_self xs i v (omega arith)

pub get_or-set_ne : (xs : Bytes) (i j v : ℕ) → i ≢ j → get_or (set xs i v) j 0 ≡ get_or xs j 0
get_or-set_ne [] i j v h = refl
get_or-set_ne (x ∷ xs) zero zero v h = absurd (h refl)
get_or-set_ne (x ∷ xs) zero (suc j) v h = refl
get_or-set_ne (x ∷ xs) (suc i) zero v h = refl
get_or-set_ne (x ∷ xs) (suc i) (suc j) v h = get_or-set_ne xs i j v (λ e. h (ap suc e))

-- A byte that is written just past the contents is appended to them.
pub cells-set :
    (mem : Bytes) (v i n at : ℕ)
    → length mem ≡ buffer_size
    → n < buffer_size
    → at ≡ (i + n) % buffer_size
    → cells (set mem at v) i (suc n) ≡ cells mem i n ++ v ∷ []
cells-set mem v i zero at l h e =
    ap (λ b. b ∷ []) (rw (at_i) (get_or-set_self mem (i % buffer_size) v (omega arith)))
  where
    at_i : at ≡ i % buffer_size
    at_i = omega arith
cells-set mem v i (suc n) at l h e =
    ap₂ ◌∷◌ (get_or-set_ne mem at (i % buffer_size) v (omega arith))
      (cells-set mem v (i + 1) n at l (omega arith) (omega arith))

pub get_or-cells :
    (mem : Bytes) (i n j : ℕ)
    → j < n
    → get_or (cells mem i n) j 0 ≡ get_or mem ((i + j) % buffer_size) 0
get_or-cells mem i zero j h = absurd (omega arith)
get_or-cells mem i (suc n) zero h = ap (λ k. get_or mem (k % buffer_size) 0) (omega arith)
get_or-cells mem i (suc n) (suc j) h =
    get_or-cells mem (i + 1) n j (omega arith)
    ∙ ap (λ k. get_or mem (k % buffer_size) 0) (omega arith)

drop-cons : (xs : Bytes) (c : ℕ) → c < length xs → drop c xs ≡ get_or xs c 0 ∷ drop (suc c) xs
drop-cons [] c h = absurd (omega arith)
drop-cons (x ∷ xs) zero h = refl
drop-cons (x ∷ xs) (suc c) h = drop-cons xs c (omega arith)

-- A slice of the array that starts at a cell is the run of bytes from there, up to the end.
pub take-drop-cells :
    (mem : Bytes) (i n : ℕ)
    → i % buffer_size + n ≤ buffer_size
    → length mem ≡ buffer_size
    → take n (drop (i % buffer_size) mem) ≡ cells mem i n
take-drop-cells mem i zero h l = refl
take-drop-cells mem i (suc zero) h l = rw (drop-cons mem (i % buffer_size) (omega arith))
take-drop-cells mem i (suc (suc n)) h l = rw (drop-cons mem (i % buffer_size) (omega arith)) (
    ap (λ t. get_or mem (i % buffer_size) 0 ∷ t)
      (ap (λ c. take (suc n) (drop c mem)) next
        ∙ take-drop-cells mem (i + 1) (suc n) (omega arith) l))
  where
    next : suc (i % buffer_size) ≡ (i + 1) % buffer_size
    next = omega arith

-- The run of bytes splits at any place.
pub drop-cells :
    (mem : Bytes) (i n k : ℕ) → k ≤ n → drop k (cells mem i n) ≡ cells mem (i + k) (n - k)
drop-cells mem i n zero h = ap₂ (cells mem) (omega arith) (omega arith)
drop-cells mem i zero (suc k) h = absurd (omega arith)
drop-cells mem i (suc n) (suc k) h =
    drop-cells mem (i + 1) n k (omega arith) ∙ ap₂ (cells mem) (omega arith) (omega arith)

pub take-cells : (mem : Bytes) (i n k : ℕ) → k ≤ n → take k (cells mem i n) ≡ cells mem i k
take-cells mem i n zero h = refl
take-cells mem i zero (suc k) h = absurd (omega arith)
take-cells mem i (suc n) (suc k) h =
    ap (λ t. get_or mem (i % buffer_size) 0 ∷ t) (take-cells mem (i + 1) n k (omega arith))

pub length-copy_bytes :
    (mem : Bytes) (at : ℕ) (src : Bytes) → length (copy_bytes mem at src) ≡ length mem
length-copy_bytes mem at [] = refl
length-copy_bytes mem at (b ∷ bs) =
    length-copy_bytes (set mem at b) (at + 1) bs ∙ length-set mem at b

-- A copy to the cell past the contents appends its bytes.
pub cells-copy_bytes :
    (src mem : Bytes) (i n at : ℕ)
    → length mem ≡ buffer_size
    → n + length src ≤ buffer_size
    → at + length src ≤ buffer_size
    → at % buffer_size ≡ (i + n) % buffer_size
    → cells (copy_bytes mem at src) i (n + length src) ≡ cells mem i n ++ src
cells-copy_bytes [] mem i n at l h k e = ap (cells mem i) (omega arith) ∙ sym (append-nil _)
cells-copy_bytes (b ∷ bs) mem i n at l h k e =
    ap (cells (copy_bytes (set mem at b) (at + 1) bs) i) (omega arith)
    ∙ cells-copy_bytes bs (set mem at b) i (suc n) (at + 1) (length-set mem at b ∙ l) (omega arith)
        (omega arith) (omega arith)
    ∙ ap (λ t. t ++ bs) (cells-set mem b i n at l (omega arith) (omega arith))
    ∙ append_assoc (cells mem i n) (b ∷ []) bs

-- A copy leaves the cells before and behind it alone.
pub get_or-copy_bytes :
    (src mem : Bytes) (at j : ℕ)
    → (j < at) ⊎ (at + length src ≤ j)
    → get_or (copy_bytes mem at src) j 0 ≡ get_or mem j 0
get_or-copy_bytes [] mem at j h = refl
get_or-copy_bytes (b ∷ bs) mem at j h =
    get_or-copy_bytes bs (set mem at b) (at + 1) j (omega arith)
    ∙ get_or-set_ne mem at j b (omega arith)
