-- ===== src/Prelude/Chunks.antt =====
-- `chunks` of a slice of bytes, and the bytes of a list of slices.
use Prim.Native.Nat.{ℕ, zero, suc, ◌≤◌, ◌<◌, ◌*◌, ◌+◌}
use mathlib.Core.Path.{◌≡◌, refl, ap, ◌∙◌}
use mathlib.Core.List.{List, [], ◌∷◌, ◌++◌}
use native.Mathlib.Omega.{arith}
use usbarmory_rust.Prelude.Bytes.{Bytes}
use usbarmory_rust.Prelude.Lists.{length, take, drop, length-drop, length-take, take-append-drop}

-- With fuel for each chunk.
abbrev pub chunks_within : ℕ → ℕ → Bytes → List Bytes
chunks_within zero size bytes = []
chunks_within (suc fuel) size [] = []
chunks_within (suc fuel) size (b ∷ bs) =
    take size (b ∷ bs) ∷ chunks_within fuel size (drop size (b ∷ bs))

-- A chunk takes at least one byte.
abbrev pub chunks : ℕ → Bytes → List Bytes
chunks size bytes = chunks_within (length bytes) size bytes

abbrev pub concat : List Bytes → Bytes
concat [] = []
concat (c ∷ cs) = c ++ concat cs

pub concat-chunks_within :
    (fuel size : ℕ) (bs : Bytes)
    → 0 < size
    → length bs ≤ fuel
    → concat (chunks_within fuel size bs) ≡ bs
concat-chunks_within zero size [] some_size h = refl
concat-chunks_within zero size (b ∷ bs) some_size h = absurd (omega arith)
concat-chunks_within (suc fuel) size [] some_size h = refl
concat-chunks_within (suc fuel) size (b ∷ bs) some_size h =
    ap (λ t. take size (b ∷ bs) ++ t)
      (concat-chunks_within fuel size (drop size (b ∷ bs)) some_size
        (omega (arith, length-drop size (b ∷ bs))))
    ∙ take-append-drop size (b ∷ bs)

-- Every chunk has the same length.
abbrev pub AreSized : ℕ → List Bytes → Type 0
AreSized size [] = Unit
AreSized size (c ∷ cs) = (length c ≡ size) × AreSized size cs

-- The chunks of a slice whose length is a multiple of theirs are all full.
pub chunks_within-AreSized :
    (fuel size k : ℕ) (bs : Bytes)
    → length bs ≡ k * size
    → AreSized size (chunks_within fuel size bs)
chunks_within-AreSized zero size k bs h = tt
chunks_within-AreSized (suc fuel) size k [] h = tt
chunks_within-AreSized (suc fuel) size zero (b ∷ bs) h = absurd (omega arith)
chunks_within-AreSized (suc fuel) size (suc k) (b ∷ bs) h =
    let one_more : suc k * size ≡ size + k * size = grind arith in
    (
      omega (arith, length-take size (b ∷ bs)),
      chunks_within-AreSized fuel size k (drop size (b ∷ bs))
          (omega (arith, length-drop size (b ∷ bs))),
    )

-- How many chunks there are depends on the length alone.
pub length-chunks_within :
    (fuel size : ℕ) (xs ys : Bytes)
    → length xs ≡ length ys
    → length (chunks_within fuel size xs) ≡ length (chunks_within fuel size ys)
length-chunks_within zero size xs ys same = refl
length-chunks_within (suc fuel) size [] [] same = refl
length-chunks_within (suc fuel) size [] (y ∷ ys) same = absurd (omega arith)
length-chunks_within (suc fuel) size (x ∷ xs) [] same = absurd (omega arith)
length-chunks_within (suc fuel) size (x ∷ xs) (y ∷ ys) same = ap suc (
    length-chunks_within fuel size (drop size (x ∷ xs)) (drop size (y ∷ ys))
      (omega (arith, length-drop size (x ∷ xs), length-drop size (y ∷ ys))))
