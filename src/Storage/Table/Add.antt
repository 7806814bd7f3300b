-- ===== src/Storage/Table/Add.antt =====
-- What `PartitionTable::add` does to a table: the index of the next free entry never moves.
use usbarmory_rust.Prelude.{
  ℕ, zero, suc, ◌≡◌, refl, List, ◌∷◌, [], some, length, set, arith, ◌∙◌, length-set, ap,
}
use usbarmory_rust.Prelude.Outcome.{ok, ◌>>=◌}
use usbarmory_rust.Storage.Table.{PartitionTable, PartitionEntry, new_table, as_slice, add}

-- The tables that a client can build: `new`, and `add` on what was built.
pub data Built : PartitionTable → Type 0 where
  empty : Built new_table
  added : {t u : PartitionTable} (e : PartitionEntry) → Built t → add t e ≡ ok u → Built u

abbrev pub replaced : PartitionTable → PartitionEntry → PartitionTable
replaced t e = record t { entries = set t.entries 0 e }

pub record Shape (t : PartitionTable) : Type 0 where
  pub first : t.index ≡ 0
  pub four : length t.entries ≡ 4

add-Shape : (t : PartitionTable) (e : PartitionEntry) → Shape t → add t e ≡ ok (replaced t e)
unfolding add
add-Shape t e s = go t.index s.first
  where
    go :
        (i : ℕ)
        → i ≡ 0
        → add (record t { index = i }) e ≡ ok (record t { entries = set t.entries 0 e; index = i })
    go zero h = ground (arith, s.four)
    go (suc i) h = absurd (omega arith)

pub Built-Shape : {t : PartitionTable} → Built t → Shape t
Built-Shape empty = record { first = refl; four = refl }
Built-Shape (added {t = t} e b h) =
    ground (arith, add-Shape t e (Built-Shape b), Built-Shape b, length-set t.entries 0 e)

-- On every table that can be built, `add` puts the entry in the first place, whatever stands there
-- and wherever the new partition starts: it reports no collision and no full table.
pub add_replaces :
    {t : PartitionTable} (e : PartitionEntry)
    → Built t
    → (add t e ≡ ok (replaced t e)) × (as_slice (replaced t e) ≡ some [])
unfolding as_slice
add_replaces {t} e b = (add-Shape t e (Built-Shape b), ground (arith, Built-Shape b))

-- Of two partitions that are added, the second takes the place of the first.
pub add-add :
    {t : PartitionTable} (e f : PartitionEntry) → Built t → (add t e >>= λ u. add u f) ≡ add t f
add-add {t} e f b =
    rw (add-Shape t e (Built-Shape b), add-Shape t f (Built-Shape b))
      (add-Shape (replaced t e) f (Built-Shape (added e b (add-Shape t e (Built-Shape b))))
        ∙ ap (λ es. ok (record t { entries = es })) (set-set t.entries))
  where
    set-set : (es : List PartitionEntry) → set (set es 0 e) 0 f ≡ set es 0 f
    set-set [] = refl
    set-set (x ∷ xs) = refl
