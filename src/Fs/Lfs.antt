-- ===== src/Fs/Lfs.antt =====
-- The crate littlefs2 as firmware/usbarmory/src/fs.rs uses it: a parameter.
use usbarmory_rust.Prelude.Bytes.{Bytes}
use usbarmory_rust.Prelude.{ℕ, ◌≡◌, List, ◌∷◌}
use usbarmory_rust.Prelude.Bytes.{Bytes}
use usbarmory_rust.Prelude.Outcome.{Outcome, ok, err, panic}

-- An operation on the file system, its storage included; what it has done stays, however it ends.
abbrev pub Run : Type 0 → Type 0 → Type 0 → Type 0
Run S E A = S → Outcome E A × S

infixl 5 ◌>>=◌ ◌>>◌
abbrev pub after : {S E A B : Type 0} → Outcome E A × S → (A → Run S E B) → Outcome E B × S
after (ok a, s) f = f a s
after (err e, s) f = (err e, s)
after (panic, s) f = (panic, s)

abbrev pub ◌>>=◌ : {S E A B : Type 0} → Run S E A → (A → Run S E B) → Run S E B
(m >>= f) s = after (m s) f

abbrev pub ◌>>◌ : {S E A B : Type 0} → Run S E A → Run S E B → Run S E B
m >> k = m >>= λ _. k

-- A result as it is.
abbrev pub done : {S E A : Type 0} → Outcome E A → Run S E A
done r s = (r, s)

-- `unwrap`
abbrev pub or_panic : {S E A : Type 0} → Outcome E A × S → Outcome E A × S
or_panic (ok a, s) = (ok a, s)
or_panic (err e, s) = (panic, s)
or_panic (panic, s) = (panic, s)

-- The operations that are called, on a file system `S`, with files `F` and errors `E`.
pub record Lfs (S F E : Type 0) : Type 0 where
  pub no_space : E
  pub mount : Run S E (Unit {0})
  pub format : Run S E (Unit {0})
  pub available_space : Run S E ℕ
  pub create_dir : Bytes → Run S E (Unit {0})
  pub remove : Bytes → Run S E (Unit {0})
  pub open_file : Bytes → Run S E F
  pub create_file : Bytes → Run S E F
  pub seek : F → ℕ → Run S E (Unit {0})
  pub close : F → Run S E (Unit {0})
  pub len : F → Run S E ℕ
  pub read : F → Bytes → Run S E (Bytes × ℕ)
  pub write : F → Bytes → Run S E ℕ
  pub sync : F → Run S E (Unit {0})

-- The files that are open after a call that opens one.
abbrev pub with_opened : {E F : Type 0} → Outcome E F → List F → List F
with_opened (ok file) files = file ∷ files
with_opened (err e) files = files
with_opened panic files = files

-- The files that are open, the newest first. A call that opens a file opens it when it returns it, and
-- `close` closes the file even when its result is an error.
pub record IsLfs {S F E : Type 0} (lfs : Lfs S F E) (files : S → List F) : Type 0 where
  pub opens :
      (path : Bytes) (s : S)
      → files (lfs.open_file path s).1 ≡ with_opened (lfs.open_file path s).0 (files s)
  pub creates :
      (path : Bytes) (s : S)
      → files (lfs.create_file path s).1 ≡ with_opened (lfs.create_file path s).0 (files s)
  pub seeks : (file : F) (n : ℕ) (s : S) → files (lfs.seek file n s).1 ≡ files s
  pub closes :
      (file : F) (rest : List F) (s : S) → files s ≡ file ∷ rest → files (lfs.close file s).1 ≡ rest
