-- ===== src/Fs/Closing.antt =====
-- Which files the operations of firmware/usbarmory/src/fs.rs leave open.
use usbarmory_rust.Prelude.Bytes.{Bytes}
use usbarmory_rust.Fs.Lfs.{Run, after, ◌>>◌, done, or_panic, with_opened, Lfs, IsLfs}
use usbarmory_rust.Fs.Files.{
  File, open_file, close, drop_file, open_and_then, create_and_then, close_after, close_or_drop,
}
use usbarmory_rust.Prelude.{◌≡◌, refl, ap, ◌∙◌, subst, ◌≢◌, some, List, ◌∷◌}
use usbarmory_rust.Prelude.Bytes.{Bytes}
use usbarmory_rust.Prelude.Outcome.{Outcome, ok, err, panic}

after-done :
    {S E A B : Type 0} (x : Outcome E A × S) (r : Outcome E B) → (after x (λ a. done r)).1 ≡ x.1
after-done (ok a, s) r = refl
after-done (err e, s) r = refl
after-done (panic, s) r = refl

after-err :
    {S E A B : Type 0} (x : Outcome E A × S) (k : A → Run S E B) (e : E)
    → x.0 ≡ err e
    → after x k ≡ (err e, x.1)
after-err (ok a, s) k e h = cc
after-err (err e', s) k e h = cc
after-err (panic, s) k e h = cc

or_panic-state : {S E A : Type 0} (x : Outcome E A × S) → (or_panic x).1 ≡ x.1
or_panic-state (ok a, s) = refl
or_panic-state (err e, s) = refl
or_panic-state (panic, s) = refl

module _ {S F E : Type 0} (lfs : Lfs S F E) (files : S → List F) (laws : IsLfs lfs files) where
  open laws use {opens, creates, seeks, closes}

  close-closes :
      {R : Type 0} (file : F) (rest : List F) (r : Outcome E R) (s : S)
      → files s ≡ file ∷ rest
      → files ((close lfs (record { inner = some file }) >> done r) s).1 ≡ rest
  unfolding close
  close-closes file rest r s open_now =
      ap files (after-done (lfs.close file s) r) ∙ closes file rest s open_now

  drop_file-closes :
      {R : Type 0} (file : F) (rest : List F) (r : Outcome E R) (s : S)
      → files s ≡ file ∷ rest
      → files ((drop_file lfs (record { inner = some file }) >> done r) s).1 ≡ rest
  unfolding drop_file
  drop_file-closes file rest r s open_now =
      ap files (after-done (or_panic (lfs.close file s)) r ∙ or_panic-state (lfs.close file s))
      ∙ closes file rest s open_now

  close_after-closes :
      {R : Type 0} (file : F) (rest : List F) (x : Outcome E R × S)
      → files x.1 ≡ file ∷ rest
      → x.0 ≢ panic
      → files (close_after lfs (record { inner = some file }) x).1 ≡ rest
  close_after-closes file rest (panic, s) open_now runs = absurd (runs refl)
  close_after-closes file rest (ok r, s) open_now runs = close-closes file rest (ok r) s open_now
  close_after-closes file rest (err e, s) open_now runs = close-closes file rest (err e) s open_now

  close_or_drop-closes :
      {R : Type 0} (file : F) (rest : List F) (x : Outcome E R × S)
      → files x.1 ≡ file ∷ rest
      → x.0 ≢ panic
      → files (close_or_drop lfs (record { inner = some file }) x).1 ≡ rest
  close_or_drop-closes file rest (panic, s) open_now runs = absurd (runs refl)
  close_or_drop-closes file rest (ok r, s) open_now runs = close-closes file rest (ok r) s open_now
  close_or_drop-closes file rest (err e, s) open_now runs =
      drop_file-closes file rest (err e) s open_now

  module _ {R : Type 0} (f : File F → Run S E R)
      (keeps : (file : F) (s : S) → files (f (record { inner = some file }) s).1 ≡ files s)
      (returns : (file : F) (s : S) → (f (record { inner = some file }) s).0 ≢ panic) where
    after_seek :
        (file : F) (rest : List F) (x : Outcome E (Unit {0}) × S)
        → x.0 ≡ ok tt
        → files x.1 ≡ file ∷ rest
        → files
            (after
              (after x (λ u. done (ok (record { inner = some file }))))
              (λ h s. close_after lfs h (f h s))).1
          ≡ rest
    after_seek file rest (ok u, s) sought open_now =
        let h : File F = record { inner = some file } in
        close_after-closes file rest (f h s) (keeps file s ∙ open_now) (returns file s)
    after_seek file rest (err e, s) sought open_now = cc
    after_seek file rest (panic, s) sought open_now = cc

    after_open :
        (rest : List F) (x : Outcome E F × S)
        → ((file : F) (s : S) → (lfs.seek file 0 s).0 ≡ ok tt)
        → files x.1 ≡ with_opened x.0 rest
        → files
            (after
              (after x (λ inner. lfs.seek inner 0 >> done (ok (record { inner = some inner }))))
              (λ h s. close_after lfs h (f h s))).1
          ≡ rest
    after_open rest (ok file, s) sought opened =
        after_seek file rest (lfs.seek file 0 s) (sought file s) (seeks file 0 s ∙ opened)
    after_open rest (err e, s) sought opened = opened
    after_open rest (panic, s) sought opened = opened

    after_create :
        (rest : List F) (x : Outcome E F × S)
        → files x.1 ≡ with_opened x.0 rest
        → files
            (after
              (after x (λ inner. done (ok (record { inner = some inner }))))
              (λ h s. close_or_drop lfs h (f h s))).1
          ≡ rest
    after_create rest (ok file, s) opened =
        let h : File F = record { inner = some file } in
        close_or_drop-closes file rest (f h s) (keeps file s ∙ opened) (returns file s)
    after_create rest (err e, s) opened = opened
    after_create rest (panic, s) opened = opened

    -- A closure that does not panic, and leaves open what was open, is called with a file that is
    -- closed again at the end, by `open_and_then` when seeking succeeds, and by `create_and_then`,
    -- whatever the closure returns and whether a file could be opened: the files that are open after
    -- are those that were open before.
    pub open_and_then-closes :
        (path : Bytes) (s : S)
        → ((file : F) (s : S) → (lfs.seek file 0 s).0 ≡ ok tt)
        → (files (open_and_then lfs path f s).1 ≡ files s)
          × (files (create_and_then lfs path f s).1 ≡ files s)
    unfolding open_and_then create_and_then
    open_and_then-closes path s sought = (
      after_open (files s) (lfs.open_file path s) sought (opens path s),
      after_create (files s) (lfs.create_file path s) (creates path s),
    )

  -- When littlefs2 has opened a file and then fails to seek in it, `open` returns that error, and the
  -- file is left open, with no handle that would close it.
  pub open_file-leaks :
      (path : Bytes) (s s' : S) (file : F) (e : E)
      → lfs.open_file path s ≡ (ok file, s')
      → (lfs.seek file 0 s').0 ≡ err e
      → ((open_file lfs path s).0 ≡ err e) × (files (open_file lfs path s).1 ≡ file ∷ files s)
  unfolding open_file
  open_file-leaks path s s' file e found fails =
      let stops : open_file lfs path s ≡ (err e, (lfs.seek file 0 s').1) =
        ap (λ x. after x λ inner. lfs.seek inner 0 >> done (ok (record { inner = some inner })))
          found
        ∙ after-err (lfs.seek file 0 s') (λ u. done (ok (record { inner = some file }))) e fails in
      let opened : files s' ≡ file ∷ files s =
        subst (λ (x : Outcome E F × S). files x.1 ≡ with_opened x.0 (files s)) found
          (opens path s) in
      (
        ap (λ (x : Outcome E (File F) × S). x.0) stops,
        ap (λ (x : Outcome E (File F) × S). files x.1) stops ∙ (seeks file 0 s' ∙ opened),
      )
