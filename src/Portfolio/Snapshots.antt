-- ===== src/Portfolio/Snapshots.antt =====
-- The snapshots that src/trading/portfolio.py keeps.
use crypto_master.Prelude.{
  ℕ, ◌≡◌, refl, ◌∙◌, inl, inr, Bool, true, false, ◌&&◌, none, some, List, [], ◌∷◌, ◌++◌,
  if◌then◌else◌, Bool-cases, Option-cases,
}
use crypto_master.Text.{Text, same}
use crypto_master.Dict.{Dict, lookup, insert, lookup-insert}
use crypto_master.Decimal.{Decimal, Context}
use crypto_master.Tracker.{Mode, backtest, paper, live, Store}
use crypto_master.Portfolio.{
  AssetSnapshot, SnapshotFiles, ModeDirectory, directory_of, with_directory, files_in,
  load_snapshots, save_snapshots, delete_snapshots, without, record_snapshot,
}

abbrev pub same_mode : Mode → Mode → Bool
same_mode backtest backtest = true
same_mode paper paper = true
same_mode live live = true
same_mode _ _ = false

directory_of-with_directory :
    (m n : Mode) (d : ModeDirectory) (f : SnapshotFiles)
    → directory_of n (with_directory m d f) ≡ (if same_mode n m then d else directory_of n f)
directory_of-with_directory backtest backtest d f = refl
directory_of-with_directory backtest paper d f = refl
directory_of-with_directory backtest live d f = refl
directory_of-with_directory paper backtest d f = refl
directory_of-with_directory paper paper d f = refl
directory_of-with_directory paper live d f = refl
directory_of-with_directory live backtest d f = refl
directory_of-with_directory live paper d f = refl
directory_of-with_directory live live d f = refl

directory_of-with_directory_same :
    (m n : Mode) (d : ModeDirectory) (f : SnapshotFiles)
    → same_mode n m ≡ true
    → directory_of n (with_directory m d f) ≡ d
directory_of-with_directory_same m n d f h = directory_of-with_directory m n d f ∙ rw h

directory_of-with_directory_other :
    (m n : Mode) (d : ModeDirectory) (f : SnapshotFiles)
    → same_mode n m ≡ false
    → directory_of n (with_directory m d f) ≡ directory_of n f
directory_of-with_directory_other m n d f h = directory_of-with_directory m n d f ∙ rw h

same_mode-files :
    (m n : Mode) (f : SnapshotFiles) → same_mode n m ≡ true → directory_of n f ≡ directory_of m f
same_mode-files backtest backtest f h = refl
same_mode-files paper paper f h = refl
same_mode-files live live f h = refl
same_mode-files backtest paper f h = cc
same_mode-files backtest live f h = cc
same_mode-files paper backtest f h = cc
same_mode-files paper live f h = cc
same_mode-files live backtest f h = cc
same_mode-files live paper f h = cc

-- Saving the snapshots of an account is what loading them gives, and no other load changes.
load_snapshots-save_snapshots :
    (m n : Mode) (account j : Text) (ss : List AssetSnapshot) (f : SnapshotFiles)
    → (load_snapshots n j (save_snapshots m account ss f)).0
      ≡ (if same_mode n m && same j account then ss else (load_snapshots n j f).0)
unfolding load_snapshots save_snapshots
load_snapshots-save_snapshots m n account j ss f =
    let d = files_in (directory_of m f) in
    elim (Bool-cases (same_mode n m)) [
      | inr other ↦
          rw (other, directory_of-with_directory_other m n (some (insert account ss d)) f other)
            refl
      | inl hit ↦
          let found = lookup-insert account j ss d in
          rw (hit, directory_of-with_directory_same m n (some (insert account ss d)) f hit, found)
            (elim (Bool-cases (same j account)) [
              | inl this ↦ rw this refl
              | inr that ↦ rw (that, same_mode-files m n f hit) refl
            ])
    ]

-- Loading makes a directory, which no load sees.
load_snapshots-load_snapshots :
    (m n : Mode) (account j : Text) (f : SnapshotFiles)
    → (load_snapshots n j (load_snapshots m account f).1).0 ≡ (load_snapshots n j f).0
unfolding load_snapshots
load_snapshots-load_snapshots m n account j f =
    let d : ModeDirectory = some (files_in (directory_of m f)) in
    elim (Bool-cases (same_mode n m)) [
      | inr other ↦ rw (directory_of-with_directory_other m n d f other) refl
      | inl hit ↦ rw (directory_of-with_directory_same m n d f hit, same_mode-files m n f hit) refl
    ]

module _ ⦃c : Context⦄ where
  -- A recorded snapshot stands after those that its account had in its mode, and what any other
  -- account or mode has is as before.
  pub load_snapshots-record_snapshot :
      (m n : Mode) (account currency j : Text) (balances prices : Dict Decimal) (now : ℕ)
      (s : Store) (f : SnapshotFiles)
      → let (snapshot, f') = record_snapshot m account currency balances prices now s f in
        (load_snapshots n j f').0 ≡ (
          if same_mode n m && same j account
          then (load_snapshots m account f).0 ++ snapshot ∷ []
          else (load_snapshots n j f).0)
  unfolding record_snapshot
  load_snapshots-record_snapshot m n account currency j balances prices now s f =
      let f' = (load_snapshots m account f).1 in
      let unseen = load_snapshots-load_snapshots m n account j f in
      load_snapshots-save_snapshots m n account j _ f' ∙ rw unseen refl

-- Deleting the snapshots of a mode empties that mode for every account, not only for the tracker's
-- own, and leaves the other modes.
load_snapshots-delete_snapshots :
    (m n : Mode) (j : Text) (f : SnapshotFiles)
    → (load_snapshots n j (delete_snapshots m f).1).0
      ≡ (if same_mode n m then [] else (load_snapshots n j f).0)
unfolding load_snapshots delete_snapshots lookup
load_snapshots-delete_snapshots m n j f = elim (Option-cases (directory_of m f)) [
  | inl missing ↦
      rw (missing, without)
        (elim (Bool-cases (same_mode n m)) [
          | inl hit ↦ rw (hit, same_mode-files m n f hit ∙ missing) refl
          | inr other ↦ rw other refl
        ])
  | inr (d, there) ↦
      rw (there, without)
        (elim (Bool-cases (same_mode n m)) [
          | inl hit ↦ rw (hit, directory_of-with_directory_same m n none f hit) refl
          | inr other ↦ rw (other, directory_of-with_directory_other m n none f other) refl
        ])
]
