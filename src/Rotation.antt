-- ===== src/Rotation.antt =====
-- src/runtime/jsonl_rotator.py: a log in one file a month, with a limit on the months that are read.
-- The month and a record's time come in as arguments, and so does how a line reads.
pub mod Reading
use crypto_master.Prelude.{
  ℕ, suc, ◌+◌, ◌-◌, Bool, true, false, Option, none, some, List, [], ◌∷◌, ◌++◌, ◌&&◌, ◌==◌,
  if◌then◌else◌, keep, map, ltb, leb, length,
}
use crypto_master.Text.{Text}
use crypto_master.Dict.{Dict, lookup, insert}
use crypto_master.Correlation.Groups.{before, sorted}

-- A line of a file, as it reads.
pub data Line {ℓ} (A : Type ℓ) : Type ℓ where
  blank malformed : Line A
  entry : A → Line A

-- The file from before the rotation, the files by what stands for the month in their names, and the
-- counter of lines that could not be read.
pub record LogFiles {ℓ} (A : Type ℓ) : Type ℓ where
  pub legacy : Option (List (Line A))
  pub rotated : Dict (List (Line A))
  pub malformed_line_count : ℕ

abbrev pub is_digit : ℕ → Bool
is_digit c = leb 48 c && leb c 57

-- `_MONTH_TOKEN_RE`, on ASCII
abbrev pub is_month : Text → Bool
is_month (a ∷ b ∷ d ∷ e ∷ dash ∷ f ∷ g ∷ []) =
    (is_digit a && (is_digit b && (is_digit d && is_digit e)))
    && (dash == 45 && (is_digit f && is_digit g))
is_month _ = false

-- `rotated[-n:]`, for a positive n
unfoldable pub last_items {ℓ} : {A : Type ℓ} → ℕ → List A → List A
last_items n [] = []
last_items n (x ∷ xs) =
    let rest = last_items n xs in if ltb n (suc (length xs)) then rest else x ∷ xs

-- The key of the merge: by time, the entries without one last.
abbrev pub earlier : Option ℕ → Option ℕ → Bool
earlier none t = false
earlier (some s) none = true
earlier (some s) (some t) = ltb s t

module _ {ℓ} {A : Type ℓ} where
  abbrev pub lines_of : Option (List (Line A)) → List (Line A)
  lines_of none = []
  lines_of (some ls) = ls

  -- `append`, in the month
  unfoldable pub append_entry : Text → A → LogFiles A → LogFiles A
  append_entry month a f = record f {
    rotated = insert month (lines_of (lookup month f.rotated) ++ entry a ∷ []) f.rotated;
  }

  -- `_all_rotated_paths`, each with its file
  unfoldable pub all_rotated : LogFiles A → Dict (List (Line A))
  all_rotated f = sorted (λ p q. before p.0 q.0) (keep (λ p. is_month p.0) f.rotated)

  -- `_archive_paths`, the files
  unfoldable pub archive_files : ℕ → LogFiles A → List (List (Line A))
  unfolding all_rotated last_items
  archive_files retention f =
      let kept = map (λ p. p.1) (last_items retention (all_rotated f)) in
      elim f.legacy [ none ↦ kept | some ls ↦ ls ∷ kept ]

  -- `_read_file`: the entries, and the number of lines that cannot be read.
  unfoldable pub entries : List (Line A) → List A
  entries [] = []
  entries (blank ∷ ls) = entries ls
  entries (malformed ∷ ls) = entries ls
  entries (entry a ∷ ls) = a ∷ entries ls

  unfoldable pub count_malformed : List (Line A) → ℕ
  count_malformed [] = 0
  count_malformed (blank ∷ ls) = count_malformed ls
  count_malformed (malformed ∷ ls) = suc (count_malformed ls)
  count_malformed (entry a ∷ ls) = count_malformed ls

  unfoldable pub all_entries : List (List (Line A)) → List A
  unfolding entries
  all_entries [] = []
  all_entries (ls ∷ fs) = entries ls ++ all_entries fs

  unfoldable pub all_malformed : List (List (Line A)) → ℕ
  unfolding count_malformed
  all_malformed [] = 0
  all_malformed (ls ∷ fs) = count_malformed ls + all_malformed fs

  -- `read_all`, to its end
  unfoldable pub read_all : (A → Option ℕ) → ℕ → LogFiles A → List A × LogFiles A
  unfolding archive_files all_entries all_malformed
  read_all time_of retention f =
      let files = archive_files retention f in
      (
        sorted (λ a b. earlier (time_of a) (time_of b)) (all_entries files),
        record f { malformed_line_count = f.malformed_line_count + all_malformed files },
      )
