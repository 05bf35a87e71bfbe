-- ===== src/Rotation/Reading.antt =====
-- What a log of src/runtime/jsonl_rotator.py reads after an append.
use crypto_master.Prelude.{Bool, false, Option, none, some, List, keep}
use crypto_master.Text.{Text}
use crypto_master.Dict.{Dict}
use crypto_master.Correlation.Groups.{any_of}
use crypto_master.Rotation.{Line, is_month, entries}

module _ {A : Type 0} (p : A → Bool) where
  -- Whether a file has an entry that passes.
  has_entry : List (Line A) → Bool
  has_entry ls = any_of p (entries ls)

  -- Whether a month's file has one.
  in_month : Dict (List (Line A)) → Bool
  in_month fs = any_of (λ e. has_entry e.1) (keep (λ e. is_month e.0) fs)

  -- Whether the file from before the rotation has one.
  in_legacy : Option (List (Line A)) → Bool
  in_legacy none = false
  in_legacy (some ls) = has_entry ls
