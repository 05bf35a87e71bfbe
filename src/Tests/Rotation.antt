-- ===== src/Tests/Rotation.antt =====
-- Tests and an instance for src/runtime/jsonl_rotator.py, on a log of numbers.
use crypto_master.Prelude.{ℕ, ◌≡◌, refl, Option, none, some, [], ◌∷◌, leb, if◌then◌else◌}
use crypto_master.Text.{Text, text, same}
use crypto_master.Dict.{lookup, insert}
use crypto_master.Correlation.Groups.{before, sorted, insert_sorted}
use crypto_master.Rotation.{
  blank, malformed, entry, LogFiles, last_items, append_entry, all_rotated, archive_files, entries,
  count_malformed, all_entries, all_malformed, read_all,
}

unfoldable logs : Unit {0}
unfolding lookup insert same before sorted insert_sorted last_items append_entry all_rotated
    archive_files entries count_malformed all_entries all_malformed read_all
logs = tt

abbrev january : Text
january = text "2026-01"

-- A number below ten is its own time.
abbrev time_of : ℕ → Option ℕ
time_of n = if leb n 9 then some n else none

abbrev log : LogFiles ℕ
log = record {
  legacy = some (entry 3 ∷ malformed ∷ []);
  rotated =
      (text "2026-02", entry 20 ∷ entry 7 ∷ [])
      ∷ (january, blank ∷ entry 5 ∷ [])
      ∷ (text "old", entry 8 ∷ [])
      ∷ [];
  malformed_line_count = 0;
}

merged :
    ((read_all time_of 2 log).0 ≡ 3 ∷ 5 ∷ 7 ∷ 20 ∷ [])
    × ((read_all time_of 2 log).1.malformed_line_count ≡ 1)
    × ((read_all time_of 1 log).0 ≡ 3 ∷ 7 ∷ 20 ∷ [])
    × ((read_all time_of 2 (append_entry january 6 log)).0 ≡ 3 ∷ 5 ∷ 6 ∷ 7 ∷ 20 ∷ [])
unfolding logs
merged = (refl, refl, refl, refl)
