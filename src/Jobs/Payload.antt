-- ===== src/Jobs/Payload.antt =====
-- `_normalize_payload`, `_mode_rank` and `_merge_payload` of src/scs/indexing/jobs.py.
use scs.Base.{ℕ, Option, none, some, List, [], ◌++◌, Text, ltb, if◌then◌else◌, sorted_set, ◌||◌}
use scs.Jobs.Record.{Mode, files, full, force_full, cleanup, drop_index, Payload, absent, is_drop}

abbrev pub empty_payload : Payload
empty_payload = record {
  file_paths = none;
  deleted_paths = none;
  force_full_snapshot = absent;
  others = [];
}

-- `payload.get(key, [])`
abbrev pub items : Option (List Text) → List Text
items none = []
items (some xs) = xs

-- `dict(payload or {})`
abbrev pub given : Option Payload → Payload
given none = empty_payload
given (some p) = p

unfoldable pub normalize_dict : Mode → Payload → Payload
normalize_dict files p = record p {
  file_paths = some (sorted_set (items p.file_paths));
  deleted_paths = some (sorted_set (items p.deleted_paths));
}
normalize_dict _ p = p

unfoldable pub normalize_payload : Mode → Option Payload → Payload
unfolding normalize_dict
normalize_payload mode payload = normalize_dict mode (given payload)

abbrev pub mode_rank : Mode → ℕ
mode_rank cleanup = 0
mode_rank files = 1
mode_rank full = 2
mode_rank force_full = 3
mode_rank drop_index = 4

-- `{key: value for key, value in payload.items() if key == "force_full_snapshot"}`
abbrev pub only_snapshot : Payload → Payload
only_snapshot p = record empty_payload { force_full_snapshot = p.force_full_snapshot }

abbrev pub files_union : Option (List Text) → Option (List Text) → Option (List Text)
files_union a b = some (sorted_set (items a ++ items b))

-- The payload of the winning mode, the branches of `_merge_payload` below the first.
unfoldable pub merge_winner : Mode → Mode → Payload → Mode → Payload → Mode × Payload
merge_winner full existing_mode existing new_mode new = (full, empty_payload)
merge_winner cleanup existing_mode existing new_mode new = (cleanup, empty_payload)
merge_winner force_full existing_mode existing force_full new = (force_full, only_snapshot new)
merge_winner force_full force_full existing new_mode new = (force_full, only_snapshot existing)
merge_winner force_full existing_mode existing new_mode new = (force_full, empty_payload)
merge_winner _ existing_mode existing new_mode new = (
  files,
  record empty_payload {
    file_paths = files_union existing.file_paths new.file_paths;
    deleted_paths = files_union existing.deleted_paths new.deleted_paths;
  },
)

unfoldable pub merge_payload : Mode → Payload → Mode → Payload → Mode × Payload
unfolding merge_winner
merge_payload existing_mode existing new_mode new =
    if is_drop existing_mode || is_drop new_mode
    then (drop_index, empty_payload)
    else merge_winner
        (if ltb (mode_rank existing_mode) (mode_rank new_mode) then new_mode else existing_mode)
        existing_mode existing new_mode new
