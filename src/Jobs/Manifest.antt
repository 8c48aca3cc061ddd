-- ===== src/Jobs/Manifest.antt =====
-- The force-full manifest: `_normalize_force_snapshot_files` and `_force_snapshot` of
-- src/scs/indexing/jobs.py.
use scs.Base.{
  ℕ, Bool, true, false, Option, none, some, List, [], ◌∷◌, Text, if◌then◌else◌, Outcome, ok, err,
  ◌>>=◌, ◌>>◌, raise_if, value_error, mem_text, text_ltb, codes, ◌||◌, ◌==◌,
}
use scs.Jobs.Record.{
  Integer, pos, negsuc, RawFile, SnapshotFile, Snapshot, Payload, SnapshotEntry, absent, malformed,
  held,
}

abbrev pub is_empty : Text → Bool
is_empty [] = true
is_empty (_ ∷ _) = false

-- `Path(p).is_absolute()` on POSIX.
abbrev pub is_absolute : Text → Bool
is_absolute [] = false
is_absolute (c ∷ _) = c == b'/'

abbrev pub grow_first : ℕ → List Text → List Text
grow_first c [] = (c ∷ []) ∷ []
grow_first c (part ∷ parts) = (c ∷ part) ∷ parts

-- The text split at each slash. (`Path.parts` also drops empty parts and single dots.)
unfoldable pub split_parts : Text → List Text
split_parts [] = [] ∷ []
split_parts (c ∷ cs) =
    let rest = split_parts cs in if c == b'/' then [] ∷ rest else grow_first c rest

-- `".." in Path(p).parts`
unfoldable pub has_parent_part : Text → Bool
unfolding split_parts
has_parent_part p = mem_text (codes "..") (split_parts p)

abbrev pub unsafe_path : Text → Bool
unsafe_path p = is_empty p || is_absolute p || has_parent_part p

abbrev pub present {ℓ} : {A : Type ℓ} → Option A → Outcome A
present none = err value_error
present (some a) = ok a

abbrev pub non_negative : Integer → Outcome ℕ
non_negative (pos n) = ok n
non_negative (negsuc n) = err value_error

-- The body of the loop up to the test for a repeated path. Every failure raises the same error.
unfoldable pub valid_file : RawFile → Outcome SnapshotFile
unfolding has_parent_part
valid_file file = do
  rel_path ← present file.rel_path
  raise_if (unsafe_path rel_path) value_error
  content_hash ← present file.content_hash
  raise_if (is_empty content_hash) value_error
  language ← present file.language
  size ← present file.byte_size
  byte_size ← non_negative size
  ok (record {
    rel_path = rel_path;
    content_hash = content_hash;
    language = language;
    byte_size = byte_size;
    acknowledged = file.acknowledged;
  })

-- The loop, in the order of the code, with `seen_paths`.
unfoldable pub valid_files : List Text → List RawFile → Outcome (List SnapshotFile)
unfolding valid_file
valid_files seen [] = ok []
valid_files seen (file ∷ rest) = do
  valid ← valid_file file
  raise_if (mem_text valid.rel_path seen) value_error
  others ← valid_files (valid.rel_path ∷ seen) rest
  ok (valid ∷ others)

unfoldable pub insert_file : SnapshotFile → List SnapshotFile → List SnapshotFile
insert_file file [] = file ∷ []
insert_file file (next ∷ rest) =
    let later = insert_file file rest in
    if text_ltb next.rel_path file.rel_path then next ∷ later else file ∷ next ∷ rest

-- `sorted(normalized, key=lambda file: file["rel_path"])`
unfoldable pub sort_files : List SnapshotFile → List SnapshotFile
unfolding insert_file
sort_files [] = []
sort_files (file ∷ rest) = insert_file file (sort_files rest)

unfoldable pub normalize_files : List RawFile → Outcome (List SnapshotFile)
unfolding valid_files sort_files
normalize_files given = do files ← valid_files [] given; ok (sort_files files)

-- A validated file as the JSON that is stored.
abbrev pub stored_file : SnapshotFile → RawFile
stored_file file = record {
  rel_path = some file.rel_path;
  content_hash = some file.content_hash;
  language = some file.language;
  byte_size = some (pos file.byte_size);
  acknowledged = file.acknowledged;
}

-- `_force_snapshot`: the binding of the manifest, and its files validated again.
unfoldable pub snapshot_files : SnapshotEntry → Outcome (Snapshot × List SnapshotFile)
unfolding normalize_files
snapshot_files absent = err value_error
snapshot_files malformed = err value_error
snapshot_files (held snapshot) = do
  raw ← present snapshot.files
  files ← normalize_files raw
  ok (snapshot, files)

unfoldable pub force_snapshot : Payload → Outcome (Snapshot × List SnapshotFile)
unfolding snapshot_files
force_snapshot payload = snapshot_files payload.force_full_snapshot
