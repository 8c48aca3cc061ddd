-- ===== src/Jobs/Queue/Progress.antt =====
-- `update_progress`, `install_force_full_snapshot` and `acknowledge_force_full_snapshot_files` of
-- `IngestionJobStore` (src/scs/indexing/jobs.py).
use scs.Base.{
  ℕ, Bool, true, false, Option, some, List, [], ◌∷◌, map, Text, Outcome, ok, ◌>>=◌, ◌>>◌, raise_if,
  value_error, runtime_error, mem_text, sorted_set, any, count, ◌==◌, ◌||◌, not,
}
use scs.Jobs.Record.{
  Mode, force_full, Integer, pos, negsuc, RawFile, SnapshotFile, SnapshotEntry, absent, held,
  Payload, Job,
}
use scs.Jobs.Manifest.{normalize_files, stored_file, force_snapshot}
use scs.Sql.{update_where}
use scs.Jobs.Rows.{Table, has_id, get_locked, answer}
use scs.Jobs.Queue.Claim.{leased_id}

-- `max(0, n)`
abbrev pub at_least_zero : Integer → ℕ
at_least_zero (pos n) = n
at_least_zero (negsuc n) = 0

abbrev pub report : ℕ → Text → Integer → Integer → Text → Job → Job
report now phase current total message row = record row {
  phase = phase;
  current = at_least_zero current;
  total = at_least_zero total;
  message = message;
  updated_at = now;
}

unfoldable pub update_progress :
    ℕ → Text → Text → Integer → Integer → Text → Table → Outcome (Table × Unit {0})
update_progress now job_id phase current total message table =
    ok (update_where (leased_id job_id) (report now phase current total message) table, tt)

abbrev pub is_force : Mode → Bool
is_force force_full = true
is_force _ = false

abbrev pub set_payload : ℕ → Payload → Job → Job
set_payload now payload row = record row { payload = payload; updated_at = now }

-- `payload["force_full_snapshot"] = {...}`
abbrev pub with_snapshot : Payload → Option Text → Option Text → List SnapshotFile → Payload
with_snapshot payload store_id store_generation files = record payload {
  force_full_snapshot = held (record {
    store_id = store_id;
    store_generation = store_generation;
    files = some (map stored_file files);
  });
}

-- Only a job whose payload has no manifest is changed.
unfoldable pub install_once : ℕ → Text → Job → List SnapshotFile → SnapshotEntry → Table → Table
install_once now job_id row files absent table =
    update_where (has_id job_id)
      (set_payload now (with_snapshot row.payload row.store_id row.store_generation files)) table
install_once now job_id row files _ table = table

unfoldable pub install_force_full_snapshot : ℕ → Text → List RawFile → Table → Outcome (Table × Job)
unfolding install_once
install_force_full_snapshot now job_id given table = do
  files ← normalize_files given
  row ← get_locked job_id table
  raise_if (not (is_force row.mode)) value_error
  let changed = install_once now job_id row files row.payload.force_full_snapshot table
  answer job_id changed

abbrev pub acknowledge : List Text → SnapshotFile → SnapshotFile
acknowledge expected file = record file {
  acknowledged = mem_text file.rel_path expected || file.acknowledged;
}

abbrev pub file_paths_of : List SnapshotFile → List Text
file_paths_of files = map (λ file. file.rel_path) files

-- The transaction, for a list of paths that is not empty.
unfoldable pub acknowledge_some : ℕ → Text → List Text → Table → Outcome (Table × Job)
acknowledge_some now job_id expected table = do
  row ← get_locked job_id table
  read ← force_snapshot row.payload
  raise_if (any (λ path. not (mem_text path (file_paths_of read.1))) expected) value_error
  let payload =
      with_snapshot row.payload read.0.store_id read.0.store_generation
        (map (acknowledge expected) read.1)
  raise_if (not (count (leased_id job_id) table == 1)) runtime_error
  let changed = update_where (leased_id job_id) (set_payload now payload) table
  answer job_id changed

-- With no path the row is only read.
unfoldable pub acknowledge_paths : ℕ → Text → List Text → Table → Outcome (Table × Job)
unfolding acknowledge_some
acknowledge_paths now job_id [] table = answer job_id table
acknowledge_paths now job_id (path ∷ paths) table = acknowledge_some now job_id (path ∷ paths) table

unfoldable pub acknowledge_force_full_snapshot_files :
    ℕ → Text → List Text → Table → Outcome (Table × Job)
unfolding acknowledge_paths
acknowledge_force_full_snapshot_files now job_id rel_paths table =
    acknowledge_paths now job_id (sorted_set rel_paths) table
