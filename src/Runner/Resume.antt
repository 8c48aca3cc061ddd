-- ===== src/Runner/Resume.antt =====
-- `IngestionJobRunner._force_snapshot_for_job` (src/scs/indexing/runner.py): the files that a
-- force-full attempt still has to do.
use scs.Base.{
  ℕ, ◌≡◌, refl, Option, none, some, List, Text, Outcome, ok, err, ◌>>=◌, runtime_error, filter_by,
  not,
}
use scs.Jobs.Record.{Job, RawFile, SnapshotEntry, absent, malformed, held}
use scs.Jobs.Rows.{Table}
use scs.Jobs.Queue.Progress.{install_force_full_snapshot}

-- The files that are not acknowledged.
abbrev pub unacknowledged : List RawFile → List RawFile
unacknowledged files = filter_by (λ file. not file.acknowledged) files

abbrev pub listed : Option (List RawFile) → Outcome (List RawFile)
listed none = err runtime_error
listed (some files) = ok (unacknowledged files)

-- The checks of the snapshot and its unacknowledged files. A missing snapshot is no object either.
unfoldable pub snapshot_records : SnapshotEntry → Outcome (List RawFile)
snapshot_records absent = err runtime_error
snapshot_records malformed = err runtime_error
snapshot_records (held snapshot) = listed snapshot.files

-- `created` is how `create_force_full_snapshot` of the pipeline ends.
unfoldable pub resume_entry :
    ℕ → Text → Outcome (List RawFile) → SnapshotEntry → Table → Outcome (Table × List RawFile)
unfolding snapshot_records
resume_entry now id created absent table = do
  records ← created
  installed ← install_force_full_snapshot now id records table
  files ← snapshot_records installed.1.payload.force_full_snapshot
  ok (installed.0, files)
resume_entry now id created malformed table = do
  files ← snapshot_records malformed
  ok (table, files)
resume_entry now id created (held snapshot) table = do
  files ← snapshot_records (held snapshot)
  ok (table, files)

-- The table after it, and the files to do.
unfoldable pub force_snapshot_for_job :
    ℕ → Job → Outcome (List RawFile) → Table → Outcome (Table × List RawFile)
unfolding resume_entry
force_snapshot_for_job now job created table =
    resume_entry now job.id created job.payload.force_full_snapshot table

-- A snapshot that is there is read without the pipeline.
pub resume_entry-held :
    (now : ℕ) (id : Text) (created : Outcome (List RawFile)) (entry : SnapshotEntry) (table : Table)
    {files : List RawFile}
    → snapshot_records entry ≡ ok files
    → resume_entry now id created entry table ≡ ok (table, files)
unfolding resume_entry snapshot_records
resume_entry-held now id created absent table h = cc
resume_entry-held now id created malformed table h = cc
resume_entry-held now id created (held snapshot) table h = rw h refl
