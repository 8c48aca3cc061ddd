-- ===== src/Jobs/Queue/Enqueue.antt =====
-- `IngestionJobStore.enqueue` (src/scs/indexing/jobs.py).
use scs.Base.{
  ℕ, Bool, true, false, Option, none, some, [], ◌∷◌, ◌++◌, Text, codes, if◌then◌else◌, Outcome, ok,
  err, ◌>>=◌, value_error, integrity_error, text_eq, any, ◌&&◌,
}
use scs.Jobs.Record.{Mode, Job, Payload, queued, is_active, is_drop}
use scs.Jobs.Payload.{normalize_payload, merge_payload}
use scs.Sql.{update_where, select_first}
use scs.Jobs.Rows.{Table, has_id, older, queued_for, answer}

pub record Request : Type 0 where
  pub repo_path : Text
  pub store_id : Option Text
  pub store_generation : Option Text
  pub mode : Mode
  pub reason : Text
  pub payload : Option Payload
  pub max_attempts : ℕ

-- `repo_path = ? AND mode = 'drop_index' AND status IN (active)`
abbrev pub deleting : Text → Job → Bool
deleting repo_path row = text_eq row.repo_path repo_path && is_drop row.mode && is_active row.status

-- `reason or existing.reason`
abbrev pub or_reason : Text → Text → Text
or_reason [] old = old
or_reason (c ∷ cs) old = c ∷ cs

-- The `UPDATE` of the queued row that takes the request in.
abbrev pub coalesce : ℕ → Request → Job → Job → Job
coalesce now request existing row =
    let merged =
      merge_payload existing.mode existing.payload request.mode
        (normalize_payload request.mode request.payload) in
    record row {
      mode = merged.0;
      reason = or_reason request.reason existing.reason;
      payload = merged.1;
      updated_at = now;
      status = queued;
      error = none;
    }

-- The row of the `INSERT`.
abbrev pub new_job : ℕ → Text → Request → Job
new_job now job_id request = record {
  id = job_id;
  repo_path = request.repo_path;
  store_id = request.store_id;
  store_generation = request.store_generation;
  mode = request.mode;
  reason = request.reason;
  payload = normalize_payload request.mode request.payload;
  status = queued;
  phase = codes "queued";
  current = 0;
  total = 0;
  message = [];
  attempts = 0;
  max_attempts = request.max_attempts;
  lease_owner = none;
  lease_expires_at = none;
  error = none;
  result = none;
  created_at = now;
  updated_at = now;
  finished_at = none;
}

-- The `INSERT`: the primary key refuses an id that is in use.
unfoldable pub insert : Job → Table → Outcome Table
insert job table = if any (has_id job.id) table then err integrity_error else ok (table ++ job ∷ [])

-- The part below the test for a deletion.
unfoldable pub place : ℕ → Text → Request → Table → Outcome (Table × Job)
unfolding insert
place now job_id request table = elim (select_first older (queued_for request.repo_path) table) [
  | some existing ↦
      let changed = update_where (has_id existing.id) (coalesce now request existing) table in
      answer existing.id changed
  | none ↦ do longer ← insert (new_job now job_id request) table; answer job_id longer
]

-- With a deletion under way: another deletion is answered by it, all else is refused.
abbrev pub answer_deletion : Bool → Table → Job → Outcome (Table × Job)
answer_deletion true table deletion = ok (table, deletion)
answer_deletion false table deletion = err value_error

-- `job_id` is the generated id, `now` what `utc_now()` answers.
unfoldable pub enqueue : ℕ → Text → Request → Table → Outcome (Table × Job)
unfolding place
enqueue now job_id request table = elim (select_first older (deleting request.repo_path) table) [
  | some deletion ↦ answer_deletion (is_drop request.mode) table deletion
  | none ↦ place now job_id request table
]
