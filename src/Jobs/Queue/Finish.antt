-- ===== src/Jobs/Queue/Finish.antt =====
-- `complete`, `fail_or_retry` and `mark_cancelled` of `IngestionJobStore`
-- (src/scs/indexing/jobs.py).
use scs.Base.{
  ℕ, ◌+◌, Bool, Option, none, some, List, [], ◌++◌, Text, codes, if◌then◌else◌, Outcome, ◌>>=◌, leb,
  ◌&&◌, not,
}
use scs.Jobs.Record.{Job, Status, queued, cancelling, completed, failed, cancelled, status_text}
use scs.Jobs.Payload.{merge_payload}
use scs.Sql.{update_where, select_first}
use scs.Jobs.Rows.{Table, has_id, older, queued_for, get_locked, answer}

abbrev pub closing_status : Status → Status
closing_status cancelling = cancelled
closing_status _ = completed

-- `result or {}`
abbrev pub or_empty : Option (List (Text × Text)) → List (Text × Text)
or_empty none = []
or_empty (some entries) = entries

abbrev pub close : ℕ → Status → Option (List (Text × Text)) → Job → Job
close now status result row = record row {
  status = status;
  phase = status_text status;
  current = row.total;
  message = [];
  lease_owner = none;
  lease_expires_at = none;
  error = none;
  result = some (or_empty result);
  updated_at = now;
  finished_at = some now;
}

unfoldable pub complete : ℕ → Text → Option (List (Text × Text)) → Table → Outcome (Table × Job)
complete now job_id result table = do
  row ← get_locked job_id table
  let changed = update_where (has_id job_id) (close now (closing_status row.status) result) table
  answer job_id changed

-- The `UPDATE` of a queued follow-up by the payload of `row`, an attempt that stopped.
abbrev pub absorb : ℕ → Job → Job → Job → Job
absorb now follow_up row target =
    let merged = merge_payload follow_up.mode follow_up.payload row.mode row.payload in
    record target { mode = merged.0; payload = merged.1; updated_at = now }

abbrev pub finish_time : Status → ℕ → Option ℕ
finish_time failed now = some now
finish_time _ now = none

-- The `UPDATE` of an attempt that failed or goes back to the queue.
abbrev pub settle : ℕ → Status → ℕ → Text → Job → Job
settle now status attempts error row = record row {
  status = status;
  phase = status_text status;
  attempts = attempts;
  message = [];
  lease_owner = none;
  lease_expires_at = none;
  error = some error;
  updated_at = now;
  finished_at = finish_time status now;
}

-- The `UPDATE` of an attempt that went into a follow-up.
abbrev pub fold_away : ℕ → ℕ → Text → Job → Job
fold_away now attempts error row = record row {
  status = cancelled;
  phase = codes "cancelled";
  attempts = attempts;
  lease_owner = none;
  lease_expires_at = none;
  error = some error;
  updated_at = now;
  finished_at = some now;
}

-- `attempts >= max_attempts`
abbrev pub attempt_status : ℕ → ℕ → Status
attempt_status attempts max_attempts = if leb max_attempts attempts then failed else queued

abbrev pub other_queued : Text → Text → Job → Bool
other_queued repo_path job_id row = queued_for repo_path row && not (has_id job_id row)

unfoldable pub settle_row : ℕ → Text → Status → ℕ → Text → Table → Outcome (Table × Job)
settle_row now job_id status attempts error table =
    let changed = update_where (has_id job_id) (settle now status attempts error) table in
    answer job_id changed

unfoldable pub merge_row : ℕ → Text → Job → Job → ℕ → Text → Table → Outcome (Table × Job)
merge_row now job_id row follow_up attempts error table =
    let absorbed = update_where (has_id follow_up.id) (absorb now follow_up row) table in
    let note = error ++ codes "; merged into queued follow-up job" in
    let changed = update_where (has_id job_id) (fold_away now attempts note) absorbed in
    answer follow_up.id changed

-- A failed attempt: given up, merged into the queued follow-up of its repository, or queued again.
unfoldable pub settle_attempt : ℕ → Text → Job → ℕ → Text → Status → Table → Outcome (Table × Job)
unfolding settle_row merge_row
settle_attempt now job_id row attempts error queued table =
    elim (select_first older (other_queued row.repo_path job_id) table) [
      | none ↦ settle_row now job_id queued attempts error table
      | some follow_up ↦ merge_row now job_id row follow_up attempts error table
    ]
settle_attempt now job_id row attempts error status table =
    settle_row now job_id status attempts error table

unfoldable pub fail_or_retry : ℕ → Text → Text → Table → Outcome (Table × Job)
unfolding settle_attempt
fail_or_retry now job_id error table = do
  row ← get_locked job_id table
  let attempts = row.attempts + 1
  settle_attempt now job_id row attempts error (attempt_status attempts row.max_attempts) table

abbrev pub release : ℕ → Job → Job
release now row = record row {
  status = cancelled;
  phase = codes "cancelled";
  lease_owner = none;
  lease_expires_at = none;
  updated_at = now;
  finished_at = some now;
}

unfoldable pub mark_cancelled : ℕ → Text → Table → Outcome (Table × Job)
mark_cancelled now job_id table =
    let changed = update_where (has_id job_id) (release now) table in answer job_id changed
