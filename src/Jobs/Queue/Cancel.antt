-- ===== src/Jobs/Queue/Cancel.antt =====
-- `request_cancel`, `request_cancel_all` and `cancellation_requested` of `IngestionJobStore`
-- (src/scs/indexing/jobs.py).
use scs.Base.{
  ℕ, Bool, true, false, Option, none, some, List, [], ◌∷◌, Text, codes, Outcome, ok, ◌>>=◌, ltb,
  text_ltb, ◌==◌, ◌&&◌, ◌||◌, not,
}
use scs.Jobs.Record.{
  Job, Status, queued, running, retrying, cancelling, cancelled, is_queue, is_active, is_drop,
}
use scs.Sql.{update_where, select_all}
use scs.Jobs.Rows.{Table, has_id, get, get_locked, answer}
use scs.Jobs.Queue.Finish.{release}

-- A queued job is cancelled without a change of its lease columns, which are NULL.
abbrev pub drop_queued : ℕ → Job → Job
drop_queued now row = record row {
  status = cancelled;
  phase = codes "cancelled";
  updated_at = now;
  finished_at = some now;
}

abbrev pub ask_to_stop : ℕ → Job → Job
ask_to_stop now row = record row {
  status = cancelling;
  phase = codes "cancelling";
  updated_at = now;
}

unfoldable pub cancel_by_status : ℕ → Text → Status → Table → Table
cancel_by_status now job_id queued table = update_where (has_id job_id) (drop_queued now) table
cancel_by_status now job_id retrying table = update_where (has_id job_id) (drop_queued now) table
cancel_by_status now job_id running table = update_where (has_id job_id) (ask_to_stop now) table
cancel_by_status now job_id _ table = table

unfoldable pub request_cancel : ℕ → Text → Table → Outcome (Table × Job)
unfolding cancel_by_status
request_cancel now job_id table = do
  row ← get_locked job_id table
  let changed = cancel_by_status now job_id row.status table
  answer job_id changed

abbrev pub is_running : Status → Bool
is_running running = true
is_running _ = false

abbrev pub index_work : (Status → Bool) → Job → Bool
index_work test row = test row.status && not (is_drop row.mode)

-- `ORDER BY created_at, id`
abbrev pub created_then_id : Job → Job → Bool
created_then_id row other =
    ltb row.created_at other.created_at
    || (row.created_at == other.created_at && not (text_ltb other.id row.id))

unfoldable pub reread_all : List Job → Table → Outcome (List Job)
reread_all [] table = ok []
reread_all (row ∷ rows) table = do
  job ← get_locked row.id table
  jobs ← reread_all rows table
  ok (job ∷ jobs)

-- The two `UPDATE`s of `request_cancel_all`.
unfoldable pub cancel_all_rows : ℕ → Table → Table
cancel_all_rows now table =
    update_where (index_work is_running) (ask_to_stop now)
      (update_where (index_work is_queue) (release now) table)

unfoldable pub request_cancel_all : ℕ → Table → Outcome (Table × List Job)
unfolding reread_all cancel_all_rows
request_cancel_all now table =
    let rows = select_all created_then_id (index_work is_active) table in
    let changed = cancel_all_rows now table in do jobs ← reread_all rows changed; ok (changed, jobs)

abbrev pub is_cancelling : Option Job → Bool
is_cancelling none = false
is_cancelling (some job) = cancelling_status job.status
  where
    cancelling_status : Status → Bool
    cancelling_status cancelling = true
    cancelling_status _ = false

unfoldable pub cancellation_requested : Text → Table → Bool
cancellation_requested job_id table = is_cancelling (get job_id table)
