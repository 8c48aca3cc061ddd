-- ===== src/Jobs/Laws/CancelOne.antt =====
-- `request_cancel` (src/scs/indexing/jobs.py): what a cancellation of one job comes to.
use scs.Base.{ℕ, ◌≡◌, ◌≢◌, some, refl, ap, true, false, not, Text, ok, arith, filter_by, text_eq}
use scs.Jobs.Record.{Job, Status, running, retrying, queued, cancelling, cancelled, is_queue}
use scs.Sql.{update_where}
use scs.Jobs.Rows.{Table, has_id, get, get_locked, answer}
use scs.Jobs.Queue.Cancel.{
  ask_to_stop, request_cancel, cancel_by_status, drop_queued, cancellation_requested,
}
use scs.Jobs.Laws.Fetching.{get_locked-update}
use scs.Jobs.Laws.Cancelling.{filter-update_where}

-- The job is the same work, under the same attempt.
pub record KeepsWork (row job : Job) : Type 0 where
  pub id : job.id ≡ row.id
  pub repo_path : job.repo_path ≡ row.repo_path
  pub mode : job.mode ≡ row.mode
  pub payload : job.payload ≡ row.payload
  pub attempts : job.attempts ≡ row.attempts

-- What a cancellation of one job comes to, in the table after it: the job waited and is over; it
-- runs, its worker is told to stop and keeps the lease; or it is past cancelling and stays.
pub data Cancelled (now : ℕ) (id : Text) (row job : Job) (changed : Table) : Type 0 where
  at_once :
      is_queue row.status ≡ true
      → job.status ≡ cancelled
      → job.finished_at ≡ some now
      → KeepsWork row job
      → Cancelled now id row job changed
  asked :
      row.status ≡ running
      → job.status ≡ cancelling
      → cancellation_requested id changed ≡ true
      → (job.lease_owner ≡ row.lease_owner) × (job.lease_expires_at ≡ row.lease_expires_at)
      → job.finished_at ≡ row.finished_at
      → KeepsWork row job
      → Cancelled now id row job changed
  stays :
      is_queue row.status ≡ false
      → row.status ≢ running
      → job ≡ row
      → Cancelled now id row job changed

others_kept :
    (id : Text) (f : Job → Job) (table : Table)
    → ((row : Job) → (f row).id ≡ row.id)
    → filter_by (λ r. not (has_id id r)) (update_where (has_id id) f table)
      ≡ filter_by (λ r. not (has_id id r)) table
others_kept id f table keeps =
    filter-update_where (λ r. not (has_id id r)) (has_id id) f (λ row t. rw t)
      (λ row. ap (λ x. not (text_eq x id)) (keeps row)) table

module _ (now : ℕ) (id : Text) (row : Job) (table : Table)
    (found : get_locked id table ≡ ok row) where
  -- The answer after an update of the job.
  abbrev Ends : Table → Job → Type 0
  Ends changed job =
      (answer id changed ≡ ok (changed, job))
      × (get_locked id changed ≡ ok job)
      × (filter_by (λ r. not (has_id id r)) changed ≡ filter_by (λ r. not (has_id id r)) table)

  update-Ends :
      (f : Job → Job)
      → ((r : Job) → (f r).id ≡ r.id)
      → Ends (update_where (has_id id) f table) (f row)
  unfolding answer
  update-Ends f keeps =
      let read = get_locked-update id f table found (keeps row) in
      (rw read, read, others_kept id f table keeps)

  kept-Ends : Ends table row
  unfolding answer
  kept-Ends = (rw found, found, refl)

  get_locked-cancelling :
      (changed : Table) (job : Job)
      → get_locked id changed ≡ ok job
      → job.status ≡ cancelling
      → cancellation_requested id changed ≡ true
  unfolding cancellation_requested get_locked get
  get_locked-cancelling changed job read status = ground arith

  drop_queued-KeepsWork : KeepsWork row (drop_queued now row)
  drop_queued-KeepsWork = record {
    id = refl;
    repo_path = refl;
    mode = refl;
    payload = refl;
    attempts = refl;
  }

  ask_to_stop-KeepsWork : KeepsWork row (ask_to_stop now row)
  ask_to_stop-KeepsWork = record {
    id = refl;
    repo_path = refl;
    mode = refl;
    payload = refl;
    attempts = refl;
  }

  cancel_by_status-Cancelled :
      (s : Status)
      → row.status ≡ s
      → (job : Job) × Ends (cancel_by_status now id s table) job
        × Cancelled now id row job (cancel_by_status now id s table)
  unfolding cancel_by_status
  cancel_by_status-Cancelled queued e =
      let ends = update-Ends (drop_queued now) (λ r. refl) in
      (drop_queued now row, ends, at_once (rw e refl) refl refl drop_queued-KeepsWork)
  cancel_by_status-Cancelled retrying e =
      let ends = update-Ends (drop_queued now) (λ r. refl) in
      (drop_queued now row, ends, at_once (rw e refl) refl refl drop_queued-KeepsWork)
  cancel_by_status-Cancelled running e =
      let ends = update-Ends (ask_to_stop now) (λ r. refl) in
      let told = get_locked-cancelling _ (ask_to_stop now row) ends.1 refl in
      (ask_to_stop now row, ends, asked e refl told (refl, refl) refl ask_to_stop-KeepsWork)
  cancel_by_status-Cancelled _ e = (row, kept-Ends, stays (rw e refl) (λ r. ground arith) refl)

-- Cancelling one job always answers with the job that the table then holds: a waiting job is
-- cancelled at once, a running one is told to stop, and a job in any other status, and every other
-- row, is left as it is.
pub request_cancel-Cancelled :
    (now : ℕ) (id : Text) (row : Job) (table : Table)
    → get_locked id table ≡ ok row
    → (changed : Table) × (job : Job) × (request_cancel now id table ≡ ok (changed, job))
      × (get_locked id changed ≡ ok job)
      × Cancelled now id row job changed
      × (filter_by (λ r. not (has_id id r)) changed ≡ filter_by (λ r. not (has_id id r)) table)
unfolding request_cancel
request_cancel-Cancelled now id row table found =
    let (job, (done, read, rest), ended) =
      cancel_by_status-Cancelled now id row table found row.status refl in
    (
      cancel_by_status now id row.status table,
      job,
      rw (found, request_cancel) done,
      read,
      ended,
      rest,
    )
