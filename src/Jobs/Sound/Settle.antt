-- ===== src/Jobs/Sound/Settle.antt =====
-- The ends of an attempt in src/scs/indexing/jobs.py keep the invariant: a retry queues its job
-- only where no other job of the repository is queued.
use scs.Base.{
  ℕ, ◌+◌, ◌≡◌, refl, true, Text, ok, >>=-eq-ok, arith, subst, count, ◌⊎◌, inl, inr, Option-cases,
}
use scs.Jobs.Record.{Job, Status, queued, running, retrying, is_queue, is_leased}
use scs.Sql.{update_where, select_first}
use scs.Jobs.Rows.{Table, has_id, older, get_locked}
use scs.Jobs.Queue.Claim.{busy_in, store_key}
use scs.Jobs.Queue.Finish.{
  fail_or_retry, settle_attempt, settle_row, merge_row, settle, attempt_status, other_queued,
}
use scs.Jobs.Queue.Cancel.{request_cancel, cancel_by_status, drop_queued, ask_to_stop}
use scs.Jobs.Sound.Defs.{IsSound, IsConsistent}
use scs.Sql.Counting.{select_first-none, All-mem}
use scs.Jobs.Sound.Reading.{answer-ok, get_locked-ok}
use scs.Jobs.Sound.Update.{Keeps, IsSound-update_one}
use scs.Jobs.Sound.Bulk.{IsSound-absorb, IsSound-fold_away}

-- The rule for one row, at a row that was fetched by its id.
IsSound-update_id :
    (table : Table) (sound : IsSound table) (id : Text) (row : Job) (f : Job → Job)
    → get_locked id table ≡ ok row
    → Keeps row (f row)
    → (IsConsistent row → IsConsistent (f row))
    → (is_queue (f row).status ≡ true
        → (is_queue row.status ≡ true) ⊎ (count (other_queued row.repo_path id) table ≡ 0))
    → (is_leased (f row).status ≡ true
        → (is_leased row.status ≡ true) ⊎ (count (busy_in (store_key row)) table ≡ 0))
    → IsSound (update_where (has_id id) f table)
IsSound-update_id table sound id row f found keeps fits queue busy =
    let (here, named) = get_locked-ok id table found in
    rw (← named) (
      IsSound-update_one table sound row here f keeps
        (fits (All-mem IsConsistent table here sound.consistent)) (rw (← named) at queue) busy)

-- A status that `attempt_status` gives is `failed`, or `queued` with attempts left.
settle-IsConsistent :
    (now : ℕ) (s : Status) (attempts : ℕ) (error : Text) (row : Job)
    → s ≡ attempt_status attempts row.max_attempts
    → IsConsistent (settle now s attempts error row)
settle-IsConsistent now s attempts error row e = rw e (ground arith)

module _ (now : ℕ) (table : Table) (sound : IsSound table) (job_id : Text) (row : Job)
    (found : get_locked job_id table ≡ ok row) (attempts : ℕ) (error : Text) where
  settle_row-IsSound :
      (s : Status)
      → s ≡ attempt_status attempts row.max_attempts
      → (is_queue s ≡ true → count (other_queued row.repo_path job_id) table ≡ 0)
      → {changed : Table} {job : Job}
      → settle_row now job_id s attempts error table ≡ ok (changed, job)
      → IsSound changed
  unfolding settle_row
  settle_row-IsSound s e free h = subst IsSound (answer-ok job_id _ h).0 (
      IsSound-update_id table sound job_id row (settle now s attempts error) found (ground arith)
        (λ c. settle-IsConsistent now s attempts error row e) (λ q. inr (free q)) (ground arith))

  merge_row-IsSound :
      (follow_up : Job) {changed : Table} {job : Job}
      → merge_row now job_id row follow_up attempts error table ≡ ok (changed, job)
      → IsSound changed
  unfolding merge_row
  merge_row-IsSound follow_up h = subst IsSound (answer-ok follow_up.id _ h).0 (
      IsSound-fold_away now _ (IsSound-absorb now table sound (has_id follow_up.id) follow_up row)
        (has_id job_id) attempts _)

  settle_attempt-IsSound :
      (s : Status)
      → s ≡ attempt_status attempts row.max_attempts
      → {changed : Table} {job : Job}
      → settle_attempt now job_id row attempts error s table ≡ ok (changed, job)
      → IsSound changed
  unfolding settle_attempt
  settle_attempt-IsSound queued e h =
      elim (Option-cases (select_first older (other_queued row.repo_path job_id) table)) [
        | inl none_queued ↦
            settle_row-IsSound queued e (λ q. select_first-none older _ table none_queued)
              (rw (none_queued, settle_attempt) at h)
        | inr (follow_up, e') ↦ merge_row-IsSound follow_up (rw (e', settle_attempt) at h)
      ]
  settle_attempt-IsSound s e h = settle_row-IsSound s e (λ q. ground arith) h

pub fail_or_retry-IsSound :
    (now : ℕ) (table : Table)
    → IsSound table
    → (job_id error : Text) {changed : Table} {job : Job}
    → fail_or_retry now job_id error table ≡ ok (changed, job)
    → IsSound changed
unfolding fail_or_retry
fail_or_retry-IsSound now table sound job_id error h =
    let (row, found, h₁) = >>=-eq-ok (get_locked job_id table) _ h in
    settle_attempt-IsSound now table sound job_id row found (row.attempts + 1) error
      (attempt_status (row.attempts + 1) row.max_attempts) refl h₁

module _ (now : ℕ) (table : Table) (sound : IsSound table) (job_id : Text) (row : Job)
    (found : get_locked job_id table ≡ ok row) where
  cancel_by_status-IsSound :
      (s : Status) → row.status ≡ s → IsSound (cancel_by_status now job_id s table)
  unfolding cancel_by_status
  cancel_by_status-IsSound queued e =
      IsSound-update_id table sound job_id row (drop_queued now) found (ground arith)
        (λ c. ground arith) (ground arith) (ground arith)
  cancel_by_status-IsSound retrying e =
      IsSound-update_id table sound job_id row (drop_queued now) found (ground arith)
        (λ c. ground arith) (ground arith) (ground arith)
  cancel_by_status-IsSound running e =
      IsSound-update_id table sound job_id row (ask_to_stop now) found (ground arith)
        (λ c. ground arith) (ground arith) (ground arith)
  cancel_by_status-IsSound _ e = sound

pub request_cancel-IsSound :
    (now : ℕ) (table : Table)
    → IsSound table
    → (job_id : Text) {changed : Table} {job : Job}
    → request_cancel now job_id table ≡ ok (changed, job)
    → IsSound changed
unfolding request_cancel
request_cancel-IsSound now table sound job_id h =
    let (row, found, h₁) = >>=-eq-ok (get_locked job_id table) _ h in
    subst IsSound (answer-ok job_id _ h₁).0
      (cancel_by_status-IsSound now table sound job_id row found row.status refl)
