-- ===== src/Jobs/Sound/Bulk.antt =====
-- The operations of src/scs/indexing/jobs.py that queue nothing and lease nothing keep the
-- invariant.
use scs.Base.{
  ℕ, ◌≡◌, Bool, Option, List, [], ◌∷◌, Text, ok, >>=-eq-ok, arith, subst, raise_if, value_error,
  runtime_error, any, not, mem_text, count, ◌==◌, sorted_set,
}
use scs.Jobs.Record.{
  Job, is_queue, is_active, Status, SnapshotEntry, absent, malformed, held, SnapshotFile, Integer,
  RawFile, Payload,
}
use scs.Jobs.Manifest.{normalize_files, force_snapshot}
use scs.Sql.{update_where, select_all}
use scs.Jobs.Rows.{Table, has_id, get_locked}
use scs.Jobs.Queue.Claim.{heartbeat, leased_id, renew, utc_after}
use scs.Jobs.Queue.Progress.{
  update_progress, report, install_force_full_snapshot, acknowledge_force_full_snapshot_files,
  set_payload, install_once, acknowledge_paths, acknowledge_some, is_force, file_paths_of,
}
use scs.Jobs.Queue.Finish.{
  complete, mark_cancelled, close, closing_status, release, absorb, fold_away,
}
use scs.Jobs.Queue.Cancel.{
  request_cancel_all, cancel_all_rows, reread_all, created_then_id, ask_to_stop, index_work,
  is_running,
}
use scs.Jobs.Sound.Defs.{IsSound}
use scs.Jobs.Sound.Reading.{answer-ok}
use scs.Jobs.Sound.Update.{IsSound-update_where}

module _ (now : ℕ) (table : Table) (sound : IsSound table) where
  pub IsSound-set_payload :
      (test : Job → Bool) (payload : Payload)
      → IsSound (update_where test (set_payload now payload) table)
  IsSound-set_payload test payload =
      IsSound-update_where test (set_payload now payload) table sound (λ row t. ground arith)
        (λ row t c. ground arith)

  pub IsSound-release : (test : Job → Bool) → IsSound (update_where test (release now) table)
  IsSound-release test =
      IsSound-update_where test (release now) table sound (λ row t. ground arith)
        (λ row t c. ground arith)

  pub IsSound-close :
      (test : Job → Bool) (s : Status) (result : Option (List (Text × Text)))
      → IsSound (update_where test (close now (closing_status s) result) table)
  IsSound-close test s result =
      IsSound-update_where test (close now (closing_status s) result) table sound
        (λ row t. ground arith) (λ row t c. ground arith)

  pub IsSound-absorb :
      (test : Job → Bool) (follow_up row : Job)
      → IsSound (update_where test (absorb now follow_up row) table)
  IsSound-absorb test follow_up row =
      IsSound-update_where test (absorb now follow_up row) table sound (λ target t. ground arith)
        (λ target t c. ground arith)

  pub IsSound-fold_away :
      (test : Job → Bool) (attempts : ℕ) (error : Text)
      → IsSound (update_where test (fold_away now attempts error) table)
  IsSound-fold_away test attempts error =
      IsSound-update_where test (fold_away now attempts error) table sound (λ row t. ground arith)
        (λ row t c. ground arith)

  pub IsSound-ask_to_stop : IsSound (update_where (index_work is_running) (ask_to_stop now) table)
  IsSound-ask_to_stop =
      IsSound-update_where (index_work is_running) (ask_to_stop now) table sound
        (λ row t. ground arith) (λ row t c. ground arith)

  pub complete-IsSound :
      (job_id : Text) (result : Option (List (Text × Text))) {changed : Table} {job : Job}
      → complete now job_id result table ≡ ok (changed, job)
      → IsSound changed
  unfolding complete
  complete-IsSound job_id result h =
      let (row, found, done) = >>=-eq-ok (get_locked job_id table) _ h in
      subst IsSound (answer-ok job_id _ done).0 (IsSound-close (has_id job_id) row.status result)

  pub mark_cancelled-IsSound :
      (job_id : Text) {changed : Table} {job : Job}
      → mark_cancelled now job_id table ≡ ok (changed, job)
      → IsSound changed
  unfolding mark_cancelled
  mark_cancelled-IsSound job_id h =
      subst IsSound (answer-ok job_id _ h).0 (IsSound-release (has_id job_id))

  pub heartbeat-IsSound :
      (clock : ℕ) (job_id lease_owner : Text) (lease_seconds : ℕ) {changed : Table}
      {done : Unit {0}}
      → heartbeat now clock job_id lease_owner lease_seconds table ≡ ok (changed, done)
      → IsSound changed
  unfolding heartbeat
  heartbeat-IsSound clock job_id lease_owner lease_seconds h = subst IsSound (ground arith) (
      IsSound-update_where (leased_id job_id)
        (renew now lease_owner (utc_after clock lease_seconds)) table sound (λ row t. ground arith)
        (λ row t c. ground arith))

  pub update_progress-IsSound :
      (job_id phase : Text) (current total : Integer) (message : Text) {changed : Table}
      {done : Unit {0}}
      → update_progress now job_id phase current total message table ≡ ok (changed, done)
      → IsSound changed
  unfolding update_progress
  update_progress-IsSound job_id phase current total message h = subst IsSound (ground arith) (
      IsSound-update_where (leased_id job_id) (report now phase current total message) table sound
        (λ row t. ground arith) (λ row t c. ground arith))

  install_once-IsSound :
      (job_id : Text) (row : Job) (files : List SnapshotFile) (entry : SnapshotEntry)
      → IsSound (install_once now job_id row files entry table)
  unfolding install_once
  install_once-IsSound job_id row files absent = IsSound-set_payload (has_id job_id) _
  install_once-IsSound job_id row files malformed = sound
  install_once-IsSound job_id row files (held snapshot) = sound

  pub install_force_full_snapshot-IsSound :
      (job_id : Text) (given : List RawFile) {changed : Table} {job : Job}
      → install_force_full_snapshot now job_id given table ≡ ok (changed, job)
      → IsSound changed
  unfolding install_force_full_snapshot
  install_force_full_snapshot-IsSound job_id given h =
      let (files, _, h₁) = >>=-eq-ok (normalize_files given) _ h in
      let (row, _, h₂) = >>=-eq-ok (get_locked job_id table) _ h₁ in
      let (_, _, h₃) = >>=-eq-ok (raise_if (not (is_force row.mode)) value_error) _ h₂ in
      subst IsSound (answer-ok job_id _ h₃).0
        (install_once-IsSound job_id row files row.payload.force_full_snapshot)

  acknowledge_some-IsSound :
      (job_id : Text) (expected : List Text) {changed : Table} {job : Job}
      → acknowledge_some now job_id expected table ≡ ok (changed, job)
      → IsSound changed
  unfolding acknowledge_some
  acknowledge_some-IsSound job_id expected h =
      let (row, _, h₁) = >>=-eq-ok (get_locked job_id table) _ h in
      let (read, _, h₂) = >>=-eq-ok (force_snapshot row.payload) _ h₁ in
      let (_, _, h₃) =
        >>=-eq-ok
          (raise_if (any (λ path. not (mem_text path (file_paths_of read.1))) expected) value_error)
          _ h₂ in
      let (_, _, h₄) =
        >>=-eq-ok (raise_if (not (count (leased_id job_id) table == 1)) runtime_error) _ h₃ in
      subst IsSound (answer-ok job_id _ h₄).0 (IsSound-set_payload (leased_id job_id) _)

  acknowledge_paths-IsSound :
      (job_id : Text) (paths : List Text) {changed : Table} {job : Job}
      → acknowledge_paths now job_id paths table ≡ ok (changed, job)
      → IsSound changed
  unfolding acknowledge_paths
  acknowledge_paths-IsSound job_id [] h = subst IsSound (answer-ok job_id _ h).0 sound
  acknowledge_paths-IsSound job_id (path ∷ paths) h =
      acknowledge_some-IsSound job_id (path ∷ paths) h

  pub acknowledge_force_full_snapshot_files-IsSound :
      (job_id : Text) (rel_paths : List Text) {changed : Table} {job : Job}
      → acknowledge_force_full_snapshot_files now job_id rel_paths table ≡ ok (changed, job)
      → IsSound changed
  unfolding acknowledge_force_full_snapshot_files
  acknowledge_force_full_snapshot_files-IsSound job_id rel_paths h =
      acknowledge_paths-IsSound job_id (sorted_set rel_paths) h

pub cancel_all_rows-IsSound :
    (now : ℕ) (table : Table) → IsSound table → IsSound (cancel_all_rows now table)
unfolding cancel_all_rows
cancel_all_rows-IsSound now table sound =
    IsSound-ask_to_stop now _ (IsSound-release now table sound (index_work is_queue))

pub request_cancel_all-IsSound :
    (now : ℕ) (table : Table)
    → IsSound table
    → {changed : Table} {jobs : List Job} → request_cancel_all now table ≡ ok (changed, jobs)
    → IsSound changed
unfolding request_cancel_all
request_cancel_all-IsSound now table sound h =
    let rows = select_all created_then_id (index_work is_active) table in
    let after = cancel_all_rows now table in
    let (_, _, h₁) =
      >>=-eq-ok {B = Table × List Job} (reread_all rows after) (λ jobs. ok (after, jobs)) h in
    subst IsSound (ground arith) (cancel_all_rows-IsSound now table sound)
