-- ===== src/Jobs/Sound/Defs.antt =====
-- What holds of the queue's table between two calls (src/scs/indexing/jobs.py).
use scs.Base.{◌≤◌, ◌<◌, ◌≡◌, true, Text, is_some, not, count, All}
use scs.Jobs.Record.{Job, is_leased, is_active}
use scs.Jobs.Rows.{Table, has_id, queued_for}
use scs.Jobs.Queue.Claim.{busy_in}

-- A row's columns agree with its status: a lease exactly while it runs, an end exactly when it is
-- over, and an active row has attempts left.
pub record IsConsistent (row : Job) : Type 0 where
  pub owned : is_some row.lease_owner ≡ is_leased row.status
  pub leased : is_some row.lease_expires_at ≡ is_leased row.status
  pub ended : is_some row.finished_at ≡ not (is_active row.status)
  pub budget : is_active row.status ≡ true → row.attempts < row.max_attempts

pub record IsSound (table : Table) : Type 0 where
  pub one_id : (id : Text) → count (has_id id) table ≤ 1
  pub one_queued : (repo_path : Text) → count (queued_for repo_path) table ≤ 1
  pub one_leased : (key : Text) → count (busy_in key) table ≤ 1
  pub consistent : All IsConsistent table
