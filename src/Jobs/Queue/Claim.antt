-- ===== src/Jobs/Queue/Claim.antt =====
-- `IngestionJobStore.claim_next` and `heartbeat` (src/scs/indexing/jobs.py).
use scs.Base.{
  ℕ, ◌+◌, Bool, Option, none, some, Text, codes, Outcome, ok, ◌>>=◌, text_eq, any, ltb, leb, ◌==◌,
  ◌&&◌, ◌||◌, not,
}
use scs.Jobs.Record.{Mode, cleanup, Job, running, is_queue, is_leased}
use scs.Sql.{update_where, select_first}
use scs.Jobs.Rows.{Table, has_id, get_locked}

-- `_utc_after(seconds)`, read from the clock at `clock`.
abbrev pub utc_after : ℕ → ℕ → ℕ
utc_after clock seconds = clock + seconds

-- `COALESCE(store_id, repo_path)`
abbrev pub store_key_of : Option Text → Text → Text
store_key_of none repo_path = repo_path
store_key_of (some store_id) repo_path = store_id

abbrev pub store_key : Job → Text
store_key row = store_key_of row.store_id row.repo_path

-- A row of the store `key` that is running or cancelling.
abbrev pub busy_in : Text → Job → Bool
busy_in key row = text_eq (store_key row) key && is_leased row.status

-- The `WHERE` of the candidate.
abbrev pub claimable : Table → Job → Bool
claimable table row = is_queue row.status && not (any (busy_in (store_key row)) table)

-- `CASE mode WHEN 'cleanup' THEN 1 ELSE 0 END`
abbrev pub lateness : Mode → ℕ
lateness cleanup = 1
lateness _ = 0

-- The `ORDER BY` of the candidate.
abbrev pub claimed_before : Job → Job → Bool
claimed_before row other =
    ltb (lateness row.mode) (lateness other.mode)
    || (lateness row.mode == lateness other.mode && leb row.created_at other.created_at)

abbrev pub lease : ℕ → Text → ℕ → Job → Job
lease now owner expires row = record row {
  status = running;
  phase = codes "running";
  lease_owner = some owner;
  lease_expires_at = some expires;
  updated_at = now;
}

-- `clock` is the second reading of the clock, for the end of the lease.
unfoldable pub claim_next : ℕ → ℕ → Text → ℕ → Table → Outcome (Table × Option Job)
claim_next now clock lease_owner lease_seconds table =
    elim (select_first claimed_before (claimable table) table) [
      | none ↦ ok (table, none)
      | some row ↦
          let changed =
            update_where (has_id row.id) (lease now lease_owner (utc_after clock lease_seconds))
              table in
          do job ← get_locked row.id changed; ok (changed, some job)
    ]

abbrev pub leased_id : Text → Job → Bool
leased_id id row = has_id id row && is_leased row.status

abbrev pub renew : ℕ → Text → ℕ → Job → Job
renew now owner expires row = record row {
  lease_owner = some owner;
  lease_expires_at = some expires;
  updated_at = now;
}

unfoldable pub heartbeat : ℕ → ℕ → Text → Text → ℕ → Table → Outcome (Table × Unit {0})
heartbeat now clock job_id lease_owner lease_seconds table = ok (
  update_where (leased_id job_id) (renew now lease_owner (utc_after clock lease_seconds)) table,
  tt,
)
