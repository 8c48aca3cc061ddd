-- ===== src/Jobs/Queue/Reclaim.antt =====
-- `IngestionJobStore.reclaim_stale_running` (src/scs/indexing/jobs.py).
use scs.Base.{
  ℕ, ◌+◌, Bool, true, false, Option, none, some, List, [], ◌∷◌, Text, codes, Outcome, ok, err,
  ◌>>=◌, type_error, text_eq, ltb, ◌&&◌, ◌||◌, not,
}
use scs.Jobs.Record.{Job, Status, cancelled, status_text, is_leased}
use scs.Sql.{update_where, select_first, select_all}
use scs.Jobs.Rows.{Table, has_id, older, queued_for, get}
use scs.Jobs.Queue.Finish.{absorb, finish_time, attempt_status}

-- `reclaim_other_owners and lease_owner`: the owner to compare with, if it is not empty.
abbrev pub own_name : Bool → Option Text → Option Text
own_name true (some (c ∷ cs)) = some (c ∷ cs)
own_name _ _ = none

-- `lease_owner IS NULL OR lease_owner != ?`
abbrev pub differs : Text → Option Text → Bool
differs owner none = true
differs owner (some holder) = not (text_eq holder owner)

-- `owner_mismatch`
abbrev pub foreign : Option Text → Job → Bool
foreign none row = false
foreign (some owner) row = differs owner row.lease_owner

abbrev pub lease_over : ℕ → Bool → Option ℕ → Bool
lease_over now foreign none = false
lease_over now foreign (some expires) = ltb expires now || foreign

-- The `WHERE` of the stale rows.
abbrev pub stale : ℕ → Option Text → Job → Bool
stale now owner row =
    is_leased row.status && lease_over now (foreign owner row) row.lease_expires_at

-- The row that the code reads again, which it takes to be there.
abbrev pub reread : Text → Table → Outcome Job
reread id table = elim (get id table) [ none ↦ err type_error | some row ↦ ok row ]

abbrev pub counted_attempts : Bool → ℕ → ℕ
counted_attempts true attempts = attempts
counted_attempts false attempts = attempts + 1

abbrev pub reclaim_note : Bool → Text
reclaim_note true = codes "Reclaimed from previous worker process"
reclaim_note false = codes "Lease expired while job was running"

-- The `UPDATE` of a stale row that went into a follow-up.
abbrev pub fold_reclaimed : ℕ → Job → Job
fold_reclaimed now row = record row {
  status = cancelled;
  phase = codes "cancelled";
  lease_owner = none;
  lease_expires_at = none;
  error = some (codes "Reclaimed into queued follow-up job");
  updated_at = now;
  finished_at = some now;
}

-- The `UPDATE` of a stale row that is given up or queued again.
abbrev pub settle_reclaimed : ℕ → Status → ℕ → Text → Job → Job
settle_reclaimed now status attempts note row = record row {
  status = status;
  phase = status_text status;
  attempts = attempts;
  lease_owner = none;
  lease_expires_at = none;
  error = some note;
  updated_at = now;
  finished_at = finish_time status now;
}

-- The body of the loop, for a row as it was read before the loop.
unfoldable pub reclaim_row : ℕ → Option Text → Job → Table → Table
reclaim_row now owner row table = elim (select_first older (queued_for row.repo_path) table) [
  | some follow_up ↦
      update_where (has_id row.id) (fold_reclaimed now)
        (update_where (has_id follow_up.id) (absorb now follow_up row) table)
  | none ↦
      let attempts = counted_attempts (foreign owner row) row.attempts in
      update_where (has_id row.id)
        (settle_reclaimed now (attempt_status attempts row.max_attempts) attempts
          (reclaim_note (foreign owner row)))
        table
]

-- The id of the row that goes on: the follow-up, or the row itself.
abbrev pub reclaimed_id : Job → Table → Text
reclaimed_id row table = elim (select_first older (queued_for row.repo_path) table) [
  | some follow_up ↦ follow_up.id
  | none ↦ row.id
]

unfoldable pub reclaim_rows : ℕ → Option Text → List Job → Table → Outcome (Table × List Job)
unfolding reclaim_row
reclaim_rows now owner [] table = ok (table, [])
reclaim_rows now owner (row ∷ rows) table =
    let changed = reclaim_row now owner row table in
    do
      job ← reread (reclaimed_id row table) changed
      rest ← reclaim_rows now owner rows changed
      ok (rest.0, job ∷ rest.1)

unfoldable pub reclaim_stale_running : ℕ → Option Text → Bool → Table → Outcome (Table × List Job)
unfolding reclaim_rows
reclaim_stale_running now lease_owner reclaim_other_owners table =
    let owner = own_name reclaim_other_owners lease_owner in
    reclaim_rows now owner (select_all older (stale now owner) table) table
