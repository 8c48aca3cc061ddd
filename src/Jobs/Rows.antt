-- ===== src/Jobs/Rows.antt =====
-- The table of src/scs/indexing/jobs.py and the reads that its methods share. An `UPDATE` is
-- written without the test of the unique index over the queued rows: that no operation breaks it
-- is proved.
use scs.Base.{
  Bool, Option, none, some, List, Text, Outcome, ok, err, ◌>>=◌, key_error, text_eq, leb, ◌&&◌,
}
use scs.Sql.{find_row}
use scs.Jobs.Record.{Job, is_queue}

abbrev pub Table : Type 0
Table = List Job

-- `WHERE id = ?`
abbrev pub has_id : Text → Job → Bool
has_id id row = text_eq row.id id

-- `ORDER BY created_at ASC`. SQL leaves the order of equal keys open; here the earlier row wins.
abbrev pub older : Job → Job → Bool
older row other = leb row.created_at other.created_at

-- `repo_path = ? AND status IN ('queued', 'retrying')`
abbrev pub queued_for : Text → Job → Bool
queued_for repo_path row = text_eq row.repo_path repo_path && is_queue row.status

-- `SELECT * FROM ingestion_jobs WHERE id = ?`
unfoldable pub get : Text → Table → Option Job
get id table = find_row (has_id id) table

-- `fetchone()` followed by `if row is None: raise KeyError(job_id)`, and `_get_locked`.
unfoldable pub get_locked : Text → Table → Outcome Job
unfolding get
get_locked id table = elim (get id table) [ none ↦ err key_error | some row ↦ ok row ]

-- `conn.commit()` and `return self._get_locked(conn, id)`.
unfoldable pub answer : Text → Table → Outcome (Table × Job)
answer id table = do job ← get_locked id table; ok (table, job)
