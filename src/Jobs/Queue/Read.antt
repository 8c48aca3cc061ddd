-- ===== src/Jobs/Queue/Read.antt =====
-- The methods of `IngestionJobStore` that only read (src/scs/indexing/jobs.py).
use scs.Base.{
  ℕ, Bool, true, Option, none, some, List, [], ◌∷◌, Text, if◌then◌else◌, text_eq, ltb, leb, any,
  take, ◌==◌, ◌&&◌, ◌||◌,
}
use scs.Jobs.Record.{Integer, pos, negsuc, Job, is_active, status_text}
use scs.Sql.{select_first, select_all}
use scs.Jobs.Rows.{Table, older}
use scs.Jobs.Queue.Enqueue.{deleting}

unfoldable pub active_deletion : Text → Table → Option Job
active_deletion repo_path table = select_first older (deleting repo_path) table

unfoldable pub has_active : Table → Bool
has_active table = any (λ row. is_active row.status) table

-- `ORDER BY updated_at DESC, created_at DESC`, equal keys in the order of insertion.
abbrev pub newer_or_same : Job → Job → Bool
newer_or_same row other =
    ltb other.updated_at row.updated_at
    || (row.updated_at == other.updated_at && leb other.created_at row.created_at)

-- The same with `rowid DESC` as the last key: of equal rows the later one comes first.
abbrev pub newer : Job → Job → Bool
newer row other =
    ltb other.updated_at row.updated_at
    || (row.updated_at == other.updated_at && ltb other.created_at row.created_at)

-- `if value:` before the clause `column = ?`
abbrev pub clause : Option Text → Text → Bool
clause none column = true
clause (some []) column = true
clause (some (c ∷ cs)) column = text_eq column (c ∷ cs)

-- `max(1, min(limit, 200))`
abbrev pub clamp_limit : Integer → ℕ
clamp_limit (negsuc n) = 1
clamp_limit (pos n) = if leb n 0 then 1 else if leb n 200 then n else 200

unfoldable pub list_recent : Option Text → Option Text → Integer → Table → List Job
list_recent repo_path status limit table = take (clamp_limit limit) (
    select_all newer_or_same
      (λ row. clause repo_path row.repo_path && clause status (status_text row.status)) table)

pub record RepositoryJobState : Type 0 where
  pub active : Option Job
  pub latest : Option Job

unfoldable pub repository_job_state : Text → Table → RepositoryJobState
repository_job_state repo_path table = record {
  active =
      select_first newer (λ row. text_eq row.repo_path repo_path && is_active row.status) table;
  latest = select_first newer (λ row. text_eq row.repo_path repo_path) table;
}
