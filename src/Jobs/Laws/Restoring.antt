-- ===== src/Jobs/Laws/Restoring.antt =====
-- `fail_or_retry` (src/scs/indexing/jobs.py) of a force-full attempt while another job waits: where
-- its manifest goes.
use scs.Base.{ℕ, ◌+◌, ◌<◌, ◌≡◌, ◌≢◌, ap, true, Memᴰ, Text, Outcome, ok, arith}
use scs.Jobs.Record.{force_full, drop_index, Job, is_queue}
use scs.Jobs.Payload.{merge_payload}
use scs.Jobs.Rows.{Table, queued_for, get_locked}
use scs.Jobs.Queue.Finish.{fail_or_retry, absorb, other_queued}
use scs.Jobs.Sound.{IsSound}
use scs.Sql.Counting.{count-pos}
use scs.Sql.Selecting.{unique-eq}
use scs.Jobs.Laws.Settling.{merged_table, Settled, gives_up, waits, merges, fail_or_retry-Settled}

-- The job is force-full with the manifest of `row` as it stands, the acknowledgements included.
pub record Restores (row job : Job) : Type 0 where
  pub mode : job.mode ≡ force_full
  pub manifest : job.payload.force_full_snapshot ≡ row.payload.force_full_snapshot
  pub waiting : is_queue job.status ≡ true

absorb-Restores :
    (now : ℕ) (follow_up row : Job)
    → row.mode ≡ force_full
    → follow_up.mode ≢ drop_index
    → is_queue follow_up.status ≡ true
    → Restores row (absorb now follow_up row follow_up)
unfolding merge_payload
absorb-Restores now follow_up row force keeps queue = record {
  mode = ground arith;
  manifest = ground arith;
  waiting = queue;
}

Settled-Restores :
    (now : ℕ) (id error : Text) (row other : Job) (table : Table) (out : Outcome (Table × Job))
    → Settled now id error row table out
    → IsSound table
    → row.attempts + 1 < row.max_attempts
    → row.mode ≡ force_full
    → Memᴰ other table
    → other_queued row.repo_path id other ≡ true
    → other.mode ≢ drop_index
    → (changed : Table) × (job : Job) × (out ≡ ok (changed, job))
      × (job.id ≡ other.id)
      × Restores row job
Settled-Restores now id error row other table out (gives_up h e) sound limit force here t keeps =
    absurd (omega arith)
Settled-Restores now id error row other table out (waits h z e) sound limit force here t keeps =
    absurd (omega (arith, count-pos (other_queued row.repo_path id) table here t))
Settled-Restores now id error row other table out (merges follow_up h there u e) sound limit force
      here t keeps =
    let same : follow_up ≡ other =
      unique-eq (queued_for row.repo_path) table there here (ground arith) (ground arith)
        (sound.one_queued row.repo_path) in
    (
      merged_table now id error row follow_up table,
      absorb now follow_up row follow_up,
      e,
      ap (λ (j : Job). j.id) same,
      absorb-Restores now follow_up row force (rw same keeps) (ground arith),
    )

-- A force-full attempt that fails while another job of its repository waits, of any mode but a
-- deletion, passes its manifest on: the waiting job answers, is force-full and has the manifest
-- with the acknowledgements in it.
pub fail_or_retry-Restores :
    (now : ℕ) (id error : Text) (row other : Job) (table : Table)
    → IsSound table
    → get_locked id table ≡ ok row
    → row.attempts + 1 < row.max_attempts
    → row.mode ≡ force_full
    → Memᴰ other table
    → other_queued row.repo_path id other ≡ true
    → other.mode ≢ drop_index
    → (changed : Table) × (job : Job) × (fail_or_retry now id error table ≡ ok (changed, job))
      × (job.id ≡ other.id)
      × Restores row job
fail_or_retry-Restores now id error row other table sound found =
    Settled-Restores now id error row other table (fail_or_retry now id error table)
      (fail_or_retry-Settled now id error row table sound found) sound
