-- ===== src/Jobs/Laws/Settling.antt =====
-- `fail_or_retry` (src/scs/indexing/jobs.py): where the work of a failed attempt goes.
use scs.Base.{
  ℕ, ◌+◌, ◌≤◌, ◌<◌, ◌≡◌, refl, sym, ◌∙◌, ap, subst, ◌⊎◌, inl, inr, Bool, true, false, ◌||◌, Memᴰ,
  Text, codes, ◌++◌, Outcome, ok, arith, mem_text, text_eq, Option-cases, count,
}
use scs.Jobs.Record.{files, Status, queued, failed, Job, is_queue}
use scs.Jobs.Payload.{mode_rank, items}
use scs.Sql.{update_where, select_first}
use scs.Jobs.Rows.{Table, has_id, older, get_locked, answer}
use scs.Jobs.Queue.Finish.{
  fail_or_retry, settle_attempt, settle_row, merge_row, settle, absorb, fold_away, other_queued,
  attempt_status,
}
use scs.Jobs.Sound.{IsSound}
use scs.Sql.Counting.{select_first-none, select_first-some}
use scs.Jobs.Laws.Merging.{merge_payload-covers}
use scs.Jobs.Laws.Fetching.{get_locked-mem, get_locked-update, get_locked-update_other}

-- The table after a merge into `follow_up`.
abbrev pub merged_table : ℕ → Text → Text → Job → Job → Table → Table
merged_table now id error row follow_up table =
    update_where (has_id id)
      (fold_away now (row.attempts + 1) (error ++ codes "; merged into queued follow-up job"))
      (update_where (has_id follow_up.id) (absorb now follow_up row) table)

-- The three ends of a failed attempt: its attempts are used up; it waits for another attempt; or
-- its work went into the job of its repository that waits already.
pub data Settled (now : ℕ) (id error : Text) (row : Job) (table : Table)
    (out : Outcome (Table × Job)) : Type 0 where
  gives_up :
      row.max_attempts ≤ row.attempts + 1
      → out
        ≡ ok (
          update_where (has_id id) (settle now failed (row.attempts + 1) error) table,
          settle now failed (row.attempts + 1) error row,
        )
      → Settled now id error row table out
  waits :
      row.attempts + 1 < row.max_attempts
      → count (other_queued row.repo_path id) table ≡ 0
      → out
        ≡ ok (
          update_where (has_id id) (settle now queued (row.attempts + 1) error) table,
          settle now queued (row.attempts + 1) error row,
        )
      → Settled now id error row table out
  merges :
      (follow_up : Job)
      → row.attempts + 1 < row.max_attempts
      → Memᴰ follow_up table
      → other_queued row.repo_path id follow_up ≡ true
      → out ≡ ok (merged_table now id error row follow_up table, absorb now follow_up row follow_up)
      → Settled now id error row table out

module _ (now : ℕ) (id error : Text) (row : Job) (table : Table) (sound : IsSound table)
    (found : get_locked id table ≡ ok row) where
  settle_read :
      (s : Status)
      → settle_row now id s (row.attempts + 1) error table
        ≡ ok (
          update_where (has_id id) (settle now s (row.attempts + 1) error) table,
          settle now s (row.attempts + 1) error row,
        )
  unfolding settle_row answer
  settle_read s = rw (get_locked-update id (settle now s (row.attempts + 1) error) table found refl)

  merge_read :
      (follow_up : Job)
      → Memᴰ follow_up table
      → other_queued row.repo_path id follow_up ≡ true
      → merge_row now id row follow_up (row.attempts + 1) error table
        ≡ ok (merged_table now id error row follow_up table, absorb now follow_up row follow_up)
  unfolding merge_row answer
  merge_read follow_up here other =
      let differ : text_eq follow_up.id id ≡ false = ground arith in
      let absorbed = update_where (has_id follow_up.id) (absorb now follow_up row) table in
      let note = error ++ codes "; merged into queued follow-up job" in
      let first =
        get_locked-update follow_up.id (absorb now follow_up row) table
          (get_locked-mem table sound follow_up here) refl in
      let second =
        get_locked-update_other follow_up.id id (fold_away now (row.attempts + 1) note) absorbed
          (λ r. refl) differ in
      rw (second, first)

  settle_attempt-Settled :
      (s : Status)
      → s ≡ attempt_status (row.attempts + 1) row.max_attempts
      → Settled now id error row table (settle_attempt now id row (row.attempts + 1) error s table)
  unfolding settle_attempt
  settle_attempt-Settled queued e =
      elim (Option-cases (select_first older (other_queued row.repo_path id) table)) [
        | inl z ↦
            waits (ground arith) (select_first-none older _ table z)
              (rw (z, settle_attempt) (settle_read queued))
        | inr (follow_up, z) ↦
            let (here, other) = select_first-some older (other_queued row.repo_path id) table z in
            let done = merge_read follow_up here other in
            merges follow_up (ground arith) here other (rw (z, settle_attempt) done)
      ]
  settle_attempt-Settled failed e = gives_up (ground arith) (settle_read failed)
  settle_attempt-Settled _ e = absurd (ground arith)

pub fail_or_retry-Settled :
    (now : ℕ) (id error : Text) (row : Job) (table : Table)
    → IsSound table
    → get_locked id table ≡ ok row
    → Settled now id error row table (fail_or_retry now id error table)
unfolding fail_or_retry
fail_or_retry-Settled now id error row table sound found =
    rw (found, fail_or_retry)
      (settle_attempt-Settled now id error row table sound found
        (attempt_status (row.attempts + 1) row.max_attempts) refl)

-- The job goes on with the work of `row`: it waits, it is at least as strong, and if it is file
-- work it names every path of the row.
pub record Carries (row job : Job) : Type 0 where
  pub waiting : is_queue job.status ≡ true
  pub strong : mode_rank row.mode ≤ mode_rank job.mode
  pub changed_paths :
      (path : Text)
      → job.mode ≡ files
      → mem_text path (items row.payload.file_paths) ≡ true
      → mem_text path (items job.payload.file_paths) ≡ true
  pub deleted_paths :
      (path : Text)
      → job.mode ≡ files
      → mem_text path (items row.payload.deleted_paths) ≡ true
      → mem_text path (items job.payload.deleted_paths) ≡ true

or_right : (a b : Bool) → b ≡ true → (a || b) ≡ true
or_right a b h = ground arith

absorb-Carries :
    (now : ℕ) (follow_up row : Job)
    → is_queue follow_up.status ≡ true
    → Carries row (absorb now follow_up row follow_up)
absorb-Carries now follow_up row queue =
    let (_, _, strong, paths) =
      merge_payload-covers follow_up.mode row.mode follow_up.payload row.payload in
    record {
      waiting = queue;
      strong = strong;
      changed_paths = λ path e m.
          (paths path e).0
          ∙ or_right (mem_text path (items follow_up.payload.file_paths))
              (mem_text path (items row.payload.file_paths)) m;
      deleted_paths = λ path e m.
          (paths path e).1
          ∙ or_right (mem_text path (items follow_up.payload.deleted_paths))
              (mem_text path (items row.payload.deleted_paths)) m;
    }

settle-Carries :
    (now : ℕ) (error : Text) (row : Job)
    → Carries row (settle now queued (row.attempts + 1) error row)
settle-Carries now error row = record {
  waiting = refl;
  strong = omega arith;
  changed_paths = λ path e m. m;
  deleted_paths = λ path e m. m;
}

pair-injective : {a b : Table × Job} → ◌≡◌ {A = Outcome (Table × Job)} (ok a) (ok b) → a.1 ≡ b.1
pair-injective h = cc

Settled-Carries :
    (now : ℕ) (id error : Text) (row : Job) (table changed : Table) (job : Job)
    (out : Outcome (Table × Job))
    → Settled now id error row table out
    → out ≡ ok (changed, job)
    → (row.max_attempts ≤ row.attempts + 1) × (job.status ≡ failed) ⊎ Carries row job
Settled-Carries now id error row table changed job out (gives_up h e) d =
    inl (h, ap (λ (j : Job). j.status) (pair-injective (sym d ∙ e)))
Settled-Carries now id error row table changed job out (waits h z e) d =
    inr (subst (Carries row) (pair-injective (sym e ∙ d)) (settle-Carries now error row))
Settled-Carries now id error row table changed job out (merges follow_up h here other e) d = inr (
    subst (Carries row) (pair-injective (sym e ∙ d))
      (absorb-Carries now follow_up row (ground arith)))

-- No failure loses work: unless the attempts are used up and the answer is the failed job, the job
-- that is answered waits and goes on with the work of the attempt.
pub fail_or_retry-Carries :
    (now : ℕ) (id error : Text) (row : Job) (table changed : Table) (job : Job)
    → IsSound table
    → get_locked id table ≡ ok row
    → fail_or_retry now id error table ≡ ok (changed, job)
    → (row.max_attempts ≤ row.attempts + 1) × (job.status ≡ failed) ⊎ Carries row job
fail_or_retry-Carries now id error row table changed job sound found h =
    Settled-Carries now id error row table changed job (fail_or_retry now id error table)
      (fail_or_retry-Settled now id error row table sound found) h
