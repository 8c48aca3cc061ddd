-- ===== src/Runner/Ending.antt =====
-- How a round of the worker ends (src/scs/indexing/runner.py).
use scs.Base.{
  ℕ, ◌+◌, ◌<◌, ◌≡◌, ◌≢◌, refl, sym, ap, ◌∙◌, Bool, true, false, Option, none, some, List, [], ◌∷◌,
  Text, Outcome, ok, arith, count, inl, inr, Bool-cases, ◌++◌, codes,
}
use scs.Sql.{update_where}
use scs.Jobs.Record.{Job, queued, failed, cancelled, cancelling, is_leased, is_queue}
use scs.Jobs.Rows.{Table, has_id, get_locked, answer}
use scs.Jobs.Queue.Claim.{leased_id}
use scs.Jobs.Queue.Finish.{
  complete, fail_or_retry, mark_cancelled, close, closing_status, release, settle, fold_away,
}
use scs.Jobs.Queue.Cancel.{cancellation_requested}
use scs.Jobs.Sound.{IsSound, complete-IsSound, mark_cancelled-IsSound, fail_or_retry-IsSound}
use scs.Jobs.Laws.Fetching.{get_locked-update}
use scs.Jobs.Laws.Settling.{fail_or_retry-Carries, gives_up, waits, merges, fail_or_retry-Settled}
use scs.Runner.Round.{
  Execution, finished, stopped, raised, complete_round, publish_final, close_round, end_round,
}

-- No row is leased under an id once that row got a status that has no lease.
not_leased :
    (id : Text) (f : Job → Job) (rows : Table)
    → ((row : Job) → is_leased (f row).status ≡ false)
    → count (leased_id id) (update_where (has_id id) f rows) ≡ 0
not_leased id f [] h = refl
not_leased id f (row ∷ rows) h = ground (arith, h row, not_leased id f rows h)

-- What the end of a round guarantees for the job.
abbrev pub Released : Text → Outcome (Table × Job) → Type 0
Released id out =
    (changed : Table) × (job : Job) × (out ≡ ok (changed, job))
    × IsSound changed
    × (count (leased_id id) changed ≡ 0)

closing_status-idle : (s : _) → is_leased (closing_status s) ≡ false
closing_status-idle s = ground arith

module _ (now : ℕ) (id : Text) (row : Job) (table : Table) (sound : IsSound table)
    (found : get_locked id table ≡ ok row) where
  fail_or_retry-Released : (error : Text) → Released id (fail_or_retry now id error table)
  fail_or_retry-Released error = elim (fail_or_retry-Settled now id error row table sound found) [
    | gives_up h e ↦ (
      _,
      _,
      e,
      fail_or_retry-IsSound now table sound id error e,
      not_leased id (settle now failed (row.attempts + 1) error) table (λ r. refl),
    )
    | waits h z e ↦ (
      _,
      _,
      e,
      fail_or_retry-IsSound now table sound id error e,
      not_leased id (settle now queued (row.attempts + 1) error) table (λ r. refl),
    )
    | merges follow_up h here other e ↦ (
      _,
      _,
      e,
      fail_or_retry-IsSound now table sound id error e,
      not_leased id
          (fold_away now (row.attempts + 1) (error ++ codes "; merged into queued follow-up job")) _
          (λ r. refl),
    )
  ]

  mark_cancelled-answer :
      mark_cancelled now id table
      ≡ ok (update_where (has_id id) (release now) table, release now row)
  unfolding mark_cancelled answer
  mark_cancelled-answer = rw (get_locked-update id (release now) table found refl)

  complete-answer :
      (result : List (Text × Text))
      → complete now id (some result) table
        ≡ ok (
          update_where (has_id id) (close now (closing_status row.status) (some result)) table,
          close now (closing_status row.status) (some result) row,
        )
  unfolding complete answer
  complete-answer result =
      rw (found, complete)
        (rw
          (get_locked-update id (close now (closing_status row.status) (some result)) table found
            refl)
          refl)

  mark_cancelled-Released : Released id (mark_cancelled now id table)
  mark_cancelled-Released = (
    _,
    _,
    mark_cancelled-answer,
    mark_cancelled-IsSound now table sound id mark_cancelled-answer,
    not_leased id (release now) table (λ r. refl),
  )

  complete-Released :
      (result : List (Text × Text)) → Released id (complete now id (some result) table)
  complete-Released result = (
    _,
    _,
    complete-answer result,
    complete-IsSound now table sound id (some result) (complete-answer result),
    not_leased id (close now (closing_status row.status) (some result)) table
        (λ r. closing_status-idle row.status),
  )

module _ (now : ℕ) (id : Text) (row : Job) (table : Table) (sound : IsSound table)
    (found : get_locked id table ≡ ok row) where
  -- A publication that raises after the job was closed.
  publish_final-Released :
      (f : Job → Job) (publication : Option Text)
      → (f row).id ≡ row.id
      → ((r : Job) → is_leased (f r).status ≡ false)
      → IsSound (update_where (has_id id) f table)
      → Released id (publish_final now id publication (update_where (has_id id) f table, f row))
  unfolding publish_final
  publish_final-Released f none same idle s = (_, _, refl, s, not_leased id f table idle)
  publish_final-Released f (some error) same idle s =
      fail_or_retry-Released now id (f row) (update_where (has_id id) f table) s
        (get_locked-update id f table found same) error

  close_round-Released :
      (result : List (Text × Text)) (asked : Bool) (callback publication : Option Text)
      → Released id (close_round now id result asked callback publication table)
  unfolding close_round complete_round
  close_round-Released result true callback publication =
      rw (mark_cancelled-answer now id row table sound found) (
        publish_final-Released (release now) publication refl (λ r. refl)
          (mark_cancelled-IsSound now table sound id
            (mark_cancelled-answer now id row table sound found)))
  close_round-Released result false none publication =
      rw (complete-answer now id row table sound found result) (
        publish_final-Released (close now (closing_status row.status) (some result)) publication
          refl (λ r. closing_status-idle row.status)
          (complete-IsSound now table sound id (some result)
            (complete-answer now id row table sound found result)))
  close_round-Released result false (some error) publication =
      fail_or_retry-Released now id row table sound found error

-- Whether an execution and the callbacks end with a result, IngestionCancelled or another Exception,
-- and whatever the table became meanwhile, as long as it is sound and has the job, the round ends: its last transaction answers, the table stays sound, and
-- the job is left without a lease.
pub end_round-Released :
    (now : ℕ) (id : Text) (row : Job) (table reading : Table) (execution : Execution)
    (callback publication : Option Text)
    → IsSound table
    → get_locked id table ≡ ok row
    → Released id (end_round now id execution reading callback publication table)
unfolding end_round
end_round-Released now id row table reading (finished result) callback publication sound found =
    close_round-Released now id row table sound found result (cancellation_requested id reading)
      callback publication
end_round-Released now id row table reading stopped callback publication sound found =
    mark_cancelled-Released now id row table sound found
end_round-Released now id row table reading (raised error) callback publication sound found =
    fail_or_retry-Released now id row table sound found error

answer-injective :
    {t u : Table} {a b : Job} → ◌≡◌ {A = Outcome (Table × Job)} (ok (t, a)) (ok (u, b)) → a ≡ b
answer-injective h = cc

-- A cancellation that is in the table when the round ends is honoured, even if it came after the
-- round had looked for it: unless the execution raised an exception other than IngestionCancelled, or
-- a callback or the publication raised, the job ends cancelled.
pub end_round-cancelled :
    (now : ℕ) (id : Text) (row : Job) (table reading changed : Table) (execution : Execution)
    (job : Job)
    → IsSound table
    → get_locked id table ≡ ok row
    → row.status ≡ cancelling
    → ((error : Text) → execution ≢ raised error)
    → end_round now id execution reading none none table ≡ ok (changed, job)
    → job.status ≡ cancelled
unfolding end_round close_round complete_round publish_final
end_round-cancelled now id row table reading changed (finished result) job sound found asked calm
      h =
    elim (Bool-cases (cancellation_requested id reading)) [
      | inl e ↦
          let done = rw (e, close_round, mark_cancelled-answer now id row table sound found) at h in
          ap (λ (j : Job). j.status) (sym (answer-injective done))
      | inr e ↦
          let done =
            rw (e, close_round, complete-answer now id row table sound found result) at h in
          ap (λ (j : Job). j.status) (sym (answer-injective done)) ∙ ap closing_status asked
    ]
end_round-cancelled now id row table reading changed stopped job sound found asked calm h =
    ap (λ (j : Job). j.status)
      (sym (answer-injective (sym (mark_cancelled-answer now id row table sound found) ∙ h)))
end_round-cancelled now id row table reading changed (raised error) job sound found asked calm h =
    absurd (calm error refl)

-- An exception takes the cancellation back: a job that was asked to stop and whose execution raises
-- with attempts left is answered with a job that waits to be claimed.
pub end_round-requeued :
    (now : ℕ) (id error : Text) (row : Job) (table reading changed : Table) (job : Job)
    (callback publication : Option Text)
    → IsSound table
    → get_locked id table ≡ ok row
    → row.status ≡ cancelling
    → row.attempts + 1 < row.max_attempts
    → end_round now id (raised error) reading callback publication table ≡ ok (changed, job)
    → is_queue job.status ≡ true
unfolding end_round
end_round-requeued now id error row table reading changed job callback publication sound found asked
      left h =
    elim (fail_or_retry-Carries now id error row table changed job sound found h) [
      | inl (over, _) ↦ absurd (omega (arith, over, left))
      | inr carries ↦ carries.waiting
    ]
