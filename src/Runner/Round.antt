-- ===== src/Runner/Round.antt =====
-- The end of a round of `IngestionJobRunner.run_once` (src/scs/indexing/runner.py), once a job is
-- claimed. What the pipeline and the callbacks do is their own; here it is how they end. Other
-- clients may call the queue at any time before the job is closed, so that the read of its status
-- and the transaction that closes it have a table each.
use scs.Base.{ℕ, Bool, true, false, Option, none, some, List, Text, Outcome, ok, ◌>>=◌}
use scs.Jobs.Record.{Job}
use scs.Jobs.Rows.{Table}
use scs.Jobs.Queue.Finish.{complete, fail_or_retry, mark_cancelled}
use scs.Jobs.Queue.Cancel.{cancellation_requested}

-- How `on_started`, `_publish` and `_execute` end: with a result, with IngestionCancelled, or with
-- another Exception. What is no Exception, such as the CancelledError of the worker's own task, is
-- caught by no clause: no transaction follows it, and the lease stays until it is reclaimed.
pub data Execution : Type 0 where
  finished : List (Text × Text) → Execution
  stopped : Execution
  raised : Text → Execution

-- `on_completed` and `complete`; the exception of `on_completed`, if it raises one, fails the job.
unfoldable pub complete_round :
    ℕ → Text → List (Text × Text) → Option Text → Table → Outcome (Table × Job)
complete_round now id result none table = complete now id (some result) table
complete_round now id result (some error) table = fail_or_retry now id error table

-- `_publish(final)` inside the `try`: an exception of it fails the job that was closed. No other
-- client calls the queue between the two transactions.
unfoldable pub publish_final : ℕ → Text → Option Text → Table × Job → Outcome (Table × Job)
publish_final now id none final = ok final
publish_final now id (some error) final = fail_or_retry now id error final.0

-- The rest of the `try` after `_execute`. `callback` and `publication` are the exceptions that
-- `on_completed` and `_publish` raise, if they do.
unfoldable pub close_round :
    ℕ → Text → List (Text × Text) → Bool → Option Text → Option Text → Table → Outcome (Table × Job)
unfolding complete_round publish_final
close_round now id result true callback publication table = do
  final ← mark_cancelled now id table
  publish_final now id publication final
close_round now id result false none publication table = do
  final ← complete_round now id result none table
  publish_final now id publication final
close_round now id result false (some error) publication table =
    complete_round now id result (some error) table

-- The queue's table and the job after the round. `reading` is the table that `get` reads; `table` is
-- the one that the final transaction starts from.
unfoldable pub end_round :
    ℕ → Text → Execution → Table → Option Text → Option Text → Table → Outcome (Table × Job)
unfolding close_round
end_round now id (finished result) reading callback publication table =
    close_round now id result (cancellation_requested id reading) callback publication table
end_round now id stopped reading callback publication table = mark_cancelled now id table
end_round now id (raised error) reading callback publication table =
    fail_or_retry now id error table
