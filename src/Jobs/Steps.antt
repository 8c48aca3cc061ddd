-- ===== src/Jobs/Steps.antt =====
-- The life of the queue's table: any calls of the methods of `IngestionJobStore`
-- (src/scs/indexing/jobs.py), in any order and by any number of workers. A call that raises rolls
-- its transaction back, and a method that only reads changes nothing, so neither is a step.
use scs.Base.{ℕ, ◌≡◌, ◌<◌, Bool, Option, List, [], Text, ok, arith}
use scs.Jobs.Record.{Job, Integer, RawFile}
use scs.Jobs.Rows.{Table}
use scs.Jobs.Queue.Enqueue.{Request, enqueue}
use scs.Jobs.Queue.Claim.{claim_next, heartbeat}
use scs.Jobs.Queue.Progress.{
  update_progress, install_force_full_snapshot, acknowledge_force_full_snapshot_files,
}
use scs.Jobs.Queue.Finish.{complete, fail_or_retry, mark_cancelled}
use scs.Jobs.Queue.Cancel.{request_cancel, request_cancel_all}
use scs.Jobs.Queue.Reclaim.{reclaim_stale_running}
use scs.Jobs.Sound.{
  IsSound, enqueue-IsSound, claim_next-IsSound, heartbeat-IsSound, update_progress-IsSound,
  install_force_full_snapshot-IsSound, acknowledge_force_full_snapshot_files-IsSound,
  complete-IsSound, fail_or_retry-IsSound, mark_cancelled-IsSound, request_cancel-IsSound,
  request_cancel_all-IsSound, reclaim_stale_running-IsSound,
}

-- One call that commits. A request allows at least one attempt.
pub data Step (t u : Table) : Type 0 where
  enqueues :
      (now : ℕ) (id : Text) (request : Request) (job : Job)
      → 0 < request.max_attempts
      → enqueue now id request t ≡ ok (u, job)
      → Step t u
  claims :
      (now clock : ℕ) (owner : Text) (seconds : ℕ) (job : Option Job)
      → claim_next now clock owner seconds t ≡ ok (u, job)
      → Step t u
  beats :
      (now clock : ℕ) (id owner : Text) (seconds : ℕ) (done : Unit {0})
      → heartbeat now clock id owner seconds t ≡ ok (u, done)
      → Step t u
  reports :
      (now : ℕ) (id phase : Text) (current total : Integer) (message : Text) (done : Unit {0})
      → update_progress now id phase current total message t ≡ ok (u, done)
      → Step t u
  installs :
      (now : ℕ) (id : Text) (files : List RawFile) (job : Job)
      → install_force_full_snapshot now id files t ≡ ok (u, job)
      → Step t u
  acknowledges :
      (now : ℕ) (id : Text) (paths : List Text) (job : Job)
      → acknowledge_force_full_snapshot_files now id paths t ≡ ok (u, job)
      → Step t u
  completes :
      (now : ℕ) (id : Text) (result : Option (List (Text × Text))) (job : Job)
      → complete now id result t ≡ ok (u, job)
      → Step t u
  fails :
      (now : ℕ) (id error : Text) (job : Job)
      → fail_or_retry now id error t ≡ ok (u, job)
      → Step t u
  marks : (now : ℕ) (id : Text) (job : Job) → mark_cancelled now id t ≡ ok (u, job) → Step t u
  cancels : (now : ℕ) (id : Text) (job : Job) → request_cancel now id t ≡ ok (u, job) → Step t u
  cancels_all : (now : ℕ) (jobs : List Job) → request_cancel_all now t ≡ ok (u, jobs) → Step t u
  reclaims :
      (now : ℕ) (owner : Option Text) (others : Bool) (jobs : List Job)
      → reclaim_stale_running now owner others t ≡ ok (u, jobs)
      → Step t u

-- The tables that the calls lead to, from an empty database.
pub data Reach : Table → Type 0 where
  start : Reach []
  next : {t u : Table} → Reach t → Step t u → Reach u

Step-IsSound : (t u : Table) → Step t u → IsSound t → IsSound u
Step-IsSound t u (enqueues now id request job limit h) s =
    enqueue-IsSound now t s id request limit h
Step-IsSound t u (claims now clock owner seconds job h) s =
    claim_next-IsSound now clock t s owner seconds h
Step-IsSound t u (beats now clock id owner seconds done h) s =
    heartbeat-IsSound now t s clock id owner seconds h
Step-IsSound t u (reports now id phase current total message done h) s =
    update_progress-IsSound now t s id phase current total message h
Step-IsSound t u (installs now id files job h) s =
    install_force_full_snapshot-IsSound now t s id files h
Step-IsSound t u (acknowledges now id paths job h) s =
    acknowledge_force_full_snapshot_files-IsSound now t s id paths h
Step-IsSound t u (completes now id result job h) s = complete-IsSound now t s id result h
Step-IsSound t u (fails now id error job h) s = fail_or_retry-IsSound now t s id error h
Step-IsSound t u (marks now id job h) s = mark_cancelled-IsSound now t s id h
Step-IsSound t u (cancels now id job h) s = request_cancel-IsSound now t s id h
Step-IsSound t u (cancels_all now jobs h) s = request_cancel_all-IsSound now t s h
Step-IsSound t u (reclaims now owner others jobs h) s =
    reclaim_stale_running-IsSound now owner others t s h

-- Every table that the queue's calls lead to is sound: an id names at most one row, a repository has
-- at most one queued job, a store at most one job under a lease, and each row has a lease exactly
-- while it runs, an end exactly when it is over, and attempts left while it is active.
pub Reach-IsSound : {t : Table} → Reach t → IsSound t
Reach-IsSound start = record {
  one_id = λ id. omega arith;
  one_queued = λ repo_path. omega arith;
  one_leased = λ key. omega arith;
  consistent = tt;
}
Reach-IsSound (next {t} {u} r s) = Step-IsSound t u s (Reach-IsSound r)
