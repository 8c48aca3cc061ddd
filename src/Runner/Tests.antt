-- ===== src/Runner/Tests.antt =====
-- A job that was asked to stop, at the end of its round (src/scs/indexing/runner.py).
use scs.Base.{
  ℕ, Bool, List, map, sorted_set, insert_text, text_eq, ◌≡◌, ◌≢◌, refl, true, none, some, [], ◌∷◌,
  Text, codes, ok, arith, err, false, value_error, text_ltb,
}
use scs.Jobs.Manifest.{normalize_files, stored_file, force_snapshot}
use scs.Jobs.Queue.Progress.{acknowledge_force_full_snapshot_files, with_snapshot}
use scs.Jobs.Queue.Claim.{claim_next, lease}
use scs.Jobs.Queue.Finish.{settle}
use scs.Jobs.Laws.Stored.{manifest}
use scs.Runner.Resume.{force_snapshot_for_job}
use scs.Runner.Retrying.{force_snapshot_for_job-left}
use scs.Jobs.Record.{
  Job, full, queued, cancelling, cancelled, is_queue, force_full, running, SnapshotFile,
}
use scs.Jobs.Payload.{empty_payload}
use scs.Sql.{find_row, select_first}
use scs.Jobs.Rows.{Table, get, get_locked, answer}
use scs.Jobs.Queue.Finish.{complete, fail_or_retry, settle_attempt, settle_row}
use scs.Jobs.Queue.Cancel.{cancellation_requested}
use scs.Jobs.Sound.{IsSound}
use scs.Runner.Round.{finished, raised, close_round, complete_round, publish_final, end_round}
use scs.Runner.Ending.{Released, end_round-Released, end_round-cancelled, end_round-requeued}

abbrev job_id : Text
job_id = codes "j"

abbrev asked : Job
asked = record {
  id = job_id;
  repo_path = codes "/repo";
  store_id = none;
  store_generation = none;
  mode = full;
  reason = [];
  payload = empty_payload;
  status = cancelling;
  phase = codes "cancelling";
  current = 0;
  total = 0;
  message = [];
  attempts = 0;
  max_attempts = 3;
  lease_owner = some (codes "w");
  lease_expires_at = some 400;
  error = none;
  result = none;
  created_at = 90;
  updated_at = 100;
  finished_at = none;
}

abbrev one_asked : Table
one_asked = asked ∷ []

one_asked-IsSound : IsSound one_asked
one_asked-IsSound = record {
  one_id = λ id. ground arith;
  one_queued = λ repo_path. ground arith;
  one_leased = λ key. ground arith;
  consistent =
      (record { owned = refl; leased = refl; ended = refl; budget = λ e. omega arith }, tt);
}

asked_read : get_locked job_id one_asked ≡ ok asked
unfolding get_locked get find_row text_eq
asked_read = refl

end_round-Released_example :
    Released job_id (end_round 120 job_id (raised (codes "e")) one_asked none none one_asked)
end_round-Released_example =
    end_round-Released 120 job_id asked one_asked one_asked (raised (codes "e")) none none
      one_asked-IsSound asked_read

abbrev cancelled_job : Job
cancelled_job = record asked {
  status = cancelled;
  phase = codes "cancelled";
  lease_owner = none;
  lease_expires_at = none;
  result = some [];
  updated_at = 120;
  finished_at = some 120;
}

late_cancellation :
    end_round 120 job_id (finished []) [] none none one_asked
    ≡ ok (cancelled_job ∷ [], cancelled_job)
unfolding end_round close_round complete_round publish_final cancellation_requested complete
    get_locked get find_row answer text_eq
late_cancellation = refl

result_is_calm : (error : Text) → finished [] ≢ raised error
result_is_calm error h = absurd (ground arith)

-- The cancellation came after the round had looked for it.
end_round-cancelled_example : cancelled_job.status ≡ cancelled
end_round-cancelled_example =
    end_round-cancelled 120 job_id asked one_asked [] (cancelled_job ∷ []) (finished [])
      cancelled_job one_asked-IsSound asked_read refl result_is_calm late_cancellation

abbrev requeued_job : Job
requeued_job = record asked {
  status = queued;
  phase = codes "queued";
  attempts = 1;
  lease_owner = none;
  lease_expires_at = none;
  error = some (codes "e");
  updated_at = 120;
}

exception_after_cancellation :
    end_round 120 job_id (raised (codes "e")) one_asked none none one_asked
    ≡ ok (requeued_job ∷ [], requeued_job)
unfolding end_round fail_or_retry settle_attempt settle_row get_locked get find_row answer text_eq
    select_first
exception_after_cancellation = refl

end_round-requeued_example : is_queue requeued_job.status ≡ true
end_round-requeued_example =
    end_round-requeued 120 job_id (codes "e") asked one_asked one_asked (requeued_job ∷ [])
      requeued_job none none one_asked-IsSound asked_read refl (omega arith)
      exception_after_cancellation

abbrev forced : Job
forced = record asked { mode = force_full; status = running; phase = codes "running" }

abbrev file : Text → Bool → SnapshotFile
file path acknowledged = record {
  rel_path = path;
  content_hash = codes "h";
  language = codes "python";
  byte_size = 7;
  acknowledged = acknowledged;
}

abbrev two_files : Bool → List SnapshotFile
two_files acknowledged = file (codes "a.py") acknowledged ∷ file (codes "b.py") false ∷ []

-- The attempt with its manifest, and with one of its files done.
abbrev frozen : ℕ → Bool → Job
frozen now acknowledged = record forced {
  payload = with_snapshot empty_payload none none (two_files acknowledged);
  updated_at = now;
}

abbrev marked : Job
marked = frozen 110 true

abbrev waiting : Job
waiting = settle 120 queued 1 (codes "e") marked

abbrev taken : Job
taken = lease 130 (codes "v") 430 waiting

-- The calls of the job store that run in a retry.
program : Unit {0}
unfolding force_snapshot acknowledge_force_full_snapshot_files fail_or_retry claim_next get_locked
    get find_row select_first answer normalize_files text_eq text_ltb sorted_set insert_text
program = tt

frozen_read : get_locked job_id (frozen 105 false ∷ []) ≡ ok (frozen 105 false)
unfolding program
frozen_read = refl

frozen_manifest : manifest (frozen 105 false).payload ≡ ok (two_files false)
unfolding program
frozen_manifest = refl

one_done :
    acknowledge_force_full_snapshot_files 110 job_id (codes "a.py" ∷ []) (frozen 105 false ∷ [])
    ≡ ok (marked ∷ [], marked)
unfolding program
one_done = refl

attempt_failed : fail_or_retry 120 job_id (codes "e") (marked ∷ []) ≡ ok (waiting ∷ [], waiting)
unfolding program
attempt_failed = refl

claimed_again : claim_next 130 130 (codes "v") 300 (waiting ∷ []) ≡ ok (taken ∷ [], some taken)
unfolding program
claimed_again = refl

frozen-IsSound : IsSound (frozen 105 false ∷ [])
frozen-IsSound = record {
  one_id = λ id. ground arith;
  one_queued = λ repo_path. ground arith;
  one_leased = λ key. ground arith;
  consistent =
      (record { owned = refl; leased = refl; ended = refl; budget = λ e. omega arith }, tt);
}

-- The pipeline could not read the repository any more.
force_snapshot_for_job-left_example :
    force_snapshot_for_job 140 taken (err value_error) (taken ∷ [])
    ≡ ok (taken ∷ [], map stored_file (file (codes "b.py") false ∷ []))
unfolding text_eq
force_snapshot_for_job-left_example =
    force_snapshot_for_job-left 110 120 130 140 130 300 job_id (codes "e") (codes "v")
      (codes "a.py") [] (frozen 105 false ∷ []) (marked ∷ []) (waiting ∷ []) (taken ∷ [])
      (frozen 105 false) marked waiting taken (two_files false) (err value_error) frozen-IsSound
      frozen_read frozen_manifest one_done attempt_failed refl refl claimed_again refl
