-- ===== src/Jobs/Tests.antt =====
-- Small queues, what the methods of src/scs/indexing/jobs.py do on them, and the theorems at them.
use scs.Base.{
  ◌≤◌, ◌≡◌, ◌≢◌, err, value_error, refl, ◌⊎◌, inl, true, not, none, some, List, [], ◌∷◌, Memᴰ, Text,
  codes, ok, arith, count, length, filter_by, text_eq, text_ltb, sorted_set, insert_text,
}
use scs.Jobs.Record.{Mode, files, full, force_full, drop_index, Job, is_queue, is_active, is_drop}
use scs.Jobs.Payload.{merge_payload, normalize_payload, empty_payload, mode_rank}
use scs.Sql.{update_where, select_first, select_all, find_row}
use scs.Jobs.Rows.{Table, has_id, get, get_locked, answer}
use scs.Jobs.Queue.Enqueue.{Request, enqueue, new_job, coalesce}
use scs.Jobs.Queue.Claim.{claim_next, claimable, lease, utc_after}
use scs.Jobs.Queue.Finish.{fail_or_retry}
use scs.Jobs.Queue.Cancel.{request_cancel, request_cancel_all, index_work, is_running}
use scs.Jobs.Queue.Reclaim.{reclaim_stale_running, stale, own_name}
use scs.Jobs.Sound.{IsSound, reclaim_stale_running-recovers}
use scs.Jobs.Steps.{Reach, start, next, Reach-IsSound, enqueues, claims}
use scs.Jobs.Laws.Merging.{KeepsPaths, merge_payload-covers, merge_payload_comm}
use scs.Jobs.Laws.Coalescing.{StandsFor, enqueue-StandsFor, IsDeletion, enqueue_while_deleting}
use scs.Jobs.Laws.Claiming.{IsClaim, claim_next-IsClaim}
use scs.Jobs.Laws.Cancelling.{request_cancel_all_reach}
use scs.Jobs.Laws.CancelOne.{Cancelled, request_cancel-Cancelled}

abbrev pub request : Mode → List Text → Request
request mode paths = record {
  repo_path = codes "/repo";
  store_id = none;
  store_generation = none;
  mode = mode;
  reason = codes "explicit";
  payload = some (record empty_payload { file_paths = some paths });
  max_attempts = 3;
}

abbrev pub id_a : Text
id_a = codes "a"

abbrev pub id_b : Text
id_b = codes "b"

-- A program that runs in the tests: all that it calls is open.
program : Unit {0}
unfolding enqueue claim_next fail_or_retry request_cancel reclaim_stale_running select_first
    select_all find_row get get_locked answer text_eq text_ltb sorted_set insert_text merge_payload
    normalize_payload
program = tt

abbrev pub job_a : Job
job_a = new_job 10 id_a (request force_full [])

abbrev pub table_a : Table
table_a = job_a ∷ []

enqueued_a : enqueue 10 id_a (request force_full []) [] ≡ ok (table_a, job_a)
unfolding program
enqueued_a = refl

Reach-table_a : Reach table_a
Reach-table_a = next start (enqueues 10 id_a (request force_full []) job_a (omega arith) enqueued_a)

Reach-IsSound_example : IsSound table_a
Reach-IsSound_example = Reach-IsSound Reach-table_a

merge_payload_comm_example :
    merge_payload files
      (normalize_payload files (request files (id_a ∷ [])).payload)
      full
      empty_payload
    ≡ merge_payload full empty_payload files
        (normalize_payload files (request files (id_a ∷ [])).payload)
merge_payload_comm_example =
    merge_payload_comm files full (normalize_payload files (request files (id_a ∷ [])).payload)
      empty_payload (inl (ground arith))

merge_payload-covers_example :
    (((merge_payload files empty_payload full empty_payload).0 ≡ files)
      ⊎ ((merge_payload files empty_payload full empty_payload).0 ≡ full))
    × (1 ≤ mode_rank (merge_payload files empty_payload full empty_payload).0)
    × (2 ≤ mode_rank (merge_payload files empty_payload full empty_payload).0)
    × KeepsPaths empty_payload empty_payload (merge_payload files empty_payload full empty_payload)
merge_payload-covers_example = merge_payload-covers files full empty_payload empty_payload

-- A second request while the first waits.
abbrev job_a' : Job
job_a' = coalesce 20 (request files (id_b ∷ [])) job_a job_a

enqueued_again : enqueue 20 id_b (request files (id_b ∷ [])) table_a ≡ ok (job_a' ∷ [], job_a')
unfolding program
enqueued_again = refl

enqueue-StandsFor_example : StandsFor (request files (id_b ∷ [])) job_a'
enqueue-StandsFor_example =
    enqueue-StandsFor 20 id_b (request files (id_b ∷ [])) table_a (job_a' ∷ []) job_a'
      Reach-IsSound_example enqueued_again

-- A deletion that waits.
abbrev deletion : Job
deletion = new_job 10 id_a (request drop_index [])

deletion-IsDeletion : IsDeletion (codes "/repo") (deletion ∷ []) deletion
deletion-IsDeletion = record { known = Memᴰ.head refl; repo = refl; mode = refl; active = refl }

enqueue_while_deleting_example :
    (full ≡ drop_index)
      × ((other : Job) × IsDeletion (codes "/repo") (deletion ∷ []) other
          × (enqueue 20 id_b (request full []) (deletion ∷ []) ≡ ok (deletion ∷ [], other)))
    ⊎ (full ≢ drop_index) × (enqueue 20 id_b (request full []) (deletion ∷ []) ≡ err value_error)
enqueue_while_deleting_example =
    enqueue_while_deleting 20 id_b (request full []) (deletion ∷ []) deletion deletion-IsDeletion

claim_next-IsClaim_example :
    (count (claimable table_a) table_a ≡ 0)
      × (claim_next 30 30 id_b 300 table_a ≡ ok (table_a, none))
    ⊎ ((job : Job) × (row : Job) × IsClaim 30 30 id_b 300 table_a job row
        × (claim_next 30 30 id_b 300 table_a
            ≡ ok (
              update_where (has_id row.id) (lease 30 id_b (utc_after 30 300)) table_a,
              some job,
            )))
claim_next-IsClaim_example = claim_next-IsClaim 30 30 id_b 300 table_a Reach-IsSound_example

-- The job under a lease, then with its manifest, and a new force request behind it.
abbrev pub leased_a : Job
leased_a = lease 30 (codes "w") 330 job_a

claimed_a : claim_next 30 30 (codes "w") 300 table_a ≡ ok (leased_a ∷ [], some leased_a)
unfolding program
claimed_a = refl

pub Reach-leased : Reach (leased_a ∷ [])
Reach-leased = next Reach-table_a (claims 30 30 (codes "w") 300 (some leased_a) claimed_a)

read_leased : get_locked id_a (leased_a ∷ []) ≡ ok leased_a
unfolding program
read_leased = refl

request_cancel-Cancelled_example :
    (changed : Table) × (job : Job) × (request_cancel 40 id_a (leased_a ∷ []) ≡ ok (changed, job))
    × (get_locked id_a changed ≡ ok job)
    × Cancelled 40 id_a leased_a job changed
    × (filter_by (λ r. not (has_id id_a r)) changed
        ≡ filter_by (λ r. not (has_id id_a r)) (leased_a ∷ []))
request_cancel-Cancelled_example =
    request_cancel-Cancelled 40 id_a leased_a (leased_a ∷ []) read_leased

reclaim_stale_running-recovers_example :
    (changed : Table) × (jobs : List Job) × (reclaim_stale_running 40
        (some (codes "v"))
        true
        (leased_a ∷ [])
      ≡ ok (changed, jobs))
    × IsSound changed
    × (count (stale 40 (own_name true (some (codes "v")))) changed ≡ 0)
    × (length jobs ≡ count (stale 40 (own_name true (some (codes "v")))) (leased_a ∷ []))
reclaim_stale_running-recovers_example =
    reclaim_stale_running-recovers 40 (some (codes "v")) true (leased_a ∷ [])
      (Reach-IsSound Reach-leased)

request_cancel_all_reach_example :
    (changed : Table) × (jobs : List Job) × (request_cancel_all 40 (leased_a ∷ [])
      ≡ ok (changed, jobs))
    × (length jobs ≡ count (index_work is_active) (leased_a ∷ []))
    × (count (index_work is_queue) changed ≡ 0)
    × (count (index_work is_running) changed ≡ 0)
    × (filter_by (λ row. is_drop row.mode) changed
        ≡ filter_by (λ row. is_drop row.mode) (leased_a ∷ []))
request_cancel_all_reach_example = request_cancel_all_reach 40 (leased_a ∷ [])
