-- ===== src/Jobs/ManifestTests.antt =====
-- Small queues with a manifest, what the methods of src/scs/indexing/jobs.py do on them, and the
-- theorems at them.
use scs.Base.{
  ◌≤◌, ◌≡◌, ◌≢◌, refl, ◌⊎◌, true, false, none, some, List, [], ◌∷◌, map, Memᴰ, Text, codes, ok, err,
  value_error, arith, All, text_eq, text_ltb, sorted_set, insert_text,
}
use scs.Jobs.Record.{force_full, drop_index, queued, failed, Job, RawFile, SnapshotFile, pos}
use scs.Jobs.Payload.{merge_payload, normalize_payload}
use scs.Jobs.Manifest.{normalize_files, stored_file, force_snapshot}
use scs.Sql.{select_first, find_row}
use scs.Jobs.Rows.{Table, get, get_locked, answer}
use scs.Jobs.Queue.Enqueue.{enqueue, new_job}
use scs.Jobs.Queue.Finish.{fail_or_retry, other_queued, settle}
use scs.Jobs.Queue.Progress.{
  install_force_full_snapshot, acknowledge_force_full_snapshot_files, acknowledge,
}
use scs.Jobs.Queue.Progress.{set_payload, with_snapshot}
use scs.Jobs.Sound.{IsSound}
use scs.Jobs.Steps.{Reach, next, Reach-IsSound, enqueues, installs}
use scs.Jobs.Laws.Settling.{Carries, fail_or_retry-Carries}
use scs.Jobs.Laws.Manifests.{IsValid, IsAscending, normalize_files-stored}
use scs.Jobs.Laws.Checkpoints.{install_force_full_snapshot_once}
use scs.Jobs.Laws.Restoring.{Restores, fail_or_retry-Restores}
use scs.Jobs.Laws.Stored.{manifest}
use scs.Jobs.Laws.Acknowledging.{AllMarked, acknowledge-manifest}
use scs.Jobs.Tests.{request, id_a, id_b, leased_a, Reach-leased}

-- A program that runs in the tests: all that it calls is open.
program : Unit {0}
unfolding enqueue fail_or_retry install_force_full_snapshot acknowledge_force_full_snapshot_files
    select_first find_row get get_locked answer text_eq text_ltb sorted_set insert_text
    merge_payload normalize_payload normalize_files force_snapshot
program = tt

abbrev raw : Text → RawFile
raw path = record {
  rel_path = some path;
  content_hash = some (codes "h");
  language = some (codes "python");
  byte_size = some (pos 1);
  acknowledged = false;
}

abbrev file : Text → SnapshotFile
file path = record {
  rel_path = path;
  content_hash = codes "h";
  language = codes "python";
  byte_size = 1;
  acknowledged = false;
}

abbrev two_files : List SnapshotFile
two_files = file (codes "a.py") ∷ file (codes "b.py") ∷ []

normalized : normalize_files (raw (codes "b.py") ∷ raw (codes "a.py") ∷ []) ≡ ok two_files
unfolding program
normalized = refl

outside : normalize_files (raw (codes "../b.py") ∷ []) ≡ err value_error
unfolding program
outside = refl

normalize_files-stored_example :
    All IsValid two_files
    × IsAscending two_files
    × (normalize_files (map stored_file two_files) ≡ ok two_files)
normalize_files-stored_example =
    normalize_files-stored (raw (codes "b.py") ∷ raw (codes "a.py") ∷ []) two_files normalized

-- The running job with its manifest.
abbrev ready_a : Job
ready_a = set_payload 35 (with_snapshot leased_a.payload none none two_files) leased_a

installed_a :
    install_force_full_snapshot 35 id_a
      (raw (codes "b.py") ∷ raw (codes "a.py") ∷ [])
      (leased_a ∷ [])
    ≡ ok (ready_a ∷ [], ready_a)
unfolding program
installed_a = refl

Reach-ready : Reach (ready_a ∷ [])
Reach-ready =
    next Reach-leased
      (installs 35 id_a (raw (codes "b.py") ∷ raw (codes "a.py") ∷ []) ready_a installed_a)

install_force_full_snapshot_once_example :
    install_force_full_snapshot 50 id_a
      (raw (codes "b.py") ∷ raw (codes "a.py") ∷ [])
      (ready_a ∷ [])
    ≡ ok (ready_a ∷ [], ready_a)
install_force_full_snapshot_once_example =
    install_force_full_snapshot_once 35 50 id_a (raw (codes "b.py") ∷ raw (codes "a.py") ∷ [])
      (raw (codes "b.py") ∷ raw (codes "a.py") ∷ []) (leased_a ∷ []) (ready_a ∷ []) ready_a
      two_files installed_a normalized

read_ready : get_locked id_a (ready_a ∷ []) ≡ ok ready_a
unfolding program
read_ready = refl

manifest_ready : manifest ready_a.payload ≡ ok two_files
unfolding program
manifest_ready = refl

-- The job after the acknowledgement of one of its files.
abbrev half_done : Job
half_done =
    set_payload 45
      (with_snapshot ready_a.payload none none (map (acknowledge (codes "a.py" ∷ [])) two_files))
      ready_a

acknowledged_a :
    acknowledge_force_full_snapshot_files 45 id_a (codes "a.py" ∷ []) (ready_a ∷ [])
    ≡ ok (half_done ∷ [], half_done)
unfolding program
acknowledged_a = refl

acknowledge-manifest_example :
    (marked : List SnapshotFile) × (manifest half_done.payload ≡ ok marked)
    × (get_locked id_a (half_done ∷ []) ≡ ok half_done)
    × AllMarked (codes "a.py" ∷ []) two_files marked
acknowledge-manifest_example =
    acknowledge-manifest 45 id_a (codes "a.py" ∷ []) (ready_a ∷ []) (half_done ∷ []) ready_a
      half_done two_files (Reach-IsSound Reach-ready) read_ready manifest_ready acknowledged_a

-- A new force-full request behind the running one.
abbrev job_b : Job
job_b = new_job 48 id_b (request force_full [])

abbrev table_ab : Table
table_ab = ready_a ∷ job_b ∷ []

enqueued_b : enqueue 48 id_b (request force_full []) (ready_a ∷ []) ≡ ok (table_ab, job_b)
unfolding program
enqueued_b = refl

table_ab-IsSound : IsSound table_ab
table_ab-IsSound =
    Reach-IsSound
      (next Reach-ready (enqueues 48 id_b (request force_full []) job_b (omega arith) enqueued_b))

read_ab : get_locked id_a table_ab ≡ ok ready_a
unfolding program
read_ab = refl

other_b : other_queued (codes "/repo") id_a job_b ≡ true
unfolding program
other_b = refl

mode_b : job_b.mode ≢ drop_index
mode_b e = ground (arith, e)

fail_or_retry-Restores_example :
    (changed : Table) × (job : Job) × (fail_or_retry 50 id_a (codes "oops") table_ab
      ≡ ok (changed, job))
    × (job.id ≡ id_b)
    × Restores ready_a job
fail_or_retry-Restores_example =
    fail_or_retry-Restores 50 id_a (codes "oops") ready_a job_b table_ab table_ab-IsSound read_ab
      (omega arith) refl (Memᴰ.tail (Memᴰ.head refl)) other_b mode_b

abbrev retried_a : Job
retried_a = settle 50 queued 1 (codes "oops") ready_a

failed_a : fail_or_retry 50 id_a (codes "oops") (ready_a ∷ []) ≡ ok (retried_a ∷ [], retried_a)
unfolding program
failed_a = refl

fail_or_retry-Carries_example : (3 ≤ 1) × (retried_a.status ≡ failed) ⊎ Carries ready_a retried_a
fail_or_retry-Carries_example =
    fail_or_retry-Carries 50 id_a (codes "oops") ready_a (ready_a ∷ []) (retried_a ∷ []) retried_a
      (Reach-IsSound Reach-ready) read_ready failed_a
