-- ===== src/Jobs/Laws/Coalescing.antt =====
-- `enqueue` (src/scs/indexing/jobs.py): what happens to an accepted request, and when it is
-- refused.
use scs.Base.{
  ℕ, ◌≤◌, ◌≡◌, ◌≢◌, ◌⊎◌, refl, sym, ◌∙◌, subst, inl, inr, err, value_error, Bool-cases,
  text_eq_refl, Bool, true, false, ◌||◌, Option, List, [], ◌∷◌, Memᴰ, Text, Outcome, ok, >>=-eq-ok,
  arith, mem_text, text_eq, text_eq→eq, and_parts, Option-cases, mem-sorted_set, any, ◌++◌,
}
use scs.Jobs.Record.{Mode, drop_index, files, Job, Payload, is_active, is_drop}
use scs.Jobs.Payload.{mode_rank, items, normalize_payload, given}
use scs.Sql.{select_first}
use scs.Jobs.Rows.{Table, has_id, older, queued_for, answer}
use scs.Jobs.Queue.Enqueue.{
  Request, enqueue, place, insert, new_job, coalesce, deleting, answer_deletion,
}
use scs.Jobs.Sound.{IsSound}
use scs.Sql.Counting.{select_first-some, select_first-none, count-pos}
use scs.Jobs.Sound.Reading.{answer-ok}
use scs.Jobs.Laws.Merging.{merge_payload-covers}
use scs.Jobs.Laws.Fetching.{get_locked-mem, get_locked-update, get_locked-append}

-- The paths that a request names.
abbrev pub asked_files : Request → List Text
asked_files request = items (given request.payload).file_paths

abbrev pub asked_deletions : Request → List Text
asked_deletions request = items (given request.payload).deleted_paths

-- The job stands for the request: an active job of its repository, at least as strong, and if it
-- is file work it names every path of the request.
pub record StandsFor (request : Request) (job : Job) : Type 0 where
  pub repo : job.repo_path ≡ request.repo_path
  pub active : is_active job.status ≡ true
  pub strong : mode_rank request.mode ≤ mode_rank job.mode
  pub changed_paths :
      job.mode ≡ files
      → request.mode ≡ files
      → (path : Text) → mem_text path (asked_files request) ≡ true
      → mem_text path (items job.payload.file_paths) ≡ true
  pub deleted_paths :
      job.mode ≡ files
      → request.mode ≡ files
      → (path : Text) → mem_text path (asked_deletions request) ≡ true
      → mem_text path (items job.payload.deleted_paths) ≡ true

normalize-keeps :
    (payload : Option Payload) (path : Text)
    → (mem_text path (items (normalize_payload files payload).file_paths)
        ≡ mem_text path (items (given payload).file_paths))
      × (mem_text path (items (normalize_payload files payload).deleted_paths)
          ≡ mem_text path (items (given payload).deleted_paths))
unfolding normalize_payload
normalize-keeps payload path = (
  mem-sorted_set path (items (given payload).file_paths),
  mem-sorted_set path (items (given payload).deleted_paths),
)

new_job-StandsFor :
    (now : ℕ) (job_id : Text) (request : Request) → StandsFor request (new_job now job_id request)
new_job-StandsFor now job_id request = record {
  repo = refl;
  active = refl;
  strong = omega arith;
  changed_paths = λ e d path m. rw d ((normalize-keeps request.payload path).0 ∙ m);
  deleted_paths = λ e d path m. rw d ((normalize-keeps request.payload path).1 ∙ m);
}

or_right : (a b : Bool) → b ≡ true → (a || b) ≡ true
or_right a b h = ground arith

coalesce-StandsFor :
    (now : ℕ) (request : Request) (existing : Job)
    → existing.repo_path ≡ request.repo_path
    → StandsFor request (coalesce now request existing existing)
coalesce-StandsFor now request existing same =
    let (_, _, strong, paths) =
      merge_payload-covers existing.mode request.mode existing.payload
        (normalize_payload request.mode request.payload) in
    record {
      repo = same;
      active = refl;
      strong = strong;
      changed_paths = λ e d path m.
          (paths path e).0
          ∙ or_right (mem_text path (items existing.payload.file_paths))
              (mem_text path (items (normalize_payload request.mode request.payload).file_paths))
              (rw d ((normalize-keeps request.payload path).0 ∙ m));
      deleted_paths = λ e d path m.
          (paths path e).1
          ∙ or_right (mem_text path (items existing.payload.deleted_paths))
              (mem_text path (items (normalize_payload request.mode request.payload).deleted_paths))
              (rw d ((normalize-keeps request.payload path).1 ∙ m));
    }

ok-injective : {a b : Job} → ◌≡◌ {A = Outcome Job} (ok a) (ok b) → a ≡ b
ok-injective h = cc

insert-ok :
    (job : Job) (table : Table) {longer : Table}
    → insert job table ≡ ok longer
    → (any (has_id job.id) table ≡ false) × (longer ≡ table ++ job ∷ [])
unfolding insert
insert-ok job table h = ground arith

answer_deletion-ok :
    (drop : Bool) (table : Table) (deletion : Job) {changed : Table} {job : Job}
    → answer_deletion drop table deletion ≡ ok (changed, job)
    → (drop ≡ true) × (deletion ≡ job)
answer_deletion-ok drop table deletion h = ground arith

place-StandsFor :
    (now : ℕ) (job_id : Text) (request : Request) (table : Table)
    → IsSound table
    → {changed : Table} {job : Job} → place now job_id request table ≡ ok (changed, job)
    → StandsFor request job
unfolding place
place-StandsFor now job_id request table sound h =
    elim (Option-cases (select_first older (queued_for request.repo_path) table)) [
      | inl e ↦
          let new = new_job now job_id request in
          let (longer, inserted, done) =
            >>=-eq-ok (insert new table) (answer job_id) (rw (e, place) at h) in
          let (fresh, same) = insert-ok new table inserted in
          let read = get_locked-append table new fresh in
          let (_, answered) = answer-ok job_id longer done in
          subst (StandsFor request) (ok-injective (sym read ∙ (rw same at answered)))
            (new_job-StandsFor now job_id request)
      | inr (existing, e) ↦
          let (here, waits) = select_first-some older (queued_for request.repo_path) table e in
          let (named, _) = and_parts (text_eq existing.repo_path request.repo_path) _ waits in
          let (_, answered) = answer-ok existing.id _ (rw (e, place) at h) in
          let read =
            get_locked-update existing.id (coalesce now request existing) table
              (get_locked-mem table sound existing here) refl in
          subst (StandsFor request) (ok-injective (sym read ∙ answered)) (
            coalesce-StandsFor now request existing
              (text_eq→eq existing.repo_path request.repo_path named))
    ]

deletion-StandsFor :
    (request : Request) (deletion : Job)
    → is_drop request.mode ≡ true
    → deleting request.repo_path deletion ≡ true
    → StandsFor request deletion
deletion-StandsFor request deletion drop h = record {
  repo = ground (arith, text_eq→eq deletion.repo_path request.repo_path);
  active = ground arith;
  strong = ground arith;
  changed_paths = λ e d. ground arith;
  deleted_paths = λ e d. ground arith;
}

-- An accepted request is never lost: the job that `enqueue` answers with stands for it.
pub enqueue-StandsFor :
    (now : ℕ) (job_id : Text) (request : Request) (table : Table) (changed : Table) (job : Job)
    → IsSound table
    → enqueue now job_id request table ≡ ok (changed, job)
    → StandsFor request job
unfolding enqueue
enqueue-StandsFor now job_id request table changed job sound h =
    elim (Option-cases (select_first older (deleting request.repo_path) table)) [
      | inl e ↦ place-StandsFor now job_id request table sound (rw (e, enqueue) at h)
      | inr (deletion, e) ↦
          let (_, t) = select_first-some older (deleting request.repo_path) table e in
          let (drop, same) =
            answer_deletion-ok (is_drop request.mode) table deletion (rw (e, enqueue) at h) in
          subst (StandsFor request) same (deletion-StandsFor request deletion drop t)
    ]

-- A deletion of the repository that is under way.
pub record IsDeletion (repo_path : Text) (table : Table) (job : Job) : Type 0 where
  pub known : Memᴰ job table
  pub repo : job.repo_path ≡ repo_path
  pub mode : job.mode ≡ drop_index
  pub active : is_active job.status ≡ true

deleting-IsDeletion :
    (repo_path : Text) (table : Table) (job : Job)
    → Memᴰ job table
    → deleting repo_path job ≡ true
    → IsDeletion repo_path table job
deleting-IsDeletion repo_path table job here h = record {
  known = here;
  repo = ground (arith, text_eq→eq job.repo_path repo_path);
  mode = ground arith;
  active = ground arith;
}

drop_mode : (mode : Mode) → is_drop mode ≡ true → mode ≡ drop_index
drop_mode mode h = ground arith

other_mode : (mode : Mode) → is_drop mode ≡ false → mode ≢ drop_index
other_mode mode h e = ground arith

-- While a deletion of the repository is active nothing else is accepted: a request for a deletion is
-- answered with a deletion that is under way and the same table, any other raises ValueError.
pub enqueue_while_deleting :
    (now : ℕ) (job_id : Text) (request : Request) (table : Table) (active : Job)
    → IsDeletion request.repo_path table active
    → (request.mode ≡ drop_index)
        × ((deletion : Job) × IsDeletion request.repo_path table deletion
            × (enqueue now job_id request table ≡ ok (table, deletion)))
      ⊎ (request.mode ≢ drop_index) × (enqueue now job_id request table ≡ err value_error)
unfolding enqueue
enqueue_while_deleting now job_id request table active busy =
    elim (Option-cases (select_first older (deleting request.repo_path) table)) [
      | inl e ↦
          let named = text_eq_refl request.repo_path in
          let matches : deleting request.repo_path active ≡ true =
            rw (busy.repo, busy.mode, named, busy.active) in
          absurd (
            omega (
              arith,
              count-pos (deleting request.repo_path) table busy.known matches,
              select_first-none older (deleting request.repo_path) table e,
            ))
      | inr (deletion, e) ↦
          let (here, t) = select_first-some older (deleting request.repo_path) table e in
          elim (Bool-cases (is_drop request.mode)) [
            | inl d ↦ inl (
              drop_mode request.mode d,
              (
                deletion,
                deleting-IsDeletion request.repo_path table deletion here t,
                rw (e, d, enqueue),
              ),
            )
            | inr d ↦ inr (other_mode request.mode d, rw (e, d, enqueue))
          ]
    ]
