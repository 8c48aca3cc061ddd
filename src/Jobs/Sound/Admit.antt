-- ===== src/Jobs/Sound/Admit.antt =====
-- `enqueue` and `claim_next` (src/scs/indexing/jobs.py) keep the invariant: a repository gets no
-- second queued job, and a store no second running one.
use scs.Base.{
  ℕ, ◌≤◌, ◌<◌, ◌≡◌, refl, sym, ap, ◌∙◌, Bool, true, false, Option, List, [], ◌∷◌, ◌++◌, Text, ok,
  >>=-eq-ok, arith, subst, count, bit, any, All-append, count-append, inl, inr, Option-cases,
  Bool-cases, text_eq, text_eq→eq, and_parts,
}
use scs.Jobs.Record.{Job, is_queue, is_leased}
use scs.Sql.{update_where, select_first}
use scs.Jobs.Rows.{Table, has_id, older, queued_for, get_locked, answer}
use scs.Jobs.Queue.Enqueue.{Request, enqueue, place, insert, new_job, coalesce, deleting}
use scs.Jobs.Queue.Claim.{
  claim_next, claimable, claimed_before, lease, busy_in, store_key, utc_after,
}
use scs.Jobs.Sound.Defs.{IsSound, IsConsistent}
use scs.Sql.Counting.{select_first-none, select_first-some, All-mem}
use scs.Jobs.Sound.Reading.{answer-ok}
use scs.Jobs.Sound.Update.{IsSound-update_one}

pub any-count {ℓ} : {A : Type ℓ} (p : A → Bool) (xs : List A) → any p xs ≡ false → count p xs ≡ 0
any-count p [] h = refl
any-count p (x ∷ xs) h = ground (arith, any-count p xs)

count-append_one :
    (p : Job → Bool) (table : Table) (job : Job)
    → count p table ≤ 1
    → (p job ≡ true → count p table ≡ 0)
    → count p (table ++ job ∷ []) ≤ 1
count-append_one p table job one free = elim (Bool-cases (p job)) [
  | inl e ↦ omega (arith, count-append p table (job ∷ []), ap bit e, free e)
  | inr e ↦ omega (arith, count-append p table (job ∷ []), ap bit e)
]

coalesce-IsConsistent :
    (now : ℕ) (existing : Job) (request : Request)
    → is_queue existing.status ≡ true
    → IsConsistent existing
    → IsConsistent (coalesce now request existing existing)
coalesce-IsConsistent now existing request queue c = ground arith

module _ (now : ℕ) (table : Table) (sound : IsSound table) where
  -- A new row with a fresh id, in a repository with nothing queued.
  IsSound-append :
      (job : Job)
      → IsConsistent job
      → is_leased job.status ≡ false
      → any (has_id job.id) table ≡ false
      → count (queued_for job.repo_path) table ≡ 0
      → IsSound (table ++ job ∷ [])
  IsSound-append job fits idle fresh free = record {
    one_id = λ id.
        count-append_one (has_id id) table job (sound.one_id id)
          (λ e. rw (← text_eq→eq job.id id e) (any-count (has_id job.id) table fresh));
    one_queued = λ repo_path.
        count-append_one (queued_for repo_path) table job (sound.one_queued repo_path)
          λ e. rw (← text_eq→eq job.repo_path repo_path (and_parts _ _ e).0) free;
    one_leased = λ key.
        count-append_one (busy_in key) table job (sound.one_leased key) λ e.
          let busy = (and_parts (text_eq (store_key job) key) (is_leased job.status) e).1 in cc;
    consistent = All-append IsConsistent table (job ∷ []) sound.consistent (fits, tt);
  }

  insert-ok :
      (job : Job) {longer : Table}
      → insert job table ≡ ok longer
      → (any (has_id job.id) table ≡ false) × (longer ≡ table ++ job ∷ [])
  unfolding insert
  insert-ok job h = ground arith

  place-IsSound :
      (job_id : Text) (request : Request)
      → 0 < request.max_attempts
      → {changed : Table} {job : Job} → place now job_id request table ≡ ok (changed, job)
      → IsSound changed
  unfolding place
  place-IsSound job_id request limit h =
      elim (Option-cases (select_first older (queued_for request.repo_path) table)) [
        | inl e ↦
            let new = new_job now job_id request in
            let (longer, inserted, done) =
              >>=-eq-ok (insert new table) (answer job_id) (rw (e, place) at h) in
            let (fresh, same) = insert-ok new inserted in
            subst IsSound (sym same ∙ (answer-ok job_id longer done).0) (
              IsSound-append new (ground arith) refl fresh
                (select_first-none older (queued_for request.repo_path) table e))
        | inr (existing, e) ↦
            let (here, is_queued) =
              select_first-some older (queued_for request.repo_path) table e in
            let queue : is_queue existing.status ≡ true =
              (and_parts (text_eq existing.repo_path request.repo_path) _ is_queued).1 in
            let consistent = All-mem IsConsistent table here sound.consistent in
            subst IsSound (answer-ok existing.id _ (rw (e, place) at h)).0 (
              IsSound-update_one table sound existing here (coalesce now request existing)
                (ground arith) (coalesce-IsConsistent now existing request queue consistent)
                (λ _. inl queue) (λ f. cc))
      ]

pub enqueue-IsSound :
    (now : ℕ) (table : Table)
    → IsSound table
    → (job_id : Text) (request : Request) → 0 < request.max_attempts
    → {changed : Table} {job : Job} → enqueue now job_id request table ≡ ok (changed, job)
    → IsSound changed
unfolding enqueue
enqueue-IsSound now table sound job_id request limit h =
    elim (Option-cases (select_first older (deleting request.repo_path) table)) [
      | inl e ↦ place-IsSound now table sound job_id request limit (rw (e, enqueue) at h)
      | inr (deletion, e) ↦ subst IsSound (ground arith) sound
    ]

claimable-free :
    (table : Table) (row : Job)
    → claimable table row ≡ true
    → count (busy_in (store_key row)) table ≡ 0
claimable-free table row e = any-count (busy_in (store_key row)) table (ground arith)

pub claim_next-IsSound :
    (now clock : ℕ) (table : Table)
    → IsSound table
    → (lease_owner : Text) (lease_seconds : ℕ) {changed : Table} {job : Option Job}
    → claim_next now clock lease_owner lease_seconds table ≡ ok (changed, job)
    → IsSound changed
unfolding claim_next
claim_next-IsSound now clock table sound lease_owner lease_seconds h =
    elim (Option-cases (select_first claimed_before (claimable table) table)) [
      | inl e ↦ subst IsSound (ground arith) sound
      | inr (row, e) ↦
          let (here, free) = select_first-some claimed_before (claimable table) table e in
          let f = lease now lease_owner (utc_after clock lease_seconds) in
          let (_, _, done) =
            >>=-eq-ok (get_locked row.id (update_where (has_id row.id) f table)) _
              (rw (e, claim_next) at h) in
          let consistent = All-mem IsConsistent table here sound.consistent in
          subst IsSound (ground arith) (
            IsSound-update_one table sound row here f (ground arith) (ground arith) (λ q. cc)
              (λ _. inr (claimable-free table row free)))
    ]
