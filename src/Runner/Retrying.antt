-- ===== src/Runner/Retrying.antt =====
-- A force-full attempt after one that failed (src/scs/indexing/runner.py, `run_once` and
-- `_force_snapshot_for_job`): what it still has to do.
use scs.Base.{
  ℕ, ◌+◌, ◌≡◌, refl, sym, ◌∙◌, ap, Bool, true, not, ◌||◌, Option, some, inl, inr, List, [], ◌∷◌,
  map, Text, Outcome, ok, arith, mem_text, sorted_set, mem-sorted_set, filter_by, text_eq_refl,
  Bool-cases,
}
use scs.Jobs.Record.{queued, Job, RawFile, SnapshotFile, SnapshotEntry, held, Payload}
use scs.Jobs.Manifest.{stored_file}
use scs.Jobs.Rows.{Table, get_locked, has_id}
use scs.Jobs.Queue.Claim.{claim_next}
use scs.Jobs.Queue.Finish.{fail_or_retry, settle}
use scs.Jobs.Queue.Progress.{acknowledge_force_full_snapshot_files, acknowledge}
use scs.Jobs.Sound.{IsSound, acknowledge_force_full_snapshot_files-IsSound, fail_or_retry-IsSound}
use scs.Jobs.Laws.Fetching.{get_locked-mem, get_locked-update}
use scs.Jobs.Laws.Claiming.{claim_next-IsClaim}
use scs.Jobs.Laws.Settling.{Settled, gives_up, waits, merges, fail_or_retry-Settled}
use scs.Jobs.Laws.Checkpoints.{ok-injective}
use scs.Jobs.Laws.Stored.{manifest}
use scs.Jobs.Laws.Acknowledging.{acknowledge-payload}
use scs.Runner.Resume.{unacknowledged, snapshot_records, force_snapshot_for_job, resume_entry-held}

table_of : {a b : Table × Job} → ◌≡◌ {A = Outcome (Table × Job)} (ok a) (ok b) → a ≡ b
table_of h = cc

-- An attempt that waits again is the row that failed, with its payload.
Settled-payload :
    (now : ℕ) (id error : Text) (row : Job) (table changed : Table) (waiting : Job)
    (out : Outcome (Table × Job))
    → Settled now id error row table out
    → get_locked id table ≡ ok row
    → out ≡ ok (changed, waiting)
    → waiting.id ≡ id
    → waiting.status ≡ queued
    → (get_locked id changed ≡ ok waiting) × (waiting.payload ≡ row.payload)
Settled-payload now id error row table changed waiting out (gives_up l e) found h named status =
    let same = ap (λ (p : Table × Job). p.1.status) (table_of (sym e ∙ h)) in
    absurd (ground (arith, same))
Settled-payload now id error row table changed waiting out (waits l z e) found h named status =
    let same = table_of (sym e ∙ h) in
    let read = get_locked-update id (settle now queued (row.attempts + 1) error) table found refl in
    (
      ap (get_locked id) (ap (λ (p : Table × Job). p.0) (sym same))
          ∙ read
          ∙ ap ok (ap (λ (p : Table × Job). p.1) same),
      ap (λ (p : Table × Job). p.1.payload) (sym same),
    )
Settled-payload now id error row table changed waiting out (merges follow_up l here other e) found h
      named status =
    let same = ap (λ (p : Table × Job). p.1.id) (table_of (sym e ∙ h)) in
    let mine : follow_up.id ≡ id = same ∙ named in
    let equal : has_id id follow_up ≡ true = rw (mine, text_eq_refl) in
    absurd (ground (arith, equal))

-- A worker is handed the row that its job's id names.
claim_next-payload :
    (now clock : ℕ) (owner : Text) (seconds : ℕ) (id : Text) (table changed : Table)
    (row again : Job)
    → IsSound table
    → get_locked id table ≡ ok row
    → claim_next now clock owner seconds table ≡ ok (changed, some again)
    → again.id ≡ id
    → again.payload ≡ row.payload
claim_next-payload now clock owner seconds id table changed row again sound found h named =
    elim (claim_next-IsClaim now clock owner seconds table sound) [
      | inl (z, e) ↦ absurd (ground (arith, sym e ∙ h))
      | inr (job, taken, claim, e) ↦
          let same : job ≡ again = some-injective (sym e ∙ h) in
          let leased = sym claim.leased ∙ same in
          let mine : taken.id ≡ id = ap (λ (j : Job). j.id) leased ∙ named in
          let read = get_locked-mem table sound taken claim.known in
          let equal : taken ≡ row =
            ok-injective (sym read ∙ ap (λ i. get_locked i table) mine ∙ found) in
          ap (λ (j : Job). j.payload) (sym leased) ∙ ap (λ (j : Job). j.payload) equal
    ]
  where
    some-injective :
        {t u : Table} {a b : Job}
        → ◌≡◌ {A = Outcome (Table × Option Job)} (ok (t, some a)) (ok (u, some b))
        → a ≡ b
    some-injective e = cc

-- The file was neither acknowledged before nor is named now.
abbrev pub is_left : List Text → SnapshotFile → Bool
is_left paths file = not (file.acknowledged || mem_text file.rel_path paths)

unacknowledged-stored :
    (paths : List Text) (files : List SnapshotFile)
    → unacknowledged (map stored_file (map (acknowledge (sorted_set paths)) files))
      ≡ map stored_file (filter_by (is_left paths) files)
unacknowledged-stored paths [] = refl
unacknowledged-stored paths (file ∷ rest) =
    let same = mem-sorted_set file.rel_path paths in
    let tail = unacknowledged-stored paths rest in
    elim (Bool-cases (mem_text file.rel_path paths)) [
      | inl e ↦ rw (same, e, tail) (ground arith)
      | inr e ↦ elim (Bool-cases file.acknowledged) [
        | inl a ↦ rw (same, e, a, tail) refl
        | inr a ↦ rw (same, e, a, tail) refl
      ]
    ]

snapshot_records-left :
    (entry : SnapshotEntry) (paths : List Text) (files : List SnapshotFile)
    (store_id generation : Option Text)
    → entry
      ≡ held (record {
        store_id = store_id;
        store_generation = generation;
        files = some (map stored_file (map (acknowledge (sorted_set paths)) files));
      })
    → snapshot_records entry ≡ ok (map stored_file (filter_by (is_left paths) files))
unfolding snapshot_records
snapshot_records-left entry paths files store_id generation h =
    rw h (ap ok (unacknowledged-stored paths files))

-- A retry does what is left and no more: when an attempt of a job with a valid manifest has
-- acknowledged some paths, has failed and waits again, and a worker claims the job, then the new
-- attempt gets exactly the files of that manifest that were neither acknowledged before nor named,
-- whatever the pipeline would find by then, and changes nothing.
pub force_snapshot_for_job-left :
    (t₁ t₂ t₃ t₄ clock seconds : ℕ) (id error owner path : Text) (paths : List Text)
    (table marked freed claimed : Table) (row done waiting again : Job) (files : List SnapshotFile)
    (found : Outcome (List RawFile))
    → IsSound table
    → get_locked id table ≡ ok row
    → manifest row.payload ≡ ok files
    → acknowledge_force_full_snapshot_files t₁ id (path ∷ paths) table ≡ ok (marked, done)
    → fail_or_retry t₂ id error marked ≡ ok (freed, waiting)
    → waiting.id ≡ id
    → waiting.status ≡ queued
    → claim_next t₃ clock owner seconds freed ≡ ok (claimed, some again)
    → again.id ≡ id
    → force_snapshot_for_job t₄ again found claimed
      ≡ ok (claimed, map stored_file (filter_by (is_left (path ∷ paths)) files))
unfolding force_snapshot_for_job
force_snapshot_for_job-left t₁ t₂ t₃ t₄ clock seconds id error owner path paths table marked freed
      claimed row done waiting again files found sound read valid h₁ h₂ named status h₃ taken =
    let (store_id, generation, final, written) =
      acknowledge-payload t₁ id table sound row read files valid path paths marked done h₁ in
    let sound₁ =
      acknowledge_force_full_snapshot_files-IsSound t₁ table sound id (path ∷ paths) h₁ in
    let sound₂ = fail_or_retry-IsSound t₂ marked sound₁ id error h₂ in
    let settled = fail_or_retry-Settled t₂ id error done marked sound₁ final in
    let (held_row, kept) =
      Settled-payload t₂ id error done marked freed waiting (fail_or_retry t₂ id error marked)
        settled final h₂ named status in
    let same =
      claim_next-payload t₃ clock owner seconds id freed claimed waiting again sound₂ held_row h₃
        taken in
    resume_entry-held t₄ again.id found again.payload.force_full_snapshot claimed (
      snapshot_records-left again.payload.force_full_snapshot (path ∷ paths) files store_id
        generation (ap (λ (p : Payload). p.force_full_snapshot) (same ∙ kept ∙ written)))
