-- ===== src/Jobs/Laws/Checkpoints.antt =====
-- The durable checkpoint of a force-full job (src/scs/indexing/jobs.py): a manifest is installed
-- once.
use scs.Base.{
  ℕ, ◌≡◌, refl, sym, ◌∙◌, Bool, true, false, not, List, Text, Outcome, ok, >>=-eq-ok, arith,
  raise_if, value_error,
}
use scs.Jobs.Record.{Job, RawFile, SnapshotFile, SnapshotEntry, absent, malformed, held}
use scs.Jobs.Manifest.{normalize_files}
use scs.Jobs.Rows.{Table, get_locked, answer}
use scs.Jobs.Queue.Progress.{
  install_force_full_snapshot, install_once, set_payload, with_snapshot, is_force,
}
use scs.Jobs.Sound.Reading.{answer-ok}
use scs.Jobs.Laws.Fetching.{get_locked-update}

abbrev is_absent : SnapshotEntry → Bool
is_absent absent = true
is_absent _ = false

pub ok-injective : {a b : Job} → ◌≡◌ {A = Outcome Job} (ok a) (ok b) → a ≡ b
ok-injective h = cc

-- The job after an installation: it holds some manifest, and its mode is that of the row.
install_once-job :
    (now : ℕ) (id : Text) (row job : Job) (files : List SnapshotFile) (table : Table)
    (entry : SnapshotEntry)
    → get_locked id table ≡ ok row
    → row.payload.force_full_snapshot ≡ entry
    → get_locked id (install_once now id row files entry table) ≡ ok job
    → (is_absent job.payload.force_full_snapshot ≡ false) × (job.mode ≡ row.mode)
unfolding install_once
install_once-job now id row job files table absent found e h =
    let f = set_payload now (with_snapshot row.payload row.store_id row.store_generation files) in
    let same : f row ≡ job = ok-injective (sym (get_locked-update id f table found refl) ∙ h) in
    (rw (← same) refl, rw (← same) refl)
install_once-job now id row job files table malformed found e h =
    let same : row ≡ job = ok-injective (sym found ∙ h) in (rw (← same, e) refl, rw (← same) refl)
install_once-job now id row job files table (held snapshot) found e h =
    let same : row ≡ job = ok-injective (sym found ∙ h) in (rw (← same, e) refl, rw (← same) refl)

install_once-kept :
    (now : ℕ) (id : Text) (row : Job) (files : List SnapshotFile) (table : Table)
    (entry : SnapshotEntry)
    → is_absent entry ≡ false
    → install_once now id row files entry table ≡ table
unfolding install_once
install_once-kept now id row files table absent h = cc
install_once-kept now id row files table malformed h = refl
install_once-kept now id row files table (held snapshot) h = refl

-- A manifest is frozen: after a successful installation another one, with any valid files, changes
-- nothing and answers with the same job.
pub install_force_full_snapshot_once :
    (now later : ℕ) (id : Text) (given others : List RawFile) (table changed : Table) (job : Job)
    (files : List SnapshotFile)
    → install_force_full_snapshot now id given table ≡ ok (changed, job)
    → normalize_files others ≡ ok files
    → install_force_full_snapshot later id others changed ≡ ok (changed, job)
unfolding install_force_full_snapshot answer
install_force_full_snapshot_once now later id given others table changed job files h valid =
    let (first, _, h₁) = >>=-eq-ok (normalize_files given) _ h in
    let (row, found, h₂) = >>=-eq-ok (get_locked id table) _ h₁ in
    let (_, forced, h₃) = >>=-eq-ok (raise_if (not (is_force row.mode)) value_error) _ h₂ in
    let entry = row.payload.force_full_snapshot in
    let (same, read) = answer-ok id (install_once now id row first entry table) h₃ in
    let (there, mode) = install_once-job now id row job first table entry found refl read in
    let force : is_force job.mode ≡ true = rw mode (ground arith) in
    let again : get_locked id changed ≡ ok job = rw same at read in
    let kept = install_once-kept later id job files changed job.payload.force_full_snapshot there in
    rw (valid, again, force, kept, again)
