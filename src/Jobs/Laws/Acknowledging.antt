-- ===== src/Jobs/Laws/Acknowledging.antt =====
-- `acknowledge_force_full_snapshot_files` (src/scs/indexing/jobs.py): it marks the named files of the
-- manifest and no others.
use scs.Base.{
  ℕ, ◌≡◌, refl, sym, ◌∙◌, ap, subst, true, false, not, Option, List, [], ◌∷◌, map, Text, ok,
  >>=-eq-ok, arith, All, mem_text, sorted_set, raise_if, value_error, runtime_error, any, count,
  ◌==◌, text_eq_refl, mem-sorted_set,
}
use scs.Jobs.Record.{Job, SnapshotFile, Snapshot}
use scs.Jobs.Manifest.{force_snapshot}
use scs.Jobs.Rows.{Table, get_locked}
use scs.Jobs.Queue.Claim.{leased_id}
use scs.Jobs.Queue.Progress.{
  set_payload, with_snapshot, acknowledge_force_full_snapshot_files, acknowledge_paths,
  acknowledge_some, acknowledge, file_paths_of,
}
use scs.Jobs.Sound.{IsSound}
use scs.Jobs.Sound.Reading.{answer-ok}
use scs.Jobs.Laws.Manifests.{IsValid, IsAscending, Before}
use scs.Jobs.Laws.Checkpoints.{ok-injective}
use scs.Jobs.Laws.Stored.{
  manifest, with_snapshot-manifest, leased_row, get_locked-leased, payload-IsValid, manifest-read,
  files-injective,
}

module _ (expected : List Text) where
  acknowledge-IsValid :
      (files : List SnapshotFile)
      → All IsValid files
      → All IsValid (map (acknowledge expected) files)
  acknowledge-IsValid [] good = tt
  acknowledge-IsValid (file ∷ rest) good =
      (record { safe = good.0.safe; hashed = good.0.hashed }, acknowledge-IsValid rest good.1)

  acknowledge-Before :
      (path : Text) (files : List SnapshotFile)
      → Before path files
      → Before path (map (acknowledge expected) files)
  acknowledge-Before path [] b = b
  acknowledge-Before path (file ∷ rest) b = b

  acknowledge-IsAscending :
      (files : List SnapshotFile)
      → IsAscending files
      → IsAscending (map (acknowledge expected) files)
  acknowledge-IsAscending [] asc = tt
  acknowledge-IsAscending (file ∷ rest) asc =
      (acknowledge-Before file.rel_path rest asc.0, acknowledge-IsAscending rest asc.1)

acknowledge-nil : (files : List SnapshotFile) → map (acknowledge []) files ≡ files
acknowledge-nil [] = refl
acknowledge-nil (file ∷ rest) = ap (λ (fs : List SnapshotFile). file ∷ fs) (acknowledge-nil rest)

-- The file of a manifest after an acknowledgement of `paths`.
pub record IsMarked (paths : List Text) (file marked : SnapshotFile) : Type 0 where
  pub same_path : marked.rel_path ≡ file.rel_path
  pub same_hash : marked.content_hash ≡ file.content_hash
  pub same_language : marked.language ≡ file.language
  pub same_size : marked.byte_size ≡ file.byte_size
  pub named : mem_text file.rel_path paths ≡ true → marked.acknowledged ≡ true
  pub unnamed : mem_text file.rel_path paths ≡ false → marked.acknowledged ≡ file.acknowledged

-- Two manifests file by file.
abbrev pub AllMarked : List Text → List SnapshotFile → List SnapshotFile → Type 0
AllMarked paths [] [] = Unit {0}
AllMarked paths (file ∷ files) (marked ∷ rest) =
    IsMarked paths file marked × AllMarked paths files rest
AllMarked paths _ _ = ⊥

acknowledge-AllMarked :
    (paths : List Text) (files : List SnapshotFile)
    → AllMarked paths files (map (acknowledge (sorted_set paths)) files)
acknowledge-AllMarked paths [] = tt
acknowledge-AllMarked paths (file ∷ rest) =
    let same = mem-sorted_set file.rel_path paths in
    (
      record {
        same_path = refl;
        same_hash = refl;
        same_language = refl;
        same_size = refl;
        named = λ h. ground (arith, same);
        unnamed = λ h. ground (arith, same);
      },
      acknowledge-AllMarked paths rest,
    )

module _ (now : ℕ) (id : Text) (table : Table) (sound : IsSound table) (row : Job)
    (found : get_locked id table ≡ ok row) (files : List SnapshotFile)
    (held_files : manifest row.payload ≡ ok files) where
  -- The job's payload after it: the marked files under the binding of the snapshot.
  pub acknowledge_some-payload :
      (expected : List Text) {changed : Table} {job : Job}
      → acknowledge_some now id expected table ≡ ok (changed, job)
      → (read : Snapshot × List SnapshotFile) × (force_snapshot row.payload ≡ ok read)
        × (read.1 ≡ files)
        × (get_locked id changed ≡ ok job)
        × (job.payload
            ≡ with_snapshot row.payload read.0.store_id read.0.store_generation
                (map (acknowledge expected) files))
  unfolding acknowledge_some
  acknowledge_some-payload expected {changed} {job} h =
      let (row', found', h₁) = >>=-eq-ok (get_locked id table) _ h in
      let same : row' ≡ row = ok-injective (sym found' ∙ found) in
      let (read, valid, h₂) = >>=-eq-ok (force_snapshot row'.payload) _ h₁ in
      let all_known = any (λ path. not (mem_text path (file_paths_of read.1))) expected in
      let (_, _, h₃) = >>=-eq-ok (raise_if all_known value_error) _ h₂ in
      let (_, one, h₄) =
        >>=-eq-ok (raise_if (not (count (leased_id id) table == 1)) runtime_error) _ h₃ in
      let payload =
        with_snapshot row'.payload read.0.store_id read.0.store_generation
          (map (acknowledge expected) read.1) in
      let busy = leased_row id table row sound found (ground arith) in
      let (there, final) = answer-ok id _ h₄ in
      let written = get_locked-leased id (set_payload now payload) table row found busy refl in
      let mine : set_payload now payload row ≡ job = ok-injective (sym written ∙ final) in
      let equal : read.1 ≡ files =
        files-injective (sym (manifest-read row'.payload read valid) ∙ rw (← same) at held_files) in
      (
        read,
        rw same at valid,
        equal,
        ap (get_locked id) (sym there) ∙ final,
        rw (← mine, same, equal) refl,
      )

  acknowledge_some-manifest :
      (expected : List Text) {changed : Table} {job : Job}
      → acknowledge_some now id expected table ≡ ok (changed, job)
      → (manifest job.payload ≡ ok (map (acknowledge expected) files))
        × (get_locked id changed ≡ ok job)
  acknowledge_some-manifest expected {changed} {job} h =
      let (read, valid, equal, final, written) = acknowledge_some-payload expected h in
      let (good, asc) = payload-IsValid row.payload valid in
      let marked =
        with_snapshot-manifest row.payload read.0.store_id read.0.store_generation
          (map (acknowledge expected) files)
          (acknowledge-IsValid expected files (subst (All IsValid) equal good))
          (acknowledge-IsAscending expected files (subst IsAscending equal asc)) in
      (rw written marked, final)

  acknowledge_paths-manifest :
      (paths : List Text) {changed : Table} {job : Job}
      → acknowledge_paths now id paths table ≡ ok (changed, job)
      → (manifest job.payload ≡ ok (map (acknowledge paths) files))
        × (get_locked id changed ≡ ok job)
  unfolding acknowledge_paths
  acknowledge_paths-manifest [] {changed} {job} h =
      let (there, read) = answer-ok id table h in
      let same : row ≡ job = ok-injective (sym found ∙ read) in
      (rw (← same, acknowledge-nil) held_files, ap (get_locked id) (sym there) ∙ read)
  acknowledge_paths-manifest (path ∷ paths) h = acknowledge_some-manifest (path ∷ paths) h

  acknowledge_paths-payload :
      (paths : List Text) (path : Text) {changed : Table} {job : Job}
      → mem_text path paths ≡ true
      → acknowledge_paths now id paths table ≡ ok (changed, job)
      → (store_id : Option Text) × (generation : Option Text) × (get_locked id changed ≡ ok job)
        × (job.payload
            ≡ with_snapshot row.payload store_id generation (map (acknowledge paths) files))
  unfolding acknowledge_paths
  acknowledge_paths-payload [] path named h = absurd (ground (arith, named))
  acknowledge_paths-payload (p ∷ paths) path named h =
      let (read, valid, equal, final, written) = acknowledge_some-payload (p ∷ paths) h in
      (read.0.store_id, read.0.store_generation, final, written)

  -- What is stored by an acknowledgement of some paths.
  pub acknowledge-payload :
      (path : Text) (paths : List Text) (changed : Table) (job : Job)
      → acknowledge_force_full_snapshot_files now id (path ∷ paths) table ≡ ok (changed, job)
      → (store_id : Option Text) × (generation : Option Text) × (get_locked id changed ≡ ok job)
        × (job.payload
            ≡ with_snapshot row.payload store_id generation
                (map (acknowledge (sorted_set (path ∷ paths))) files))
  unfolding acknowledge_force_full_snapshot_files
  acknowledge-payload path paths changed job h =
      let named : mem_text path (sorted_set (path ∷ paths)) ≡ true =
        mem-sorted_set path (path ∷ paths) ∙ rw (text_eq_refl path) refl in
      acknowledge_paths-payload (sorted_set (path ∷ paths)) path named h

-- After an acknowledgement the table holds the answered job, whose manifest has the same files in
-- the same order: each that is named is acknowledged, and any other as it was.
pub acknowledge-manifest :
    (now : ℕ) (id : Text) (paths : List Text) (table changed : Table) (row job : Job)
    (files : List SnapshotFile)
    → IsSound table
    → get_locked id table ≡ ok row
    → manifest row.payload ≡ ok files
    → acknowledge_force_full_snapshot_files now id paths table ≡ ok (changed, job)
    → (marked : List SnapshotFile) × (manifest job.payload ≡ ok marked)
      × (get_locked id changed ≡ ok job)
      × AllMarked paths files marked
unfolding acknowledge_force_full_snapshot_files
acknowledge-manifest now id paths table changed row job files sound found held_files h =
    let (marked, read) =
      acknowledge_paths-manifest now id table sound row found files held_files (sorted_set paths)
        h in
    (map (acknowledge (sorted_set paths)) files, marked, read, acknowledge-AllMarked paths files)
