-- ===== src/Jobs/Laws/Stored.antt =====
-- The manifest in a payload, and the leased row of an id (src/scs/indexing/jobs.py): what is read
-- back of them.
use scs.Base.{
  ◌≡◌, subst, Bool, true, false, Option, some, List, [], ◌∷◌, Text, Outcome, ok, ◌>>=◌, >>=-eq-ok,
  arith, All, count, and_parts, text_eq_refl,
}
use scs.Jobs.Record.{
  Job, Payload, SnapshotFile, Snapshot, SnapshotEntry, absent, malformed, held, is_leased,
}
use scs.Jobs.Manifest.{normalize_files, force_snapshot, snapshot_files, present}
use scs.Sql.{update_where, find_row}
use scs.Jobs.Rows.{Table, has_id, get_locked}
use scs.Jobs.Queue.Claim.{leased_id}
use scs.Jobs.Queue.Progress.{with_snapshot}
use scs.Jobs.Sound.{IsSound}
use scs.Sql.Counting.{find_row-some}
use scs.Jobs.Sound.Reading.{get_locked-ok}
use scs.Sql.Selecting.{find_row-pos, unique-eq}
use scs.Jobs.Laws.Manifests.{
  IsValid, IsAscending, normalize_files-stored, normalize_files-ascending,
}

-- The files of the manifest in a payload, validated.
abbrev pub manifest : Payload → Outcome (List SnapshotFile)
manifest payload = do read ← force_snapshot payload; ok read.1

snapshot_files-IsValid :
    (entry : SnapshotEntry) {snapshot : Snapshot} {files : List SnapshotFile}
    → snapshot_files entry ≡ ok (snapshot, files)
    → All IsValid files × IsAscending files
unfolding snapshot_files
snapshot_files-IsValid absent h = cc
snapshot_files-IsValid malformed h = cc
snapshot_files-IsValid (held s) {files = files} h =
    let (raw, _, h₁) = >>=-eq-ok (present s.files) _ h in
    let (read, normal, h₂) = >>=-eq-ok (normalize_files raw) _ h₁ in
    let (good, asc, _) = normalize_files-stored raw read normal in
    let same : read ≡ files = cc in (subst (All IsValid) same good, subst IsAscending same asc)

pub with_snapshot-manifest :
    (payload : Payload) (store_id generation : Option Text) (files : List SnapshotFile)
    → All IsValid files
    → IsAscending files
    → manifest (with_snapshot payload store_id generation files) ≡ ok files
unfolding force_snapshot
with_snapshot-manifest payload store_id generation files good asc =
    rw (normalize_files-ascending files good asc)

-- Updating the leased row of an id, where the id's row is leased.
find_row-update_sub {ℓ} :
    {A : Type ℓ} (test sub : A → Bool) (f : A → A) (xs : List A) (a : A)
    → ((b : A) → test b ≡ false → sub b ≡ false)
    → find_row test xs ≡ some a
    → sub a ≡ true
    → test (f a) ≡ true
    → find_row test (update_where sub f xs) ≡ some (f a)
unfolding find_row
find_row-update_sub test sub f [] a k h s t = cc
find_row-update_sub test sub f (x ∷ xs) a k h s t =
    ground (arith, k x, find_row-update_sub test sub f xs a k)

pub leased_row :
    (id : Text) (table : Table) (row : Job)
    → IsSound table
    → get_locked id table ≡ ok row
    → count (leased_id id) table ≡ 1
    → is_leased row.status ≡ true
leased_row id table row sound found one =
    let (other, picked) = find_row-pos (leased_id id) table (omega (arith, one)) in
    let (there, t) = find_row-some (leased_id id) table picked in
    let (here, named) = get_locked-ok id table found in
    let (u, busy) = and_parts (has_id id other) (is_leased other.status) t in
    let mine : has_id id row ≡ true = rw (named, text_eq_refl) in
    rw (unique-eq (has_id id) table here there mine u (sound.one_id id)) busy

pub get_locked-leased :
    (id : Text) (f : Job → Job) (table : Table) (row : Job)
    → get_locked id table ≡ ok row
    → is_leased row.status ≡ true
    → (f row).id ≡ row.id
    → get_locked id (update_where (leased_id id) f table) ≡ ok (f row)
unfolding get_locked
get_locked-leased id f table row h busy keeps =
    let found : find_row (has_id id) table ≡ some row = ground arith in
    let (_, named) = find_row-some (has_id id) table found in
    rw (
      find_row-update_sub (has_id id) (leased_id id) f table row (λ b e. rw e) found
          (rw (named, busy)) (rw keeps named),
      get_locked,
    )

pub payload-IsValid :
    (payload : Payload) {snapshot : Snapshot} {files : List SnapshotFile}
    → force_snapshot payload ≡ ok (snapshot, files)
    → All IsValid files × IsAscending files
unfolding force_snapshot
payload-IsValid payload h = snapshot_files-IsValid payload.force_full_snapshot h

pub manifest-read :
    (payload : Payload) (read : Snapshot × List SnapshotFile)
    → force_snapshot payload ≡ ok read
    → manifest payload ≡ ok read.1
manifest-read payload read h = rw h

pub files-injective :
    {a b : List SnapshotFile} → ◌≡◌ {A = Outcome (List SnapshotFile)} (ok a) (ok b) → a ≡ b
files-injective h = cc
