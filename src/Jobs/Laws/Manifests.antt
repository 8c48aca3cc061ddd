-- ===== src/Jobs/Laws/Manifests.antt =====
-- The force-full manifest (src/scs/indexing/jobs.py): what validation guarantees, and that a
-- manifest that the queue stored is read back as it was.
use scs.Base.{
  ◌≡◌, refl, ◌∙◌, ap, subst, ◌⊎◌, inl, inr, Bool, true, false, ◌||◌, List, [], ◌∷◌, map, Text,
  Outcome, ok, >>=-eq-ok, arith, All, mem_text, text_eq, text_ltb, text_eq_refl, text_eq→eq,
  text_ltb_total, text_eq_sym, text_ltb_trans, text_ltb_irrefl, raise_if, value_error, Bool-cases,
}
use scs.Jobs.Record.{RawFile, SnapshotFile}
use scs.Jobs.Manifest.{
  normalize_files, valid_files, valid_file, sort_files, insert_file, stored_file, is_empty,
  unsafe_path,
}

-- A relative path without `..`, and a hash.
pub record IsValid (file : SnapshotFile) : Type 0 where
  pub safe : unsafe_path file.rel_path ≡ false
  pub hashed : is_empty file.content_hash ≡ false

-- The path of the first file, if there is one, comes after `path`.
abbrev pub Before : Text → List SnapshotFile → Type 0
Before path [] = Unit
Before path (file ∷ rest) = text_ltb path file.rel_path ≡ true

-- Strictly ascending paths.
abbrev pub IsAscending : List SnapshotFile → Type 0
IsAscending [] = Unit
IsAscending (file ∷ rest) = Before file.rel_path rest × IsAscending rest

text_ltb_asym : (x y : Text) → text_ltb x y ≡ true → text_ltb y x ≡ false
text_ltb_asym x y h = ground (arith, text_ltb_trans x y x, text_ltb_irrefl x)

valid_file-IsValid : (raw : RawFile) (file : SnapshotFile) → valid_file raw ≡ ok file → IsValid file
unfolding valid_file
valid_file-IsValid raw file h = ground arith

valid_file-stored : (file : SnapshotFile) → IsValid file → valid_file (stored_file file) ≡ ok file
unfolding valid_file
valid_file-stored file v = ground arith

-- The files are valid, and no path is among `seen` or stands twice.
abbrev Fresh : List Text → List SnapshotFile → Type 0
Fresh seen [] = Unit
Fresh seen (file ∷ rest) =
    IsValid file × (mem_text file.rel_path seen ≡ false) × Fresh (file.rel_path ∷ seen) rest

ok-injective :
    {a b : List SnapshotFile} → ◌≡◌ {A = Outcome (List SnapshotFile)} (ok a) (ok b) → a ≡ b
ok-injective h = cc

valid_files-Fresh :
    (seen : List Text) (raw : List RawFile) (files : List SnapshotFile)
    → valid_files seen raw ≡ ok files
    → Fresh seen files
unfolding valid_files
valid_files-Fresh seen [] files h = subst (Fresh seen) (ok-injective h) tt
valid_files-Fresh seen (file ∷ rest) files h =
    let (valid, h₁, k₁) = >>=-eq-ok (valid_file file) _ h in
    let (_, h₂, k₂) = >>=-eq-ok (raise_if (mem_text valid.rel_path seen) value_error) _ k₁ in
    let (others, h₃, k₃) = >>=-eq-ok (valid_files (valid.rel_path ∷ seen) rest) _ k₂ in
    subst (Fresh seen) (ok-injective k₃) (
      valid_file-IsValid file valid h₁,
      ground arith,
      valid_files-Fresh (valid.rel_path ∷ seen) rest others h₃,
    )

-- Insertion keeps the order, where the path is new.
abbrev Apart : Text → List SnapshotFile → Type 0
Apart path files = All (λ file. text_eq path file.rel_path ≡ false) files

or_parts : (a b : Bool) → (a || b) ≡ true → (a ≡ true) ⊎ (b ≡ true)
or_parts a b h = ground arith

Before-insert_file :
    (path : Text) (file : SnapshotFile) (files : List SnapshotFile)
    → text_ltb path file.rel_path ≡ true
    → Before path files
    → Before path (insert_file file files)
unfolding insert_file
Before-insert_file path file [] h b = h
Before-insert_file path file (next ∷ rest) h b =
    elim (Bool-cases (text_ltb next.rel_path file.rel_path)) [ inl e ↦ rw e b | inr e ↦ rw e h ]

insert_file-IsAscending :
    (file : SnapshotFile) (files : List SnapshotFile)
    → Apart file.rel_path files
    → IsAscending files
    → IsAscending (insert_file file files)
unfolding insert_file
insert_file-IsAscending file [] new asc = (tt, tt)
insert_file-IsAscending file (next ∷ rest) new asc =
    elim (Bool-cases (text_ltb next.rel_path file.rel_path)) [
      | inl e ↦ rw e (
        Before-insert_file next.rel_path file rest e asc.0,
        insert_file-IsAscending file rest new.1 asc.1,
      )
      | inr e ↦
          let differ = text_eq_sym next.rel_path file.rel_path ∙ new.0 in
          rw e (text_ltb_total next.rel_path file.rel_path differ e, asc)
    ]

All-insert_file :
    (P : SnapshotFile → Type 0) (file : SnapshotFile) (files : List SnapshotFile)
    → P file
    → All P files
    → All P (insert_file file files)
unfolding insert_file
All-insert_file P file [] p all = (p, tt)
All-insert_file P file (next ∷ rest) p all =
    elim (Bool-cases (text_ltb next.rel_path file.rel_path)) [
      | inl e ↦ rw e (all.0, All-insert_file P file rest p all.1)
      | inr e ↦ rw e (p, all)
    ]

All-sort_files :
    (P : SnapshotFile → Type 0) (files : List SnapshotFile) → All P files → All P (sort_files files)
unfolding sort_files
All-sort_files P [] all = tt
All-sort_files P (file ∷ rest) all =
    All-insert_file P file (sort_files rest) all.0 (All-sort_files P rest all.1)

Fresh-Apart :
    (path : Text) (seen : List Text) (files : List SnapshotFile)
    → mem_text path seen ≡ true
    → Fresh seen files
    → Apart path files
Fresh-Apart path seen [] m f = tt
Fresh-Apart path seen (file ∷ rest) m f = (
  ground (arith, f.1, text_eq→eq path file.rel_path),
  Fresh-Apart path (file.rel_path ∷ seen) rest (ground arith) f.2,
)

Fresh-IsValid :
    (seen : List Text) (files : List SnapshotFile) → Fresh seen files → All IsValid files
Fresh-IsValid seen [] f = tt
Fresh-IsValid seen (file ∷ rest) f = (f.0, Fresh-IsValid (file.rel_path ∷ seen) rest f.2)

sort_files-IsAscending :
    (seen : List Text) (files : List SnapshotFile)
    → Fresh seen files
    → IsAscending (sort_files files)
unfolding sort_files
sort_files-IsAscending seen [] f = tt
sort_files-IsAscending seen (file ∷ rest) f =
    insert_file-IsAscending file (sort_files rest)
      (All-sort_files (λ other. text_eq file.rel_path other.rel_path ≡ false) rest
        (Fresh-Apart file.rel_path (file.rel_path ∷ seen) rest
          (ground (arith, text_eq_refl file.rel_path)) f.2))
      (sort_files-IsAscending (file.rel_path ∷ seen) rest f.2)

sort_files-ascending : (files : List SnapshotFile) → IsAscending files → sort_files files ≡ files
unfolding sort_files insert_file
sort_files-ascending [] asc = refl
sort_files-ascending (file ∷ []) asc = refl
sort_files-ascending (file ∷ next ∷ rest) asc =
    let later = text_ltb_asym file.rel_path next.rel_path asc.0 in
    rw (sort_files-ascending (next ∷ rest) asc.1, later)

not_true : {b : Bool} → (b ≡ true → ⊥) → b ≡ false
not_true {b} h = elim (Bool-cases b) [ inl e ↦ absurd (h e) | inr e ↦ e ]

-- The condition on `seen`, one file further.
Before-next :
    (file : SnapshotFile) (rest : List SnapshotFile) (seen : List Text)
    → Before file.rel_path rest
    → ((path : Text) → mem_text path seen ≡ true → Before path (file ∷ rest))
    → (path : Text) → mem_text path (file.rel_path ∷ seen) ≡ true
    → Before path rest
Before-next file [] seen b low path m = tt
Before-next file (next ∷ rest) seen b low path m =
    elim (or_parts (text_eq path file.rel_path) (mem_text path seen) m) [
      | inl e ↦ rw (text_eq→eq path file.rel_path e) b
      | inr e ↦ text_ltb_trans path file.rel_path next.rel_path (low path e) b
    ]

valid_files-stored :
    (seen : List Text) (files : List SnapshotFile)
    → All IsValid files
    → IsAscending files
    → ((path : Text) → mem_text path seen ≡ true → Before path files)
    → valid_files seen (map stored_file files) ≡ ok files
unfolding valid_files
valid_files-stored seen [] v asc low = refl
valid_files-stored seen (file ∷ rest) v asc low =
    let new : mem_text file.rel_path seen ≡ false =
      not_true (λ m. cc (low file.rel_path m, text_ltb_irrefl file.rel_path)) in
    let others =
      valid_files-stored (file.rel_path ∷ seen) rest v.1 asc.1
        (Before-next file rest seen asc.0 low) in
    rw (valid_file-stored file v.0, new, others)

-- What `_normalize_force_snapshot_files` returns: every file has a safe relative path and a hash, and
-- the paths ascend strictly. Stored and validated again it is the same list.
pub normalize_files-stored :
    (raw : List RawFile) (files : List SnapshotFile)
    → normalize_files raw ≡ ok files
    → All IsValid files × IsAscending files × (normalize_files (map stored_file files) ≡ ok files)
unfolding normalize_files
normalize_files-stored raw files h =
    let (valid, read, sorted) = >>=-eq-ok (valid_files [] raw) (λ fs. ok (sort_files fs)) h in
    let fresh = valid_files-Fresh [] raw valid read in
    let same = ok-injective sorted in
    let good : All IsValid files =
      subst (All IsValid) same (All-sort_files IsValid valid (Fresh-IsValid [] valid fresh)) in
    let asc : IsAscending files = subst IsAscending same (sort_files-IsAscending [] valid fresh) in
    (
      good,
      asc,
      rw (valid_files-stored [] files good asc (λ path m. absurd (ground arith)))
          (ap ok (sort_files-ascending files asc)),
    )

-- A valid, ascending list is stored and read back as it is.
pub normalize_files-ascending :
    (files : List SnapshotFile)
    → All IsValid files
    → IsAscending files
    → normalize_files (map stored_file files) ≡ ok files
unfolding normalize_files
normalize_files-ascending files good asc =
    rw (valid_files-stored [] files good asc (λ path m. absurd (ground arith)))
      (ap ok (sort_files-ascending files asc))
