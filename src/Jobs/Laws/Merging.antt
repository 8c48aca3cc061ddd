-- ===== src/Jobs/Laws/Merging.antt =====
-- `_merge_payload` (src/scs/indexing/jobs.py): which work survives a merge, and when order matters.
use scs.Base.{
  ◌≤◌, ◌≡◌, ◌≢◌, ap, ◌∙◌, ◌⊎◌, ◌||◌, List, ◌++◌, Text, arith, mem_text, mem-sorted_set,
  mem_text-append, sorted_set-append_comm, Option, some,
}
use scs.Jobs.Record.{Mode, files, force_full, Payload}
use scs.Jobs.Payload.{merge_payload, mode_rank, items, files_union}

mem-files_union :
    (path : Text) (a b : Option (List Text))
    → mem_text path (items (files_union a b)) ≡ (mem_text path (items a) || mem_text path (items b))
mem-files_union path a b =
    mem-sorted_set path (items a ++ items b) ∙ mem_text-append path (items a) (items b)

-- The paths of a merge, if the merge is file work.
abbrev pub KeepsPaths : Payload → Payload → Mode × Payload → Type 0
KeepsPaths p q merged =
    (path : Text)
    → merged.0 ≡ files
    → (mem_text path (items merged.1.file_paths)
        ≡ (mem_text path (items p.file_paths) || mem_text path (items q.file_paths)))
      × (mem_text path (items merged.1.deleted_paths)
          ≡ (mem_text path (items p.deleted_paths) || mem_text path (items q.deleted_paths)))

-- The mode of a merge is one of the two and at least as strong as both, and a merge that is still
-- file work names exactly the changed and the deleted paths of both.
pub merge_payload-covers :
    (a b : Mode) (p q : Payload)
    → (((merge_payload a p b q).0 ≡ a) ⊎ ((merge_payload a p b q).0 ≡ b))
      × (mode_rank a ≤ mode_rank (merge_payload a p b q).0)
      × (mode_rank b ≤ mode_rank (merge_payload a p b q).0)
      × KeepsPaths p q (merge_payload a p b q)
unfolding merge_payload
merge_payload-covers a b p q = (
  ground arith,
  ground arith,
  ground arith,
  λ path e. ground (
    arith,
    mem-files_union path p.file_paths q.file_paths,
    mem-files_union path p.deleted_paths q.deleted_paths,
  ),
)

files_union_comm : (a b : Option (List Text)) → files_union a b ≡ files_union b a
files_union_comm a b = ap some (sorted_set-append_comm (items a) (items b))

-- The order of two requests does not matter, unless both are force-full.
pub merge_payload_comm :
    (a b : Mode) (p q : Payload)
    → (a ≢ force_full) ⊎ (b ≢ force_full)
    → merge_payload a p b q ≡ merge_payload b q a p
unfolding merge_payload
merge_payload_comm a b p q h = ground (
  arith,
  files_union_comm p.file_paths q.file_paths,
  files_union_comm p.deleted_paths q.deleted_paths,
)
