-- ===== src/Registry/Unregistered.antt =====
-- The catalog once a deletion has unregistered the binding that it found (src/scs/storage/registry.py).
use scs.Base.{
  ◌≡◌, refl, sym, ap, ◌∙◌, subst, true, false, Option, none, some, Text, ok, arith, inl, inr,
  text_eq, text_eq→eq, >>=-eq-ok, and_parts,
}
use scs.Sql.{find_row}
use scs.Sql.Counting.{find_row-some}
use scs.Catalog.Record.{CatalogRecord, Row, is_store_id, optional_generation, record_from_row}
use scs.Catalog.Store.{
  Catalog, Disk, no_home, no_database, blank, holds, has_root, owned_by, same_generation, lookup,
  read_row, optional_record, unregister,
}
use scs.Catalog.Orderly.{IsOrderly, IsOrderlyDisk}
use scs.Catalog.Typing.{record_from_row-IsTyped}
use scs.Catalog.Sound.{unregister-IsOrderly}
use scs.Catalog.Laws.Unregistering.{unregister-owned}
use scs.Registry.Deletion.{binding_matches}

pub same_generation-same : (g a : Option Text) → same_generation g a ≡ true → a ≡ g
same_generation-same none none h = refl
same_generation-same none (some a) h = absurd (ground arith)
same_generation-same (some g) none h = absurd (ground arith)
same_generation-same (some g) (some a) h = ap some (text_eq→eq a g h)

-- The row behind a record that was read.
optional_record-some :
    (o : Option Row) (found : CatalogRecord)
    → optional_record o ≡ ok (some found)
    → (row : Row) × (o ≡ some row) × (record_from_row row ≡ ok found)
unfolding optional_record
optional_record-some none found h = absurd (ground arith)
optional_record-some (some row) found h =
    let (value, read, rest) = >>=-eq-ok (record_from_row row) _ h in
    (row, refl, read ∙ ground arith)

module _ (canonical digest : Text → Text) (hex : (t : Text) → is_store_id (digest t) ≡ true)
    (root store_id : Text) (generation : Option Text) where
  -- What an unregistration of the binding that was found leaves.
  abbrev pub Unregistered : Disk → Type 0
  Unregistered disk =
      (changed : Disk) × (unregister canonical digest store_id generation root disk
        ≡ (changed, ok true))
      × (lookup canonical digest root changed ≡ ok none)
      × ((other : Text)
          → text_eq (canonical other) (canonical root) ≡ false
          → lookup canonical digest other changed ≡ lookup canonical digest other disk)
      × IsOrderlyDisk canonical digest changed

  unregister_row :
      (c : Catalog) (row : Row) (found : CatalogRecord)
      → IsOrderly canonical digest c
      → find_row (has_root (canonical root)) c.rows ≡ some row
      → record_from_row row ≡ ok found
      → binding_matches store_id generation (some found) ≡ true
      → Unregistered (holds c)
  unregister_row c row found o at read matches =
      let (here, named) = find_row-some (has_root (canonical root)) c.rows at in
      let (state, typed, same) = record_from_row-IsTyped row read in
      let (stored, generated) = and_parts (text_eq found.store_id store_id) _ matches in
      let same_store : row.store_id ≡ store_id =
        sym (ap (λ (r : CatalogRecord). r.store_id) same)
        ∙ text_eq→eq found.store_id store_id stored in
      let same_active : row.active_generation ≡ generation =
        sym (ap (λ (r : CatalogRecord). r.active_generation) same)
        ∙ same_generation-same generation found.active_generation generated in
      let is_hex : is_store_id store_id ≡ true =
        subst (λ t. is_store_id t ≡ true) same_store typed.store_id in
      let valid : optional_generation generation ≡ ok generation =
        subst (λ g. optional_generation g ≡ ok g) same_active typed.generation in
      let owned : owned_by (canonical root) store_id generation row ≡ true =
        let in_store =
          subst (λ t. text_eq t store_id ≡ true) (ap (λ (r : CatalogRecord). r.store_id) same)
            stored in
        let active =
          subst (λ g. same_generation generation g ≡ true)
            (ap (λ (r : CatalogRecord). r.active_generation) same) generated in
        rw (named, in_store, active) refl in
      let (changed, answered, outcome, others, again) =
        unregister-owned canonical digest store_id generation root c row o is_hex valid here
          named in
      (
        changed,
        answered ∙ ap (λ b. (changed, ok b)) owned,
        elim outcome [ inl (e, gone) ↦ gone | inr (e, idle) ↦ absurd (ground arith) ],
        others,
        subst (IsOrderlyDisk canonical digest) (ap (λ p. p.0) answered)
            (unregister-IsOrderly canonical digest store_id generation root (holds c) o),
      )

  pub unregister-Unregistered :
      (disk : Disk) (found : CatalogRecord)
      → IsOrderlyDisk canonical digest disk
      → lookup canonical digest root disk ≡ ok (some found)
      → binding_matches store_id generation (some found) ≡ true
      → Unregistered disk
  unfolding lookup read_row
  unregister-Unregistered no_home found o h m = absurd (ground arith)
  unregister-Unregistered no_database found o h m = absurd (ground arith)
  unregister-Unregistered blank found o h m = absurd (ground arith)
  unregister-Unregistered (holds c) found o h m =
      let (row, at, read) =
        optional_record-some (find_row (has_root (canonical root)) c.rows) found h in
      unregister_row c row found o at read m
