-- ===== src/Catalog/Laws/Registering.antt =====
-- `register` and `lookup` of the project catalog (src/scs/storage/catalog.py).
use scs.Base.{
  ℕ, suc, ◌+◌, ◌≡◌, ap, ◌∙◌, true, false, some, [], ◌∷◌, ◌++◌, Text, ok, arith, any, ◌⊎◌, inl, inr,
  Bool-cases, text_eq, text_eq_refl, text_eq→eq, count-append,
}
use scs.Sql.{find_row}
use scs.Sql.Counting.{find_row-some, All-mem}
use scs.Sql.Selecting.{find_row-pos}
use scs.Sql.Deleting.{count-pos_any}
use scs.Sql.Finding.{any-pos}
use scs.Catalog.Record.{Row, CatalogRecord, record_from_row, is_store_id}
use scs.Catalog.Store.{
  Catalog, Disk, holds, has_root, has_store, with_schema, new_row, insert_root, registered,
  commit_register, register, lookup, read_row, optional_record, store_id_for_root,
}
use scs.Catalog.Orderly.{IsBound, IsOrderly, IsOrderlyDisk, with_schema-IsOrderly}
use scs.Catalog.Typing.{record_from_row-IsTyped}
use scs.Catalog.Registered.{insert_root-IsOrderly}

-- The store id of a root is not the store id of another root's row.
abbrev pub IsFree : Text → Text → Catalog → Type 0
IsFree root store_id c =
    (any (has_root root) c.rows ≡ true) ⊎ (any (has_store store_id) c.rows ≡ false)

insert_root-ok :
    (gap : ℕ) (root store_id : Text) (c : Catalog)
    → IsFree root store_id c
    → (longer : Catalog) × (insert_root gap root store_id c ≡ ok longer)
      × (any (has_root root) longer.rows ≡ true)
unfolding insert_root
insert_root-ok gap root store_id c free = elim (Bool-cases (any (has_root root) c.rows)) [
  | inl e ↦ (c, rw e, e)
  | inr e ↦
      let none_has : any (has_store store_id) c.rows ≡ false = ground arith in
      let row = new_row (suc (c.highest + gap)) root store_id in
      (
        record { rows = c.rows ++ row ∷ []; highest = suc (c.highest + gap) },
        rw (e, none_has),
        any-pos (has_root root) (c.rows ++ row ∷ [])
            (ground (arith, count-append (has_root root) c.rows (row ∷ []), text_eq_refl root)),
      )
]

insert_root-known :
    (gap : ℕ) (root store_id : Text) (c : Catalog)
    → any (has_root root) c.rows ≡ true
    → insert_root gap root store_id c ≡ ok c
unfolding insert_root
insert_root-known gap root store_id c e = rw e

module _ (canonical digest : Text → Text) where
  -- The record of a root that is there.
  pub registered-known :
      (root : Text) (c : Catalog)
      → IsOrderly canonical digest c
      → any (has_root root) c.rows ≡ true
      → (row : Row) × (result : CatalogRecord) × (find_row (has_root root) c.rows ≡ some row)
        × (record_from_row row ≡ ok result)
        × (registered (digest (canonical root)) (some row) ≡ ok result)
        × (result.canonical_root ≡ root)
  unfolding registered
  registered-known root c o there =
      let (row, found) = find_row-pos (has_root root) c.rows (count-pos_any _ c.rows there) in
      let (here, named) = find_row-some (has_root root) c.rows found in
      let same = text_eq→eq row.canonical_root root named in
      let bound = All-mem (IsBound canonical digest c.highest) c.rows here o.bound in
      let (result, typed) = bound.typed in
      let (state, _, shape) = record_from_row-IsTyped row typed in
      let store : result.store_id ≡ digest (canonical root) =
        ap (λ (r : CatalogRecord). r.store_id) shape
        ∙ bound.derived
        ∙ ap (λ r. digest (canonical r)) same in
      let equal : text_eq result.store_id (digest (canonical root)) ≡ true =
        rw store (text_eq_refl (digest (canonical root))) in
      (
        row,
        result,
        found,
        typed,
        rw (typed, registered, equal),
        ap (λ (r : CatalogRecord). r.canonical_root) shape ∙ same,
      )

  -- If digests are store ids and the root's digest is not another root's, registration answers with
  -- a record of the canonical root, a lookup then finds that record, and a second registration
  -- answers with it and changes nothing.
  pub register-lookup :
      (gap later : ℕ) (root : Text) (disk : Disk)
      → ((t : Text) → is_store_id (digest t) ≡ true)
      → IsOrderlyDisk canonical digest disk
      → IsFree (canonical root) (digest (canonical (canonical root))) (with_schema disk)
      → (changed : Disk) × (result : CatalogRecord) × (register canonical digest gap root disk
          ≡ (changed, ok result))
        × (result.canonical_root ≡ canonical root)
        × (lookup canonical digest root changed ≡ ok (some result))
        × (register canonical digest later root changed ≡ (changed, ok result))
  unfolding register store_id_for_root commit_register lookup read_row optional_record
  register-lookup gap later root disk hex orderly free =
      let sid = digest (canonical (canonical root)) in
      let before = with_schema disk in
      let (c, inserted, there) = insert_root-ok gap (canonical root) sid before free in
      let o =
        insert_root-IsOrderly canonical digest hex gap (canonical root) before c
          (with_schema-IsOrderly canonical digest disk orderly) inserted in
      let (row, result, found, typed, good, named) = registered-known (canonical root) c o there in
      (
        holds c,
        result,
        rw (inserted, commit_register, found, good),
        named,
        rw (found, read_row, optional_record, typed),
        rw (insert_root-known later (canonical root) sid c there, commit_register, found, good),
      )
