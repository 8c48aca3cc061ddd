-- ===== src/Catalog/Store.antt =====
-- `ProjectStoreCatalog` (src/scs/storage/catalog.py). The path canonicalization, which reads the
-- file system, and the SHA-256 digest are parameters.
use scs.Base.{
  ℕ, suc, ◌+◌, Bool, true, false, Option, none, some, List, [], ◌∷◌, ◌++◌, Text, Outcome, ok, err,
  ◌>>=◌, ◌>>◌, raise_if, catalog_error, value_error, database_error, integrity_error, text_eq, ltb,
  leb, ◌==◌, not, ◌&&◌, count, filter_by, any, if◌then◌else◌,
}
use scs.Sql.{update_where, find_row, select_all}
use scs.Catalog.Record.{
  StoreState, uninitialized, state_text, Row, CatalogRecord, record_from_row,
  validate_store_generation, validate_store_id, optional_generation,
}

-- The table, and the largest id that was ever in it: `AUTOINCREMENT` goes above that one.
pub record Catalog : Type 0 where
  pub rows : List Row
  pub highest : ℕ

-- The SCS home: absent, without a catalog.db, with an empty one that has no table, or with the table.
pub data Disk : Type 0 where
  no_home no_database blank : Disk
  holds : Catalog → Disk

-- `WHERE canonical_root = ?`
abbrev pub has_root : Text → Row → Bool
has_root root row = text_eq row.canonical_root root

abbrev pub has_store : Text → Row → Bool
has_store store_id row = text_eq row.store_id store_id

-- `WHERE project_id = ?`
abbrev pub has_project : ℕ → Row → Bool
has_project project_id row = row.project_id == project_id

-- `_record_from_row(row) if row is not None else None`
unfoldable pub optional_record : Option Row → Outcome (Option CatalogRecord)
optional_record none = ok none
optional_record (some row) = do result ← record_from_row row; ok (some result)

-- A read of the file that is opened read-only; without the table the `SELECT` raises.
unfoldable pub read_row : (Row → Bool) → Disk → Outcome (Option CatalogRecord)
unfolding optional_record
read_row test no_home = ok none
read_row test no_database = ok none
read_row test blank = err database_error
read_row test (holds c) = optional_record (find_row test c.rows)

unfoldable pub lookup_project : ℕ → Disk → Outcome (Option CatalogRecord)
unfolding read_row
lookup_project project_id disk = do
  raise_if (ltb project_id 1) value_error
  read_row (has_project project_id) disk

-- `sqlite3.connect` and `CREATE TABLE IF NOT EXISTS`.
abbrev pub with_schema : Disk → Catalog
with_schema (holds c) = c
with_schema _ = record { rows = []; highest = 0 }

abbrev pub new_row : ℕ → Text → Text → Row
new_row project_id canonical_root store_id = record {
  project_id = project_id;
  canonical_root = canonical_root;
  store_id = store_id;
  active_generation = none;
  state = state_text uninitialized;
}

-- `INSERT ... ON CONFLICT(canonical_root) DO NOTHING`. The new id is above every id that was ever in
-- the table; SQLite may leave out `gap` numbers.
unfoldable pub insert_root : ℕ → Text → Text → Catalog → Outcome Catalog
insert_root gap canonical_root store_id c =
    if any (has_root canonical_root) c.rows then ok c else (do
      raise_if (any (has_store store_id) c.rows) integrity_error
      let project_id = suc (c.highest + gap)
      ok (record {
        rows = c.rows ++ new_row project_id canonical_root store_id ∷ [];
        highest = project_id;
      }))

-- What `register` answers with after its transaction.
unfoldable pub registered : Text → Option Row → Outcome CatalogRecord
registered store_id none = err catalog_error
registered store_id (some row) = do
  result ← record_from_row row
  raise_if (not (text_eq result.store_id store_id)) catalog_error
  ok result

unfoldable pub commit_register :
    Text → Text → Catalog → Outcome Catalog → Disk × Outcome CatalogRecord
unfolding registered
commit_register root store_id before (err e) = (holds before, err catalog_error)
commit_register root store_id before (ok c) =
    (holds c, registered store_id (find_row (has_root root) c.rows))

-- `rowcount != 1` raises inside the transaction, which the closing rolls back; otherwise the row is
-- read back and the change committed.
unfoldable pub commit_update :
    Text → (Row → Bool) → (Row → Row) → Catalog → Disk × Outcome CatalogRecord
unfolding registered
commit_update root test assign c =
    if not (count test c.rows == 1)
    then (holds c, err catalog_error)
    else let rows = update_where test assign c.rows in
      (
        holds (record c { rows = rows }),
        elim (find_row (has_root root) rows) [
          | none ↦ err catalog_error
          | some row ↦ record_from_row row
        ],
      )

-- `sqlite3.connect`, which creates the file, and an `UPDATE` of the table.
unfoldable pub update_row : Text → (Row → Bool) → (Row → Row) → Disk → Disk × Outcome CatalogRecord
unfolding commit_update
update_row root test assign no_home = (no_home, err database_error)
update_row root test assign no_database = (blank, err catalog_error)
update_row root test assign blank = (blank, err catalog_error)
update_row root test assign (holds c) = commit_update root test assign c

abbrev pub publish : Text → StoreState → Row → Row
publish generation state row = record row {
  active_generation = some generation;
  state = state_text state;
}

abbrev pub set_state : StoreState → Row → Row
set_state state row = record row { state = state_text state }

abbrev pub is_uninitialized : StoreState → Bool
is_uninitialized uninitialized = true
is_uninitialized _ = false

-- `active_generation IS NULL`, or `active_generation = ?`
abbrev pub same_generation : Option Text → Option Text → Bool
same_generation none none = true
same_generation (some g) (some active) = text_eq active g
same_generation _ _ = false

-- `WHERE canonical_root = ? AND active_generation = ?`
abbrev pub bound_to : Text → Text → Row → Bool
bound_to root generation row =
    has_root root row && same_generation (some generation) row.active_generation

-- The `WHERE` of the `DELETE`.
abbrev pub owned_by : Text → Text → Option Text → Row → Bool
owned_by root store_id generation row =
    has_root root row
    && (has_store store_id row && same_generation generation row.active_generation)

-- `DELETE`, and whether it took exactly one row.
unfoldable pub delete_row : (Row → Bool) → Disk → Disk × Outcome Bool
delete_row test no_home = (no_home, ok false)
delete_row test no_database = (no_database, ok false)
delete_row test blank = (blank, err catalog_error)
delete_row test (holds c) = (
  holds (record c { rows = filter_by (λ row. not (test row)) c.rows }),
  ok (count test c.rows == 1),
)

-- `ORDER BY project_id`
abbrev pub by_id : Row → Row → Bool
by_id row other = leb row.project_id other.project_id

unfoldable pub all_records : List Row → Outcome (List CatalogRecord)
all_records [] = ok []
all_records (row ∷ rows) = do
  first ← record_from_row row
  rest ← all_records rows
  ok (first ∷ rest)

unfoldable pub list_records : Disk → Outcome (List CatalogRecord)
unfolding all_records
list_records no_home = ok []
list_records no_database = ok []
list_records blank = err database_error
list_records (holds c) = all_records (select_all by_id (λ row. true) c.rows)

-- A result of the checks before the database is touched: an exception leaves the disk as it is.
abbrev pub checked {ℓ κ} :
    {A : Type ℓ} {B : Type κ} → Outcome A → Disk → (A → Disk × Outcome B) → Disk × Outcome B
checked (err e) disk rest = (disk, err e)
checked (ok a) disk rest = rest a

module _ (canonical : Text → Text) (digest : Text → Text) where
  -- `store_id_for_root`
  unfoldable pub store_id_for_root : Text → Text
  store_id_for_root root = digest (canonical root)

  unfoldable pub lookup : Text → Disk → Outcome (Option CatalogRecord)
  unfolding read_row
  lookup root disk = read_row (has_root (canonical root)) disk

  unfoldable pub register : ℕ → Text → Disk → Disk × Outcome CatalogRecord
  unfolding store_id_for_root commit_register
  register gap root disk =
      let canonical_root = canonical root in
      let store_id = store_id_for_root canonical_root in
      let before = with_schema disk in
      commit_register canonical_root store_id before
        (insert_root gap canonical_root store_id before)

  unfoldable pub activate : Text → StoreState → Text → Disk → Disk × Outcome CatalogRecord
  unfolding update_row
  activate generation state root disk =
      let canonical_root = canonical root in
      checked
        (do
          safe ← validate_store_generation generation
          raise_if (is_uninitialized state) value_error
          ok safe)
        disk (λ safe. update_row canonical_root (has_root canonical_root) (publish safe state) disk)

  unfoldable pub update_state : Text → StoreState → Text → Disk → Disk × Outcome CatalogRecord
  unfolding update_row
  update_state expected_generation state root disk =
      let canonical_root = canonical root in
      checked (validate_store_generation expected_generation) disk (λ generation.
        update_row canonical_root (bound_to canonical_root generation) (set_state state) disk)

  unfoldable pub unregister : Text → Option Text → Text → Disk → Disk × Outcome Bool
  unfolding delete_row
  unregister expected_store_id expected_generation root disk =
      let canonical_root = canonical root in
      checked {A = Text × Option Text}
        (do
          store_id ← validate_store_id expected_store_id
          generation ← optional_generation expected_generation
          ok (store_id, generation))
        disk (λ owner. delete_row (owned_by canonical_root owner.0 owner.1) disk)
