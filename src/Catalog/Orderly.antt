-- ===== src/Catalog/Orderly.antt =====
-- What holds of the project catalog between two calls (src/scs/storage/catalog.py).
use scs.Base.{arith, ◌≤◌, ◌≡◌, ℕ, Text, none, ok, All, count}
use scs.Catalog.Record.{uninitialized, state_text, Row, CatalogRecord, record_from_row}
use scs.Catalog.Store.{
  with_schema, Catalog, Disk, no_home, no_database, blank, holds, has_root, has_store, has_project,
}

-- A row that reads back as a record, whose store is the digest of its root, whose id was given out,
-- and which is uninitialized until it has a generation.
pub record IsBound (canonical digest : Text → Text) (highest : ℕ) (row : Row) : Type 0 where
  pub typed : (result : CatalogRecord) × (record_from_row row ≡ ok result)
  pub derived : row.store_id ≡ digest (canonical row.canonical_root)
  pub positive : 1 ≤ row.project_id
  pub given : row.project_id ≤ highest
  pub pending : row.active_generation ≡ none → row.state ≡ state_text uninitialized

pub record IsOrderly (canonical digest : Text → Text) (c : Catalog) : Type 0 where
  pub one_root : (root : Text) → count (has_root root) c.rows ≤ 1
  pub one_store : (store_id : Text) → count (has_store store_id) c.rows ≤ 1
  pub one_id : (project_id : ℕ) → count (has_project project_id) c.rows ≤ 1
  pub bound : All (IsBound canonical digest c.highest) c.rows

-- A disk whose table, if it has one, is orderly.
abbrev pub IsOrderlyDisk : (Text → Text) → (Text → Text) → Disk → Type 0
IsOrderlyDisk canonical digest (holds c) = IsOrderly canonical digest c
IsOrderlyDisk canonical digest _ = Unit

module _ (canonical digest : Text → Text) where
  pub with_schema-IsOrderly :
      (disk : Disk)
      → IsOrderlyDisk canonical digest disk
      → IsOrderly canonical digest (with_schema disk)
  with_schema-IsOrderly (holds c) o = o
  with_schema-IsOrderly no_home o = record {
    one_root = λ x. omega arith;
    one_store = λ x. omega arith;
    one_id = λ x. omega arith;
    bound = tt;
  }
  with_schema-IsOrderly no_database o = record {
    one_root = λ x. omega arith;
    one_store = λ x. omega arith;
    one_id = λ x. omega arith;
    bound = tt;
  }
  with_schema-IsOrderly blank o = record {
    one_root = λ x. omega arith;
    one_store = λ x. omega arith;
    one_id = λ x. omega arith;
    bound = tt;
  }
