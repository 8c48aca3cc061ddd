-- ===== src/Catalog/Typing.antt =====
-- When a row of the catalog reads back as a record (src/scs/storage/catalog.py,
-- `_record_from_row`).
use scs.Base.{
  ◌≤◌, ◌≡◌, refl, true, false, Option, none, some, Text, Outcome, ok, err, raise_if, >>=-eq-ok,
  text_eq, ltb, arith,
}
use scs.Catalog.Record.{
  StoreState, uninitialized, ready_structural, semantic_stale, semantic_ready, migrating,
  migration_failed_recoverable, state_text, read_state, Row, CatalogRecord, record_from_row,
  typed_record, or_catalog_error, optional_generation, validate_store_id, validate_store_generation,
  is_store_id,
}

-- Every state is read back from the text that it is stored as.
pub read_state-state_text : (state : StoreState) → read_state (state_text state) ≡ ok state
unfolding read_state state_text text_eq
read_state-state_text uninitialized = refl
read_state-state_text ready_structural = refl
read_state-state_text semantic_stale = refl
read_state-state_text semantic_ready = refl
read_state-state_text migrating = refl
read_state-state_text migration_failed_recoverable = refl

-- The record that a row with valid columns is read as.
abbrev pub record_of : Row → StoreState → CatalogRecord
record_of row state = record {
  project_id = row.project_id;
  canonical_root = row.canonical_root;
  store_id = row.store_id;
  active_generation = row.active_generation;
  state = state;
}

-- The columns of a row are valid.
pub record IsTyped (row : Row) (state : StoreState) : Type 0 where
  pub positive : 1 ≤ row.project_id
  pub generation : optional_generation row.active_generation ≡ ok row.active_generation
  pub store_id : is_store_id row.store_id ≡ true
  pub read : read_state row.state ≡ ok state

pub record_from_row-ok :
    (row : Row) (state : StoreState)
    → IsTyped row state
    → record_from_row row ≡ ok (record_of row state)
unfolding record_from_row typed_record validate_store_id
record_from_row-ok row state h =
    let low : ltb row.project_id 1 ≡ false = let p = h.positive in ground arith in
    rw (record_from_row, typed_record, low, h.generation, h.store_id, h.read)

pub optional_generation-same :
    (raw : Option Text) {generation : Option Text}
    → optional_generation raw ≡ ok generation
    → raw ≡ generation
unfolding optional_generation validate_store_generation
optional_generation-same none h = ground arith
optional_generation-same (some raw) h = ground arith

validate_store_id-ok :
    (raw : Text) {store_id : Text}
    → validate_store_id raw ≡ ok store_id
    → (is_store_id raw ≡ true) × (raw ≡ store_id)
unfolding validate_store_id
validate_store_id-ok raw h = ground arith

or_catalog_error-ok : {A : Type 0} (m : Outcome A) {a : A} → or_catalog_error m ≡ ok a → m ≡ ok a
or_catalog_error-ok (ok a) h = h
or_catalog_error-ok (err e) h = cc

pub record_from_row-IsTyped :
    (row : Row) {result : CatalogRecord}
    → record_from_row row ≡ ok result
    → (state : StoreState) × IsTyped row state × (result ≡ record_of row state)
unfolding record_from_row typed_record
record_from_row-IsTyped row {result} h =
    let h₀ = or_catalog_error-ok (typed_record row) h in
    let (_, low, h₁) = >>=-eq-ok (raise_if (ltb row.project_id 1) _) _ h₀ in
    let (generation, valid, h₂) = >>=-eq-ok (optional_generation row.active_generation) _ h₁ in
    let (store_id, hex, h₃) = >>=-eq-ok (validate_store_id row.store_id) _ h₂ in
    let (state, read, h₄) = >>=-eq-ok (read_state row.state) _ h₃ in
    let (is_id, id_same) = validate_store_id-ok row.store_id hex in
    let same = optional_generation-same row.active_generation valid in
    (
      state,
      record {
        positive = ground arith;
        generation = rw (← same) at valid;
        store_id = is_id;
        read = read;
      },
      cc (h₄, same, id_same),
    )
