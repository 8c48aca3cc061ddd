-- ===== src/Catalog/Record.antt =====
-- The rows of the project catalog and their validation (src/scs/storage/models.py and
-- `_record_from_row` of src/scs/storage/catalog.py).
use scs.Base.{
  ℕ, Bool, true, false, Option, none, some, List, [], ◌∷◌, Text, codes, Outcome, ok, err, ◌>>=◌,
  ◌>>◌, raise_if, catalog_error, value_error, text_eq, ltb, leb, ◌==◌, length, ◌&&◌, ◌||◌,
  if◌then◌else◌,
}

pub data StoreState : Type 0 where
  uninitialized ready_structural semantic_stale semantic_ready migrating : StoreState
  migration_failed_recoverable : StoreState

-- The value that the enumeration stores.
unfoldable pub state_text : StoreState → Text
state_text uninitialized = codes "uninitialized"
state_text ready_structural = codes "ready_structural"
state_text semantic_stale = codes "semantic_stale"
state_text semantic_ready = codes "semantic_ready"
state_text migrating = codes "migrating"
state_text migration_failed_recoverable = codes "migration_failed_recoverable"

abbrev pub states : List StoreState
states =
    uninitialized ∷ ready_structural ∷ semantic_stale ∷ semantic_ready ∷ migrating
    ∷ migration_failed_recoverable ∷ []

unfoldable pub state_of : Text → List StoreState → Outcome StoreState
state_of raw [] = err value_error
state_of raw (state ∷ rest) =
    let later = state_of raw rest in if text_eq raw (state_text state) then ok state else later

-- `StoreState(raw)`
unfoldable pub read_state : Text → Outcome StoreState
unfolding state_of
read_state raw = state_of raw states

abbrev pub every : (ℕ → Bool) → Text → Bool
every test [] = true
every test (c ∷ cs) = test c && every test cs

abbrev pub is_digit : ℕ → Bool
is_digit c = leb 48 c && leb c 57

-- `[0-9a-f]`
abbrev pub is_hex : ℕ → Bool
is_hex c = is_digit c || (leb 97 c && leb c 102)

-- `[a-z0-9]`
abbrev pub is_plain : ℕ → Bool
is_plain c = is_digit c || (leb 97 c && leb c 122)

-- `[a-z0-9_-]`
abbrev pub is_word : ℕ → Bool
is_word c = is_plain c || (c == 95) || (c == 45)

-- `[0-9a-f]{64}\Z`
unfoldable pub is_store_id : Text → Bool
is_store_id value = (length value == 64) && every is_hex value

-- `[a-z0-9][a-z0-9_-]{0,63}\Z`
unfoldable pub is_generation : Text → Bool
is_generation [] = false
is_generation (c ∷ cs) = is_plain c && every is_word cs && leb (length cs) 63

unfoldable pub validate_store_id : Text → Outcome Text
unfolding is_store_id
validate_store_id value = if is_store_id value then ok value else err value_error

unfoldable pub validate_store_generation : Text → Outcome Text
unfolding is_generation
validate_store_generation value = if is_generation value then ok value else err value_error

-- A row of `project_stores` as SQLite gives it.
pub record Row : Type 0 where
  pub project_id : ℕ
  pub canonical_root : Text
  pub store_id : Text
  pub active_generation : Option Text
  pub state : Text

pub record CatalogRecord : Type 0 where
  pub project_id : ℕ
  pub canonical_root : Text
  pub store_id : Text
  pub active_generation : Option Text
  pub state : StoreState

unfoldable pub optional_generation : Option Text → Outcome (Option Text)
unfolding validate_store_generation
optional_generation none = ok none
optional_generation (some raw) = do generation ← validate_store_generation raw; ok (some generation)

-- `except (TypeError, ValueError) as exc: raise CatalogError(...)`
abbrev pub or_catalog_error {ℓ} : {A : Type ℓ} → Outcome A → Outcome A
or_catalog_error (ok a) = ok a
or_catalog_error (err e) = err catalog_error

unfoldable pub typed_record : Row → Outcome CatalogRecord
unfolding optional_generation validate_store_id read_state
typed_record row = do
  raise_if (ltb row.project_id 1) value_error
  generation ← optional_generation row.active_generation
  store_id ← validate_store_id row.store_id
  state ← read_state row.state
  ok (record {
    project_id = row.project_id;
    canonical_root = row.canonical_root;
    store_id = store_id;
    active_generation = generation;
    state = state;
  })

unfoldable pub record_from_row : Row → Outcome CatalogRecord
unfolding typed_record
record_from_row row = or_catalog_error (typed_record row)
