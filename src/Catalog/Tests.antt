-- ===== src/Catalog/Tests.antt =====
-- Concrete runs of the project catalog (src/scs/storage/catalog.py): two roots, a digest made of
-- the length of the root, and the paths as they are.
use scs.Base.{
  ◌+◌, ◌%◌, ◌≡◌, ◌≢◌, refl, sym, true, false, none, some, [], ◌∷◌, Memᴰ, Text, codes, ok, err,
  catalog_error, arith, ◌⊎◌, inr, length, text_eq, subst,
}
use scs.Catalog.Record.{
  uninitialized, ready_structural, semantic_ready, state_text, Row, CatalogRecord,
  validate_store_generation, is_store_id, is_generation, optional_generation,
}
use scs.Catalog.Store.{
  Catalog, Disk, no_home, holds, has_root, with_schema, owned_by, register, activate, update_state,
  unregister, lookup, insert_root, registered, commit_register, commit_update, update_row,
  store_id_for_root,
}
use scs.Catalog.Orderly.{IsOrderly, IsOrderlyDisk}
use scs.Catalog.Typing.{record_of}
use scs.Catalog.Calls.{registers, activates, Calls, idle, next}
use scs.Catalog.Lifetime.{Calls-IsOrderly, project_id-stable}
use scs.Catalog.Laws.Registering.{IsFree, register-lookup}
use scs.Catalog.Laws.Updating.{update_state-guarded}
use scs.Catalog.Laws.Unregistering.{unregister-owned}

abbrev as_given : Text → Text
as_given root = root

abbrev zeros : Text
zeros = codes "000000000000000000000000000000000000000000000000000000000000000"

abbrev length_digest : Text → Text
length_digest root = (48 + length root % 10) ∷ zeros

length_digest-hex : (t : Text) → is_store_id (length_digest t) ≡ true
unfolding is_store_id
length_digest-hex t = ground arith

abbrev repo : Text
repo = codes "/r"

abbrev other_repo : Text
other_repo = codes "/other"

abbrev first : Text
first = codes "g1"

abbrev registered_disk : Disk
registered_disk = (register as_given length_digest 0 repo no_home).0

abbrev active_disk : Disk
active_disk = (activate as_given length_digest first ready_structural repo registered_disk).0

run_active : Calls as_given length_digest no_home active_disk
run_active = next (next idle (registers 0 repo refl)) (activates first ready_structural repo refl)

Calls-IsOrderly_example : IsOrderlyDisk as_given length_digest active_disk
Calls-IsOrderly_example = Calls-IsOrderly as_given length_digest length_digest-hex run_active tt

abbrev active_row : Row
active_row = record {
  project_id = 1;
  canonical_root = repo;
  store_id = length_digest repo;
  active_generation = some first;
  state = state_text ready_structural;
}

abbrev active_catalog : Catalog
active_catalog = record { rows = active_row ∷ []; highest = 1 }

active_disk_lem : active_disk ≡ holds active_catalog
unfolding activate register insert_root registered commit_register commit_update update_row
    validate_store_generation is_generation store_id_for_root text_eq
active_disk_lem = refl

abbrev registered_row : Row
registered_row = record {
  project_id = 1;
  canonical_root = repo;
  store_id = length_digest repo;
  active_generation = none;
  state = state_text uninitialized;
}

registered_disk_lem : registered_disk ≡ holds (record { rows = registered_row ∷ []; highest = 1 })
unfolding register insert_root registered commit_register store_id_for_root text_eq
registered_disk_lem = refl

in_registered : Memᴰ registered_row (with_schema registered_disk).rows
in_registered =
    subst (λ d. Memᴰ registered_row (with_schema d).rows) (sym registered_disk_lem) (Memᴰ.head refl)

in_active : Memᴰ active_row (with_schema active_disk).rows
in_active = subst (λ d. Memᴰ active_row (with_schema d).rows) (sym active_disk_lem) (Memᴰ.head refl)

-- The id of a registered root still means it once a generation is active.
project_id-stable_example :
    (registered_row.canonical_root ≡ active_row.canonical_root)
    × (registered_row.store_id ≡ active_row.store_id)
project_id-stable_example =
    project_id-stable as_given length_digest registered_row active_row
      (next idle (activates first ready_structural repo refl))
      (Calls-IsOrderly as_given length_digest length_digest-hex (next idle (registers 0 repo refl))
        tt)
      in_registered in_active refl

active-IsOrderly : IsOrderly as_given length_digest active_catalog
active-IsOrderly =
    subst (IsOrderlyDisk as_given length_digest) active_disk_lem
      (Calls-IsOrderly as_given length_digest length_digest-hex run_active tt)

is_free : IsFree other_repo (length_digest other_repo) active_catalog
unfolding text_eq
is_free = inr refl

-- A second root beside the first.
register-lookup_example :
    (changed : Disk) × (result : CatalogRecord) × (register as_given length_digest 4 other_repo
        (holds active_catalog)
      ≡ (changed, ok result))
    × (result.canonical_root ≡ other_repo)
    × (lookup as_given length_digest other_repo changed ≡ ok (some result))
    × (register as_given length_digest 0 other_repo changed ≡ (changed, ok result))
register-lookup_example =
    register-lookup as_given length_digest 4 0 other_repo (holds active_catalog) length_digest-hex
      active-IsOrderly is_free

is_generation_first : is_generation first ≡ true
unfolding is_generation
is_generation_first = refl

-- The worker of the first generation reports readiness.
update_state-guarded_example :
    ((active_row.active_generation ≡ some first)
      × ((changed : Disk) × (update_state as_given length_digest first semantic_ready repo
              (holds active_catalog)
            ≡ (changed, ok (record_of active_row semantic_ready)))
          × (lookup as_given length_digest repo changed
              ≡ ok (some (record_of active_row semantic_ready)))
          × ((other : Text)
              → text_eq (as_given other) (as_given repo) ≡ false
              → lookup as_given length_digest other changed
                ≡ lookup as_given length_digest other (holds active_catalog))))
    ⊎ ((active_row.active_generation ≢ some first)
        × (update_state as_given length_digest first semantic_ready repo (holds active_catalog)
            ≡ (holds active_catalog, err catalog_error)))
update_state-guarded_example =
    update_state-guarded as_given length_digest first semantic_ready repo active_catalog active_row
      active-IsOrderly is_generation_first (Memᴰ.head refl) refl

optional_generation_first : optional_generation (some first) ≡ ok (some first)
unfolding optional_generation validate_store_generation is_generation
optional_generation_first = refl

has_root_repo : has_root (as_given repo) active_row ≡ true
unfolding text_eq
has_root_repo = refl

-- The deletion job of the first generation.
unregister-owned_example :
    (changed : Disk) × (unregister as_given length_digest
        (length_digest repo)
        (some first)
        repo
        (holds active_catalog)
      ≡ (changed, ok (owned_by repo (length_digest repo) (some first) active_row)))
    × ((owned_by repo (length_digest repo) (some first) active_row ≡ true)
          × (lookup as_given length_digest repo changed ≡ ok none)
        ⊎ (owned_by repo (length_digest repo) (some first) active_row ≡ false)
          × (changed ≡ holds active_catalog))
    × ((other : Text)
        → text_eq (as_given other) (as_given repo) ≡ false
        → lookup as_given length_digest other changed
          ≡ lookup as_given length_digest other (holds active_catalog))
    × (unregister as_given length_digest (length_digest repo) (some first) repo changed
        ≡ (changed, ok false))
unregister-owned_example =
    unregister-owned as_given length_digest (length_digest repo) (some first) repo active_catalog
      active_row active-IsOrderly (length_digest-hex repo) optional_generation_first
      (Memᴰ.head refl) has_root_repo
