-- ===== src/Registry/Deletion.antt =====
-- `delete_repository` and `deletion_target` of the registry (src/scs/storage/registry.py). `retire_digest`
-- stands for the shortened SHA-256 of a deletion's id.
use scs.Base.{
  Bool, true, false, not, ◌&&◌, ◌||◌, Option, none, some, List, [], ◌∷◌, Text, codes, text_eq, any,
  is_some, filter_by, ok, if◌then◌else◌,
}
use scs.Value.{Value, boolean, Fields, end, field}
use scs.Catalog.Record.{CatalogRecord, validate_store_id, optional_generation}
use scs.Catalog.Store.{lookup, unregister, same_generation, store_id_for_root}
use scs.Registry.World.{
  StoreBinding, Home, Action, ◌and_next◌, give, attempt, inspect_home, change_home, on_catalog,
  Native, resolve, is_live, is_retired, retire_store, remove_tombstone,
}
use scs.Registry.Graphs.{graph_for_binding, set_graphs, drop_graph}

-- `generation or StoreGeneration("deletion")`
abbrev pub generation_or_deletion : Option Text → Text
generation_or_deletion none = codes "deletion"
generation_or_deletion (some generation) = generation

-- `d[key] = value`
unfoldable pub set_field : Text → Value → Fields → Fields
set_field key value end = field key value end
set_field key value (field name held rest) =
    let later = set_field key value rest in
    if text_eq key name then field name value rest else field name held later

-- `d.update(others)`
unfoldable pub update_fields : Fields → Fields → Fields
unfolding set_field
update_fields end d = d
update_fields (field key value rest) d = update_fields rest (set_field key value d)

abbrev pub deletion_result : Bool → Bool → Fields
deletion_result repo_deleted superseded =
    field (codes "repo_deleted") (boolean repo_deleted)
      (field (codes "superseded") (boolean superseded) end)

-- `_retired_stores`: store ids have one length, so that the prefix of a name is the store's id.
abbrev pub retired_stores : Text → Home → List (Text × Text)
retired_stores store_id h = filter_by (λ (t : Text × Text). text_eq store_id t.0) h.retired

unfoldable pub remove_all : List (Text × Text) → Action (Unit {0})
unfolding change_home
remove_all [] = give tt
remove_all (tombstone ∷ rest) =
    change_home (λ h. (remove_tombstone tombstone h, ok tt)) and_next λ removed. remove_all rest

-- `_remove_retired_stores`
unfoldable pub remove_retired_stores : Text → Action (Unit {0})
unfolding remove_all
remove_retired_stores store_id w = remove_all (retired_stores store_id w.home) w

-- `binding_matches`
abbrev pub binding_matches : Text → Option Text → Option CatalogRecord → Bool
binding_matches store_id generation none = false
binding_matches store_id generation (some found) =
    text_eq found.store_id store_id && same_generation generation found.active_generation

module _ (canonical digest : Text → Text) (native : Native) where
  -- The deletion in the native graph, if the binding matches and has a generation.
  unfoldable pub delete_native : Text → Text → Option Text → Bool → Fields → Action Fields
  unfolding graph_for_binding update_fields change_home
  delete_native root store_id (some generation) true result =
      let b : StoreBinding = record { store_id = store_id; generation = generation } in
      graph_for_binding canonical digest native root b and_next λ graph.
      change_home (λ h. (h, native.deletes_repo graph root)) and_next λ answer.
      set_graphs (drop_graph b) and_next λ popped. give (update_fields answer result)
  delete_native root store_id generation matches result = give result

  unfoldable pub retire :
      Text → Text → Option Text → Bool → Text × Text → Fields → Bool → Action Fields
  unfolding delete_native change_home
  retire root store_id generation matches tombstone result true =
      delete_native root store_id generation matches result and_next λ answer.
      change_home (λ h. (retire_store tombstone h, ok tt)) and_next λ replaced. give answer
  retire root store_id generation matches tombstone result false = give result

  unfoldable pub unregister_if : Bool → Text → Text → Option Text → Action (Unit {0})
  unfolding change_home
  unregister_if true root store_id generation =
      change_home (on_catalog (unregister canonical digest store_id generation root))
      and_next λ done. give tt
  unregister_if false root store_id generation = give tt

  -- `delete_repository` from `deletion_result` on, by whether the store and the tombstone were there.
  unfoldable pub delete_seen :
      Text → Text → Option Text → Text × Text → Option CatalogRecord → Bool → Bool → Action Fields
  unfolding retire unregister_if remove_retired_stores
  delete_seen root store_id generation tombstone found is_there was_retired =
      let matches = binding_matches store_id generation found in
      retire root store_id generation matches tombstone
        (deletion_result (is_some found || is_there) false) (not was_retired && is_there)
      and_next λ result. unregister_if matches root store_id generation and_next λ unregistered.
          remove_retired_stores store_id and_next λ removed. give result

  -- From the catalog's answer on; `root` is canonical.
  unfoldable pub delete_found :
      Text → Text → Option Text → Text × Text → Option CatalogRecord → Action Fields
  unfolding delete_seen remove_retired_stores
  delete_found root store_id generation tombstone found =
      if is_some found && not (binding_matches store_id generation found)
      then (remove_retired_stores store_id and_next λ removed. give (deletion_result false true))
      else (inspect_home (λ h. ok (is_live store_id h)) and_next λ is_there.
          inspect_home (λ h. ok (is_retired tombstone h)) and_next λ was_retired.
          delete_seen root store_id generation tombstone found is_there was_retired)

  unfoldable pub delete_repository :
      (Text → Text) → Text → Option Text → Text → Text → Action Fields
  unfolding resolve delete_found
  delete_repository retire_digest store_id store_generation deletion_id root =
      attempt (validate_store_id store_id) and_next λ safe_store_id.
      attempt (optional_generation store_generation) and_next λ generation.
      attempt (resolve safe_store_id (generation_or_deletion generation)) and_next λ paths.
      inspect_home (λ h. lookup canonical digest (canonical root) h.disk) and_next λ found.
      delete_found (canonical root) safe_store_id generation
        (safe_store_id, retire_digest deletion_id) found

  -- The store of a record, or of the root.
  abbrev pub target_store : Text → Option CatalogRecord → Text
  target_store root none = store_id_for_root canonical digest root
  target_store root (some found) = found.store_id

  abbrev pub target_generation : Option CatalogRecord → Option Text
  target_generation none = none
  target_generation (some found) = found.active_generation

  -- `RepositoryDeletionTarget`, if there is something to delete.
  unfoldable pub deletion_target : Text → Action (Option (Text × Option Text))
  unfolding resolve store_id_for_root
  deletion_target root =
      inspect_home (λ h. lookup canonical digest (canonical root) h.disk) and_next λ found.
      attempt (
        resolve (target_store (canonical root) found)
          (generation_or_deletion (target_generation found)))
      and_next λ paths. inspect_home (λ h. ok (
          if not (is_some found)
            && not (is_live paths.store_id h)
            && not (any (λ (t : Text × Text). text_eq paths.store_id t.0) h.retired)
          then none
          else some (target_store (canonical root) found, target_generation found)))
