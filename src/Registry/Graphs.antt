-- ===== src/Registry/Graphs.antt =====
-- `ProjectStoreRegistry` but for deletions: its lookups and the graphs that it opens
-- (src/scs/storage/registry.py). `fresh` is the generation made of a new uuid.
use scs.Base.{
  ℕ, Bool, false, not, ◌&&◌, Option, none, some, List, [], ◌∷◌, Text, text_eq, filter_by, ok,
  raise_if, runtime_error, if◌then◌else◌,
}
use scs.Catalog.Record.{CatalogRecord, semantic_stale, semantic_ready}
use scs.Catalog.Store.{lookup, register, activate, update_state, list_records, same_generation}
use scs.Registry.World.{
  StoreBinding, same_binding, finished, threw, Action, ◌and_next◌, give, attempt, inspect_home,
  change_home, on_catalog, Native, resolve, has_database, make_store, make_database,
}

-- `self._graphs.get(binding)`
unfoldable pub find_graph : StoreBinding → List (StoreBinding × StoreBinding) → Option StoreBinding
find_graph b [] = none
find_graph b (held ∷ rest) =
    let later = find_graph b rest in if same_binding b held.0 then some held.1 else later

-- `self._graphs[binding] = graph`
unfoldable pub put_graph :
    StoreBinding
    → StoreBinding
    → List (StoreBinding × StoreBinding)
    → List (StoreBinding × StoreBinding)
put_graph b graph [] = (b, graph) ∷ []
put_graph b graph (held ∷ rest) =
    let later = put_graph b graph rest in
    if same_binding b held.0 then (held.0, graph) ∷ rest else held ∷ later

-- `self._graphs.pop(binding, None)`
abbrev pub drop_graph :
    StoreBinding → List (StoreBinding × StoreBinding) → List (StoreBinding × StoreBinding)
drop_graph b graphs =
    filter_by (λ (held : StoreBinding × StoreBinding). not (same_binding b held.0)) graphs

abbrev pub set_graphs :
    (List (StoreBinding × StoreBinding) → List (StoreBinding × StoreBinding)) → Action (Unit {0})
set_graphs change w = (record w { graphs = change w.graphs }, finished tt)

-- The test of `graph_for_binding`.
abbrev pub is_bound_as : StoreBinding → Option CatalogRecord → Bool
is_bound_as b none = false
is_bound_as b (some found) =
    text_eq b.store_id found.store_id && same_generation (some b.generation) found.active_generation

-- The test of `mark_semantic_ready`.
abbrev pub is_store_of : StoreBinding → Option CatalogRecord → Bool
is_store_of b none = false
is_store_of b (some found) = text_eq b.store_id found.store_id

module _ (canonical digest : Text → Text) (native : Native) where
  -- `NativeGraph(...)` on some paths, whose database it creates.
  unfoldable pub new_graph : StoreBinding → Action StoreBinding
  unfolding change_home
  new_graph paths = attempt (native.opens paths) and_next λ opened.
      change_home (λ h. (make_database paths h, ok paths))

  unfoldable pub open_found :
      StoreBinding → StoreBinding → Option StoreBinding → Action StoreBinding
  unfolding new_graph put_graph
  open_found b paths (some graph) = give graph
  open_found b paths none =
      new_graph paths and_next λ graph. set_graphs (put_graph b graph) and_next λ done. give graph

  -- `_open`
  unfoldable pub open_graph : Text → Option Text → StoreBinding → Action StoreBinding
  unfolding open_found find_graph
  open_graph store_id none paths w = (w, threw runtime_error)
  open_graph store_id (some generation) paths w =
      let b : StoreBinding = record { store_id = store_id; generation = generation } in
      open_found b paths (find_graph b w.graphs) w

  -- `lookup_graph` of a record that was found.
  unfoldable pub graph_of_record : CatalogRecord → Option Text → Action (Option StoreBinding)
  unfolding resolve open_graph
  graph_of_record record_found none = give none
  graph_of_record record_found (some generation) =
      attempt (resolve record_found.store_id generation) and_next λ paths.
      inspect_home (λ h. ok (has_database paths h)) and_next λ exists.
      if exists
      then (open_graph record_found.store_id (some generation) paths and_next λ graph.
          give (some graph))
      else give none

  unfoldable pub graph_of_lookup : Option CatalogRecord → Action (Option StoreBinding)
  unfolding graph_of_record
  graph_of_lookup none = give none
  graph_of_lookup (some found) = graph_of_record found found.active_generation

  unfoldable pub lookup_graph : Text → Action (Option StoreBinding)
  unfolding graph_of_lookup
  lookup_graph root = inspect_home (λ h. lookup canonical digest root h.disk) and_next λ found.
      graph_of_lookup found

  -- `ensure_graph` of a record without a generation, and with one.
  unfoldable pub ensure_at :
      Text → Text → CatalogRecord → Option Text → Action (CatalogRecord × StoreBinding)
  unfolding resolve open_graph new_graph put_graph change_home
  ensure_at root fresh registered (some generation) =
      attempt (resolve registered.store_id generation) and_next λ paths.
      open_graph registered.store_id (some generation) paths and_next λ graph.
      give (registered, graph)
  ensure_at root fresh registered none =
      attempt (resolve registered.store_id fresh) and_next λ paths.
      change_home (λ h. (make_store registered.store_id h, ok tt)) and_next λ made.
      new_graph paths and_next λ graph.
      attempt (native.creates_repo graph (canonical root)) and_next λ created.
      change_home (on_catalog (activate canonical digest fresh semantic_stale (canonical root)))
      and_next λ activated.
          set_graphs
            (put_graph (record { store_id = activated.store_id; generation = fresh }) graph)
          and_next λ done. give (activated, graph)

  unfoldable pub ensure_graph : ℕ → Text → Text → Action (CatalogRecord × StoreBinding)
  unfolding ensure_at change_home
  ensure_graph gap fresh root =
      change_home (on_catalog (register canonical digest gap root)) and_next λ registered.
      ensure_at root fresh registered registered.active_generation

  -- `graph_for_binding` of a binding that the catalog has.
  unfoldable pub graph_at : StoreBinding → Action StoreBinding
  unfolding resolve open_graph
  graph_at b = attempt (resolve b.store_id b.generation) and_next λ paths.
      inspect_home (λ h. raise_if (not (has_database paths h)) runtime_error) and_next λ exists.
      open_graph b.store_id (some b.generation) paths

  unfoldable pub graph_for_binding : Text → StoreBinding → Action StoreBinding
  unfolding graph_at
  graph_for_binding root b =
      inspect_home (λ h. lookup canonical digest root h.disk) and_next λ found.
      attempt (raise_if (not (is_bound_as b found)) runtime_error) and_next λ matched. graph_at b

  unfoldable pub mark_semantic_ready : Text → StoreBinding → Action CatalogRecord
  unfolding change_home
  mark_semantic_ready root b =
      inspect_home (λ h. lookup canonical digest root h.disk) and_next λ found.
      attempt (raise_if (not (is_store_of b found)) runtime_error) and_next λ matched.
      change_home (on_catalog (update_state canonical digest b.generation semantic_ready root))

  unfoldable pub records : Action (List CatalogRecord)
  records = inspect_home (λ h. list_records h.disk)

  -- The loop of `flush`.
  unfoldable pub flush_all : List (StoreBinding × StoreBinding) → Action (Unit {0})
  flush_all [] = give tt
  flush_all (held ∷ rest) = attempt (native.flushes held.1) and_next λ flushed. flush_all rest

  unfoldable pub flush : Action (Unit {0})
  unfolding flush_all
  flush w = (flush_all w.graphs and_next λ flushed. set_graphs (λ graphs. [])) w
