-- ===== src/Query/Execution.antt =====
-- The playbooks that inspect, and the dispatch (src/scs/orchestration/query.py).
use scs.Base.{
  ℕ, ◌*◌, true, false, Option, none, some, List, [], ◌∷◌, ◌++◌, Text, codes, length, take, ltb,
  unseen,
}
use scs.Graph.{node_type_value, function_node}
use scs.Value.{Value, integer, text, array, object, Fields, end, field, get_value, str}
use scs.Query.Decision.{
  Playbook, discover, understand, relationships, references, inspect_files, impact, inventory,
  SourcePosition,
}
use scs.Query.Request.{QueryRequest}
use scs.Query.Evidence.{
  Evidence, objects, file_path_of, symbols_category, references_category, append_nodes,
}
use scs.Query.Stages.{
  Routes, Run, Progress, start_progress, timeout_status, ◌and_then◌, done, collect, mark_truncated,
  stage,
}
use scs.Query.Playbooks.{budget, search_nodes, related}
use scs.Query.Projections.{
  at_most, path_in, known_path, total_of, texts_value, groups_evidence, targets_evidence,
}

-- `truncated = truncated or total > len(evidence["symbols"])`
abbrev pub mark_total : ℕ → Run (Unit {0})
mark_total total p = mark_truncated (ltb (length p.evidence.symbols) total) p

module _ (printed : Value → Text) (routes : Routes) (q : QueryRequest) where
  abbrev pub position_arguments : SourcePosition → Fields
  position_arguments position =
      field (codes "file_path") (text (path_in q.repo_path position.file_path))
        (field (codes "line") (integer position.line) end)

  -- `[raw_symbol] if isinstance(raw_symbol, dict)`
  abbrev pub symbol_nodes : Value → List Fields
  symbol_nodes (object node) = node ∷ []
  symbol_nodes _ = []

  unfoldable pub references_at : SourcePosition → Run (Unit {0})
  unfolding stage objects append_nodes
  references_at position =
      stage routes (codes "references") (codes "lsp.references") (position_arguments position)
      and_then λ response. collect (λ e.
        append_nodes printed references_category (codes "references")
          (objects (get_value (codes "references") response))
          (append_nodes printed symbols_category (codes "references")
            (symbol_nodes (get_value (codes "symbol") response)) e))

  unfoldable pub references_from : Option SourcePosition → Run (Unit {0})
  unfolding references_at related
  references_from (some position) = references_at position
  references_from none = related printed routes q true

  abbrev pub inspect_arguments : Text → Fields
  inspect_arguments file_path = field (codes "repo_path") (text q.repo_path) (
      field (codes "file_path") (text file_path) (
        field (codes "node_limit") (integer (at_most q.limit 50))
          (field (codes "edge_limit") (integer (at_most (q.limit * 2) 100)) end)))

  abbrev pub inspected : Text → Fields
  inspected file_path = field (codes "kind") (text (codes "file")) (
      field (codes "file_path") (text file_path)
        (field (codes "stage") (text (codes "inspect")) end))

  abbrev pub add_inspected : Text → Fields → Evidence → Evidence
  add_inspected file_path response e =
      let with_nodes =
        append_nodes printed symbols_category (codes "inspect")
          (objects (get_value (codes "nodes") response))
          (record e { files = e.files ++ inspected file_path ∷ [] }) in
      record with_nodes {
        relationships =
            with_nodes.relationships ++ groups_evidence (get_value (codes "edges") response);
      }

  unfoldable pub inspect_all : List Text → Run (Unit {0})
  unfolding stage objects append_nodes
  inspect_all [] = done tt
  inspect_all (file_path ∷ file_paths) =
      stage routes (codes "inspect") (codes "knowledge.inspect_file") (inspect_arguments file_path)
      and_then λ response.
          collect (add_inspected file_path response) and_then λ collected. inspect_all file_paths

  -- The texts of the paths that the seeds have.
  unfoldable pub seed_files : List Fields → List Text
  unfolding file_path_of
  seed_files [] = []
  seed_files (seed ∷ seeds) =
      let rest = seed_files seeds in
      elim (known_path (file_path_of seed)) [ none ↦ rest | some path ↦ str printed path ∷ rest ]

  unfoldable pub inspect_unique : List Text → Run (Unit {0})
  unfolding inspect_all
  inspect_unique unique_files =
      mark_truncated (ltb (budget printed routes q).hydrated_files (length unique_files))
      and_then λ marked. inspect_all (take (budget printed routes q).hydrated_files unique_files)

  unfoldable pub inspect : List Text → Run (Unit {0})
  unfolding inspect_unique seed_files search_nodes
  inspect [] =
      search_nodes printed routes q and_then λ seeds. inspect_unique (unseen [] (seed_files seeds))
  inspect (f ∷ fs) = inspect_unique (unseen [] (f ∷ fs))

  abbrev pub impact_arguments : Fields
  impact_arguments = field (codes "repo_path") (text q.repo_path) (
      field (codes "file_paths") (array (texts_value q.routing.file_paths)) (
        field (codes "dependent_limit") (integer (at_most q.limit 50))
          (field (codes "test_target_limit") (integer (at_most q.limit 50)) end)))

  unfoldable pub run_impact : Run (Unit {0})
  unfolding stage objects append_nodes
  run_impact =
      stage routes (codes "impact") (codes "knowledge.composite.regression_risk") impact_arguments
      and_then λ response. collect (λ e.
        let with_nodes =
          append_nodes printed symbols_category (codes "impact")
            (objects (get_value (codes "dependents") response)) e in
        record with_nodes {
          test_targets =
              with_nodes.test_targets
              ++ targets_evidence (objects (get_value (codes "test_targets") response));
        })

  -- `node_type or NodeType.FUNCTION.value`
  abbrev pub inventory_type : Option Text → Text
  inventory_type none = node_type_value function_node
  inventory_type (some []) = node_type_value function_node
  inventory_type (some (c ∷ cs)) = c ∷ cs

  abbrev pub inventory_arguments : Fields
  inventory_arguments = field (codes "repo_path") (text q.repo_path) (
      field (codes "node_type") (text (inventory_type q.routing.node_type))
        (field (codes "limit") (integer q.limit) (field (codes "offset") (integer 0) end)))

  unfoldable pub run_inventory : Run (Unit {0})
  unfolding stage objects append_nodes node_type_value
  run_inventory =
      stage routes (codes "inventory") (codes "knowledge.nodes.list") inventory_arguments
      and_then λ response.
          collect (
            append_nodes printed symbols_category (codes "inventory")
              (objects (get_value (codes "nodes") response)))
          and_then λ collected. mark_total (total_of (get_value (codes "total") response))

  unfoldable pub discovered : Run (Unit {0})
  unfolding search_nodes
  discovered = search_nodes printed routes q and_then λ nodes. done tt

  -- `match selected`
  unfoldable pub run_playbook : Playbook → Run (Unit {0})
  unfolding discovered related references_from inspect run_impact run_inventory
  run_playbook discover = discovered
  run_playbook understand = related printed routes q false
  run_playbook relationships = related printed routes q false
  run_playbook references = references_from q.routing.source_position
  run_playbook inspect_files = inspect q.routing.file_paths
  run_playbook impact = run_impact
  run_playbook inventory = run_inventory

  -- The `except TimeoutError` around the `match`.
  abbrev pub close_run : Progress × Option (Unit {0}) → Progress
  close_run (p, some finished) = p
  close_run (p, none) = record p {
    truncated = true;
    degraded_stages = p.degraded_stages ++ codes "execution" ∷ [];
    trace =
        p.trace
        ++ record {
          stage = codes "execution";
          status = timeout_status;
          counts = [];
          truncated = true;
        }
          ∷ [];
  }

  unfoldable pub execute : Playbook → Progress
  unfolding run_playbook
  execute selected = close_run (run_playbook selected start_progress)
