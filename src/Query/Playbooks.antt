-- ===== src/Query/Playbooks.antt =====
-- The seven playbooks over the service routes: the `match` of `query` with its local functions
-- `search` and `related` (src/scs/orchestration/query.py).
use scs.Base.{
  Bool, true, false, ◌&&◌, Option, none, some, List, [], ◌∷◌, ◌++◌, Text, codes, is_some,
  if◌then◌else◌,
}
use scs.Graph.{RelationshipType, relationship_value}
use scs.Value.{Value, null, integer, text, object, Fields, end, field, get_value, is_true, str}
use scs.Query.Request.{QueryRequest, ModeBudget, mode_budget, mode_text}
use scs.Query.Evidence.{Evidence, objects, get_or, file_path_of, symbols_category, append_nodes}
use scs.Query.Stages.{Routes, Run, ◌and_then◌, done, collect, stage}
use scs.Query.Projections.{at_most, optional_text, equals_zero, first_id, edge_types_of}

module _ (printed : Value → Text) (routes : Routes) (q : QueryRequest) where
  abbrev pub budget : ModeBudget
  budget = mode_budget q.mode

  abbrev pub search_arguments : Fields
  search_arguments = field (codes "query") (text q.routing.goal) (
      field (codes "node_type") (optional_text q.routing.node_type) (
        field (codes "repo_path") (text q.repo_path) (
          field (codes "limit") (integer (at_most q.limit budget.search_seeds)) (
            field (codes "search_mode") (text (mode_text q.mode))
              (field (codes "result_detail") (text (codes "compact")) end)))))

  unfoldable pub search_nodes : Run (List Fields)
  unfolding stage objects append_nodes
  search_nodes =
      stage routes (codes "search") (codes "knowledge.search") search_arguments and_then λ response.
      let nodes = objects (get_value (codes "results") response) in
      collect (append_nodes printed symbols_category (codes "search") nodes) and_then λ done_too.
      done nodes

  -- `[str(seed.get("id", "")) for seed in seeds[:1] if seed.get("id")]`
  abbrev pub seed_ids : List Fields → List Text
  seed_ids [] = []
  seed_ids (seed ∷ seeds) =
      if is_true (get_value (codes "id") seed)
      then str printed (get_or (codes "id") (text []) seed) ∷ []
      else []

  abbrev pub edge_type_value : Option RelationshipType → Value
  edge_type_value none = null
  edge_type_value (some r) = text (relationship_value r)

  -- The relationship that an item of `related` gives, about `node`.
  unfoldable pub relationship_evidence :
      Bool → Option RelationshipType → Value → Text → Fields → Fields → Fields
  unfolding file_path_of relationship_value
  relationship_evidence incoming edge_type seed_id stage_name item node =
      field (codes "kind") (text (if incoming then codes "reference" else codes "relationship")) (
        field (codes "id")
          (text (str printed (get_or (codes "id") (get_or (codes "id") (text []) node) item)))
          (field (codes "seed_id") (get_or (codes "seed_id") seed_id item) (
            field (codes "target_id") (get_value (codes "id") node) (
              field (codes "relationship")
                (if is_some edge_type
                  then edge_type_value edge_type
                  else get_value (codes "relationship") item)
                (field (codes "direction")
                  (get_or (codes "direction")
                    (text (if incoming then codes "incoming" else codes "both")) item)
                  (field (codes "file_path") (file_path_of node) (
                    field (codes "start_line") (get_value (codes "start_line") node) (
                      field (codes "end_line") (get_value (codes "end_line") node)
                        (field (codes "stage") (text stage_name) end)))))))))

  abbrev pub add_relationship : Bool → Fields → Evidence → Evidence
  add_relationship true item e = record e { references = e.references ++ item ∷ [] }
  add_relationship false item e = record e { relationships = e.relationships ++ item ∷ [] }

  -- The rest of the loop's body, by `raw_node`.
  unfoldable pub add_item_at :
      Bool → Option RelationshipType → Value → Text → Fields → Value → Evidence → Evidence
  unfolding relationship_evidence append_nodes
  add_item_at incoming edge_type seed_id stage_name item (object node) e =
      add_relationship incoming
        (relationship_evidence incoming edge_type seed_id stage_name item node)
        (append_nodes printed symbols_category stage_name (node ∷ []) e)
  add_item_at incoming edge_type seed_id stage_name item _ e =
      add_relationship incoming
        (relationship_evidence incoming edge_type seed_id stage_name item item) e

  unfoldable pub add_items :
      Bool → Option RelationshipType → Value → Text → List Fields → Evidence → Evidence
  unfolding add_item_at
  add_items incoming edge_type seed_id stage_name [] e = e
  add_items incoming edge_type seed_id stage_name (item ∷ items) e =
      add_items incoming edge_type seed_id stage_name items (
        if incoming && equals_zero (get_value (codes "depth") item)
        then e
        else add_item_at incoming edge_type seed_id stage_name item (get_value (codes "node") item)
            e)

  abbrev pub stage_of : Bool → Text
  stage_of true = codes "references"
  stage_of false = codes "traversal"

  abbrev pub head_value : List Text → Value
  head_value [] = null
  head_value (t ∷ ts) = text t

  -- `identities[0] if identities else` the first id of the matches
  abbrev pub seed_value : List Text → List Fields → Value
  seed_value [] matches = first_id matches
  seed_value (t ∷ ts) matches = text t

  abbrev pub related_arguments : Bool → List Text → Option Text → Option RelationshipType → Fields
  related_arguments incoming identities symbol edge_type =
      field (codes "node_id") (head_value identities) (
        field (codes "symbol_name") (optional_text symbol) (
          field (codes "repo_path") (text q.repo_path) (
            field (codes "depth") (integer (if incoming then 1 else budget.graph_depth)) (
              field (codes "direction") (text (if incoming then codes "incoming" else codes "both"))
                (field (codes "relationship") (edge_type_value edge_type) end)))))

  -- The body of the loop over `edge_types`.
  unfoldable pub traverse :
      Bool → List Text → Option Text → Option RelationshipType → Run (Unit {0})
  unfolding stage objects append_nodes add_items relationship_value
  traverse incoming identities symbol edge_type =
      stage routes (stage_of incoming) (codes "knowledge.related")
        (related_arguments incoming identities symbol edge_type)
      and_then λ response.
          let matches = objects (get_value (codes "matches") response) in
          collect (λ e.
            add_items incoming edge_type (seed_value identities matches) (stage_of incoming)
              (objects (get_value (codes "related") response))
              (append_nodes printed symbols_category (stage_of incoming) matches e))

  unfoldable pub traverse_all :
      Bool → List Text → Option Text → List (Option RelationshipType) → Run (Unit {0})
  unfolding traverse
  traverse_all incoming identities symbol [] = done tt
  traverse_all incoming identities symbol (edge_type ∷ edge_types) =
      traverse incoming identities symbol edge_type and_then λ traversed.
      traverse_all incoming identities symbol edge_types

  -- `related` from its second test on.
  unfoldable pub related_from : Bool → List Text → Option Text → Run (Unit {0})
  unfolding traverse_all
  related_from incoming [] none = done tt
  related_from incoming identities symbol =
      traverse_all incoming identities symbol (edge_types_of incoming)

  -- `related`, by the identities and the symbol of the request.
  unfoldable pub related_by : Bool → List Text → Option Text → Run (Unit {0})
  unfolding search_nodes related_from
  related_by incoming (t ∷ ts) symbol = related_from incoming (t ∷ []) none
  related_by incoming [] (some symbol) = related_from incoming [] (some symbol)
  related_by incoming [] none =
      search_nodes and_then λ seeds. related_from incoming (seed_ids seeds) none

  unfoldable pub related : Bool → Run (Unit {0})
  unfolding related_by
  related incoming = related_by incoming q.routing.node_ids q.routing.symbol_name
