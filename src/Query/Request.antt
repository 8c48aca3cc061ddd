-- ===== src/Query/Request.antt =====
-- `QueryRequest` of src/scs/orchestration/query.py, the budgets of its modes, and its validation. The
-- resolution of paths, which reads the file system, is a parameter.
use scs.Base.{
  ℕ, Bool, true, false, not, ◌||◌, Option, none, some, List, [], ◌∷◌, Text, codes, length, any,
  unseen, ltb, Outcome, ok, err, ◌>>=◌, ◌>>◌, raise_if, value_error, text_eq,
}
use scs.Graph.{
  NodeType, node_type_value, file_node, module_node, class_node, function_node, method_node,
  variable_node, constant_node, import_node, type_alias_node, commit_node, contributor_node,
  RelationshipType, imports, calls, references, inherits, implements,
}
use scs.Value.{is_blank}
use scs.Query.Decision.{SourcePosition, RoutingRequest}

pub data Mode : Type 0 where
  fast balanced thorough : Mode

-- Seconds are milliseconds here.
pub record ModeBudget : Type 0 where
  pub classifier_ms : ℕ
  pub search_seeds : ℕ
  pub graph_depth : ℕ
  pub hydrated_files : ℕ
  pub total_ms : ℕ

abbrev pub mode_budget : Mode → ModeBudget
mode_budget fast = record {
  classifier_ms = 150;
  search_seeds = 5;
  graph_depth = 1;
  hydrated_files = 1;
  total_ms = 1000;
}
mode_budget balanced = record {
  classifier_ms = 500;
  search_seeds = 10;
  graph_depth = 2;
  hydrated_files = 3;
  total_ms = 7000;
}
mode_budget thorough = record {
  classifier_ms = 1000;
  search_seeds = 20;
  graph_depth = 3;
  hydrated_files = 5;
  total_ms = 35000;
}

abbrev pub mode_text : Mode → Text
mode_text fast = codes "fast"
mode_text balanced = codes "balanced"
mode_text thorough = codes "thorough"

abbrev pub reference_relationships : List RelationshipType
reference_relationships = imports ∷ calls ∷ references ∷ inherits ∷ implements ∷ []

-- The fields of the request and those of the routing request that it extends.
pub record QueryRequest : Type 0 where
  pub routing : RoutingRequest
  pub repo_path : Text
  pub mode : Mode
  pub limit : ℕ

abbrev pub is_longer_than {ℓ} : {A : Type ℓ} → ℕ → List A → Bool
is_longer_than n xs = ltb n (length xs)

abbrev pub is_outside : ℕ → ℕ → Text → Bool
is_outside low high t = ltb (length t) low || ltb high (length t)

abbrev pub is_too_long : ℕ → Option Text → Bool
is_too_long n none = false
is_too_long n (some t) = is_longer_than n t

abbrev pub bad_position : Option SourcePosition → Bool
bad_position none = false
bad_position (some p) = is_outside 1 2048 p.file_path

-- The `Field` constraints of the two models.
unfoldable pub breaks_fields : QueryRequest → Bool
breaks_fields q =
    is_outside 1 4096 q.routing.goal
    || is_too_long 64 q.routing.node_type
    || is_too_long 256 q.routing.symbol_name
    || is_longer_than 20 q.routing.node_ids
    || is_longer_than 20 q.routing.file_paths
    || bad_position q.routing.source_position
    || is_outside 1 2048 q.repo_path
    || ltb q.limit 1
    || ltb 50 q.limit

abbrev pub all_node_types : List NodeType
all_node_types =
    file_node ∷ module_node ∷ class_node ∷ function_node ∷ method_node ∷ variable_node
    ∷ constant_node ∷ import_node ∷ type_alias_node ∷ commit_node ∷ contributor_node ∷ []

-- `NodeType(node_type)` raises.
abbrev pub is_unknown_type : Option Text → Bool
is_unknown_type none = false
is_unknown_type (some t) = not (any (λ n. text_eq t (node_type_value n)) all_node_types)

-- The file system: `resolve_root` is the real path of an absolute directory, `relative_path` is
-- `_relative_path` with its `require_file`.
module _ (resolve_root : Text → Option Text)
    (relative_path : Text → Text → Bool → Outcome Text) where
  unfoldable pub relative_paths : Text → List Text → Outcome (List Text)
  relative_paths root [] = ok []
  relative_paths root (path ∷ paths) = do
    first ← relative_path path root false
    rest ← relative_paths root paths
    ok (first ∷ rest)

  unfoldable pub relative_position : Text → Option SourcePosition → Outcome (Option SourcePosition)
  relative_position root none = ok none
  relative_position root (some p) = do
    file_path ← relative_path p.file_path root true
    ok (some (record p { file_path = file_path }))

  -- `_normalize_anchors` below its test of `repo_path`.
  unfoldable pub normalize_at : QueryRequest → Option Text → Outcome QueryRequest
  unfolding relative_paths relative_position
  normalize_at q none = err value_error
  normalize_at q (some root) = do
    raise_if (is_unknown_type q.routing.node_type) value_error
    let node_ids = unseen [] q.routing.node_ids
    raise_if (any (λ t. is_blank t || is_longer_than 256 t) node_ids) value_error
    paths ← relative_paths root q.routing.file_paths
    position ← relative_position root q.routing.source_position
    ok (record q {
      repo_path = root;
      routing = record (q.routing) {
        node_ids = node_ids;
        file_paths = unseen [] paths;
        source_position = position;
      };
    })

  -- `QueryRequest.model_validate` of the fields.
  unfoldable pub validate_request : QueryRequest → Outcome QueryRequest
  unfolding breaks_fields normalize_at
  validate_request q = do
    raise_if (breaks_fields q) value_error
    normalize_at q (resolve_root q.repo_path)
