-- ===== src/Graph.antt =====
-- The node and relationship types and the nodes of the graph (src/scs/graph/models.py).
use scs.Base.{Bool, any, List, [], ◌∷◌, Text, codes, text_eq}
use scs.Value.{Fields}

pub data NodeType : Type 0 where
  file_node module_node class_node function_node method_node variable_node : NodeType
  constant_node import_node type_alias_node commit_node contributor_node : NodeType

unfoldable pub node_type_value : NodeType → Text
node_type_value file_node = codes "file"
node_type_value module_node = codes "module"
node_type_value class_node = codes "class"
node_type_value function_node = codes "function"
node_type_value method_node = codes "method"
node_type_value variable_node = codes "variable"
node_type_value constant_node = codes "constant"
node_type_value import_node = codes "import"
node_type_value type_alias_node = codes "type_alias"
node_type_value commit_node = codes "commit"
node_type_value contributor_node = codes "contributor"

pub data RelationshipType : Type 0 where
  contains calls imports inherits implements references authored_by modifies : RelationshipType

unfoldable pub relationship_value : RelationshipType → Text
relationship_value contains = codes "contains"
relationship_value calls = codes "calls"
relationship_value imports = codes "imports"
relationship_value inherits = codes "inherits"
relationship_value implements = codes "implements"
relationship_value references = codes "references"
relationship_value authored_by = codes "authored_by"
relationship_value modifies = codes "modifies"

abbrev pub symbol_node_types : List NodeType
symbol_node_types =
    class_node ∷ function_node ∷ method_node ∷ variable_node ∷ constant_node ∷ type_alias_node ∷ []

-- `text in SYMBOL_NODE_TYPES`
unfoldable pub is_symbol_type : Text → Bool
unfolding node_type_value
is_symbol_type t = any (λ n. text_eq t (node_type_value n)) symbol_node_types

pub record Node : Type 0 where
  pub id : Text
  pub node_type : NodeType
  pub name : Text
  pub content : Text
  pub metadata : Fields
