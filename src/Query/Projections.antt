-- ===== src/Query/Projections.antt =====
-- What the playbooks read of a response, and the evidence that they make of it
-- (src/scs/orchestration/query.py).
use scs.Base.{
  ℕ, Bool, true, false, not, Option, none, some, List, [], ◌∷◌, ◌++◌, map, Text, codes, text_eq,
  ltb, ◌==◌, if◌then◌else◌,
}
use scs.Graph.{RelationshipType}
use scs.Value.{
  Value, null, boolean, integer, text, array, object, Values, nil, cons, Fields, end, field,
  get_value, is_true,
}
use scs.Query.Request.{reference_relationships}
use scs.Query.Evidence.{objects, get_or}

-- `min(a, b)`
abbrev pub at_most : ℕ → ℕ → ℕ
at_most a b = if ltb b a then b else a

abbrev pub optional_text : Option Text → Value
optional_text none = null
optional_text (some t) = text t

abbrev pub texts_value : List Text → Values
texts_value [] = nil
texts_value (t ∷ ts) = cons (text t) (texts_value ts)

-- `v == 0`
abbrev pub equals_zero : Value → Bool
equals_zero (integer n) = n == 0
equals_zero (boolean b) = not b
equals_zero _ = false

-- `Path(root) / file_path`, of a relative path.
abbrev pub path_in : Text → Text → Text
path_in root file_path = if text_eq root (47 ∷ []) then 47 ∷ file_path else root ++ 47 ∷ file_path

-- `next((match.get("id") for match in matches if match.get("id")), None)`
abbrev pub first_id : List Fields → Value
first_id [] = null
first_id (m ∷ ms) =
    if is_true (get_value (codes "id") m) then get_value (codes "id") m else first_id ms

-- `[str(path) for seed in seeds if (path := file_path(seed)) is not None]`
abbrev pub known_path : Value → Option Value
known_path null = none
known_path v = some v

-- The total of an inventory: an int, a bool being one; a negative total is above no length either.
abbrev pub total_of : Value → ℕ
total_of (integer n) = n
total_of (boolean true) = 1
total_of _ = 0

abbrev pub edges_evidence : List Fields → List Fields
edges_evidence [] = []
edges_evidence (edge ∷ edges) =
    field (codes "kind") (text (codes "relationship")) (
      field (codes "id") (get_value (codes "id") edge) (
        field (codes "source_id") (get_value (codes "source_id") edge) (
          field (codes "target_id") (get_value (codes "target_id") edge) (
            field (codes "relationship") (get_value (codes "relationship") edge)
              (field (codes "stage") (text (codes "inspect")) end)))))
    ∷ edges_evidence edges

-- The evidence of `raw_edges.values()`, if they are a dict.
abbrev pub groups_evidence : Value → List Fields
groups_evidence (object end) = []
groups_evidence (object (field key edges rest)) =
    edges_evidence (objects edges) ++ groups_evidence (object rest)
groups_evidence _ = []

abbrev pub targets_evidence : List Fields → List Fields
targets_evidence [] = []
targets_evidence (target ∷ targets) =
    field (codes "kind") (text (codes "test_target")) (
      field (codes "file_path") (get_value (codes "file_path") target) (
        field (codes "evidence") (get_or (codes "evidence") (array nil) target)
          (field (codes "stage") (text (codes "impact")) end)))
    ∷ targets_evidence targets

-- `edge_types`
abbrev pub edge_types_of : Bool → List (Option RelationshipType)
edge_types_of true = map some reference_relationships
edge_types_of false = none ∷ []
