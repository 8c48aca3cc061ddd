-- ===== src/Query/Evidence.antt =====
-- The evidence of a query: projections of nodes, `_append_nodes`, `_file_path`, `_evidence_key` and the
-- removal of repeated evidence (src/scs/orchestration/query.py).
use scs.Base.{Bool, true, false, ◌&&◌, List, [], ◌∷◌, ◌++◌, Text, codes, text_eq, if◌then◌else◌}
use scs.Value.{
  Value, text, array, object, Values, nil, cons, Fields, end, field, get, get_value, or_else,
  is_true, as_fields, str,
}

-- `_objects`
unfoldable pub objects_of : Values → List Fields
objects_of nil = []
objects_of (cons (object o) vs) = o ∷ objects_of vs
objects_of (cons _ vs) = objects_of vs

unfoldable pub objects : Value → List Fields
unfolding objects_of
objects (array vs) = objects_of vs
objects _ = []

-- `d.get(key, default)`
abbrev pub get_or : Text → Value → Fields → Value
get_or key default fields = or_else default (get key fields)

unfoldable pub file_path_of : Fields → Value
file_path_of node =
    if is_true (get_value (codes "file_path") node)
    then get_value (codes "file_path") node
    else get_value (codes "file_path") (as_fields (get_value (codes "metadata") node))

-- `node.get(key, attributes.get(key))`
abbrev pub with_attribute : Text → Fields → Value
with_attribute key node =
    get_or key (get_value key (as_fields (get_value (codes "metadata") node))) node

pub record Evidence : Type 0 where
  pub symbols : List Fields
  pub files : List Fields
  pub relationships : List Fields
  pub references : List Fields
  pub test_targets : List Fields

abbrev pub no_evidence : Evidence
no_evidence = record {
  symbols = [];
  files = [];
  relationships = [];
  references = [];
  test_targets = [];
}

-- The `category` of `_append_nodes`.
pub data Category : Type 0 where
  symbols_category references_category : Category

abbrev pub kind_of : Category → Text
kind_of symbols_category = codes "symbol"
kind_of references_category = codes "reference"

abbrev pub append_to : Category → Fields → Evidence → Evidence
append_to symbols_category item e = record e { symbols = e.symbols ++ item ∷ [] }
append_to references_category item e = record e { references = e.references ++ item ∷ [] }

-- `category == "symbols" and node.get("type") == NodeType.FILE.value`
unfoldable pub is_file_symbol : Category → Value → Bool
is_file_symbol symbols_category (text t) = text_eq t (codes "file")
is_file_symbol _ _ = false

module _ (printed : Value → Text) where
  -- `str(node.get(key, ""))`
  abbrev pub printed_field : Text → Fields → Text
  printed_field key node = str printed (get_or key (text []) node)

  unfoldable pub node_evidence : Text → Text → Fields → Fields
  node_evidence kind stage node = field (codes "kind") (text kind) (
      field (codes "id") (text (printed_field (codes "id") node)) (
        field (codes "name") (text (printed_field (codes "name") node)) (
          field (codes "node_type") (text (printed_field (codes "type") node)) (
            field (codes "file_path") (with_attribute (codes "file_path") node) (
              field (codes "start_line") (with_attribute (codes "start_line") node) (
                field (codes "end_line") (with_attribute (codes "end_line") node)
                  (field (codes "stage") (text stage) end)))))))

  abbrev pub file_evidence : Text → Fields → Fields
  file_evidence stage node = field (codes "kind") (text (codes "file")) (
      field (codes "id") (get_value (codes "id") node)
        (field (codes "file_path") (file_path_of node) (field (codes "stage") (text stage) end)))

  unfoldable pub append_nodes : Category → Text → List Fields → Evidence → Evidence
  unfolding is_file_symbol node_evidence file_path_of
  append_nodes category stage [] e = e
  append_nodes category stage (node ∷ nodes) e = append_nodes category stage nodes (
      if is_file_symbol category (get_value (codes "type") node)
      then record e { files = e.files ++ file_evidence stage node ∷ [] }
      else append_to category (node_evidence (kind_of category) stage node) e)

  -- `_evidence_key`, a tuple of four texts.
  unfoldable pub evidence_key : Fields → List Text
  evidence_key item =
      printed_field (codes "kind") item
      ∷ str printed (get_or (codes "id") (get_or (codes "file_path") (text []) item) item)
      ∷ str printed (get_or (codes "target_id") (get_or (codes "file_path") (text []) item) item)
      ∷ printed_field (codes "relationship") item
      ∷ []

  unfoldable pub same_key : List Text → List Text → Bool
  same_key [] [] = true
  same_key (x ∷ xs) (y ∷ ys) = text_eq x y && same_key xs ys
  same_key _ _ = false

  -- `d[key(item)] = item`: a key that is there keeps its place and takes the new item.
  unfoldable pub put_item : Fields → List Fields → List Fields
  unfolding evidence_key same_key
  put_item item [] = item ∷ []
  put_item item (held ∷ rest) =
      let later = put_item item rest in
      if same_key (evidence_key item) (evidence_key held) then item ∷ rest else held ∷ later

  unfoldable pub put_items : List Fields → List Fields → List Fields
  unfolding put_item
  put_items [] held = held
  put_items (item ∷ items) held = put_items items (put_item item held)

  -- `list({key(item): item for item in items}.values())`, for each category.
  unfoldable pub without_repeats : Evidence → Evidence
  unfolding put_items
  without_repeats e = record {
    symbols = put_items e.symbols [];
    files = put_items e.files [];
    relationships = put_items e.relationships [];
    references = put_items e.references [];
    test_targets = put_items e.test_targets [];
  }
