-- ===== src/Query/Decision.antt =====
-- The playbooks, the requests that a classifier sees, and which playbooks a request may use
-- (src/scs/orchestration/decision.py). A classifier is a parameter, what it answers within a time.
use scs.Base.{
  any, if◌then◌else◌, length, ltb, ℕ, Bool, true, false, not, ◌||◌, Option, none, some, List, [],
  ◌∷◌, Text, codes, filter_by, is_some,
}
use scs.Graph.{is_symbol_type}
use scs.Value.{is_blank}

pub data Playbook : Type 0 where
  discover understand relationships references inspect_files impact inventory : Playbook

abbrev pub all_playbooks : List Playbook
all_playbooks =
    discover ∷ understand ∷ relationships ∷ references ∷ inspect_files ∷ impact ∷ inventory ∷ []

abbrev pub same_playbook : Playbook → Playbook → Bool
same_playbook discover discover = true
same_playbook understand understand = true
same_playbook relationships relationships = true
same_playbook references references = true
same_playbook inspect_files inspect_files = true
same_playbook impact impact = true
same_playbook inventory inventory = true
same_playbook _ _ = false

pub record SourcePosition : Type 0 where
  pub file_path : Text
  pub line : ℕ

pub record RoutingRequest : Type 0 where
  pub goal : Text
  pub node_type : Option Text
  pub symbol_name : Option Text
  pub node_ids : List Text
  pub file_paths : List Text
  pub source_position : Option SourcePosition

-- `not items`
abbrev pub is_empty {ℓ} : {A : Type ℓ} → List A → Bool
is_empty [] = true
is_empty (x ∷ xs) = false

-- `bool(text)`, of a text that may be None
abbrev pub is_given : Option Text → Bool
is_given none = false
is_given (some t) = not (is_blank t)

-- `source_position or node_ids or symbol_name`
abbrev pub has_anchor : RoutingRequest → Bool
has_anchor r = is_some r.source_position || not (is_empty r.node_ids) || is_given r.symbol_name

-- `node_type is None or node_type in SYMBOL_NODE_TYPES`
abbrev pub names_symbols : Option Text → Bool
names_symbols none = true
names_symbols (some t) = is_symbol_type t

-- Whether a playbook stays in `available`.
unfoldable pub is_eligible : RoutingRequest → Playbook → Bool
is_eligible r impact = not (is_empty r.file_paths)
is_eligible r references = has_anchor r
is_eligible r inventory = names_symbols r.node_type
is_eligible r _ = true

-- The set, in the order of the enum.
unfoldable pub eligible_playbooks : RoutingRequest → List Playbook
unfolding is_eligible
eligible_playbooks r = filter_by (is_eligible r) all_playbooks

pub record RoutingDecision : Type 0 where
  pub playbook : Playbook
  pub model : Text

-- `DeterministicDecisionProvider.classify`
abbrev pub deterministic_decision : RoutingDecision
deterministic_decision = record { playbook = discover; model = codes "deterministic-v1" }

-- A classification and its strict validation: a decision, or an exception and whether it is a timeout.
pub data Classified : Type 0 where
  decided : RoutingDecision → Classified
  undecided : Bool → Classified

-- What the validation of a decision does with its floats; `in_unit` fails on NaN.
pub record UnitFloats (F : Type 0) : Type 0 where
  pub nought : F
  pub plus : F → F → F
  pub in_unit : F → Bool
  pub is_finite : F → Bool
  pub is_far_from_one : F → Bool

-- `RoutingDecision` with its floats, each playbook of `probabilities` standing once.
pub record ScoredDecision (F : Type 0) : Type 0 where
  pub playbook : Playbook
  pub model : Text
  pub confidence : F
  pub probabilities : List (Playbook × F)

-- What a provider answers with: an instance of `RoutingDecision`, another value with the parts of a
-- decision, or an exception and whether it is a timeout.
pub data Provided (F : Type 0) : Type 0 where
  built : ScoredDecision F → Provided F
  answered : ScoredDecision F → Provided F
  unanswered : Bool → Provided F

module _ {F : Type 0} (floats : UnitFloats F) where
  -- `set(self.probabilities) != set(Playbook)`
  abbrev pub misses_playbook : List (Playbook × F) → Bool
  misses_playbook probabilities =
      any (λ q. not (any (λ (entry : Playbook × F). same_playbook q entry.0) probabilities))
        all_playbooks

  -- `sum(self.probabilities.values())`
  abbrev pub sum_from : F → List (Playbook × F) → F
  sum_from total [] = total
  sum_from total (entry ∷ rest) = sum_from (floats.plus total entry.1) rest

  -- A field's constraint or `_complete_probabilities` raises.
  unfoldable pub breaks_decision : ScoredDecision F → Bool
  breaks_decision d =
      ltb (length d.model) 1
      || ltb 256 (length d.model)
      || not (floats.in_unit d.confidence)
      || misses_playbook d.probabilities
      || any
          (λ (entry : Playbook × F). not (floats.in_unit entry.1) || not (floats.is_finite entry.1))
          d.probabilities
      || floats.is_far_from_one (sum_from floats.nought d.probabilities)

  -- `RoutingDecision.model_validate` of what the provider answered. An instance of the class is handed
  -- back as it is: pydantic runs its validators again only with `revalidate_instances`, which the
  -- class does not set.
  unfoldable pub validated : Provided F → Classified
  unfolding breaks_decision
  validated (unanswered is_timeout) = undecided is_timeout
  validated (built d) = decided (record { playbook = d.playbook; model = d.model })
  validated (answered d) =
      if breaks_decision d
      then undecided false
      else decided (record { playbook = d.playbook; model = d.model })
