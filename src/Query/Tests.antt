-- ===== src/Query/Tests.antt =====
-- Queries over a service that answers with one symbol (src/scs/orchestration/query.py).
use scs.Base.{ℕ, ◌≤◌, ◌≡◌, refl, true, false, none, some, [], Text, codes, text_eq, length, All}
use scs.Value.{get, Value, text, array, object, nil, cons, Fields, end, field}
use scs.Query.Decision.{
  RoutingRequest, RoutingDecision, Classified, decided, discover, references, impact,
}
use scs.Query.Request.{QueryRequest, balanced, mode_budget}
use scs.Query.Stages.{responded, failed, Routes}
use scs.Query.Orchestrator.{answer_query, output_of, route}
use scs.Query.Runs.{IsOk, IsClean}
use scs.Query.Permitted.{call_limit, IsPermitted}
use scs.Query.Bounded.{execute-IsBounded}
use scs.Query.Honest.{Supports, classified, answer_query-Supports, answer_query-complete}
use scs.Query.Execution.{run_playbook, execute, references_from}

abbrev printed_as : Value → Text
printed_as v = codes "value"

abbrev one_symbol : Fields
one_symbol =
    field (codes "results")
      (array (
        cons
          (object (
            field (codes "id") (text (codes "n1"))
              (field (codes "name") (text (codes "load")) end)))
          nil))
      end

abbrev answers : Routes
answers calls method arguments = responded one_symbol

abbrev fails : Routes
fails calls method arguments = failed true

abbrev asks : QueryRequest
asks = record {
  routing = record {
    goal = codes "where is load";
    node_type = none;
    symbol_name = some (codes "load");
    node_ids = [];
    file_paths = [];
    source_position = none;
  };
  repo_path = codes "/work";
  mode = balanced;
  limit = 10;
}

abbrev chooses : ℕ → RoutingRequest → Classified
chooses limit request = decided (record { playbook = references; model = codes "m" })

abbrev chooses_impact : ℕ → RoutingRequest → Classified
chooses_impact limit request = decided (record { playbook = impact; model = codes "m" })

execute-IsBounded_example :
    (length (execute printed_as fails asks references).called
      ≤ call_limit references (mode_budget balanced))
    × (call_limit references (mode_budget balanced) ≤ 6)
    × All (IsPermitted asks references) (execute printed_as fails asks references).called
execute-IsBounded_example = execute-IsBounded printed_as fails asks references

answer_query-Supports_example :
    Supports asks.routing
      (answer_query printed_as answers chooses_impact none asks).routing.playbook
answer_query-Supports_example = answer_query-Supports printed_as answers chooses_impact none asks

-- An impact without files is not run.
impact_without_files : (route asks.routing (chooses_impact 0 asks.routing)).0 ≡ discover
unfolding route
impact_without_files = refl

answer_query-complete_example :
    ((d : RoutingDecision) × (classified printed_as answers chooses none asks ≡ decided d)
      × ((answer_query printed_as answers chooses none asks).routing.playbook ≡ d.playbook))
    × ((answer_query printed_as answers chooses none asks).routing.fallback_applied ≡ false)
    × All IsOk (answer_query printed_as answers chooses none asks).trace
    × All IsClean (answer_query printed_as answers chooses none asks).trace
unfolding answer_query output_of execute route run_playbook references_from text_eq get
answer_query-complete_example = answer_query-complete printed_as answers chooses none asks refl
