-- ===== src/Query/Orchestrator.antt =====
-- The other playbooks, the dispatch, and `QueryOrchestrator.query` (src/scs/orchestration/query.py).
use scs.Base.{
  ℕ, suc, zero, Bool, true, false, not, ◌&&◌, Option, none, some, List, [], ◌∷◌, Text, codes, ◌==◌,
  any, is_some, if◌then◌else◌, Outcome, ok, ◌>>=◌, ◌>>◌,
}
use scs.Value.{Value}
use scs.Query.Decision.{
  UnitFloats, Provided, validated, Playbook, discover, same_playbook, RoutingRequest,
  eligible_playbooks, RoutingDecision, deterministic_decision, Classified, decided, undecided,
  is_empty,
}
use scs.Query.Request.{QueryRequest, Mode, mode_budget, validate_request}
use scs.Query.Evidence.{Evidence, without_repeats}
use scs.Query.Stages.{Routes, Progress, TraceEntry}
use scs.Query.Execution.{execute}
use scs.Query.Projections.{at_most}

-- Why the classifier's choice was not followed.
pub data DegradedReason : Type 0 where
  classifier_timeout classifier_unavailable ineligible_playbook : DegradedReason

abbrev pub decision_of : Classified → RoutingDecision
decision_of (decided decision) = decision
decision_of (undecided is_timeout) = deterministic_decision

abbrev pub reason_of : Classified → Option DegradedReason
reason_of (decided decision) = none
reason_of (undecided true) = some classifier_timeout
reason_of (undecided false) = some classifier_unavailable

abbrev pub allows : List Playbook → Playbook → Bool
allows playbooks selected = any (same_playbook selected) playbooks

-- The playbook that is run, and the reason if it is not the classifier's.
unfoldable pub route : RoutingRequest → Classified → Playbook × Option DegradedReason
unfolding eligible_playbooks
route request classified =
    let chosen = (decision_of classified).playbook in
    if allows (eligible_playbooks request) chosen
    then (chosen, reason_of classified)
    else (discover, some ineligible_playbook)

-- `self._classifier_timeout or budget.classifier_seconds`
abbrev pub classifier_timeout_or : Option ℕ → ℕ → ℕ
classifier_timeout_or none default = default
classifier_timeout_or (some zero) default = default
classifier_timeout_or (some (suc n)) default = suc n

-- `model.startswith(f"{MODEL_REPOSITORY}@")`
abbrev pub starts_with : Text → Text → Bool
starts_with [] t = true
starts_with (c ∷ cs) [] = false
starts_with (c ∷ cs) (d ∷ ds) = c == d && starts_with cs ds

pub record Routing : Type 0 where
  pub requested_mode : Mode
  pub playbook : Playbook
  pub is_laya : Bool
  pub model : Text
  pub fallback_applied : Bool
  pub degraded_reason : Option DegradedReason

-- `QueryCodeOutput`, without the timings.
pub record QueryCodeOutput : Type 0 where
  pub goal : Text
  pub repo_path : Text
  pub routing : Routing
  pub evidence : Evidence
  pub trace : List TraceEntry
  pub complete : Bool
  pub truncated : Bool
  pub degraded_stages : List Text

-- The result of `query`.
unfoldable pub output_of :
    (Value → Text)
    → QueryRequest
    → RoutingDecision
    → Playbook × Option DegradedReason
    → Progress
    → QueryCodeOutput
unfolding without_repeats
output_of printed q decision selected p = record {
  goal = q.routing.goal;
  repo_path = q.repo_path;
  routing = record {
    requested_mode = q.mode;
    playbook = selected.0;
    is_laya = starts_with (codes "aac6fef/laya-mlx@") decision.model;
    model = decision.model;
    fallback_applied = is_some selected.1;
    degraded_reason = selected.1;
  };
  evidence = without_repeats printed p.evidence;
  trace = p.trace;
  complete = not p.truncated && is_empty p.degraded_stages && not (is_some selected.1);
  truncated = p.truncated;
  degraded_stages = p.degraded_stages;
}

-- `query` from its validated request on; `classify` is the classifier's answer within a time.
unfoldable pub answer_query :
    (Value → Text)
    → Routes
    → (ℕ → RoutingRequest → Classified)
    → Option ℕ
    → QueryRequest
    → QueryCodeOutput
unfolding route execute output_of
answer_query printed routes classify configured q =
    let limit = (mode_budget q.mode).classifier_ms in
    let classified = classify (at_most limit (classifier_timeout_or configured limit)) q.routing in
    let selected = route q.routing classified in
    output_of printed q (decision_of classified) selected (execute printed routes q selected.0)

-- `ready` is how `wait_until_ready` ends, and `provide` what the provider answers within a time.
unfoldable pub query_code :
    {F : Type 0}
    → UnitFloats F
    → (Text → Option Text)
    → (Text → Text → Bool → Outcome Text)
    → (Value → Text)
    → Routes
    → (ℕ → RoutingRequest → Provided F)
    → Option ℕ
    → Outcome (Unit {0})
    → QueryRequest
    → Outcome QueryCodeOutput
unfolding validate_request answer_query validated
query_code floats resolve_root relative_path printed routes provide configured ready params = do
  q ← validate_request resolve_root relative_path params
  ready
  ok (
      answer_query printed routes (λ limit request. validated floats (provide limit request))
        configured q)
