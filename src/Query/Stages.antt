-- ===== src/Query/Stages.antt =====
-- One stage of a playbook: the call of a service route, and what the trace keeps of it
-- (src/scs/orchestration/query.py). The routes are a parameter, which may answer by the calls so far.
use scs.Base.{
  ℕ, Bool, true, false, ◌||◌, Option, none, some, List, [], ◌∷◌, ◌++◌, Text, codes, any, length,
  if◌then◌else◌,
}
use scs.Value.{Value, boolean, array, members, Fields, end, field, get_value, is_true}
use scs.Query.Evidence.{Evidence, no_evidence}

pub data Status : Type 0 where
  ok_status degraded_status timeout_status failed_status : Status

-- An entry of the trace, without its time.
pub record TraceEntry : Type 0 where
  pub stage : Text
  pub status : Status
  pub counts : List (Text × ℕ)
  pub truncated : Bool

-- A call that was made: the route and its arguments.
abbrev pub Call : Type 0
Call = Text × Fields

-- What a call ends in: a response, an exception and whether it is a timeout, or the end of the time
-- that the whole query has.
pub data Called : Type 0 where
  responded : Fields → Called
  failed : Bool → Called
  expired : Called

abbrev pub Routes : Type 0
Routes = List Call → Text → Fields → Called

-- The variables of `query`, and the calls so far.
pub record Progress : Type 0 where
  pub evidence : Evidence
  pub trace : List TraceEntry
  pub degraded_stages : List Text
  pub truncated : Bool
  pub called : List Call

abbrev pub start_progress : Progress
start_progress = record {
  evidence = no_evidence;
  trace = [];
  degraded_stages = [];
  truncated = false;
  called = [];
}

-- A part of a playbook: the variables after it, and its result unless the time has ended.
abbrev pub Run : Type 0 → Type 0
Run A = Progress → Progress × Option A

abbrev pub continue_with : {A B : Type 0} → Progress × Option A → (A → Run B) → Progress × Option B
continue_with (p, none) rest = (p, none)
continue_with (p, some a) rest = rest a p

infixl 5 ◌and_then◌
abbrev pub ◌and_then◌ : {A B : Type 0} → Run A → (A → Run B) → Run B
(first and_then rest) p = continue_with (first p) rest

abbrev pub done : {A : Type 0} → A → Run A
done a p = (p, some a)

abbrev pub collect : (Evidence → Evidence) → Run (Unit {0})
collect change p = (record p { evidence = change p.evidence }, some tt)

-- `truncated = truncated or b`
abbrev pub mark_truncated : Bool → Run (Unit {0})
mark_truncated b p = (record p { truncated = p.truncated || b }, some tt)

-- `value is True`
abbrev pub is_boolean_true : Value → Bool
is_boolean_true (boolean b) = b
is_boolean_true _ = false

-- `len(value)` for each value that is a list.
unfoldable pub list_counts : Fields → List (Text × ℕ)
list_counts end = []
list_counts (field key (array vs) rest) = (key, length (members vs)) ∷ list_counts rest
list_counts (field key _ rest) = list_counts rest

abbrev pub truncation_keys : List Text
truncation_keys =
    codes "nodes_truncated"
    ∷ codes "edges_truncated"
    ∷ codes "dependents_truncated"
    ∷ codes "test_targets_truncated"
    ∷ []

unfoldable pub was_truncated : Fields → Bool
was_truncated response = any (λ key. is_boolean_true (get_value key response)) truncation_keys

abbrev pub is_timed_out : Fields → Bool
is_timed_out response = is_boolean_true (get_value (codes "timed_out") response)

-- `reason or timed_out`
unfoldable pub is_degraded : Fields → Bool
is_degraded response =
    is_true (get_value (codes "degraded_reason") response) || is_timed_out response

abbrev pub note_if : Bool → Text → List Text → List Text
note_if true name names = names ++ name ∷ []
note_if false name names = names

-- The `try` of `stage`, after a response.
abbrev pub note_response : Text → Fields → Progress → Progress
note_response name response p = record p {
  truncated = p.truncated || (was_truncated response || is_timed_out response);
  degraded_stages = note_if (is_degraded response) name p.degraded_stages;
  trace =
      p.trace
      ++ record {
        stage = name;
        status = if is_degraded response then degraded_status else ok_status;
        counts = list_counts response;
        truncated = was_truncated response || is_timed_out response;
      }
        ∷ [];
}

-- The `except` of `stage`.
abbrev pub note_failure : Text → Bool → Progress → Progress
note_failure name is_timeout p = record p {
  truncated = true;
  degraded_stages = p.degraded_stages ++ name ∷ [];
  trace =
      p.trace
      ++ record {
        stage = name;
        status = if is_timeout then timeout_status else failed_status;
        counts = [];
        truncated = true;
      }
        ∷ [];
}

abbrev pub note_call : Text → Called → Run Fields
note_call name (responded response) p = (note_response name response p, some response)
note_call name (failed is_timeout) p = (note_failure name is_timeout p, some end)
note_call name expired p = (p, none)

unfoldable pub stage : Routes → Text → Text → Fields → Run Fields
unfolding was_truncated is_degraded list_counts
stage routes name method arguments p =
    note_call name (routes p.called method arguments)
      (record p { called = p.called ++ (method, arguments) ∷ [] })
