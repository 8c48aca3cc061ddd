-- ===== src/Query/Honest.antt =====
-- Which playbook is run, and what a complete answer means (src/scs/orchestration/query.py).
use scs.Base.{
  Bool, ℕ, ◌≡◌, ◌≢◌, refl, sym, ◌∙◌, true, false, not, ◌&&◌, ◌||◌, Option, none, some, List, [],
  ◌∷◌, Text, is_some, All, arith, ◌⊎◌, inl, inr, Bool-cases, and_parts,
}
use scs.Graph.{is_symbol_type}
use scs.Value.{Value}
use scs.Query.Decision.{
  Playbook, discover, understand, relationships, references, inspect_files, impact, inventory,
  RoutingRequest, is_eligible, eligible_playbooks, is_empty, SourcePosition, names_symbols,
  is_given, RoutingDecision, Classified, decided, undecided,
}
use scs.Query.Request.{QueryRequest, mode_budget}
use scs.Query.Stages.{Routes}
use scs.Query.Orchestrator.{
  decision_of, allows, route, classifier_timeout_or, output_of, answer_query,
}
use scs.Query.Runs.{IsClean, IsOk}
use scs.Query.Bounded.{execute-Reports}
use scs.Query.Projections.{at_most}
use scs.Query.Execution.{execute}

-- The set of the eligible playbooks holds those that are eligible.
allows-eligible_playbooks :
    (r : RoutingRequest) (p : Playbook) → allows (eligible_playbooks r) p ≡ is_eligible r p
unfolding eligible_playbooks is_eligible
allows-eligible_playbooks r discover = ground arith
allows-eligible_playbooks r understand = ground arith
allows-eligible_playbooks r relationships = ground arith
allows-eligible_playbooks r references = ground arith
allows-eligible_playbooks r inspect_files = ground arith
allows-eligible_playbooks r impact = ground arith
allows-eligible_playbooks r inventory = ground arith

-- What each playbook needs of a request.
abbrev pub Supports : RoutingRequest → Playbook → Type 0
Supports r impact = r.file_paths ≢ []
Supports r references =
    (r.source_position ≢ none)
    ⊎ (r.node_ids ≢ [])
    ⊎ ((name : Text) × (r.symbol_name ≡ some name) × (name ≢ []))
Supports r inventory =
    (r.node_type ≡ none) ⊎ ((t : Text) × (r.node_type ≡ some t) × (is_symbol_type t ≡ true))
Supports r _ = Unit

filled-differs {ℓ} : {A : Type ℓ} (xs : List A) → not (is_empty xs) ≡ true → xs ≢ []
filled-differs [] h e = ground arith
filled-differs (x ∷ xs) h e = cc

not-true : (b : Bool) → not b ≡ true → b ≡ false
not-true true h = sym h
not-true false h = refl

is_empty-eq {ℓ} : {A : Type ℓ} (xs : List A) → is_empty xs ≡ true → xs ≡ []
is_empty-eq [] h = refl
is_empty-eq (x ∷ xs) h = absurd (ground arith)

names_symbols-cases :
    (t : Option Text)
    → names_symbols t ≡ true
    → (t ≡ none) ⊎ ((u : Text) × (t ≡ some u) × (is_symbol_type u ≡ true))
names_symbols-cases none h = inl refl
names_symbols-cases (some u) h = inr (u, refl, h)

anchor-cases :
    (p : Option SourcePosition) (ids : List Text) (name : Option Text)
    → (is_some p || not (is_empty ids) || is_given name) ≡ true
    → (p ≢ none) ⊎ (ids ≢ []) ⊎ ((t : Text) × (name ≡ some t) × (t ≢ []))
anchor-cases (some p) ids name h = inl (λ e. cc)
anchor-cases none (x ∷ xs) name h = inr (inl (λ e. cc))
anchor-cases none [] none h = absurd (ground arith)
anchor-cases none [] (some []) h = absurd (ground arith)
anchor-cases none [] (some (c ∷ cs)) h = inr (inr (c ∷ cs, refl, λ e. cc))

is_eligible-Supports : (r : RoutingRequest) (p : Playbook) → is_eligible r p ≡ true → Supports r p
unfolding is_eligible
is_eligible-Supports r discover h = tt
is_eligible-Supports r understand h = tt
is_eligible-Supports r relationships h = tt
is_eligible-Supports r references h = anchor-cases r.source_position r.node_ids r.symbol_name h
is_eligible-Supports r inspect_files h = tt
is_eligible-Supports r impact h = filled-differs r.file_paths h
is_eligible-Supports r inventory h = names_symbols-cases r.node_type h

route-Supports : (r : RoutingRequest) (c : Classified) → Supports r (route r c).0
unfolding route
route-Supports r c = elim (Bool-cases (allows (eligible_playbooks r) (decision_of c).playbook)) [
  | inl e ↦ rw e (
      is_eligible-Supports r (decision_of c).playbook
        (sym (allows-eligible_playbooks r (decision_of c).playbook) ∙ e))
  | inr e ↦ rw e tt
]

-- A route without a reason is the classifier's decision.
route-decided :
    (r : RoutingRequest) (c : Classified)
    → is_some (route r c).1 ≡ false
    → (d : RoutingDecision) × (c ≡ decided d) × ((route r c).0 ≡ d.playbook)
unfolding route
route-decided r (decided d) h = elim (Bool-cases (allows (eligible_playbooks r) d.playbook)) [
  | inl e ↦ (d, refl, rw e refl)
  | inr e ↦ absurd (ground arith)
]
route-decided r (undecided b) h = absurd (ground arith)

module _ (printed : Value → Text) (routes : Routes) (classify : ℕ → RoutingRequest → Classified)
    (configured : Option ℕ) (q : QueryRequest) where
  -- The classifier's answer to the request, within the smaller of the two times.
  abbrev pub classified : Classified
  classified =
      let limit = (mode_budget q.mode).classifier_ms in
      classify (at_most limit (classifier_timeout_or configured limit)) q.routing

  -- Whatever the classifier answers, the playbook that is run is one that the request supports: an
  -- impact has file paths, references have a source position, node ids or a non-empty symbol name, and
  -- an inventory has no node type or one of a symbol.
  pub answer_query-Supports :
      Supports q.routing (answer_query printed routes classify configured q).routing.playbook
  unfolding answer_query output_of
  answer_query-Supports = route-Supports q.routing classified

  -- An answer that is marked complete ran the classifier's own choice, without a fallback, and every
  -- entry of its trace is ok and not truncated.
  pub answer_query-complete :
      (answer_query printed routes classify configured q).complete ≡ true
      → ((d : RoutingDecision) × (classified ≡ decided d)
          × ((answer_query printed routes classify configured q).routing.playbook ≡ d.playbook))
        × ((answer_query printed routes classify configured q).routing.fallback_applied ≡ false)
        × All IsOk (answer_query printed routes classify configured q).trace
        × All IsClean (answer_query printed routes classify configured q).trace
  unfolding answer_query output_of
  answer_query-complete h =
      let selected = route q.routing classified in
      let p = execute printed routes q selected.0 in
      let (unimpaired, no_reason) =
        and_parts (not p.truncated && is_empty p.degraded_stages) (not (is_some selected.1)) h in
      let (whole, none_degraded) =
        and_parts (not p.truncated) (is_empty p.degraded_stages) unimpaired in
      let (clean, fine) = execute-Reports printed routes q selected.0 in
      (
        route-decided q.routing classified (not-true _ no_reason),
        not-true _ no_reason,
        fine (is_empty-eq p.degraded_stages none_degraded),
        clean (not-true _ whole),
      )
