-- ===== src/Query/Bounded.antt =====
-- How many calls each playbook makes, of which routes, and that they stay in the repository.
use scs.Base.{
  ℕ, ◌≤◌, ◌≡◌, refl, sym, ◌∙◌, subst, true, false, Option, none, some, Text, codes, text_eq, ltb,
  length, All, arith, inl, inr,
}
use scs.Value.{Value, get, get_value}
use scs.Query.Decision.{
  Playbook, discover, understand, relationships, references, inspect_files, impact, inventory,
  SourcePosition,
}
use scs.Query.Request.{QueryRequest, Mode, fast, balanced, thorough, mode_budget}
use scs.Query.Stages.{Call, Routes, Progress, start_progress}
use scs.Query.Playbooks.{related}
use scs.Query.Runs.{
  not_empty, Reports, IsRun, done-IsRun, collect-IsRun, mark_truncated-IsRun, and_then-IsRun,
  stage-IsRun,
}
use scs.Query.Projections.{total_of}
use scs.Query.Execution.{
  references_at, references_from, run_impact, run_inventory, discovered, run_playbook, mark_total,
  close_run, execute,
}
use scs.Query.Permitted.{
  call_limit, IsPermitted, search_nodes-IsRun, related_by-IsRun, inspect-IsRun,
}

call_limit-le : (s : Playbook) (m : Mode) → call_limit s (mode_budget m) ≤ 6
call_limit-le discover m = omega arith
call_limit-le understand m = omega arith
call_limit-le relationships m = omega arith
call_limit-le references m = omega arith
call_limit-le inspect_files fast = omega arith
call_limit-le inspect_files balanced = omega arith
call_limit-le inspect_files thorough = omega arith
call_limit-le impact m = omega arith
call_limit-le inventory m = omega arith

mark_total-IsRun : (permits : Call → Type 0) (total : ℕ) → IsRun permits 0 (mark_total total)
mark_total-IsRun permits total = record {
  extends = λ p. (mark_truncated-IsRun permits (ltb (length p.evidence.symbols) total)).extends p;
}

module _ (printed : Value → Text) (routes : Routes) (q : QueryRequest) where
  close_run-called :
      (r : Progress × Option (Unit {0})) → (close_run printed routes q r).called ≡ r.0.called
  close_run-called (p, none) = refl
  close_run-called (p, some u) = refl

  close_run-Reports :
      (r : Progress × Option (Unit {0})) → Reports r.0 → Reports (close_run printed routes q r)
  close_run-Reports (p, none) h = (λ e. cc, λ e. absurd (not_empty p.degraded_stages _ e))
  close_run-Reports (p, some u) h = h

  references_from-IsRun :
      (position : Option SourcePosition)
      → q.routing.source_position ≡ position
      → IsRun (IsPermitted q references) 6 (references_from printed routes q position)
  unfolding references_from references_at related get text_eq
  references_from-IsRun none e =
      related_by-IsRun printed routes q references true q.routing.node_ids q.routing.symbol_name
        refl refl
  references_from-IsRun (some position) e =
      and_then-IsRun _ 1 0 6 _ _ (omega arith)
        (stage-IsRun _ routes _ _ _ (refl, inr (position, e, refl))) (λ response. collect-IsRun _ _)

  run_playbook-IsRun :
      (s : Playbook)
      → IsRun
          (IsPermitted q s)
          (call_limit s (mode_budget q.mode))
          (run_playbook printed routes q s)
  unfolding run_playbook related run_impact run_inventory discovered get text_eq
  run_playbook-IsRun discover =
      and_then-IsRun _ 1 0 1 _ _ (omega arith) (search_nodes-IsRun printed routes q discover refl)
        (λ nodes. done-IsRun _ tt)
  run_playbook-IsRun understand =
      related_by-IsRun printed routes q understand false q.routing.node_ids q.routing.symbol_name
        refl refl
  run_playbook-IsRun relationships =
      related_by-IsRun printed routes q relationships false q.routing.node_ids q.routing.symbol_name
        refl refl
  run_playbook-IsRun references = references_from-IsRun q.routing.source_position refl
  run_playbook-IsRun inspect_files =
      inspect-IsRun printed routes q inspect_files q.routing.file_paths refl refl
  run_playbook-IsRun impact =
      and_then-IsRun _ 1 0 1 _ _ (omega arith) (stage-IsRun _ routes _ _ _ (refl, inl refl))
        (λ response. collect-IsRun _ _)
  run_playbook-IsRun inventory =
      and_then-IsRun _ 1 0 1 _ _ (omega arith) (stage-IsRun _ routes _ _ _ (refl, inl refl))
        (λ response.
          and_then-IsRun _ 0 0 0 _ _ (omega arith) (collect-IsRun _ _)
            (λ u. mark_total-IsRun _ (total_of (get_value (codes "total") response))))

  -- Whatever the service answers, a playbook makes at most the calls of its limit, which is 6 for any
  -- playbook and mode, each to a route of the playbook and about the request's repository or the
  -- source position that the request names.
  pub execute-IsBounded :
      (selected : Playbook)
      → (length (execute printed routes q selected).called
          ≤ call_limit selected (mode_budget q.mode))
        × (call_limit selected (mode_budget q.mode) ≤ 6)
        × All (IsPermitted q selected) (execute printed routes q selected).called
  unfolding execute
  execute-IsBounded selected =
      let e = (run_playbook-IsRun selected).extends start_progress in
      let same =
        close_run-called (run_playbook printed routes q selected start_progress) ∙ e.appended in
      (
        subst (λ cs. length cs ≤ call_limit selected (mode_budget q.mode)) (sym same) e.few,
        call_limit-le selected q.mode,
        subst (All (IsPermitted q selected)) (sym same) e.permitted,
      )

  pub execute-Reports : (selected : Playbook) → Reports (execute printed routes q selected)
  unfolding execute
  execute-Reports selected =
      close_run-Reports _
        (((run_playbook-IsRun selected).extends start_progress).reports (λ e. tt, λ e. tt))
