-- ===== src/Query/Permitted.antt =====
-- The calls that a playbook may make, and the parts of the playbooks that keep to them
-- (src/scs/orchestration/query.py).
use scs.Base.{
  ℕ, suc, zero, ◌≤◌, ◌≡◌, refl, Bool, true, Option, none, some, List, [], ◌∷◌, Text, codes, text_eq,
  mem_text, length, take, arith, ◌⊎◌, inl, unseen,
}
use scs.Graph.{RelationshipType}
use scs.Value.{Value, text, Fields, get, get_value}
use scs.Query.Evidence.{objects}
use scs.Query.Decision.{
  Playbook, discover, understand, relationships, references, inspect_files, impact, inventory,
  SourcePosition,
}
use scs.Query.Request.{QueryRequest, ModeBudget, mode_budget}
use scs.Query.Stages.{Call, Routes}
use scs.Query.Playbooks.{search_nodes, seed_ids, traverse, traverse_all, related_from, related_by}
use scs.Query.Runs.{
  IsRun, IsRun-le, done-IsRun, collect-IsRun, mark_truncated-IsRun, and_then-IsRun, stage-IsRun,
}
use scs.Query.Projections.{edge_types_of, path_in}
use scs.Query.Execution.{inspect_all, inspect_unique, inspect, seed_files}

-- The routes that a playbook may call.
abbrev pub routes_of : Playbook → List Text
routes_of discover = codes "knowledge.search" ∷ []
routes_of understand = codes "knowledge.search" ∷ codes "knowledge.related" ∷ []
routes_of relationships = codes "knowledge.search" ∷ codes "knowledge.related" ∷ []
routes_of references =
    codes "knowledge.search" ∷ codes "knowledge.related" ∷ codes "lsp.references" ∷ []
routes_of inspect_files = codes "knowledge.search" ∷ codes "knowledge.inspect_file" ∷ []
routes_of impact = codes "knowledge.composite.regression_risk" ∷ []
routes_of inventory = codes "knowledge.nodes.list" ∷ []

-- The calls that a playbook makes at most.
abbrev pub call_limit : Playbook → ModeBudget → ℕ
call_limit discover b = 1
call_limit understand b = 2
call_limit relationships b = 2
call_limit references b = 6
call_limit inspect_files b = suc b.hydrated_files
call_limit impact b = 1
call_limit inventory b = 1

-- A call about the request's repository, or about a source position in it that the request names.
abbrev pub StaysIn : QueryRequest → Fields → Type 0
StaysIn q arguments =
    (get (codes "repo_path") arguments ≡ some (text q.repo_path))
    ⊎ ((p : SourcePosition) × (q.routing.source_position ≡ some p)
        × (get (codes "file_path") arguments ≡ some (text (path_in q.repo_path p.file_path))))

abbrev pub IsPermitted : QueryRequest → Playbook → Call → Type 0
IsPermitted q selected call = (mem_text call.0 (routes_of selected) ≡ true) × StaysIn q call.1

length-take-le {ℓ} : {A : Type ℓ} (n : ℕ) (xs : List A) → length (take n xs) ≤ n
length-take-le zero xs = omega arith
length-take-le (suc n) [] = omega arith
length-take-le (suc n) (x ∷ xs) = omega (arith, length-take-le n xs)

module _ (printed : Value → Text) (routes : Routes) (q : QueryRequest) (s : Playbook) where
  pub search_nodes-IsRun :
      mem_text (codes "knowledge.search") (routes_of s) ≡ true
      → IsRun (IsPermitted q s) 1 (search_nodes printed routes q)
  unfolding search_nodes get text_eq
  search_nodes-IsRun h =
      and_then-IsRun _ 1 0 1 _ _ (omega arith) (stage-IsRun _ routes _ _ _ (h, inl refl))
        (λ response.
          and_then-IsRun _ 0 0 0 _ _ (omega arith) (collect-IsRun _ _)
            (λ u. done-IsRun _ (objects (get_value (codes "results") response))))

  traverse-IsRun :
      (incoming : Bool) (identities : List Text) (symbol : Option Text)
      (edge_type : Option RelationshipType)
      → mem_text (codes "knowledge.related") (routes_of s) ≡ true
      → IsRun (IsPermitted q s) 1 (traverse printed routes q incoming identities symbol edge_type)
  unfolding traverse get text_eq
  traverse-IsRun incoming identities symbol edge_type h =
      and_then-IsRun _ 1 0 1 _ _ (omega arith) (stage-IsRun _ routes _ _ _ (h, inl refl))
        (λ response. collect-IsRun _ _)

  traverse_all-IsRun :
      (incoming : Bool) (identities : List Text) (symbol : Option Text)
      (edge_types : List (Option RelationshipType))
      → mem_text (codes "knowledge.related") (routes_of s) ≡ true
      → IsRun
          (IsPermitted q s)
          (length edge_types)
          (traverse_all printed routes q incoming identities symbol edge_types)
  unfolding traverse_all
  traverse_all-IsRun incoming identities symbol [] h = done-IsRun _ tt
  traverse_all-IsRun incoming identities symbol (edge_type ∷ edge_types) h =
      and_then-IsRun _ 1 (length edge_types) _ _ _ (omega arith)
        (traverse-IsRun incoming identities symbol edge_type h)
        (λ u. traverse_all-IsRun incoming identities symbol edge_types h)

  related_from-IsRun :
      (incoming : Bool) (identities : List Text) (symbol : Option Text)
      → mem_text (codes "knowledge.related") (routes_of s) ≡ true
      → IsRun
          (IsPermitted q s)
          (length (edge_types_of incoming))
          (related_from printed routes q incoming identities symbol)
  unfolding related_from
  related_from-IsRun incoming [] none h = IsRun-le _ 0 _ _ (omega arith) (done-IsRun _ tt)
  related_from-IsRun incoming [] (some t) h = traverse_all-IsRun incoming [] (some t) _ h
  related_from-IsRun incoming (x ∷ xs) symbol h = traverse_all-IsRun incoming (x ∷ xs) symbol _ h

  pub related_by-IsRun :
      (incoming : Bool) (identities : List Text) (symbol : Option Text)
      → mem_text (codes "knowledge.search") (routes_of s) ≡ true
      → mem_text (codes "knowledge.related") (routes_of s) ≡ true
      → IsRun
          (IsPermitted q s)
          (suc (length (edge_types_of incoming)))
          (related_by printed routes q incoming identities symbol)
  unfolding related_by
  related_by-IsRun incoming (t ∷ ts) symbol g h =
      IsRun-le _ (length (edge_types_of incoming)) _ _ (omega arith)
        (related_from-IsRun incoming (t ∷ []) none h)
  related_by-IsRun incoming [] (some symbol) g h =
      IsRun-le _ (length (edge_types_of incoming)) _ _ (omega arith)
        (related_from-IsRun incoming [] (some symbol) h)
  related_by-IsRun incoming [] none g h =
      and_then-IsRun _ 1 (length (edge_types_of incoming)) _ _ _ (omega arith)
        (search_nodes-IsRun g)
        (λ seeds. related_from-IsRun incoming (seed_ids printed routes q seeds) none h)

  inspect_all-IsRun :
      (file_paths : List Text)
      → mem_text (codes "knowledge.inspect_file") (routes_of s) ≡ true
      → IsRun (IsPermitted q s) (length file_paths) (inspect_all printed routes q file_paths)
  unfolding inspect_all get text_eq
  inspect_all-IsRun [] h = done-IsRun _ tt
  inspect_all-IsRun (f ∷ fs) h =
      and_then-IsRun _ 1 (length fs) _ _ _ (omega arith) (stage-IsRun _ routes _ _ _ (h, inl refl))
        (λ response.
          and_then-IsRun _ 0 (length fs) _ _ _ (omega arith) (collect-IsRun _ _)
            (λ u. inspect_all-IsRun fs h))

  inspect_unique-IsRun :
      (unique_files : List Text)
      → mem_text (codes "knowledge.inspect_file") (routes_of s) ≡ true
      → IsRun
          (IsPermitted q s)
          (mode_budget q.mode).hydrated_files
          (inspect_unique printed routes q unique_files)
  unfolding inspect_unique
  inspect_unique-IsRun unique_files h =
      and_then-IsRun _ 0 (length (take (mode_budget q.mode).hydrated_files unique_files)) _ _ _
        (omega (arith, length-take-le (mode_budget q.mode).hydrated_files unique_files))
        (mark_truncated-IsRun _ _) (λ u. inspect_all-IsRun _ h)

  pub inspect-IsRun :
      (file_paths : List Text)
      → mem_text (codes "knowledge.search") (routes_of s) ≡ true
      → mem_text (codes "knowledge.inspect_file") (routes_of s) ≡ true
      → IsRun
          (IsPermitted q s)
          (suc (mode_budget q.mode).hydrated_files)
          (inspect printed routes q file_paths)
  unfolding inspect
  inspect-IsRun [] g h =
      and_then-IsRun _ 1 (mode_budget q.mode).hydrated_files _ _ _ (omega arith)
        (search_nodes-IsRun g)
        (λ seeds. inspect_unique-IsRun (unseen [] (seed_files printed routes q seeds)) h)
  inspect-IsRun (f ∷ fs) g h =
      IsRun-le _ (mode_budget q.mode).hydrated_files _ _ (omega arith)
        (inspect_unique-IsRun (unseen [] (f ∷ fs)) h)
