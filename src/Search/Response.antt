-- ===== src/Search/Response.antt =====
-- The limits and the response of a search, and the documents of the reranker
-- (src/scs/indexing/search.py).
use scs.Base.{
  ℕ, suc, zero, ◌*◌, Bool, Option, none, some, List, [], ◌∷◌, ◌++◌, map, take, filter_by, Text,
  codes, text_eq, strip, join, ltb, if◌then◌else◌,
}
use scs.Graph.{Node, node_type_value}
use scs.Value.{Value, text, get_value, is_true, is_blank, str}
use scs.Search.Fusion.{CodeSearchMatch}
use scs.Search.Service.{
  other, Reply, reply, raised, RetrievalMode, lexical, semantic, hybrid, lexical_reranked,
  semantic_reranked, hybrid_reranked, QueryResult,
}

abbrev pub max_search_results : ℕ
max_search_results = 200

abbrev pub minimum_candidate_count : ℕ
minimum_candidate_count = 20

abbrev pub candidate_multiplier : ℕ
candidate_multiplier = 4

abbrev pub max_rerank_document_chars : ℕ
max_rerank_document_chars = 4096

abbrev pub balanced_rerank_timeout_seconds : ℕ
balanced_rerank_timeout_seconds = 5

abbrev pub thorough_rerank_timeout_seconds : ℕ
thorough_rerank_timeout_seconds = 30

abbrev pub min_of : ℕ → ℕ → ℕ
min_of a b = if ltb b a then b else a

abbrev pub max_of : ℕ → ℕ → ℕ
max_of a b = if ltb a b then b else a

-- `max(1, min(limit, MAX_SEARCH_RESULTS))`; a negative limit is no other than 0.
abbrev pub result_limit : ℕ → ℕ
result_limit limit = max_of 1 (min_of limit max_search_results)

abbrev pub candidate_limit : ℕ → ℕ
candidate_limit limit =
    min_of max_search_results
      (max_of minimum_candidate_count (result_limit limit * candidate_multiplier))

pub record RankedDocument (F : Type 0) : Type 0 where
  pub index : ℕ
  pub score : F

pub data DegradedStage : Type 0 where
  semantic_stage rerank_stage : DegradedStage

pub record CodeSearchResponse (F : Type 0) : Type 0 where
  pub matches : List (CodeSearchMatch F)
  pub semantic_available : Bool
  pub mode : RetrievalMode
  pub degraded_reason : Option Text
  pub queries : List Text
  pub reranker_applied : Bool
  pub degraded_stage : Option DegradedStage
  pub timed_out : Bool

-- The reranker's answer to a query, documents and a limit within a number of seconds.
abbrev pub Reranker : Type 0 → Type 0
Reranker F = ℕ → Text → List Text → ℕ → Reply (List (RankedDocument F))

-- `a or b`
abbrev pub or_value : Value → Value → Value
or_value a b = if is_true a then a else b

unfoldable pub rerank_document : (Value → Text) → Node → Text
unfolding node_type_value join strip
rerank_document printed node =
    let structural = join (codes " ") (
      map (str printed) (
        filter_by is_true (
          text (node_type_value node.node_type)
          ∷ or_value (get_value (codes "qualified_name") node.metadata) (text node.name)
          ∷ get_value (codes "signature") node.metadata
          ∷ get_value (codes "file_path") node.metadata
          ∷ []))) in
    let content = strip node.content in
    take max_rerank_document_chars
      (if is_blank content then structural else structural ++ 10 ∷ content)

abbrev pub first_reason : {F : Type 0} → List (QueryResult F) → Option Text
first_reason [] = none
first_reason (result ∷ rest) = elim result.degraded_reason [
  | none ↦ first_reason rest
  | some reason ↦ if is_blank reason then first_reason rest else some reason
]

-- `"semantic" if degraded_reason else None`
abbrev pub semantic_if : Option Text → Option DegradedStage
semantic_if none = none
semantic_if (some reason) = some semantic_stage

-- `reranked_modes[mode]`
unfoldable pub reranked_mode : RetrievalMode → Reply RetrievalMode
reranked_mode hybrid = reply hybrid_reranked
reranked_mode semantic = reply semantic_reranked
reranked_mode lexical = reply lexical_reranked
reranked_mode _ = raised (record { kind = other; message = [] })

abbrev pub get_elem? {ℓ} : {A : Type ℓ} → List A → ℕ → Option A
get_elem? [] n = none
get_elem? (x ∷ xs) zero = some x
get_elem? (x ∷ xs) (suc n) = get_elem? xs n

abbrev pub rerank_seconds : Text → ℕ
rerank_seconds search_mode =
    if text_eq search_mode (codes "balanced")
    then balanced_rerank_timeout_seconds
    else thorough_rerank_timeout_seconds
