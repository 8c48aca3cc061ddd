-- ===== src/Search/Hybrid.antt =====
-- `CodeSearchService.search`: retrieval, fusion and the optional reranking. The reranker is a
-- parameter: what it answers or raises within a time. Timings of the stages are left out.
use scs.Base.{
  ℕ, Bool, true, false, not, Option, none, some, List, [], ◌∷◌, any, map, take, Text, codes,
  mem_text, text_eq, join, if◌then◌else◌,
}
use scs.Graph.{NodeType}
use scs.Value.{Value}
use scs.Search.Scores.{Scores}
use scs.Search.Fusion.{CodeSearchMatch, merge_query_matches}
use scs.Search.Service.{
  Kind, timeout, other, Reply, reply, raised, then_reply, value_error_of, RetrievalMode,
  no_retrieval, retrieval_mode, names_semantic, names_lexical, effective_queries, Sources,
  QueryResult, retrieve_queries,
}
use scs.Search.Response.{
  result_limit, candidate_limit, RankedDocument, DegradedStage, CodeSearchResponse, Reranker,
  rerank_document, first_reason, semantic_if, reranked_mode, get_elem?, rerank_seconds,
  rerank_stage,
}

module _ {F : Type 0} where
  -- The `_response` of matches that no reranker ordered.
  abbrev pub unranked :
      List (CodeSearchMatch F)
      → Bool
      → RetrievalMode
      → Option Text
      → List Text
      → Option DegradedStage
      → Bool
      → CodeSearchResponse F
  unranked matches available mode reason queries stage timed_out = record {
    matches = matches;
    semantic_available = available;
    mode = mode;
    degraded_reason = reason;
    queries = queries;
    reranker_applied = false;
    degraded_stage = stage;
    timed_out = timed_out;
  }

  -- One element of the comprehension over `ranked`: an index out of range raises IndexError.
  abbrev pub rescored :
      Option (CodeSearchMatch F)
      → F
      → Reply (List (CodeSearchMatch F))
      → Reply (List (CodeSearchMatch F))
  rescored none score rest =
      raised (record { kind = other; message = codes "list index out of range" })
  rescored (some found) score rest =
      then_reply rest λ matches. reply (record found { rerank_score = some score } ∷ matches)

  unfoldable pub reorder :
      List (CodeSearchMatch F) → List (RankedDocument F) → Reply (List (CodeSearchMatch F))
  reorder fused [] = reply []
  reorder fused (result ∷ order) =
      rescored (get_elem? fused result.index) result.score (reorder fused order)

  -- The `except` clauses around the reranker, by the kind and the message of what it raised.
  unfoldable pub rerank_failed :
      Kind
      → Text
      → ℕ
      → List (CodeSearchMatch F)
      → Bool
      → RetrievalMode
      → List Text
      → Reply (CodeSearchResponse F)
  rerank_failed timeout message limit fused available mode queries = reply (
      unranked (take (result_limit limit) fused) available mode (some (codes "reranking timed out"))
        queries (some rerank_stage) true)
  rerank_failed other message limit fused available mode queries =
      raised (record { kind = other; message = message })
  rerank_failed _ message limit fused available mode queries = reply (
      unranked (take (result_limit limit) fused) available mode (some message) queries
        (some rerank_stage) false)

  unfoldable pub after_rerank :
      Reply (List (RankedDocument F))
      → ℕ
      → List (CodeSearchMatch F)
      → Bool
      → RetrievalMode
      → Option Text
      → List Text
      → Reply (CodeSearchResponse F)
  unfolding rerank_failed reorder reranked_mode
  after_rerank (raised failure) limit fused available mode reason queries =
      rerank_failed failure.kind failure.message limit fused available mode queries
  after_rerank (reply ranked) limit fused available mode reason queries =
      then_reply (reorder fused ranked) λ matches. then_reply (reranked_mode mode) λ new_mode.
        reply (record {
          matches = matches;
          semantic_available = available;
          mode = new_mode;
          degraded_reason = reason;
          queries = queries;
          reranker_applied = true;
          degraded_stage = semantic_if reason;
          timed_out = false;
        })

  -- `search` from `rerank_started` on.
  unfoldable pub rerank_stage_of :
      (Value → Text)
      → Reranker F
      → Text
      → ℕ
      → List (CodeSearchMatch F)
      → Bool
      → RetrievalMode
      → Option Text
      → List Text
      → Reply (CodeSearchResponse F)
  unfolding after_rerank rerank_document join
  rerank_stage_of printed rerank search_mode limit fused available mode reason queries =
      after_rerank
        (rerank (rerank_seconds search_mode) (join (10 ∷ []) queries)
          (map (λ found. rerank_document printed found.node) fused) (result_limit limit))
        limit fused available mode reason queries

  -- `search` from `if not fused` on.
  unfoldable pub answer :
      (Value → Text)
      → Option (Reranker F)
      → Text
      → ℕ
      → List (CodeSearchMatch F)
      → Bool
      → RetrievalMode
      → Option Text
      → List Text
      → Reply (CodeSearchResponse F)
  unfolding rerank_stage_of
  answer printed reranker search_mode limit [] available mode reason queries =
      reply (unranked [] available no_retrieval reason queries (semantic_if reason) false)
  answer printed none search_mode limit (m ∷ ms) available mode reason queries = reply (
      unranked (take (result_limit limit) (m ∷ ms)) available mode reason queries
        (semantic_if reason) false)
  answer printed (some rerank) search_mode limit (m ∷ ms) available mode reason queries =
      if text_eq search_mode (codes "fast")
      then reply (
          unranked (take (result_limit limit) (m ∷ ms)) available mode reason queries
            (semantic_if reason) false)
      else rerank_stage_of printed rerank search_mode limit (m ∷ ms) available mode reason queries

  unfoldable pub conclude :
      ⦃s : Scores F⦄
      → (Value → Text)
      → Option (Reranker F)
      → Text
      → ℕ
      → List Text
      → List (QueryResult F)
      → Reply (CodeSearchResponse F)
  unfolding answer merge_query_matches retrieval_mode
  conclude printed reranker search_mode limit queries results =
      answer printed reranker search_mode limit (merge_query_matches (map (λ r. r.matches) results))
        (not (any (λ r. not r.semantic_available) results))
        (retrieval_mode (any (λ r. names_semantic r.mode) results)
          (any (λ r. names_lexical r.mode) results))
        (first_reason results) queries

abbrev pub search_modes : List Text
search_modes = codes "fast" ∷ codes "balanced" ∷ codes "thorough" ∷ []

unfoldable pub search_code :
    {F Vector : Type 0} ⦃s : Scores F⦄
    → (Value → Text)
    → Sources F Vector
    → Option (Reranker F)
    → Text
    → Option NodeType
    → ℕ
    → Option ℕ
    → Option (List Text)
    → Text
    → Reply (CodeSearchResponse F)
unfolding effective_queries retrieve_queries conclude
search_code printed g reranker query node_type limit repo_id queries search_mode =
    then_reply (effective_queries query queries) λ active.
      if not (mem_text search_mode search_modes)
      then raised (value_error_of (codes "search_mode must be fast, balanced, or thorough"))
      else then_reply (retrieve_queries g 0 active node_type (candidate_limit limit) repo_id)
          λ results. conclude printed reranker search_mode limit active results
