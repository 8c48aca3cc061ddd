-- ===== src/Search/Retrieval.antt =====
-- The retrieval of the queries answers when the graph does, and what it calls nothing is nothing.
use scs.Base.{
  ℕ, suc, ◌≤◌, ◌<◌, ◌≡◌, refl, true, false, ◌||◌, Option, none, some, List, [], ◌∷◌, map, any,
  length, Text, All, arith,
}
use scs.Graph.{Node, NodeType}
use scs.Search.Scores.{Scores}
use scs.Search.Fusion.{
  SearchResult, fuse, add_results, add_matches, ranked, add_semantic, add_lexical,
}
use scs.Search.Service.{
  Failure, Reply, reply, raised, is_caught, retrieval_mode, names_semantic, names_lexical, Sources,
  QueryResult, degrade, vector_matches, embedded, semantic_from, semantic_candidates,
  retrieve_query, retrieve_queries, is_filled, no_semantic,
}
use scs.Search.Response.{RankedDocument, Reranker}

-- A call that answers, or raises what the service catches.
abbrev pub IsOptional {ℓ} : {A : Type ℓ} → Reply A → Type 0
IsOptional (reply value) = Unit
IsOptional (raised failure) = is_caught failure.kind ≡ true

abbrev pub Answers {ℓ} : {A : Type ℓ} → Reply A → Type ℓ
Answers {A = A} r = (value : A) × (r ≡ reply value)

-- The graph answers name searches, and whatever else fails raises what the service catches.
pub record Available {F Vector : Type 0} (g : Sources F Vector) : Type 0 where
  pub names :
      (query : Text) (node_type : Option NodeType) (limit : ℕ) (repo_id : Option ℕ)
      → Answers (g.search_by_name query node_type limit repo_id)
  pub vectors :
      (vector : Vector) (node_type : Option NodeType) (limit : ℕ) (repo_id : Option ℕ)
      → IsOptional (g.search_by_vector vector node_type limit repo_id)
  pub embeds :
      (embed_query : Text → Reply Vector)
      → g.embed_query ≡ some embed_query
      → (query : Text) → IsOptional (embed_query query)

-- A reranker answers with at most as many documents as it was asked for, each at a place of the list
-- that it got, or raises what the service catches.
abbrev pub InBounds : {F : Type 0} → ℕ → ℕ → Reply (List (RankedDocument F)) → Type 0
InBounds count limit (reply ranked) = (length ranked ≤ limit) × All (λ d. d.index < count) ranked
InBounds count limit (raised failure) = is_caught failure.kind ≡ true

abbrev pub IsReranker : {F : Type 0} → Reranker F → Type 0
IsReranker rerank =
    (seconds : ℕ) (query : Text) (documents : List Text) (limit : ℕ)
    → InBounds (length documents) limit (rerank seconds query documents limit)

-- A query whose mode is no retrieval found nothing.
abbrev pub IsEvident : {F : Type 0} → QueryResult F → Type 0
IsEvident r = (names_semantic r.mode || names_lexical r.mode) ≡ false → r.matches ≡ []

module _ {F : Type 0} where
  degrade-answers :
      (failure : Failure) → is_caught failure.kind ≡ true → Answers (degrade {F = F} failure)
  unfolding degrade
  degrade-answers failure h = (no_semantic failure.message, rw h refl)

  vector_matches-answers :
      (found : Reply (List (SearchResult F))) → IsOptional found → Answers (vector_matches found)
  unfolding vector_matches
  vector_matches-answers (reply found) h = (_, refl)
  vector_matches-answers (raised failure) h = degrade-answers failure h

  fuse_nothing :
      ⦃s : Scores F⦄
      → (index : ℕ) (found : List (SearchResult F)) (lexical_found : List Node)
      → (names_semantic (retrieval_mode (is_filled found) (is_filled lexical_found))
          || names_lexical (retrieval_mode (is_filled found) (is_filled lexical_found)))
        ≡ false
      → fuse index found lexical_found ≡ []
  unfolding fuse retrieval_mode add_semantic add_lexical ranked
  fuse_nothing index [] [] h = refl
  fuse_nothing index [] (n ∷ ns) h = absurd (ground arith)
  fuse_nothing index (m ∷ ms) [] h = absurd (ground arith)
  fuse_nothing index (m ∷ ms) (n ∷ ns) h = absurd (ground arith)

  -- Where every query is evident and the modes name nothing, the merged matches are none.
  pub add_results_nothing :
      ⦃s : Scores F⦄
      → (results : List (QueryResult F)) → All IsEvident results
      → any (λ r. names_semantic r.mode) results ≡ false
      → any (λ r. names_lexical r.mode) results ≡ false
      → add_results (map (λ r. r.matches) results) [] ≡ []
  unfolding add_results add_matches
  add_results_nothing [] e h k = refl
  add_results_nothing (r ∷ rest) e h k =
      let empty : r.matches ≡ [] = ground (arith, e.0) in
      rw (empty, add_results_nothing rest e.1 (ground arith) (ground arith)) refl

module _ {F Vector : Type 0} where
  module _ (g : Sources F Vector) (a : Available g) where
    embedded-answers :
        (node_type : Option NodeType) (limit : ℕ) (repo_id : Option ℕ) (vector : Reply Vector)
        → IsOptional vector
        → Answers (embedded g node_type limit repo_id vector)
    unfolding embedded
    embedded-answers node_type limit repo_id (raised failure) h = degrade-answers failure h
    embedded-answers node_type limit repo_id (reply vector) h =
        vector_matches-answers _ (a.vectors vector node_type limit repo_id)

    semantic_from-answers :
        (query : Text) (node_type : Option NodeType) (limit : ℕ) (repo_id : Option ℕ)
        (provider : Option (Text → Reply Vector))
        → g.embed_query ≡ provider
        → Answers (semantic_from g query node_type limit repo_id provider)
    unfolding semantic_from
    semantic_from-answers query node_type limit repo_id none h = (_, refl)
    semantic_from-answers query node_type limit repo_id (some embed_query) h =
        embedded-answers node_type limit repo_id _ (a.embeds embed_query h query)

    retrieve_query-answers :
        ⦃s : Scores F⦄
        → (query : Text) (index : ℕ) (node_type : Option NodeType) (limit : ℕ) (repo_id : Option ℕ)
        → (r : QueryResult F) × (retrieve_query g query index node_type limit repo_id ≡ reply r)
          × IsEvident r
    unfolding retrieve_query semantic_candidates
    retrieve_query-answers query index node_type limit repo_id =
        let (lexical_found, named) = a.names query node_type limit repo_id in
        let (semantic_found, replied) =
          semantic_from-answers query node_type limit repo_id _ refl in
        (
          record {
            matches = fuse index semantic_found.found lexical_found;
            semantic_available = semantic_found.available;
            mode = retrieval_mode (is_filled semantic_found.found) (is_filled lexical_found);
            degraded_reason = semantic_found.reason;
          },
          rw (named, replied) refl,
          fuse_nothing index semantic_found.found lexical_found,
        )

    pub retrieve_queries-answers :
        ⦃s : Scores F⦄
        → (index : ℕ) (queries : List Text) (node_type : Option NodeType) (limit : ℕ)
          (repo_id : Option ℕ)
        → (results : List (QueryResult F)) × (retrieve_queries g index queries node_type limit
              repo_id
            ≡ reply results)
          × All IsEvident results
    unfolding retrieve_queries
    retrieve_queries-answers index [] node_type limit repo_id = ([], refl, tt)
    retrieve_queries-answers index (query ∷ queries) node_type limit repo_id =
        let (first, replied, evident) =
          retrieve_query-answers query index node_type limit repo_id in
        let (rest, all_replied, all_evident) =
          retrieve_queries-answers (suc index) queries node_type limit repo_id in
        (first ∷ rest, rw (replied, all_replied) refl, (evident, all_evident))
