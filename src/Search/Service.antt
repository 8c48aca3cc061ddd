-- ===== src/Search/Service.antt =====
-- `CodeSearchService` up to the reranker: the queries, the retrieval of one query, and the modes.
-- The graph and the embedding provider are parameters, calls that answer or raise.
use scs.Base.{
  unseen, ℕ, suc, Bool, true, false, Option, none, some, List, [], ◌∷◌, any, length, Text, codes,
  strip, ltb, if◌then◌else◌,
}
use scs.Graph.{Node, NodeType}
use scs.Value.{is_blank}
use scs.Search.Scores.{Scores}
use scs.Search.Fusion.{SearchResult, CodeSearchMatch, fuse}

abbrev pub max_search_queries : ℕ
max_search_queries = 5

-- What an exception is to the `except` clauses, a timeout being also an OSError.
pub data Kind : Type 0 where
  provider_unavailable os_failure timeout runtime_failure value_failure other : Kind

-- `message` is `str(exc)`.
pub record Failure : Type 0 where
  pub kind : Kind
  pub message : Text

pub data Reply {ℓ} (A : Type ℓ) : Type ℓ where
  reply : A → Reply A
  raised : Failure → Reply A

abbrev pub then_reply {ℓ κ} : {A : Type ℓ} {B : Type κ} → Reply A → (A → Reply B) → Reply B
then_reply (raised failure) rest = raised failure
then_reply (reply value) rest = rest value

-- `except (ProviderUnavailableError, OSError, RuntimeError, ValueError)`
abbrev pub is_caught : Kind → Bool
is_caught other = false
is_caught _ = true

abbrev pub value_error_of : Text → Failure
value_error_of message = record { kind = value_failure; message = message }

pub data RetrievalMode : Type 0 where
  no_retrieval lexical semantic hybrid : RetrievalMode
  lexical_reranked semantic_reranked hybrid_reranked : RetrievalMode

unfoldable pub retrieval_mode : Bool → Bool → RetrievalMode
retrieval_mode true true = hybrid
retrieval_mode true false = semantic
retrieval_mode false true = lexical
retrieval_mode false false = no_retrieval

-- `"semantic" in mode or "hybrid" in mode`
abbrev pub names_semantic : RetrievalMode → Bool
names_semantic semantic = true
names_semantic hybrid = true
names_semantic semantic_reranked = true
names_semantic hybrid_reranked = true
names_semantic _ = false

-- `"lexical" in mode or "hybrid" in mode`
abbrev pub names_lexical : RetrievalMode → Bool
names_lexical lexical = true
names_lexical hybrid = true
names_lexical lexical_reranked = true
names_lexical hybrid_reranked = true
names_lexical _ = false

abbrev pub given_queries : Option (List Text) → List Text
given_queries none = []
given_queries (some ts) = ts

unfoldable pub effective_queries : Text → Option (List Text) → Reply (List Text)
unfolding unseen strip
effective_queries query queries =
    let requested = query ∷ given_queries queries in
    if ltb max_search_queries (length requested)
    then raised (value_error_of (codes "search accepts at most 5 queries"))
    else if any (λ t. is_blank (strip t)) requested
    then raised (value_error_of (codes "search queries cannot be blank"))
    else reply (unseen [] requested)

-- The graph and the optional embedding provider of a service.
pub record Sources (F Vector : Type 0) : Type 0 where
  pub search_by_name : Text → Option NodeType → ℕ → Option ℕ → Reply (List Node)
  pub search_by_vector : Vector → Option NodeType → ℕ → Option ℕ → Reply (List (SearchResult F))
  pub embed_query : Option (Text → Reply Vector)

-- What `_semantic_candidates` answers: the matches, whether semantic search was available, and why not.
pub record Semantic (F : Type 0) : Type 0 where
  pub found : List (SearchResult F)
  pub available : Bool
  pub reason : Option Text

-- `_QueryResult`
pub record QueryResult (F : Type 0) : Type 0 where
  pub matches : List (CodeSearchMatch F)
  pub semantic_available : Bool
  pub mode : RetrievalMode
  pub degraded_reason : Option Text

-- `bool(items)`
abbrev pub is_filled {ℓ} : {A : Type ℓ} → List A → Bool
is_filled [] = false
is_filled (x ∷ xs) = true

module _ {F : Type 0} where
  abbrev pub no_semantic : Text → Semantic F
  no_semantic reason = record { found = []; available = false; reason = some reason }

  -- The `except` clauses of `_semantic_candidates`.
  unfoldable pub degrade : Failure → Reply (Semantic F)
  degrade failure =
      if is_caught failure.kind then reply (no_semantic failure.message) else raised failure

  unfoldable pub vector_matches : Reply (List (SearchResult F)) → Reply (Semantic F)
  unfolding degrade
  vector_matches (raised failure) = degrade failure
  vector_matches (reply found) = reply (record { found = found; available = true; reason = none })

module _ {F Vector : Type 0} where
  unfoldable pub embedded :
      Sources F Vector → Option NodeType → ℕ → Option ℕ → Reply Vector → Reply (Semantic F)
  unfolding degrade vector_matches
  embedded g node_type limit repo_id (raised failure) = degrade failure
  embedded g node_type limit repo_id (reply vector) =
      vector_matches (g.search_by_vector vector node_type limit repo_id)

  unfoldable pub semantic_from :
      Sources F Vector
      → Text
      → Option NodeType
      → ℕ
      → Option ℕ
      → Option (Text → Reply Vector)
      → Reply (Semantic F)
  unfolding embedded
  semantic_from g query node_type limit repo_id none =
      reply (no_semantic (codes "embedding provider is not configured"))
  semantic_from g query node_type limit repo_id (some embed_query) =
      embedded g node_type limit repo_id (embed_query query)

  unfoldable pub semantic_candidates :
      Sources F Vector → Text → Option NodeType → ℕ → Option ℕ → Reply (Semantic F)
  unfolding semantic_from
  semantic_candidates g query node_type limit repo_id =
      semantic_from g query node_type limit repo_id g.embed_query

  unfoldable pub retrieve_query :
      ⦃s : Scores F⦄
      → Sources F Vector
      → Text
      → ℕ
      → Option NodeType
      → ℕ
      → Option ℕ
      → Reply (QueryResult F)
  unfolding semantic_candidates retrieval_mode fuse
  retrieve_query g query query_index node_type limit repo_id =
      then_reply (g.search_by_name query node_type limit repo_id) λ lexical_found.
        then_reply (semantic_candidates g query node_type limit repo_id) λ semantic_found.
          reply (record {
            matches = fuse query_index semantic_found.found lexical_found;
            semantic_available = semantic_found.available;
            mode = retrieval_mode (is_filled semantic_found.found) (is_filled lexical_found);
            degraded_reason = semantic_found.reason;
          })

  -- `asyncio.gather` over `enumerate(effective_queries)`: the first exception in the order of the
  -- queries is the one that is raised.
  unfoldable pub retrieve_queries :
      ⦃s : Scores F⦄
      → Sources F Vector
      → ℕ
      → List Text
      → Option NodeType
      → ℕ
      → Option ℕ
      → Reply (List (QueryResult F))
  unfolding retrieve_query
  retrieve_queries g index [] node_type limit repo_id = reply []
  retrieve_queries g index (query ∷ queries) node_type limit repo_id =
      then_reply (retrieve_query g query index node_type limit repo_id) λ first.
        then_reply (retrieve_queries g (suc index) queries node_type limit repo_id)
          λ rest. reply (first ∷ rest)
