-- ===== src/Search/Answers.antt =====
-- `search` fails open: what raises around models costs enrichment, never the answer.
use scs.Base.{
  ℕ, suc, zero, ◌≤◌, ◌<◌, ◌≡◌, refl, ap, subst, Bool, true, false, ◌||◌, Option, none, some, List,
  [], ◌∷◌, map, any, take, length, Text, codes, mem_text, text_eq, All, join, arith, Bool-cases,
  inl, inr, ◌⊎◌,
}
use scs.Graph.{NodeType}
use scs.Value.{Value}
use scs.Search.Scores.{Scores}
use scs.Search.Fusion.{CodeSearchMatch, as_match, merge_query_matches, ranked}
use scs.Search.Service.{
  Kind, provider_unavailable, os_failure, timeout, runtime_failure, value_failure, other, Reply,
  reply, raised, is_caught, RetrievalMode, retrieval_mode, names_semantic, names_lexical,
  effective_queries, Sources, QueryResult,
}
use scs.Search.Hybrid.{
  reorder, rerank_failed, after_rerank, rerank_stage_of, answer, conclude, search_modes,
  search_code,
}
use scs.Search.Retrieval.{
  Answers, Available, InBounds, IsReranker, IsEvident, add_results_nothing,
  retrieve_queries-answers,
}
use scs.Search.Response.{
  result_limit, candidate_limit, RankedDocument, CodeSearchResponse, Reranker, rerank_document,
  get_elem?, reranked_mode, rerank_seconds, semantic_if,
}

-- An answer with at most as many matches as were asked for, and the queries that were searched.
abbrev pub IsBounded : {F : Type 0} → ℕ → List Text → CodeSearchResponse F → Type 0
IsBounded limit queries r = (length r.matches ≤ result_limit limit) × (r.queries ≡ queries)

abbrev pub BoundedAnswer : {F : Type 0} → ℕ → List Text → Reply (CodeSearchResponse F) → Type 0
BoundedAnswer {F = F} limit queries r =
    (a : CodeSearchResponse F) × (r ≡ reply a) × IsBounded limit queries a

length-take-le {ℓ} : {A : Type ℓ} (n : ℕ) (xs : List A) → length (take n xs) ≤ n
length-take-le zero xs = omega arith
length-take-le (suc n) [] = omega arith
length-take-le (suc n) (x ∷ xs) = omega (arith, length-take-le n xs)

length-map {ℓ} : {A B : Type ℓ} (f : A → B) (xs : List A) → length (map f xs) ≡ length xs
length-map f [] = refl
length-map f (x ∷ xs) = ap (λ n. suc n) (length-map f xs)

get_elem?-in_bounds {ℓ} :
    {A : Type ℓ} (xs : List A) (n : ℕ) → n < length xs → (x : A) × (get_elem? xs n ≡ some x)
get_elem?-in_bounds [] n h = absurd (omega arith)
get_elem?-in_bounds (x ∷ xs) zero h = (x, refl)
get_elem?-in_bounds (x ∷ xs) (suc n) h = get_elem?-in_bounds xs n (omega arith)

-- A mode of something that was found has a reranked one.
reranked_mode-answers :
    (a b : Bool) → (a || b) ≡ true → Answers (reranked_mode (retrieval_mode a b))
unfolding reranked_mode retrieval_mode
reranked_mode-answers true true h = (_, refl)
reranked_mode-answers true false h = (_, refl)
reranked_mode-answers false true h = (_, refl)
reranked_mode-answers false false h = absurd (ground arith)

module _ {F : Type 0} where
  reorder-answers :
      (fused : List (CodeSearchMatch F)) (order : List (RankedDocument F))
      → All (λ d. d.index < length fused) order
      → (matches : List (CodeSearchMatch F)) × (reorder fused order ≡ reply matches)
        × (length matches ≡ length order)
  unfolding reorder
  reorder-answers fused [] h = ([], refl, refl)
  reorder-answers fused (d ∷ order) h =
      let (found, at) = get_elem?-in_bounds fused d.index h.0 in
      let (matches, replied, same) = reorder-answers fused order h.1 in
      (
        record found { rerank_score = some d.score } ∷ matches,
        rw (at, replied) refl,
        ap (λ n. suc n) same,
      )

  rerank_failed-answers :
      (kind : Kind) (message : Text) (limit : ℕ) (fused : List (CodeSearchMatch F))
      (available : Bool) (mode : RetrievalMode) (queries : List Text)
      → is_caught kind ≡ true
      → BoundedAnswer limit queries (rerank_failed kind message limit fused available mode queries)
  unfolding rerank_failed
  rerank_failed-answers other message limit fused available mode queries h = absurd (ground arith)
  rerank_failed-answers provider_unavailable message limit fused available mode queries h =
      (_, refl, (length-take-le (result_limit limit) fused, refl))
  rerank_failed-answers os_failure message limit fused available mode queries h =
      (_, refl, (length-take-le (result_limit limit) fused, refl))
  rerank_failed-answers timeout message limit fused available mode queries h =
      (_, refl, (length-take-le (result_limit limit) fused, refl))
  rerank_failed-answers runtime_failure message limit fused available mode queries h =
      (_, refl, (length-take-le (result_limit limit) fused, refl))
  rerank_failed-answers value_failure message limit fused available mode queries h =
      (_, refl, (length-take-le (result_limit limit) fused, refl))

  after_rerank-answers :
      (order : Reply (List (RankedDocument F))) (limit : ℕ) (fused : List (CodeSearchMatch F))
      (available : Bool) (mode : RetrievalMode) (reason : Option Text) (queries : List Text)
      → Answers (reranked_mode mode)
      → InBounds (length fused) (result_limit limit) order
      → BoundedAnswer limit queries (after_rerank order limit fused available mode reason queries)
  unfolding after_rerank
  after_rerank-answers (raised failure) limit fused available mode reason queries h b =
      rerank_failed-answers failure.kind failure.message limit fused available mode queries b
  after_rerank-answers (reply order) limit fused available mode reason queries h b =
      let (matches, replied, same) = reorder-answers fused order b.1 in
      (
        record {
          matches = matches;
          semantic_available = available;
          mode = h.0;
          degraded_reason = reason;
          queries = queries;
          reranker_applied = true;
          degraded_stage = semantic_if reason;
          timed_out = false;
        },
        rw (replied, h.1) refl,
        (omega (arith, b.0, same), refl),
      )

  abbrev pub AllRerank : Option (Reranker F) → Type 0
  AllRerank none = Unit
  AllRerank (some rerank) = IsReranker rerank

  rerank_stage_of-answers :
      (printed : Value → Text) (rerank : Reranker F) (search_mode : Text) (limit : ℕ)
      (fused : List (CodeSearchMatch F)) (available : Bool) (mode : RetrievalMode)
      (reason : Option Text) (queries : List Text)
      → IsReranker rerank
      → Answers (reranked_mode mode)
      → BoundedAnswer limit queries
          (rerank_stage_of printed rerank search_mode limit fused available mode reason queries)
  unfolding rerank_stage_of
  rerank_stage_of-answers printed rerank search_mode limit fused available mode reason queries r h =
      let documents = map (λ found. rerank_document printed found.node) fused in
      let bounds =
        r (rerank_seconds search_mode) (join (10 ∷ []) queries) documents (result_limit limit) in
      after_rerank-answers _ limit fused available mode reason queries h (
        subst
          (λ n. InBounds n (result_limit limit) (
            rerank (rerank_seconds search_mode) (join (10 ∷ []) queries) documents
              (result_limit limit)))
          (length-map _ fused) bounds)

  answer-answers :
      (printed : Value → Text) (reranker : Option (Reranker F)) (search_mode : Text) (limit : ℕ)
      (fused : List (CodeSearchMatch F)) (available : Bool) (mode : RetrievalMode)
      (reason : Option Text) (queries : List Text)
      → AllRerank reranker
      → (fused ≡ []) ⊎ Answers (reranked_mode mode)
      → BoundedAnswer limit queries
          (answer printed reranker search_mode limit fused available mode reason queries)
  unfolding answer
  answer-answers printed reranker search_mode limit [] available mode reason queries r h =
      (_, refl, (omega arith, refl))
  answer-answers printed none search_mode limit (m ∷ ms) available mode reason queries r h =
      (_, refl, (length-take-le (result_limit limit) (m ∷ ms), refl))
  answer-answers printed (some rerank) search_mode limit (m ∷ ms) available mode reason queries r
        h =
      let bound = length-take-le (result_limit limit) (m ∷ ms) in
      elim (Bool-cases (text_eq search_mode (codes "fast"))) [
        | inl e ↦ rw e (_, refl, (bound, refl))
        | inr e ↦ rw e (
            rerank_stage_of-answers printed rerank search_mode limit (m ∷ ms) available mode reason
              queries r
              (elim h [ inl none_found ↦ absurd (ground arith) | inr ranked_mode ↦ ranked_mode ]))
      ]

module _ {F : Type 0} ⦃s : Scores F⦄ where
  any_evident :
      (results : List (QueryResult F))
      → All IsEvident results
      → (merge_query_matches (map (λ r. r.matches) results) ≡ [])
        ⊎ ((any (λ r. names_semantic r.mode) results || any (λ r. names_lexical r.mode) results)
            ≡ true)
  unfolding merge_query_matches ranked
  any_evident results e =
      elim (Bool-cases
        (any (λ r. names_semantic r.mode) results || any (λ r. names_lexical r.mode) results)) [
          | inl named ↦ inr named
          | inr unnamed ↦ inl (
              ap (λ pool. map as_match (ranked pool))
                (add_results_nothing results e (ground arith) (ground arith)))
        ]

  conclude-answers :
      (printed : Value → Text) (reranker : Option (Reranker F)) (search_mode : Text) (limit : ℕ)
      (queries : List Text) (results : List (QueryResult F))
      → AllRerank reranker
      → All IsEvident results
      → BoundedAnswer limit queries (conclude printed reranker search_mode limit queries results)
  unfolding conclude
  conclude-answers printed reranker search_mode limit queries results r e =
      answer-answers printed reranker search_mode limit _ _ _ _ queries r
        (elim (any_evident results e) [
          | inl nothing ↦ inl nothing
          | inr named ↦ inr (reranked_mode-answers _ _ named)
        ])

module _ {F Vector : Type 0} ⦃s : Scores F⦄ where
  -- Where the graph answers searches by name, and the embedding provider, the vector index and the
  -- reranker raise only what the service catches, the reranker answering within its bounds, a search
  -- with valid queries in one of the three modes answers: with the queries that it searched and at
  -- most as many matches as the limit, which is brought between 1 and 200.
  pub search_code-answers :
      (printed : Value → Text) (g : Sources F Vector) (reranker : Option (Reranker F))
      (query : Text) (node_type : Option NodeType) (limit : ℕ) (repo_id : Option ℕ)
      (queries : Option (List Text)) (search_mode : Text) (active : List Text)
      → Available g
      → AllRerank reranker
      → effective_queries query queries ≡ reply active
      → mem_text search_mode search_modes ≡ true
      → BoundedAnswer limit active
          (search_code printed g reranker query node_type limit repo_id queries search_mode)
  unfolding search_code conclude
  search_code-answers printed g reranker query node_type limit repo_id queries search_mode active a
        r valid known =
      let (results, replied, evident) =
        retrieve_queries-answers g a 0 active node_type (candidate_limit limit) repo_id in
      rw (valid, known, replied)
        (conclude-answers printed reranker search_mode limit active results r evident)
