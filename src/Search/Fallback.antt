-- ===== src/Search/Fallback.antt =====
-- `search` without its reranker, and with one that fails.
use scs.Base.{
  ℕ, ◌≡◌, refl, Bool, true, false, Option, none, some, List, [], ◌∷◌, map, take, Text, codes,
  mem_text, text_eq, ◌⊎◌, join, arith, Bool-cases, inl, inr,
}
use scs.Graph.{NodeType}
use scs.Value.{Value}
use scs.Search.Scores.{Scores}
use scs.Search.Fusion.{CodeSearchMatch}
use scs.Search.Service.{
  Kind, provider_unavailable, os_failure, timeout, runtime_failure, value_failure, other, Failure,
  Reply, reply, raised, is_caught, RetrievalMode, effective_queries, Sources, retrieve_queries,
}
use scs.Search.Hybrid.{
  rerank_failed, after_rerank, rerank_stage_of, answer, conclude, search_modes, search_code,
  unranked,
}
use scs.Search.Response.{
  result_limit, candidate_limit, CodeSearchResponse, Reranker, rerank_document, rerank_seconds,
  semantic_if,
}

-- Two ends of a search with the same results: the same exception, or answers that differ at most in
-- what they say of degradation, neither of them reranked.
abbrev pub SameResults :
    {F : Type 0} → Reply (CodeSearchResponse F) → Reply (CodeSearchResponse F) → Type 0
SameResults (reply a) (reply b) =
    (a.matches ≡ b.matches)
    × (a.semantic_available ≡ b.semantic_available)
    × (a.mode ≡ b.mode)
    × (a.queries ≡ b.queries)
    × (a.reranker_applied ≡ false)
    × (b.reranker_applied ≡ false)
SameResults (raised e) (raised f) = e ≡ f
SameResults _ _ = ⊥

-- Every call raises what the service catches.
abbrev pub Fails : {F : Type 0} → Reranker F → Type 0
Fails rerank =
    (seconds : ℕ) (query : Text) (documents : List Text) (limit : ℕ)
    → (failure : Failure) × (rerank seconds query documents limit ≡ raised failure)
      × (is_caught failure.kind ≡ true)

Reply-cases {ℓ} :
    {A : Type ℓ} (r : Reply A) → ((e : Failure) × (r ≡ raised e)) ⊎ ((a : A) × (r ≡ reply a))
Reply-cases (raised e) = inl (e, refl)
Reply-cases (reply a) = inr (a, refl)

module _ {F : Type 0} where
  rerank_failed-same :
      (kind : Kind) (message : Text) (limit : ℕ) (fused : List (CodeSearchMatch F))
      (available : Bool) (mode : RetrievalMode) (reason : Option Text) (queries : List Text)
      → is_caught kind ≡ true
      → SameResults (rerank_failed kind message limit fused available mode queries) (
          reply (
            unranked
              (take (result_limit limit) fused)
              available
              mode
              reason
              queries
              (semantic_if reason)
              false))
  unfolding rerank_failed
  rerank_failed-same other message limit fused available mode reason queries h =
      absurd (ground arith)
  rerank_failed-same provider_unavailable message limit fused available mode reason queries h =
      (refl, refl, refl, refl, refl, refl)
  rerank_failed-same os_failure message limit fused available mode reason queries h =
      (refl, refl, refl, refl, refl, refl)
  rerank_failed-same timeout message limit fused available mode reason queries h =
      (refl, refl, refl, refl, refl, refl)
  rerank_failed-same runtime_failure message limit fused available mode reason queries h =
      (refl, refl, refl, refl, refl, refl)
  rerank_failed-same value_failure message limit fused available mode reason queries h =
      (refl, refl, refl, refl, refl, refl)

  answer-same :
      (printed : Value → Text) (rerank : Reranker F) (search_mode : Text) (limit : ℕ)
      (fused : List (CodeSearchMatch F)) (available : Bool) (mode : RetrievalMode)
      (reason : Option Text) (queries : List Text)
      → Fails rerank
      → SameResults
          (answer printed (some rerank) search_mode limit fused available mode reason queries)
          (answer printed none search_mode limit fused available mode reason queries)
  unfolding answer rerank_stage_of after_rerank
  answer-same printed rerank search_mode limit [] available mode reason queries f =
      (refl, refl, refl, refl, refl, refl)
  answer-same printed rerank search_mode limit (m ∷ ms) available mode reason queries f =
      elim (Bool-cases (text_eq search_mode (codes "fast"))) [
        | inl e ↦ rw e (refl, refl, refl, refl, refl, refl)
        | inr e ↦
            let (failure, fails, caught) =
              f (rerank_seconds search_mode) (join (10 ∷ []) queries)
                (map (λ found. rerank_document printed found.node) (m ∷ ms)) (result_limit limit) in
            rw (e, fails)
              (rerank_failed-same failure.kind failure.message limit (m ∷ ms) available mode reason
                queries caught)
      ]

module _ {F Vector : Type 0} ⦃s : Scores F⦄ where
  -- A search with a reranker whose every call raises what the service catches, a timeout among them,
  -- ends as the search without a reranker: with the same exception, or with the same matches, mode,
  -- queries and semantic availability, not marked as reranked. This holds of any graph and provider.
  pub search_code-falls_back :
      (printed : Value → Text) (g : Sources F Vector) (rerank : Reranker F) (query : Text)
      (node_type : Option NodeType) (limit : ℕ) (repo_id : Option ℕ) (queries : Option (List Text))
      (search_mode : Text)
      → Fails rerank
      → SameResults
          (search_code printed g (some rerank) query node_type limit repo_id queries search_mode)
          (search_code printed g none query node_type limit repo_id queries search_mode)
  unfolding search_code conclude
  search_code-falls_back printed g rerank query node_type limit repo_id queries search_mode f =
      elim (Reply-cases (effective_queries query queries)) [
        | inl (e, bad) ↦ rw bad refl
        | inr (active, good) ↦ elim (Bool-cases (mem_text search_mode search_modes)) [
          | inr unknown ↦ rw (good, unknown) refl
          | inl known ↦
              elim (Reply-cases
                (retrieve_queries g 0 active node_type (candidate_limit limit) repo_id)) [
                  | inl (e, failed) ↦ rw (good, known, failed) refl
                  | inr (results, found) ↦
                      rw (good, known, found)
                        (answer-same printed rerank search_mode limit _ _ _ _ active f)
                ]
        ]
      ]
