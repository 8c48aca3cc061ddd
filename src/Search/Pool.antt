-- ===== src/Search/Pool.antt =====
-- The pool of candidates: each id once, with the sum of its hits.
use scs.Base.{
  ℕ, suc, ◌+◌, ◌≡◌, refl, sym, ap, ◌∙◌, false, ◌||◌, Option, List, [], ◌∷◌, ◌++◌, map, Text,
  text_eq, text_eq_iff, if◌then◌else◌, arith,
}
use scs.Graph.{Node}
use scs.Search.Scores.{Scores}
use scs.Search.Fusion.{
  SearchResult, CodeSearchMatch, Candidate, fresh_candidate, visit, semantic_hit, lexical_hit,
  add_semantic, add_lexical, as_match, merged_hit, add_matches, add_results,
  reciprocal_rank_constant,
}
use scs.Search.Scored.{holds_id, Distinct, score_at, Hit, raise_score, tally}

module _ {F : Type 0} ⦃s : Scores F⦄ where
  -- A change of a candidate that adds one hit and keeps the node.
  abbrev pub Adds : (Candidate F → Candidate F) → F → Type 0
  Adds change v =
      (c : Candidate F)
      → ((change c).node ≡ c.node) × ((change c).fusion_score ≡ s.plus c.fusion_score v)

  pub holds_id-visit :
      (x : Text) (node : Node) (change : Candidate F → Candidate F) (v : F) (adds : Adds change v)
      (pool : List (Candidate F))
      → holds_id x (map as_match (visit node change pool))
        ≡ (text_eq x node.id || holds_id x (map as_match pool))
  unfolding visit
  holds_id-visit x node change v adds [] =
      ap (λ n. text_eq x n.id || false) (adds (fresh_candidate node)).0
  holds_id-visit x node change v adds (c ∷ cs) =
      ground
        (arith, (adds c).0, text_eq_iff node.id c.node.id, holds_id-visit x node change v adds cs)

  pub visit-Distinct :
      (node : Node) (change : Candidate F → Candidate F) (v : F) (adds : Adds change v)
      (pool : List (Candidate F))
      → Distinct (map as_match pool)
      → Distinct (map as_match (visit node change pool))
  unfolding visit
  visit-Distinct node change v adds [] d = (refl, tt)
  visit-Distinct node change v adds (c ∷ cs) d = ground (
    arith,
    (adds c).0,
    text_eq_iff node.id c.node.id,
    text_eq_iff c.node.id node.id,
    visit-Distinct node change v adds cs,
    holds_id-visit c.node.id node change v adds cs,
  )

  pub score_at-visit :
      (x : Text) (node : Node) (change : Candidate F → Candidate F) (v : F) (adds : Adds change v)
      (pool : List (Candidate F))
      → score_at x (map as_match (visit node change pool)) ≡ (
          if text_eq x node.id
          then raise_score (score_at x (map as_match pool)) v
          else score_at x (map as_match pool))
  unfolding visit
  score_at-visit x node change v adds [] =
      ground (arith, (adds (fresh_candidate node)).0, (adds (fresh_candidate node)).1)
  score_at-visit x node change v adds (c ∷ cs) = ground (
    arith,
    (adds c).0,
    (adds c).1,
    text_eq_iff node.id c.node.id,
    text_eq_iff x node.id,
    text_eq_iff x c.node.id,
    score_at-visit x node change v adds cs,
  )

  -- The hits of a list of results from a rank on, and those of whole matches.
  abbrev pub semantic_hits : ℕ → List (SearchResult F) → List (Hit F)
  semantic_hits rank [] = []
  semantic_hits rank (found ∷ rest) =
      (found.node.id, s.reciprocal (reciprocal_rank_constant + rank))
      ∷ semantic_hits (suc rank) rest

  abbrev pub lexical_hits : ℕ → List Node → List (Hit F)
  lexical_hits rank [] = []
  lexical_hits rank (node ∷ rest) =
      (node.id, s.reciprocal (reciprocal_rank_constant + rank)) ∷ lexical_hits (suc rank) rest

  abbrev pub match_hits : List (CodeSearchMatch F) → List (Hit F)
  match_hits [] = []
  match_hits (found ∷ rest) = (found.node.id, found.fusion_score) ∷ match_hits rest

  abbrev pub all_hits : List (List (CodeSearchMatch F)) → List (Hit F)
  all_hits [] = []
  all_hits (found ∷ rest) = match_hits found ++ all_hits rest

  -- A pool after some hits: still each id once, and the scores are the old ones with the hits added.
  abbrev pub Tallies : List (Candidate F) → List (Hit F) → List (Candidate F) → Type 0
  Tallies pool hits grown =
      Distinct (map as_match pool)
      → Distinct (map as_match grown)
        × ((x : Text)
            → score_at x (map as_match grown) ≡ tally x (score_at x (map as_match pool)) hits)

  visit-Tallies :
      (node : Node) (change : Candidate F → Candidate F) (v : F) (adds : Adds change v)
      (pool : List (Candidate F)) (hits : List (Hit F)) (grown : List (Candidate F))
      → Tallies (visit node change pool) hits grown
      → Tallies pool ((node.id, v) ∷ hits) grown
  visit-Tallies node change v adds pool hits grown later d =
      let (distinct, scores) = later (visit-Distinct node change v adds pool d) in
      (
        distinct,
        λ x. scores x ∙ ap (λ t. tally x t hits) (score_at-visit x node change v adds pool),
      )

  pub add_semantic-Tallies :
      (query_index rank : ℕ) (found : List (SearchResult F)) (pool : List (Candidate F))
      → Tallies pool (semantic_hits rank found) (add_semantic query_index rank found pool)
  unfolding add_semantic
  add_semantic-Tallies query_index rank [] pool d = (d, λ x. refl)
  add_semantic-Tallies query_index rank (m ∷ rest) pool d =
      visit-Tallies m.node (semantic_hit query_index rank m.distance) _ (λ c. (refl, refl)) pool
        (semantic_hits (suc rank) rest) _ (add_semantic-Tallies query_index (suc rank) rest _) d

  pub add_lexical-Tallies :
      (query_index rank : ℕ) (found : List Node) (pool : List (Candidate F))
      → Tallies pool (lexical_hits rank found) (add_lexical query_index rank found pool)
  unfolding add_lexical
  add_lexical-Tallies query_index rank [] pool d = (d, λ x. refl)
  add_lexical-Tallies query_index rank (node ∷ rest) pool d =
      visit-Tallies node (lexical_hit query_index rank) _ (λ c. (refl, refl)) pool
        (lexical_hits (suc rank) rest) _ (add_lexical-Tallies query_index (suc rank) rest _) d

  add_matches-Tallies :
      (found : List (CodeSearchMatch F)) (pool : List (Candidate F))
      → Tallies pool (match_hits found) (add_matches found pool)
  unfolding add_matches
  add_matches-Tallies [] pool d = (d, λ x. refl)
  add_matches-Tallies (m ∷ rest) pool d =
      visit-Tallies m.node (merged_hit m) _ (λ c. (refl, refl)) pool (match_hits rest) _
        (add_matches-Tallies rest _) d

  tally-append :
      (x : Text) (first second : List (Hit F)) (total : Option F)
      → tally x total (first ++ second) ≡ tally x (tally x total first) second
  tally-append x [] second total = refl
  tally-append x (hit ∷ first) second total = tally-append x first second _

  pub Tallies-append :
      (pool middle grown : List (Candidate F)) (first second : List (Hit F))
      → Tallies pool first middle
      → Tallies middle second grown
      → Tallies pool (first ++ second) grown
  Tallies-append pool middle grown first second one two d =
      let (distinct, scores) = one d in
      let (distinct_too, scores_too) = two distinct in
      (
        distinct_too,
        λ x.
            scores_too x
            ∙ ap (λ t. tally x t second) (scores x)
            ∙ sym (tally-append x first second _),
      )

  pub add_results-Tallies :
      (results : List (List (CodeSearchMatch F))) (pool : List (Candidate F))
      → Tallies pool (all_hits results) (add_results results pool)
  unfolding add_results
  add_results-Tallies [] pool d = (d, λ x. refl)
  add_results-Tallies (found ∷ rest) pool d =
      Tallies-append pool (add_matches found pool) _ (match_hits found) (all_hits rest)
        (add_matches-Tallies found pool) (add_results-Tallies rest _) d
