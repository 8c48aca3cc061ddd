-- ===== src/Search/Ranked.antt =====
-- The fused and merged matches keep what a ranking promises.
use scs.Base.{
  ℕ, ◌≡◌, refl, ap, ◌∙◌, true, false, ◌||◌, none, some, List, [], ◌∷◌, ◌++◌, map, Text, text_eq,
  text_eq_iff, text_eq_sym, text_ltb, text_ltb_irrefl, text_ltb_trans, text_ltb_total,
  if◌then◌else◌, All, arith, Bool-cases, inl, inr,
}
use scs.Graph.{Node}
use scs.Search.Scores.{Scores, IsOrdered}
use scs.Search.Fusion.{
  SearchResult, CodeSearchMatch, Candidate, add_semantic, add_lexical, outranks, place, ranked,
  as_match, fuse, add_results, merge_query_matches,
}
use scs.Search.Pool.{
  semantic_hits, lexical_hits, all_hits, Tallies-append, add_semantic-Tallies, add_lexical-Tallies,
  add_results-Tallies,
}
use scs.Search.Scored.{beats, IsRanked, holds_id, Distinct, score_at, tally}

module _ {F : Type 0} ⦃s : Scores F⦄ where
  holds_id-place :
      (x : Text) (c : Candidate F) (cs : List (Candidate F))
      → holds_id x (map as_match (place c cs))
        ≡ (text_eq x c.node.id || holds_id x (map as_match cs))
  unfolding place
  holds_id-place x c [] = refl
  holds_id-place x c (d ∷ ds) = ground (arith, holds_id-place x c ds)

  holds_id-ranked :
      (x : Text) (cs : List (Candidate F))
      → holds_id x (map as_match (ranked cs)) ≡ holds_id x (map as_match cs)
  unfolding ranked
  holds_id-ranked x [] = refl
  holds_id-ranked x (c ∷ cs) =
      holds_id-place x c (ranked cs) ∙ ap (λ b. text_eq x c.node.id || b) (holds_id-ranked x cs)

  place-Distinct :
      (c : Candidate F) (cs : List (Candidate F))
      → holds_id c.node.id (map as_match cs) ≡ false
      → Distinct (map as_match cs)
      → Distinct (map as_match (place c cs))
  unfolding place
  place-Distinct c [] new d = (refl, tt)
  place-Distinct c (e ∷ es) new d =
      ground
        (arith, place-Distinct c es, holds_id-place e.node.id c es, text_eq_sym e.node.id c.node.id)

  score_at-place :
      (x : Text) (c : Candidate F) (cs : List (Candidate F))
      → holds_id c.node.id (map as_match cs) ≡ false
      → score_at x (map as_match (place c cs))
        ≡ (if text_eq x c.node.id then some c.fusion_score else score_at x (map as_match cs))
  unfolding place
  score_at-place x c [] new = refl
  score_at-place x c (e ∷ es) new = ground (
    arith,
    score_at-place x c es,
    text_eq_iff x c.node.id,
    text_eq_iff x e.node.id,
    text_eq_iff c.node.id e.node.id,
  )

  ranked-Distinct :
      (cs : List (Candidate F)) → Distinct (map as_match cs) → Distinct (map as_match (ranked cs))
  unfolding ranked
  ranked-Distinct [] d = tt
  ranked-Distinct (c ∷ cs) d =
      place-Distinct c (ranked cs) (holds_id-ranked c.node.id cs ∙ d.0) (ranked-Distinct cs d.1)

  score_at-ranked :
      (x : Text) (cs : List (Candidate F))
      → Distinct (map as_match cs)
      → score_at x (map as_match (ranked cs)) ≡ score_at x (map as_match cs)
  unfolding ranked
  score_at-ranked x [] d = refl
  score_at-ranked x (c ∷ cs) d =
      score_at-place x c (ranked cs) (holds_id-ranked c.node.id cs ∙ d.0)
      ∙ ap (λ t. if text_eq x c.node.id then some c.fusion_score else t) (score_at-ranked x cs d.1)

text_ltb-between :
    (x y z : Text) → text_ltb x y ≡ false → text_ltb y z ≡ false → text_ltb x z ≡ false
text_ltb-between x y z h k = ground (
  arith,
  text_eq_iff x y,
  text_eq_iff y z,
  text_ltb_total x y,
  text_ltb_total y z,
  text_ltb_trans y x z,
  text_ltb_trans z y x,
  text_ltb_irrefl x,
  text_ltb_trans x z x,
)

module _ {F : Type 0} ⦃s : Scores F⦄ ⦃o : IsOrdered F⦄ where
  beats_asym : (m n : CodeSearchMatch F) → beats m n ≡ true → beats n m ≡ false
  beats_asym m n h = ground (
    arith,
    o.less_irrefl m.fusion_score,
    o.less_trans m.fusion_score n.fusion_score m.fusion_score,
    text_ltb_irrefl m.node.id,
    text_ltb_trans m.node.id n.node.id m.node.id,
  )

  -- What is not beaten by something that is not beaten is not beaten.
  beats-between :
      (a b c : CodeSearchMatch F) → beats a b ≡ false → beats b c ≡ false → beats a c ≡ false
  beats-between a b c h k = ground (
    arith,
    o.less-between c.fusion_score b.fusion_score a.fusion_score,
    o.less-between a.fusion_score c.fusion_score b.fusion_score,
    o.less-between b.fusion_score a.fusion_score c.fusion_score,
    text_ltb-between a.node.id b.node.id c.node.id,
  )

  All-not_beaten :
      (m n : CodeSearchMatch F) (rest : List (CodeSearchMatch F))
      → beats n m ≡ false
      → All (λ b. beats b n ≡ false) rest
      → All (λ b. beats b m ≡ false) rest
  All-not_beaten m n [] h a = tt
  All-not_beaten m n (b ∷ rest) h a = (beats-between b n m a.0 h, All-not_beaten m n rest h a.1)

  All-place :
      (m : CodeSearchMatch F) (c : Candidate F) (cs : List (Candidate F))
      → beats (as_match c) m ≡ false
      → All (λ b. beats b m ≡ false) (map as_match cs)
      → All (λ b. beats b m ≡ false) (map as_match (place c cs))
  unfolding place
  All-place m c [] h a = (h, tt)
  All-place m c (d ∷ ds) h a = ground (arith, All-place m c ds)

  place-IsRanked :
      (c : Candidate F) (cs : List (Candidate F))
      → IsRanked (map as_match cs)
      → IsRanked (map as_match (place c cs))
  unfolding place
  place-IsRanked c [] r = (tt, tt)
  place-IsRanked c (d ∷ ds) r = elim (Bool-cases (outranks d c)) [
    | inl e ↦ rw e (
      All-place (as_match d) c ds (beats_asym (as_match d) (as_match c) e) r.0,
      place-IsRanked c ds r.1,
    )
    | inr e ↦ rw e ((e, All-not_beaten (as_match c) (as_match d) (map as_match ds) e r.0), r)
  ]

  ranked-IsRanked : (cs : List (Candidate F)) → IsRanked (map as_match (ranked cs))
  unfolding ranked
  ranked-IsRanked [] = tt
  ranked-IsRanked (c ∷ cs) = place-IsRanked c (ranked cs) (ranked-IsRanked cs)

  -- `_fuse` implements this specification: each node id once, better scores first and smaller ids
  -- first among equal scores, and the score of an id is the sum of 1 / (60 + rank) over its places in
  -- the semantic and then in the lexical results; an id in neither has none. Scores are ordered.
  pub fuse-refines :
      (query_index : ℕ) (semantic : List (SearchResult F)) (lexical : List Node)
      → Distinct (fuse query_index semantic lexical)
        × IsRanked (fuse query_index semantic lexical)
        × ((x : Text)
            → score_at x (fuse query_index semantic lexical)
              ≡ tally x none (semantic_hits 1 semantic ++ lexical_hits 1 lexical))
  unfolding fuse
  fuse-refines query_index semantic lexical =
      let grown = add_lexical query_index 1 lexical (add_semantic query_index 1 semantic []) in
      let (distinct, scores) =
        Tallies-append [] (add_semantic query_index 1 semantic []) grown (semantic_hits 1 semantic)
          (lexical_hits 1 lexical) (add_semantic-Tallies query_index 1 semantic [])
          (add_lexical-Tallies query_index 1 lexical _) tt in
      (
        ranked-Distinct grown distinct,
        ranked-IsRanked grown,
        λ x. score_at-ranked x grown distinct ∙ scores x,
      )

  -- `_merge_query_matches` implements the same specification over the matches of all queries: the
  -- score of an id is the sum of its scores in the queries that found it.
  pub merge_query_matches-refines :
      (results : List (List (CodeSearchMatch F)))
      → Distinct (merge_query_matches results)
        × IsRanked (merge_query_matches results)
        × ((x : Text) → score_at x (merge_query_matches results) ≡ tally x none (all_hits results))
  unfolding merge_query_matches
  merge_query_matches-refines results =
      let grown = add_results results [] in
      let (distinct, scores) = add_results-Tallies results [] tt in
      (
        ranked-Distinct grown distinct,
        ranked-IsRanked grown,
        λ x. score_at-ranked x grown distinct ∙ scores x,
      )
