-- ===== src/Search/Fusion.antt =====
-- `_fuse` and `_merge_query_matches`: the pool of candidates, one for each node id in the order in
-- which the ids were first seen, and its ranking.
use scs.Base.{
  ℕ, suc, ◌+◌, Bool, true, false, not, ◌&&◌, ◌||◌, Option, none, some, List, [], ◌∷◌, map, text_eq,
  text_ltb, ltb, ◌==◌, if◌then◌else◌,
}
use scs.Graph.{Node}
use scs.Search.Scores.{Scores}

abbrev pub reciprocal_rank_constant : ℕ
reciprocal_rank_constant = 60

-- A match of the vector index.
pub record SearchResult (F : Type 0) : Type 0 where
  pub node : Node
  pub distance : F

pub record CodeSearchMatch (F : Type 0) : Type 0 where
  pub node : Node
  pub fusion_score : F
  pub semantic_distance : Option F
  pub rerank_score : Option F
  pub matched_query_indexes : List ℕ

-- `matched_query_indexes` is a set there: here it is kept ascending, without repetition.
pub record Candidate (F : Type 0) : Type 0 where
  pub node : Node
  pub fusion_score : F
  pub semantic_distance : Option F
  pub semantic : Bool
  pub lexical : Bool
  pub matched_query_indexes : List ℕ

-- `indexes.add(index)`
unfoldable pub add_index : ℕ → List ℕ → List ℕ
add_index n [] = n ∷ []
add_index n (m ∷ ms) =
    let rest = add_index n ms in if n == m then m ∷ ms else if ltb n m then n ∷ m ∷ ms else m ∷ rest

-- `indexes.update(others)`
unfoldable pub add_indexes : List ℕ → List ℕ → List ℕ
unfolding add_index
add_indexes [] ms = ms
add_indexes (n ∷ ns) ms = add_indexes ns (add_index n ms)

module _ {F : Type 0} ⦃s : Scores F⦄ where
  abbrev pub fresh_candidate : Node → Candidate F
  fresh_candidate node = record {
    node = node;
    fusion_score = s.nought;
    semantic_distance = none;
    semantic = false;
    lexical = false;
    matched_query_indexes = [];
  }

  -- `candidate = candidates.setdefault(node.id, _Candidate(node))`, and then `change` of it.
  unfoldable pub visit :
      Node → (Candidate F → Candidate F) → List (Candidate F) → List (Candidate F)
  visit node change [] = change (fresh_candidate node) ∷ []
  visit node change (c ∷ cs) =
      let rest = visit node change cs in
      if text_eq node.id c.node.id then change c ∷ cs else c ∷ rest

  -- The body of the first loop of `_fuse`.
  abbrev pub semantic_hit : ℕ → ℕ → F → Candidate F → Candidate F
  semantic_hit query_index rank distance c = record c {
    matched_query_indexes = add_index query_index c.matched_query_indexes;
    fusion_score = s.plus c.fusion_score (s.reciprocal (reciprocal_rank_constant + rank));
    semantic_distance = some distance;
    semantic = true;
  }

  abbrev pub lexical_hit : ℕ → ℕ → Candidate F → Candidate F
  lexical_hit query_index rank c = record c {
    matched_query_indexes = add_index query_index c.matched_query_indexes;
    fusion_score = s.plus c.fusion_score (s.reciprocal (reciprocal_rank_constant + rank));
    lexical = true;
  }

  unfoldable pub add_semantic :
      ℕ → ℕ → List (SearchResult F) → List (Candidate F) → List (Candidate F)
  unfolding visit add_index
  add_semantic query_index rank [] pool = pool
  add_semantic query_index rank (found ∷ rest) pool =
      add_semantic query_index (suc rank) rest
        (visit found.node (semantic_hit query_index rank found.distance) pool)

  unfoldable pub add_lexical : ℕ → ℕ → List Node → List (Candidate F) → List (Candidate F)
  unfolding visit add_index
  add_lexical query_index rank [] pool = pool
  add_lexical query_index rank (node ∷ rest) pool =
      add_lexical query_index (suc rank) rest (visit node (lexical_hit query_index rank) pool)

  -- `(-c.fusion_score, c.node.id) < (-d.fusion_score, d.node.id)`
  abbrev pub outranks : Candidate F → Candidate F → Bool
  outranks c d =
      s.less d.fusion_score c.fusion_score
      || (not (s.less c.fusion_score d.fusion_score) && text_ltb c.node.id d.node.id)

  unfoldable pub place : Candidate F → List (Candidate F) → List (Candidate F)
  place c [] = c ∷ []
  place c (d ∷ ds) = let rest = place c ds in if outranks d c then d ∷ rest else c ∷ d ∷ ds

  -- `sorted`, which keeps the order of equal keys.
  unfoldable pub ranked : List (Candidate F) → List (Candidate F)
  unfolding place
  ranked [] = []
  ranked (c ∷ cs) = place c (ranked cs)

  abbrev pub as_match : Candidate F → CodeSearchMatch F
  as_match c = record {
    node = c.node;
    fusion_score = c.fusion_score;
    semantic_distance = c.semantic_distance;
    rerank_score = none;
    matched_query_indexes = c.matched_query_indexes;
  }

  unfoldable pub fuse : ℕ → List (SearchResult F) → List Node → List (CodeSearchMatch F)
  unfolding add_semantic add_lexical ranked
  fuse query_index semantic lexical =
      map as_match
        (ranked (add_lexical query_index 1 lexical (add_semantic query_index 1 semantic [])))

  -- The smaller of the distances that are there.
  abbrev pub nearer : Option F → Option F → Option F
  nearer none held = held
  nearer (some d) none = some d
  nearer (some d) (some held) = if s.less d held then some d else some held

  -- The body of the loop of `_merge_query_matches`.
  abbrev pub merged_hit : CodeSearchMatch F → Candidate F → Candidate F
  merged_hit found c = record c {
    fusion_score = s.plus c.fusion_score found.fusion_score;
    semantic_distance = nearer found.semantic_distance c.semantic_distance;
    matched_query_indexes = add_indexes found.matched_query_indexes c.matched_query_indexes;
  }

  unfoldable pub add_matches : List (CodeSearchMatch F) → List (Candidate F) → List (Candidate F)
  unfolding visit add_indexes
  add_matches [] pool = pool
  add_matches (found ∷ rest) pool = add_matches rest (visit found.node (merged_hit found) pool)

  unfoldable pub add_results :
      List (List (CodeSearchMatch F)) → List (Candidate F) → List (Candidate F)
  unfolding add_matches
  add_results [] pool = pool
  add_results (found ∷ rest) pool = add_results rest (add_matches found pool)

  unfoldable pub merge_query_matches : List (List (CodeSearchMatch F)) → List (CodeSearchMatch F)
  unfolding add_results ranked
  merge_query_matches results = map as_match (ranked (add_results results []))
