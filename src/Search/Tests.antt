-- ===== src/Search/Tests.antt =====
-- A search of three nodes (src/scs/indexing/search.py), with rationals that stand for the scores.
use scs.Base.{
  ℕ, suc, zero, ◌+◌, ◌/◌, ◌≡◌, refl, none, some, List, [], ◌∷◌, ◌++◌, map, Text, codes, text_eq,
  subst, Option, arith, ltb,
}
use scs.Graph.{Node, function_node}
use scs.Value.{Value, end}
use scs.Search.Scores.{Scores, IsOrdered}
use scs.Search.Fusion.{SearchResult, CodeSearchMatch, fuse, merge_query_matches}
use scs.Search.Service.{Reply, reply, raised, runtime_failure, timeout, Sources, effective_queries}
use scs.Search.Hybrid.{search_code}
use scs.Search.Scored.{Distinct, IsRanked, score_at, tally}
use scs.Search.Pool.{semantic_hits, lexical_hits, all_hits}
use scs.Search.Ranked.{fuse-refines, merge_query_matches-refines}
use scs.Search.Retrieval.{Available, IsReranker, IsOptional}
use scs.Search.Answers.{BoundedAnswer, search_code-answers}
use scs.Search.Fallback.{SameResults, search_code-falls_back}
use scs.Search.Response.{Reranker}

-- Whole parts of a million.
instance abbrev millionths : Scores ℕ
millionths = record { nought = 0; plus = λ a b. a + b; reciprocal = λ n. 1000000 / n; less = ltb }

instance millionths-IsOrdered : IsOrdered ℕ
millionths-IsOrdered = ground arith

abbrev node_of : Text → Node
node_of id = record { id = id; node_type = function_node; name = id; content = []; metadata = end }

abbrev results : List (SearchResult ℕ)
results =
    record { node = node_of (codes "b"); distance = 1 }
    ∷ record { node = node_of (codes "a"); distance = 2 }
    ∷ []

abbrev names : List Node
names = node_of (codes "a") ∷ node_of (codes "c") ∷ []

fuse-refines_example :
    Distinct (fuse 0 results names)
    × IsRanked (fuse 0 results names)
    × ((x : Text)
        → score_at x (fuse 0 results names)
          ≡ tally x none (semantic_hits 1 results ++ lexical_hits 1 names))
fuse-refines_example = fuse-refines 0 results names

abbrev found : List (List (CodeSearchMatch ℕ))
found = fuse 0 results names ∷ fuse 1 [] names ∷ []

merge_query_matches-refines_example :
    Distinct (merge_query_matches found)
    × IsRanked (merge_query_matches found)
    × ((x : Text) → score_at x (merge_query_matches found) ≡ tally x none (all_hits found))
merge_query_matches-refines_example = merge_query_matches-refines found

-- `a` was found twice, by its name first: 1/61 + 1/62 is above 1/61.
ranks_a : map (λ m. m.node.id) (fuse 0 results names) ≡ codes "a" ∷ codes "b" ∷ codes "c" ∷ []
unfolding fuse text_eq
ranks_a = refl

abbrev sources : Sources ℕ ℕ
sources = record {
  search_by_name = λ query node_type limit repo_id. reply names;
  search_by_vector = λ vector node_type limit repo_id. reply results;
  embed_query = some λ query. raised (record { kind = runtime_failure; message = codes "offline" });
}

some_same : {f g : Text → Reply ℕ} → Option.some f ≡ some g → f ≡ g
some_same h = cc

sources-Available : Available sources
sources-Available = record {
  names = λ query node_type limit repo_id. (names, refl);
  vectors = λ vector node_type limit repo_id. tt;
  embeds = λ embed_query h query. subst (λ e. IsOptional (e query)) (some_same h) refl;
}

abbrev last_first : Reranker ℕ
last_first seconds query documents zero = reply []
last_first seconds query [] (suc limit) = reply []
last_first seconds query (d ∷ documents) (suc limit) = reply (record { index = 0; score = 7 } ∷ [])

last_first-IsReranker : IsReranker last_first
last_first-IsReranker seconds query documents zero = (omega arith, tt)
last_first-IsReranker seconds query [] (suc limit) = (omega arith, tt)
last_first-IsReranker seconds query (d ∷ documents) (suc limit) = (omega arith, (omega arith, tt))

abbrev printed_as : Value → Text
printed_as v = codes "value"

abbrev asked : Option (List Text)
asked = some (codes "load" ∷ codes "parse" ∷ codes "load" ∷ [])

abbrev active_queries : List Text
active_queries = codes "parse" ∷ codes "load" ∷ []

search_code-answers_example : BoundedAnswer 2 active_queries (
    search_code printed_as sources
      (some last_first)
      (codes "parse")
      none
      2
      none
      asked
      (codes "balanced"))
unfolding effective_queries text_eq
search_code-answers_example =
    search_code-answers printed_as sources (some last_first) (codes "parse") none 2 none asked
      (codes "balanced") active_queries sources-Available last_first-IsReranker refl refl

abbrev late : Reranker ℕ
late seconds query documents limit = raised (record { kind = timeout; message = [] })

search_code-falls_back_example :
    SameResults
      (search_code printed_as sources
        (some late)
        (codes "parse")
        none
        2
        none
        asked
        (codes "thorough"))
      (search_code printed_as sources none (codes "parse") none 2 none asked (codes "thorough"))
search_code-falls_back_example =
    search_code-falls_back printed_as sources late (codes "parse") none 2 none asked
      (codes "thorough")
      (λ seconds query documents limit. (record { kind = timeout; message = [] }, refl, refl))
