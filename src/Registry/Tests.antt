-- ===== src/Registry/Tests.antt =====
-- A registry with one project (src/scs/storage/registry.py), a digest made of the length of the root, and
-- the paths as they are.
use scs.Base.{
  ◌+◌, ◌%◌, ◌≡◌, refl, true, none, some, [], ◌∷◌, Text, codes, ok, length, arith, text_eq, Option,
  subst,
}
use scs.Value.{Fields, end}
use scs.Sql.{find_row}
use scs.Catalog.Record.{
  CatalogRecord, semantic_ready, state_text, Row, is_store_id, is_generation, record_from_row,
  read_state, typed_record, optional_generation, validate_store_id, validate_store_generation,
}
use scs.Catalog.Store.{Catalog, holds, lookup, read_row, optional_record}
use scs.Catalog.Orderly.{IsOrderly}
use scs.Registry.World.{
  StoreBinding, Home, World, finished, Native, has_database, resolve, change_home,
}
use scs.Registry.Graphs.{
  graph_for_binding, graph_at, open_graph, open_found, find_graph, new_graph, put_graph,
}
use scs.Registry.Recovery.{Deletable, IsDeleted}
use scs.Registry.Crashes.{
  IsWellFormed, plan, after_crashes, attempt_delete, delete_repository-recovers,
}
use scs.Registry.Bindings.{graph_for_binding-exact}
use scs.Registry.Opening.{Answers}
use scs.Registry.Inversion.{IsFaithful}

abbrev as_given : Text → Text
as_given root = root

abbrev zeros : Text
zeros = codes "000000000000000000000000000000000000000000000000000000000000000"

abbrev length_digest : Text → Text
length_digest root = (48 + length root % 10) ∷ zeros

length_digest-hex : (t : Text) → is_store_id (length_digest t) ≡ true
unfolding is_store_id
length_digest-hex t = ground arith

abbrev repo : Text
repo = codes "/r"

abbrev repo_store : Text
repo_store = length_digest repo

abbrev first : Text
first = codes "g1"

abbrev repo_binding : StoreBinding
repo_binding = record { store_id = repo_store; generation = first }

abbrev quiet : Native
quiet = record {
  opens = λ b. ok tt;
  creates_repo = λ b t. ok tt;
  deletes_repo = λ b t. ok end;
  flushes = λ b. ok tt;
}

abbrev repo_row : Row
repo_row = record {
  project_id = 1;
  canonical_root = repo;
  store_id = repo_store;
  active_generation = some first;
  state = state_text semantic_ready;
}

abbrev repo_record : CatalogRecord
repo_record = record {
  project_id = 1;
  canonical_root = repo;
  store_id = repo_store;
  active_generation = some first;
  state = semantic_ready;
}

abbrev repo_catalog : Catalog
repo_catalog = record { rows = repo_row ∷ []; highest = 1 }

abbrev repo_home : Home
repo_home = record {
  disk = holds repo_catalog;
  live = repo_store ∷ codes "other" ∷ [];
  databases = repo_binding ∷ [];
  retired = [];
}

repo_row-reads : record_from_row repo_row ≡ ok repo_record
unfolding record_from_row typed_record optional_generation validate_store_id
    validate_store_generation is_store_id is_generation read_state state_text text_eq
repo_row-reads = refl

repo_lookup : lookup as_given length_digest repo (holds repo_catalog) ≡ ok (some repo_record)
unfolding lookup read_row optional_record text_eq record_from_row typed_record optional_generation
    validate_store_id validate_store_generation is_store_id is_generation read_state state_text
    find_row
repo_lookup = refl

repo_catalog-IsOrderly : IsOrderly as_given length_digest repo_catalog
repo_catalog-IsOrderly = record {
  one_root = λ root. ground arith;
  one_store = λ store_id. ground arith;
  one_id = λ project_id. ground arith;
  bound = (
    record {
      typed = (repo_record, repo_row-reads);
      derived = refl;
      positive = omega arith;
      given = omega arith;
      pending = λ e. absurd (ground arith);
    },
    tt,
  );
}

quiet-Answers : Answers quiet
quiet-Answers = record { opens = λ b. refl; deletes = λ b t. (end, refl) }

some_same : {t u : Text} → Option.some t ≡ some u → t ≡ u
some_same h = cc

first-generation : is_generation first ≡ true
unfolding is_generation
first-generation = refl

repo-IsWellFormed : IsWellFormed repo_store (some first)
repo-IsWellFormed = record {
  store = length_digest-hex repo;
  version = λ g e. subst (λ t. is_generation t ≡ true) (some_same e) first-generation;
}

abbrev repo_plan_digest : Text → Text
repo_plan_digest t = codes "d"

repo_home-Deletable :
    Deletable
      (plan as_given length_digest repo_plan_digest quiet repo_home repo repo_store
        (some first)
        (codes "job"))
      repo_home
unfolding text_eq
repo_home-Deletable = record {
  orderly = repo_catalog-IsOrderly;
  mine = (some repo_record, repo_lookup, refl);
  once = λ e. absurd (ground arith);
  stored = λ found g look e live.
      subst (λ t. has_database (record { store_id = repo_store; generation = t }) repo_home ≡ true)
        (some_same e) refl;
  apart = record { roots = λ other e. refl; stores = λ s e. refl; databases = λ b e. refl };
}

-- The process is cut off twice, before the second and before the first of its remaining changes.
delete_repository-recovers_example :
    (result : Fields) × ((attempt_delete as_given length_digest repo_plan_digest quiet repo_home
        repo repo_store
        (some first)
        (codes "job")
        (after_crashes as_given length_digest repo_plan_digest quiet repo_home repo repo_store
          (some first)
          (codes "job")
          (2 ∷ 0 ∷ [])
          repo_home)
        none).1
      ≡ finished result)
    × IsDeleted
        (plan as_given length_digest repo_plan_digest quiet repo_home repo repo_store
          (some first)
          (codes "job"))
        (attempt_delete as_given length_digest repo_plan_digest quiet repo_home repo repo_store
          (some first)
          (codes "job")
          (after_crashes as_given length_digest repo_plan_digest quiet repo_home repo repo_store
            (some first)
            (codes "job")
            (2 ∷ 0 ∷ [])
            repo_home)
          none).0.home
delete_repository-recovers_example =
    delete_repository-recovers as_given length_digest repo_plan_digest quiet repo_home repo
      repo_store (some first) (codes "job") length_digest-hex quiet-Answers repo-IsWellFormed
      (2 ∷ 0 ∷ []) repo_home-Deletable

abbrev repo_world : World
repo_world = record { home = repo_home; graphs = []; left = none }

abbrev opened_world : World
opened_world = record repo_world { graphs = (repo_binding, repo_binding) ∷ [] }

opens_repo :
    graph_for_binding as_given length_digest quiet repo repo_binding repo_world
    ≡ (opened_world, finished repo_binding)
unfolding graph_for_binding graph_at open_graph open_found find_graph new_graph put_graph
    change_home resolve lookup read_row optional_record text_eq record_from_row typed_record
    optional_generation validate_store_id validate_store_generation is_store_id is_generation
    read_state state_text find_row
opens_repo = refl

graph_for_binding-exact_example :
    (repo_binding ≡ repo_binding)
    × ((found : CatalogRecord) × (lookup as_given length_digest repo repo_world.home.disk
          ≡ ok (some found))
        × (found.store_id ≡ repo_binding.store_id)
        × (found.active_generation ≡ some repo_binding.generation))
    × (has_database repo_binding repo_world.home ≡ true)
    × (opened_world.home ≡ repo_world.home)
    × IsFaithful opened_world.graphs
graph_for_binding-exact_example =
    graph_for_binding-exact as_given length_digest quiet repo repo_binding repo_world opened_world
      repo_binding tt opens_repo
