-- ===== src/Registry/Bindings.antt =====
-- What the registry opens for a binding (src/scs/storage/registry.py, `graph_for_binding`).
use scs.Base.{
  ℕ, suc, zero, ◌≡◌, refl, sym, ap, ◌∙◌, subst, true, not, Option, none, some, Text, ok, raise_if,
  arith, runtime_error,
}
use scs.Catalog.Record.{CatalogRecord}
use scs.Catalog.Store.{lookup}
use scs.Registry.World.{
  StoreBinding, World, finished, attempt, change_home, change_by, Native, resolve, has_database,
  make_database,
}
use scs.Registry.Graphs.{
  find_graph, put_graph, new_graph, open_found, open_graph, is_bound_as, graph_at,
  graph_for_binding,
}
use scs.Registry.Inversion.{
  IsFaithful, resume-finished, attempt-finished, finished_same, find_graph-same,
  put_graph-IsFaithful, resolve-same, raised-not, bound-eq,
}
use scs.Registry.Opening.{make_database_idle}

module _ (canonical digest : Text → Text) (native : Native) where
  -- An action that opened paths whose database was there has changed nothing of the home.
  record Opens (paths : StoreBinding) (w : World) (graph : StoreBinding) (v : World) : Type 0 where
    same : graph ≡ paths
    home : v.home ≡ w.home
    graphs : IsFaithful w.graphs → IsFaithful v.graphs

  change_by-Opens :
      (left : Option ℕ) (paths : StoreBinding) (w : World) {v : World} {graph : StoreBinding}
      → has_database paths w.home ≡ true
      → change_by left (λ h. (make_database paths h, ok paths)) w ≡ (v, finished graph)
      → Opens paths w graph v
  change_by-Opens none paths w there h = record {
    same = sym (finished_same (ap (λ r. r.1) h));
    home = ap (λ r. r.0.home) (sym h) ∙ make_database_idle paths w.home there;
    graphs = subst IsFaithful (ap (λ r. r.0.graphs) h);
  }
  change_by-Opens (some zero) paths w there h = absurd (ground arith)
  change_by-Opens (some (suc n)) paths w there h = record {
    same = sym (finished_same (ap (λ r. r.1) h));
    home = ap (λ r. r.0.home) (sym h) ∙ make_database_idle paths w.home there;
    graphs = subst IsFaithful (ap (λ r. r.0.graphs) h);
  }

  new_graph-Opens :
      (paths : StoreBinding) (w : World) {v : World} {graph : StoreBinding}
      → has_database paths w.home ≡ true
      → new_graph canonical digest native paths w ≡ (v, finished graph)
      → Opens paths w graph v
  unfolding new_graph change_home
  new_graph-Opens paths w {v} {graph} there h =
      let (u, t, opened, made) = resume-finished (attempt (native.opens paths) w) _ h in
      let (same, answered) = attempt-finished (native.opens paths) w opened in
      change_by-Opens w.left paths w there (
        subst
          (λ x. change_by x.left (λ h. (make_database paths h, ok paths)) x ≡ (v, finished graph))
          same made)

  open_found-Opens :
      (b : StoreBinding) (held : Option StoreBinding) (w : World) {v : World} {graph : StoreBinding}
      → has_database b w.home ≡ true
      → ((g : StoreBinding) → held ≡ some g → g ≡ b)
      → open_found canonical digest native b b held w ≡ (v, finished graph)
      → Opens b w graph v
  unfolding open_found
  open_found-Opens b (some g) w there kept h = record {
    same = sym (finished_same (ap (λ r. r.1) h)) ∙ kept g refl;
    home = ap (λ r. r.0.home) (sym h);
    graphs = subst IsFaithful (ap (λ r. r.0.graphs) h);
  }
  open_found-Opens b none w there kept h =
      let (u, g, made, rest) = resume-finished (new_graph canonical digest native b w) _ h in
      let o = new_graph-Opens b w there made in
      record {
        same = sym (finished_same (ap (λ r. r.1) rest)) ∙ o.same;
        home = ap (λ r. r.0.home) (sym rest) ∙ o.home;
        graphs = λ f.
            subst IsFaithful
              (ap (λ x. put_graph b x u.graphs) (sym o.same) ∙ ap (λ r. r.0.graphs) rest)
              (put_graph-IsFaithful b u.graphs (o.graphs f));
      }

  -- A graph that is opened for a job's binding is the graph on the paths of that binding, the catalog
  -- has the root with that very store and generation, and the database is there. The home stays as it
  -- is, and the open graphs still are each under their own binding, if they were. So a job whose
  -- binding is no longer the catalog's never gets a graph.
  pub graph_for_binding-exact :
      (root : Text) (b : StoreBinding) (w v : World) (graph : StoreBinding)
      → IsFaithful w.graphs
      → graph_for_binding canonical digest native root b w ≡ (v, finished graph)
      → (graph ≡ b)
        × ((found : CatalogRecord) × (lookup canonical digest root w.home.disk ≡ ok (some found))
            × (found.store_id ≡ b.store_id)
            × (found.active_generation ≡ some b.generation))
        × (has_database b w.home ≡ true)
        × (v.home ≡ w.home)
        × IsFaithful v.graphs
  unfolding graph_for_binding graph_at open_graph
  graph_for_binding-exact root b w v graph f h =
      let (w₁, found, looked, h₁) =
        resume-finished (attempt (lookup canonical digest root w.home.disk) w) _ h in
      let (same₁, lookup_ok) =
        attempt-finished (lookup canonical digest root w.home.disk) w looked in
      let (w₂, t, matched, h₂) =
        resume-finished (attempt (raise_if (not (is_bound_as b found)) runtime_error) w₁) _ h₁ in
      let (same₂, match_ok) =
        attempt-finished (raise_if (not (is_bound_as b found)) runtime_error) w₁ matched in
      let (w₃, paths, resolved, h₃) =
        resume-finished (attempt (resolve b.store_id b.generation) w₂) _ h₂ in
      let (same₃, resolve_ok) = attempt-finished (resolve b.store_id b.generation) w₂ resolved in
      let (w₄, u, checked, h₄) =
        resume-finished (attempt (raise_if (not (has_database paths w₃.home)) runtime_error) w₃) _
          h₃ in
      let (same₄, check_ok) =
        attempt-finished (raise_if (not (has_database paths w₃.home)) runtime_error) w₃ checked in
      let (r, is_r, stored, active) =
        bound-eq b found (raised-not (is_bound_as b found) match_ok) in
      let own : paths ≡ b = resolve-same b.store_id b.generation resolve_ok in
      let at₃ : w₃ ≡ w = same₃ ∙ same₂ ∙ same₁ in
      let at : w₄ ≡ w = same₄ ∙ at₃ in
      let there : has_database b w.home ≡ true =
        subst (λ x. has_database b x.home ≡ true) at₃
          (subst (λ x. has_database x w₃.home ≡ true) own
            (raised-not (has_database paths w₃.home) check_ok)) in
      let opened : open_found canonical digest native b b (find_graph b w.graphs) w
          ≡ (v, finished graph) =
        subst
          (λ x.
            open_found canonical digest native b b (find_graph b x.graphs) x ≡ (v, finished graph))
          at
          (subst
            (λ x.
              open_found canonical digest native b x (find_graph b w₄.graphs) w₄
              ≡ (v, finished graph))
            own h₄) in
      let o =
        open_found-Opens b (find_graph b w.graphs) w there (λ g e. find_graph-same b w.graphs f e)
          opened in
      (o.same, (r, lookup_ok ∙ ap ok is_r, stored, active), there, o.home, o.graphs f)
