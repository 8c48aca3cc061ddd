-- ===== src/Registry/Opening.antt =====
-- The native part of a deletion, which leaves the home as it is (src/scs/storage/registry.py,
-- `delete_repository`).
use scs.Base.{
  ◌≡◌, refl, sym, ◌∙◌, subst, Bool, true, false, not, Option, none, some, List, [], ◌∷◌, Text,
  text_eq_refl, text_eq_sym, any, is_some, filter_by, ok, raise_if, arith, runtime_error,
}
use scs.Value.{Fields}
use scs.Catalog.Record.{CatalogRecord}
use scs.Catalog.Store.{lookup}
use scs.Registry.World.{
  StoreBinding, same_binding, Home, Native, resolve, is_live, has_database, make_database,
}
use scs.Registry.Graphs.{
  find_graph, new_graph, open_found, open_graph, is_bound_as, graph_at, graph_for_binding,
}
use scs.Registry.Deletion.{binding_matches, delete_native, update_fields}
use scs.Registry.Recovery.{
  IsMine, Plan, Deletable, Leads, and_next-Leads, and_next_known, change_home-Leads, give-Leads,
  attempt-Leads, inspect_home-Leads, set_graphs-Leads, lead_to-Leads,
}

module _ {ℓ} {A : Type ℓ} where
  pub any-filter_by :
      (p q : A → Bool)
      → ((x : A) → p x ≡ true → q x ≡ true)
      → (xs : List A) → any p (filter_by q xs) ≡ any p xs
  any-filter_by p q h [] = refl
  any-filter_by p q h (x ∷ xs) = ground (arith, h x, any-filter_by p q h xs)

  pub any-filter_by_none :
      (p q : A → Bool)
      → ((x : A) → p x ≡ true → q x ≡ false)
      → (xs : List A) → any p (filter_by q xs) ≡ false
  any-filter_by_none p q h [] = refl
  any-filter_by_none p q h (x ∷ xs) = ground (arith, h x, any-filter_by_none p q h xs)

same_binding_refl : (b : StoreBinding) → same_binding b b ≡ true
same_binding_refl b = ground (arith, text_eq_refl b.store_id, text_eq_refl b.generation)

pub make_database_idle :
    (b : StoreBinding) (h : Home) → has_database b h ≡ true → make_database b h ≡ h
make_database_idle b h e = rw e refl

-- What the native graph is assumed to do: it opens, and deletes, without raising.
pub record Answers (native : Native) : Type 0 where
  pub opens : (b : StoreBinding) → native.opens b ≡ ok tt
  pub deletes :
      (b : StoreBinding) (t : Text) → (answer : Fields) × (native.deletes_repo b t ≡ ok answer)

module _ (p : Plan) (answers : Answers p.native) where
  -- A home of the deletion, unchanged, in which a database is there.
  abbrev pub With : Home → StoreBinding → Home → Type 0
  With h₀ b h = (h ≡ h₀) × Deletable p h × (has_database b h ≡ true)

  new_graph-Leads :
      (b : StoreBinding) (h₀ : Home)
      → Leads p (With h₀ b) (new_graph p.canonical p.digest p.native b) (λ g. With h₀ b)
  unfolding new_graph
  new_graph-Leads b h₀ =
      and_next-Leads p {middle = λ u. With h₀ b} (attempt-Leads p _ tt (answers.opens b) (λ h z. z))
        (λ u.
          change_home-Leads p _ (λ h z. z.1)
            (λ h z. (b, refl, subst (With h₀ b) (sym (make_database_idle b h z.2)) z)))

  open_found-Leads :
      (key b : StoreBinding) (held : Option StoreBinding) (h₀ : Home)
      → Leads p (With h₀ b) (open_found p.canonical p.digest p.native key b held) (λ g. With h₀ b)
  unfolding open_found
  open_found-Leads key b (some graph) h₀ = give-Leads p graph (λ h z. z)
  open_found-Leads key b none h₀ = and_next-Leads p (new_graph-Leads b h₀) (λ graph.
      and_next-Leads p {middle = λ u. With h₀ b} (set_graphs-Leads p _ (λ h z. z))
        (λ u. give-Leads p graph (λ h z. z)))

  open_graph-Leads :
      (g : Text) (b : StoreBinding) (h₀ : Home)
      → Leads p
          (With h₀ b)
          (open_graph p.canonical p.digest p.native p.store_id (some g) b)
          (λ graph. With h₀ b)
  unfolding open_graph
  open_graph-Leads g b h₀ = record {
    runs = λ w z.
        (open_found-Leads (record { store_id = p.store_id; generation = g }) b
            (find_graph (record { store_id = p.store_id; generation = g }) w.graphs) h₀).runs
          w z;
  }

  -- The deletion's own paths.
  abbrev pub own : Text → StoreBinding
  own g = record { store_id = p.store_id; generation = g }

  -- The home at which a record with the deletion's binding was found.
  abbrev pub At : Home → Option CatalogRecord → Home → Type 0
  At h₀ found h = (h ≡ h₀) × Deletable p h × (lookup p.canonical p.digest p.root h.disk ≡ ok found)

  bound-matches :
      (g : Text) (found : Option CatalogRecord)
      → is_some found ≡ true
      → IsMine p.store_id (some g) found
      → is_bound_as (own g) found ≡ true
  bound-matches g none e m = absurd (ground arith)
  bound-matches g (some found) e m = ground (arith, text_eq_sym found.store_id p.store_id)

  -- The binding of the deletion is the catalog's, so that its graph opens and nothing else changes.
  graph_for_binding-Leads :
      (g : Text) (found : CatalogRecord) (h₀ : Home)
      → p.generation ≡ some g
      → resolve p.store_id g ≡ ok (own g)
      → IsMine p.store_id (some g) (some found)
      → is_live p.store_id h₀ ≡ true
      → Leads p
          (At h₀ (some found))
          (graph_for_binding p.canonical p.digest p.native p.root (own g))
          (λ graph. At h₀ (some found))
  unfolding graph_for_binding graph_at
  graph_for_binding-Leads g found h₀ generated valid mine live =
      and_next_known p {middle = At h₀ (some found)} _ (some found)
        (inspect_home-Leads p _ (λ h z. (some found, z.2, (z, refl))))
        (and_next_known p {middle = At h₀ (some found)} _ tt
          (attempt-Leads p (raise_if (not (is_bound_as (own g) (some found))) runtime_error) tt
            (rw (bound-matches g (some found) refl mine) refl) (λ h z. (z, refl)))
          (and_next_known p {middle = At h₀ (some found)} _ (own g)
            (attempt-Leads p _ (own g) valid (λ h z. (z, refl)))
            (and_next_known p {middle = λ h. At h₀ (some found) h × (has_database (own g) h ≡ true)}
              (λ u. open_graph p.canonical p.digest p.native p.store_id (some g) (own g)) tt
              (inspect_home-Leads p (λ h. raise_if (not (has_database (own g) h)) runtime_error)
                (λ h z. (tt, rw (there h z) refl, ((z, there h z), refl))))
              (record {
                runs = λ w z.
                    (lead_to-Leads p _
                        (λ graph h e. subst (At h₀ (some found)) (z.0.0 ∙ sym e.0) z.0)
                        (open_graph-Leads g (own g) h₀)).runs
                      w (z.0.0, z.0.1, z.1);
              }))))
    where
      there : (h : Home) → At h₀ (some found) h → has_database (own g) h ≡ true
      there h z =
          z.1.stored found g z.2 generated (subst (λ k. is_live p.store_id k ≡ true) (sym z.0) live)

  -- The binding is well-formed, as far as it has a generation.
  abbrev pub IsValid : Type 0
  IsValid = (g : Text) → p.generation ≡ some g → resolve p.store_id g ≡ ok (own g)

  delete_graph-Leads :
      (g : Text) (found : CatalogRecord) (h₀ : Home) (result : Fields)
      → IsValid
      → p.generation ≡ some g
      → IsMine p.store_id (some g) (some found)
      → is_live p.store_id h₀ ≡ true
      → Leads p
          (At h₀ (some found))
          (delete_native p.canonical p.digest p.native p.root p.store_id (some g) true result)
          (λ r. At h₀ (some found))
  unfolding delete_native
  delete_graph-Leads g found h₀ result valid generated mine live =
      and_next-Leads p (graph_for_binding-Leads g found h₀ generated (valid g generated) mine live)
        (λ graph.
          and_next-Leads p {middle = λ r. At h₀ (some found)}
            (change_home-Leads p _ (λ h z. z.1)
              (λ h z. let (answer, e) = answers.deletes graph p.root in (answer, e, z)))
            (λ answer.
              and_next-Leads p {middle = λ u. At h₀ (some found)} (set_graphs-Leads p _ (λ h z. z))
                (λ u. give-Leads p (update_fields answer result) (λ h z. z))))

  -- The native deletion, wanted or not, leaves the home as it is.
  pub delete_native-Leads :
      (generation : Option Text) (found : Option CatalogRecord) (h₀ : Home) (result : Fields)
      → IsValid
      → p.generation ≡ generation
      → IsMine p.store_id generation found
      → is_live p.store_id h₀ ≡ true
      → Leads p
          (At h₀ found)
          (delete_native p.canonical p.digest p.native p.root p.store_id generation
            (binding_matches p.store_id generation found)
            result)
          (λ r. At h₀ found)
  unfolding delete_native
  delete_native-Leads none none h₀ result valid e mine live = give-Leads p result (λ h z. z)
  delete_native-Leads none (some found) h₀ result valid e mine live = give-Leads p result (λ h z. z)
  delete_native-Leads (some g) none h₀ result valid e mine live = give-Leads p result (λ h z. z)
  delete_native-Leads (some g) (some found) h₀ result valid e mine live =
      rw mine (delete_graph-Leads g found h₀ result valid e mine live)
