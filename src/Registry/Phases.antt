-- ===== src/Registry/Phases.antt =====
-- Each part of a deletion: the native deletion, the retirement of the store, the catalog, and the
-- removal of what was retired (src/scs/storage/registry.py, `delete_repository`).
use scs.Base.{
  ◌≡◌, refl, sym, ap, ◌∙◌, subst, Bool, true, false, not, Option, none, some, Text, text_eq,
  text_eq_iff, ok, arith,
}
use scs.Value.{Fields}
use scs.Catalog.Record.{CatalogRecord, is_store_id}
use scs.Catalog.Store.{lookup, unregister}
use scs.Registry.World.{StoreBinding, same_binding, Home, on_catalog, is_live, retire_store}
use scs.Registry.Deletion.{binding_matches, retire, unregister_if}
use scs.Registry.Unregistered.{unregister-Unregistered}
use scs.Registry.Recovery.{
  IsMine, Plan, Deletable, Leads, and_next-Leads, change_home-Leads, give-Leads,
}
use scs.Registry.Opening.{
  Answers, any-filter_by, any-filter_by_none, At, IsValid, delete_native-Leads,
}

module _ (p : Plan) (answers : Answers p.native) where
  -- Once the store is retired, or was not there.
  abbrev pub Retired : Option CatalogRecord → Home → Type 0
  Retired found h =
      Deletable p h
      × (lookup p.canonical p.digest p.root h.disk ≡ ok found)
      × (is_live p.store_id h ≡ false)

  retire_store_gone :
      (h : Home) → is_live p.store_id (retire_store (p.store_id, p.tombstone_digest) h) ≡ false
  retire_store_gone h =
      any-filter_by_none (text_eq p.store_id) (λ s. not (text_eq p.store_id s))
        (λ x e. ground arith) h.live

  retire_store-Retired :
      (h : Home) (found : Option CatalogRecord)
      → Deletable p h
      → lookup p.canonical p.digest p.root h.disk ≡ ok found
      → Retired found (retire_store (p.store_id, p.tombstone_digest) h)
  retire_store-Retired h found d e = (
    record {
      orderly = d.orderly;
      mine = d.mine;
      once = λ z. retire_store_gone h;
      stored = λ f g look z live. absurd (ground (arith, retire_store_gone h));
      apart = record {
        roots = d.apart.roots;
        stores = λ s z.
            any-filter_by (text_eq s) (λ t. not (text_eq p.store_id t))
              (λ x k. ground (arith, text_eq_iff s x)) h.live
            ∙ d.apart.stores s z;
        databases = λ b z.
            any-filter_by (same_binding b)
              (λ (c : StoreBinding). not (text_eq p.store_id c.store_id))
              (λ x k. ground (arith, text_eq_iff b.store_id x.store_id)) h.databases
            ∙ d.apart.databases b z;
      };
    },
    e,
    retire_store_gone h,
  )

  pub retire-Leads :
      (generation : Option Text) (found : Option CatalogRecord) (h₀ : Home) (result : Fields)
      (wanted : Bool)
      → IsValid p answers
      → p.generation ≡ generation
      → IsMine p.store_id generation found
      → (wanted ≡ true → is_live p.store_id h₀ ≡ true)
      → (wanted ≡ false → is_live p.store_id h₀ ≡ false)
      → Leads p
          (At p answers h₀ found)
          (retire p.canonical p.digest p.native p.root p.store_id generation
            (binding_matches p.store_id generation found)
            (p.store_id, p.tombstone_digest)
            result
            wanted)
          (λ r. Retired found)
  unfolding retire
  retire-Leads generation found h₀ result true valid e mine live dead =
      and_next-Leads p
        (delete_native-Leads p answers generation found h₀ result valid e mine (live refl))
        (λ answer.
          and_next-Leads p {middle = λ u. Retired found}
            (change_home-Leads p _ (λ h z. z.1)
              (λ h z. (tt, refl, retire_store-Retired h found z.1 z.2)))
            (λ u. give-Leads p answer (λ h z. z)))
  retire-Leads generation found h₀ result false valid e mine live dead =
      give-Leads p result
        (λ h z. (z.1, z.2, subst (λ k. is_live p.store_id k ≡ false) (sym z.0) (dead refl)))

  module _ (hex : (t : Text) → is_store_id (p.digest t) ≡ true) where
    unregister_mine-Leads :
        (found : CatalogRecord)
        → IsMine p.store_id p.generation (some found)
        → Leads p
            (Retired (some found))
            (unregister_if p.canonical p.digest p.native true p.root p.store_id p.generation)
            (λ u. Retired none)
    unfolding unregister_if
    unregister_mine-Leads found mine =
        and_next-Leads p {middle = λ u. Retired none} (change_home-Leads p _ (λ h z. z.0) changes)
          (λ u. give-Leads p tt (λ h z. z))
      where
        changes :
            (h : Home)
            → Retired (some found) h
            → (b : Bool) × ((on_catalog
                  (unregister p.canonical p.digest p.store_id p.generation p.root)
                  h).1
                ≡ ok b)
              × Retired none
                  (on_catalog (unregister p.canonical p.digest p.store_id p.generation p.root) h).0
        changes h z =
            let (changed, answered, gone, others, orderly) =
              unregister-Unregistered p.canonical p.digest hex p.root p.store_id p.generation h.disk
                found z.0.orderly z.1 mine in
            (
              true,
              ap (λ r. r.1) answered,
              subst (λ d. Retired none (record h { disk = d })) (sym (ap (λ r. r.0) answered))
                  (
                    record {
                      orderly = orderly;
                      mine = (none, gone, tt);
                      once = z.0.once;
                      stored = λ f g look e live. absurd (ground (arith, z.2));
                      apart = record {
                        roots = λ other differ. others other differ ∙ z.0.apart.roots other differ;
                        stores = z.0.apart.stores;
                        databases = z.0.apart.databases;
                      };
                    },
                    gone,
                    z.2,
                  ),
            )

    -- With a record it is the deletion's own, which is unregistered; without one nothing is done.
    pub unregister_if-Leads :
        (found : Option CatalogRecord)
        → IsMine p.store_id p.generation found
        → Leads p
            (Retired found)
            (unregister_if p.canonical p.digest p.native
              (binding_matches p.store_id p.generation found)
              p.root
              p.store_id
              p.generation)
            (λ u. Retired none)
    unfolding unregister_if
    unregister_if-Leads none mine = give-Leads p tt (λ h z. z)
    unregister_if-Leads (some found) mine = rw mine (unregister_mine-Leads found mine)
