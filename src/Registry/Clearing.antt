-- ===== src/Registry/Clearing.antt =====
-- The last part of a deletion, the removal of what was retired, and the whole of it
-- (src/scs/storage/registry.py, `delete_repository`).
use scs.Base.{
  ◌≡◌, refl, sym, ap, subst, Bool, true, false, not, ◌&&◌, ◌||◌, Option, none, some, List, [], ◌∷◌,
  Text, text_eq, text_eq_refl, any, is_some, filter_by, ok, All, arith, Bool-cases, inl, inr,
}
use scs.Catalog.Record.{CatalogRecord, is_store_id}
use scs.Registry.World.{
  Home, ◌and_next◌, inspect_home, is_live, is_retired, remove_tombstone, same_tombstone,
}
use scs.Registry.Deletion.{
  binding_matches, retired_stores, remove_all, remove_retired_stores, delete_seen, delete_found,
  deletion_result,
}
use scs.Registry.Recovery.{
  IsMine, Plan, Deletable, IsDeleted, Leads, and_next-Leads, and_next_known, change_home-Leads,
  give-Leads, inspect_home-Leads,
}
use scs.Registry.Phases.{Retired, retire-Leads, unregister_if-Leads}
use scs.Registry.Opening.{Answers, At, IsValid}

module _ (p : Plan) (answers : Answers p.native) where
  -- All that is retired of the store is in the list.
  abbrev Covers : List (Text × Text) → Home → Type 0
  Covers ts h =
      All
        (λ (t : Text × Text).
          text_eq p.store_id t.0 ≡ true → any (λ u. same_tombstone u t) ts ≡ true)
        h.retired

  Covers-none :
      (ts : List (Text × Text))
      → All (λ (t : Text × Text). text_eq p.store_id t.0 ≡ true → false ≡ true) ts
      → filter_by (λ (t : Text × Text). text_eq p.store_id t.0) ts ≡ []
  Covers-none [] a = refl
  Covers-none (t ∷ ts) a = ground (arith, a.0, Covers-none ts a.1)

  Covers-rest :
      (u : Text × Text) (us ts : List (Text × Text))
      → All
          (λ (t : Text × Text).
            text_eq p.store_id t.0 ≡ true → any (λ v. same_tombstone v t) (u ∷ us) ≡ true)
          ts
      → All
          (λ (t : Text × Text).
            text_eq p.store_id t.0 ≡ true → any (λ v. same_tombstone v t) us ≡ true)
          (filter_by (λ t. not (same_tombstone u t)) ts)
  Covers-rest u us [] a = tt
  Covers-rest u us (t ∷ ts) a = ground (arith, a.0, Covers-rest u us ts a.1)

  remove_all-Leads :
      (ts : List (Text × Text))
      → Leads p (λ h. Retired p answers none h × Covers ts h) (remove_all ts) (λ u. IsDeleted p)
  unfolding remove_all
  remove_all-Leads [] = give-Leads p tt (λ h z. record {
    orderly = z.0.0.orderly;
    unregistered = z.0.1;
    gone = z.0.2;
    cleared = Covers-none h.retired z.1;
    untouched = z.0.0.apart;
  })
  remove_all-Leads (t ∷ ts) =
      and_next-Leads p {middle = λ u h. Retired p answers none h × Covers ts h}
        (change_home-Leads p _ (λ h z. z.0.0)
          (λ h z. (tt, refl, (removed h z.0, Covers-rest t ts h.retired z.1))))
        (λ u. remove_all-Leads ts)
    where
      removed :
          (h : Home) → Retired p answers none h → Retired p answers none (remove_tombstone t h)
      removed h z = (
        record {
          orderly = z.0.orderly;
          mine = z.0.mine;
          once = λ e. z.2;
          stored = λ f g look e live. absurd (ground (arith, z.2));
          apart = record {
            roots = z.0.apart.roots;
            stores = z.0.apart.stores;
            databases = z.0.apart.databases;
          };
        },
        z.1,
        z.2,
      )

  -- Each retired directory of the store is among those of the store.
  Covers-more :
      (u : Text × Text) (us ts : List (Text × Text))
      → All
          (λ (t : Text × Text).
            text_eq p.store_id t.0 ≡ true → any (λ v. same_tombstone v t) us ≡ true)
          ts
      → All
          (λ (t : Text × Text).
            text_eq p.store_id t.0 ≡ true → any (λ v. same_tombstone v t) (u ∷ us) ≡ true)
          ts
  Covers-more u us [] a = tt
  Covers-more u us (t ∷ ts) a = (λ e. ground (arith, a.0 e), Covers-more u us ts a.1)

  abbrev Listed : List (Text × Text) → List (Text × Text) → Type 0
  Listed us ts =
      All
        (λ (t : Text × Text).
          text_eq p.store_id t.0 ≡ true → any (λ v. same_tombstone v t) us ≡ true)
        ts

  abbrev of_store : List (Text × Text) → List (Text × Text)
  of_store ts = filter_by (λ (t : Text × Text). text_eq p.store_id t.0) ts

  Covers-self : (ts : List (Text × Text)) → Listed (of_store ts) ts
  Covers-self [] = tt
  Covers-self (t ∷ ts) = elim (Bool-cases (text_eq p.store_id t.0)) [
    | inl e ↦
        let kept : of_store (t ∷ ts) ≡ t ∷ of_store ts = rw e refl in
        subst (λ us. Listed us (t ∷ ts)) (sym kept)
          (
            λ z. ground (arith, text_eq_refl t.0, text_eq_refl t.1),
            Covers-more t (of_store ts) ts (Covers-self ts),
          )
    | inr e ↦
        let dropped : of_store (t ∷ ts) ≡ of_store ts = rw e refl in
        subst (λ us. Listed us (t ∷ ts)) (sym dropped) (λ z. absurd (ground arith), Covers-self ts)
  ]

  remove_retired_stores-Leads :
      Leads p (Retired p answers none) (remove_retired_stores p.store_id) (λ u. IsDeleted p)
  unfolding remove_retired_stores
  remove_retired_stores-Leads = record {
    runs = λ w z.
        (remove_all-Leads (retired_stores p.store_id w.home)).runs w
          (z, Covers-self w.home.retired);
  }

  module _ (hex : (t : Text) → is_store_id (p.digest t) ≡ true) where
    delete_seen-Leads :
        (found : Option CatalogRecord) (h₀ : Home)
        → IsValid p answers
        → IsMine p.store_id p.generation found
        → (there retired : Bool) → ((not retired && there) ≡ true → is_live p.store_id h₀ ≡ true)
        → ((not retired && there) ≡ false → is_live p.store_id h₀ ≡ false)
        → Leads p
            (At p answers h₀ found)
            (delete_seen p.canonical p.digest p.native p.root p.store_id p.generation
              (p.store_id, p.tombstone_digest)
              found
              there
              retired)
            (λ r. IsDeleted p)
    unfolding delete_seen
    delete_seen-Leads found h₀ valid mine there retired live dead =
        and_next-Leads p
          (retire-Leads p answers p.generation found h₀
            (deletion_result (is_some found || there) false) (not retired && there) valid refl mine
            live dead)
          (λ result. and_next-Leads p (unregister_if-Leads p answers hex found mine) (λ u.
            and_next-Leads p remove_retired_stores-Leads (λ v. give-Leads p result (λ h z. z))))

    pub delete_found-Leads :
        (found : Option CatalogRecord) (h₀ : Home)
        → IsValid p answers
        → Deletable p h₀
        → IsMine p.store_id p.generation found
        → Leads p
            (At p answers h₀ found)
            (delete_found p.canonical p.digest p.native p.root p.store_id p.generation
              (p.store_id, p.tombstone_digest)
              found)
            (λ r. IsDeleted p)
    unfolding delete_found
    delete_found-Leads found h₀ valid d mine =
        let seen = λ (there retired : Bool).
          delete_seen p.canonical p.digest p.native p.root p.store_id p.generation
            (p.store_id, p.tombstone_digest) found there retired in
        rw (not_superseded found mine) (
          and_next_known p {middle = At p answers h₀ found}
            (λ there.
              inspect_home (λ h. ok (is_retired (p.store_id, p.tombstone_digest) h))
              and_next λ retired. seen there retired)
            (is_live p.store_id h₀)
            (inspect_home-Leads p _
              (λ h z. (is_live p.store_id h, refl, (z, ap (is_live p.store_id) z.0))))
            (and_next_known p {middle = At p answers h₀ found} (seen (is_live p.store_id h₀))
              (is_retired (p.store_id, p.tombstone_digest) h₀)
              (inspect_home-Leads p _ (λ h z. (
                is_retired (p.store_id, p.tombstone_digest) h,
                refl,
                (z, ap (is_retired (p.store_id, p.tombstone_digest)) z.0),
              )))
              (delete_seen-Leads found h₀ valid mine (is_live p.store_id h₀)
                (is_retired (p.store_id, p.tombstone_digest) h₀) (λ e. ground arith) unwanted)))
      where
        not_superseded :
            (f : Option CatalogRecord)
            → IsMine p.store_id p.generation f
            → (is_some f && not (binding_matches p.store_id p.generation f)) ≡ false
        not_superseded none m = refl
        not_superseded (some f) m = ground arith

        unwanted :
            (not (is_retired (p.store_id, p.tombstone_digest) h₀) && is_live p.store_id h₀) ≡ false
            → is_live p.store_id h₀ ≡ false
        unwanted e = ground (arith, d.once)
