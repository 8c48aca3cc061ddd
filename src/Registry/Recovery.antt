-- ===== src/Registry/Recovery.antt =====
-- A deletion that may crash before any of its changes (src/scs/storage/registry.py,
-- `delete_repository`): what each part of it leaves, whether it ends or not.
use scs.Base.{
  ℕ, suc, zero, ◌≡◌, ◌≢◌, refl, sym, subst, true, false, Option, none, some, List, [], Text,
  text_eq, Outcome, ok, arith,
}
use scs.Catalog.Record.{CatalogRecord}
use scs.Catalog.Store.{lookup}
use scs.Catalog.Orderly.{IsOrderlyDisk}
use scs.Registry.World.{
  StoreBinding, Home, World, Ended, finished, threw, crashed, Action, resume, ◌and_next◌, give,
  attempt, inspect_home, change_home, change_by, Native, is_live, has_database, is_retired,
}
use scs.Registry.Graphs.{set_graphs}
use scs.Registry.Deletion.{binding_matches, retired_stores}

-- What a deletion may meet: no record, or one with its binding.
abbrev pub IsMine : Text → Option Text → Option CatalogRecord → Type 0
IsMine store_id generation none = Unit
IsMine store_id generation (some found) = binding_matches store_id generation (some found) ≡ true

-- A deletion: the functions that it depends on, the home that it began with, and its arguments.
pub record Plan : Type 0 where
  pub canonical : Text → Text
  pub digest : Text → Text
  pub native : Native
  pub before : Home
  pub root : Text
  pub store_id : Text
  pub generation : Option Text
  pub tombstone_digest : Text

-- Other roots, other stores and their databases are as they were.
pub record IsApart (p : Plan) (h : Home) : Type 0 where
  pub roots :
      (other : Text)
      → text_eq (p.canonical other) (p.canonical p.root) ≡ false
      → lookup p.canonical p.digest other h.disk ≡ lookup p.canonical p.digest other p.before.disk
  pub stores : (s : Text) → text_eq p.store_id s ≡ false → is_live s h ≡ is_live s p.before
  pub databases :
      (b : StoreBinding)
      → text_eq p.store_id b.store_id ≡ false
      → has_database b h ≡ has_database b p.before

-- A home in which the deletion can go on: the root has no record or one with the deletion's binding,
-- the store is not both retired and live, and while it is live and registered its database is there.
pub record Deletable (p : Plan) (h : Home) : Type 0 where
  pub orderly : IsOrderlyDisk p.canonical p.digest h.disk
  pub mine :
      (found : Option CatalogRecord) × (lookup p.canonical p.digest p.root h.disk ≡ ok found)
      × IsMine p.store_id p.generation found
  pub once : is_retired (p.store_id, p.tombstone_digest) h ≡ true → is_live p.store_id h ≡ false
  pub stored :
      (found : CatalogRecord) (g : Text)
      → lookup p.canonical p.digest p.root h.disk ≡ ok (some found)
      → p.generation ≡ some g
      → is_live p.store_id h ≡ true
      → has_database (record { store_id = p.store_id; generation = g }) h ≡ true
  pub apart : IsApart p h

-- The root is not found, nothing of the store is left, live or retired, and others are as they were.
pub record IsDeleted (p : Plan) (h : Home) : Type 0 where
  pub orderly : IsOrderlyDisk p.canonical p.digest h.disk
  pub unregistered : lookup p.canonical p.digest p.root h.disk ≡ ok none
  pub gone : is_live p.store_id h ≡ false
  pub cleared : retired_stores p.store_id h ≡ []
  pub untouched : IsApart p h

module _ (p : Plan) where
  -- How an action ends that started with `start` changes left: with the postcondition, or cut off in a
  -- home in which the deletion can go on. It does not raise, and without a limit it is not cut off.
  abbrev pub Out : {A : Type 0} → Option ℕ → (A → Home → Type 0) → World × Ended A → Type 0
  Out start post (w, finished a) = post a w.home × (start ≡ none → w.left ≡ none)
  Out start post (w, threw e) = ⊥
  Out start post (w, crashed) = Deletable p w.home × (start ≢ none)

  -- From a home with `pre` the action ends with `post`, or is cut off.
  pub record Leads {A : Type 0} (pre : Home → Type 0) (m : Action A) (post : A → Home → Type 0)
      : Type 0 where
    pub runs : (w : World) → pre w.home → Out w.left post (m w)

  Out-earlier :
      {A : Type 0} (start middle : Option ℕ) (post : A → Home → Type 0) (r : World × Ended A)
      → (start ≡ none → middle ≡ none)
      → Out middle post r
      → Out start post r
  Out-earlier start middle post (w, finished a) h o = (o.0, λ e. o.1 (h e))
  Out-earlier start middle post (w, threw e) h o = o
  Out-earlier start middle post (w, crashed) h o = (o.0, λ e. o.1 (h e))

  resume-Out :
      {A B : Type 0} (start : Option ℕ) (middle : A → Home → Type 0) (post : B → Home → Type 0)
      (r : World × Ended A) (rest : A → Action B)
      → Out start middle r
      → ((a : A) → Leads (middle a) (rest a) post)
      → Out start post (resume r rest)
  resume-Out start middle post (w, finished a) rest o f =
      Out-earlier start w.left post (rest a w) o.1 ((f a).runs w o.0)
  resume-Out start middle post (w, threw e) rest o f = o
  resume-Out start middle post (w, crashed) rest o f = o

  pub and_next-Leads :
      {A B : Type 0} {pre : Home → Type 0} {middle : A → Home → Type 0} {post : B → Home → Type 0}
      {first : Action A} {rest : A → Action B}
      → Leads pre first middle
      → ((a : A) → Leads (middle a) (rest a) post)
      → Leads pre (first and_next rest) post
  and_next-Leads {middle = middle} {post = post} {first = first} {rest = rest} f g = record {
    runs = λ w h. resume-Out w.left middle post (first w) rest (f.runs w h) g;
  }

  change_by-Out :
      {A : Type 0} (left : Option ℕ) (post : A → Home → Type 0) (change : Home → Home × Outcome A)
      (w : World) (a : A)
      → w.left ≡ left
      → Deletable p w.home
      → (change w.home).1 ≡ ok a
      → post a (change w.home).0
      → Out left post (change_by left change w)
  change_by-Out none post change w a e d answer holds = rw answer (holds, λ z. e)
  change_by-Out (some zero) post change w a e d answer holds = (d, λ z. ground arith)
  change_by-Out (some (suc n)) post change w a e d answer holds =
      rw answer (holds, λ z. ground arith)

  pub change_home-Leads :
      {A : Type 0} {pre : Home → Type 0} {post : A → Home → Type 0}
      (change : Home → Home × Outcome A)
      → ((h : Home) → pre h → Deletable p h)
      → ((h : Home) → pre h → (a : A) × ((change h).1 ≡ ok a) × post a (change h).0)
      → Leads pre (change_home change) post
  unfolding change_home
  change_home-Leads {post = post} change goes changes = record {
    runs = λ w h.
        let (a, answer, holds) = changes w.home h in
        change_by-Out w.left post change w a refl (goes w.home h) answer holds;
  }

  pub give-Leads :
      {A : Type 0} {pre : Home → Type 0} {post : A → Home → Type 0} (a : A)
      → ((h : Home) → pre h → post a h)
      → Leads pre (give a) post
  give-Leads a f = record { runs = λ w h. (f w.home h, λ z. z) }

  pub attempt-Leads :
      {A : Type 0} {pre : Home → Type 0} {post : A → Home → Type 0} (outcome : Outcome A) (a : A)
      → outcome ≡ ok a
      → ((h : Home) → pre h → post a h)
      → Leads pre (attempt outcome) post
  attempt-Leads outcome a e f = record { runs = λ w h. rw e (f w.home h, λ z. z) }

  pub inspect_home-Leads :
      {A : Type 0} {pre : Home → Type 0} {post : A → Home → Type 0} (read : Home → Outcome A)
      → ((h : Home) → pre h → (a : A) × (read h ≡ ok a) × post a h)
      → Leads pre (inspect_home read) post
  inspect_home-Leads read f = record {
    runs = λ w h. let (a, e, holds) = f w.home h in rw e (holds, λ z. z);
  }

  pub set_graphs-Leads :
      {pre : Home → Type 0} {post : Unit {0} → Home → Type 0}
      (change : List (StoreBinding × StoreBinding) → List (StoreBinding × StoreBinding))
      → ((h : Home) → pre h → post tt h)
      → Leads pre (set_graphs change) post
  set_graphs-Leads change f = record { runs = λ w h. (f w.home h, λ z. z) }

  pub weaken-Leads :
      {A : Type 0} {pre other : Home → Type 0} {post : A → Home → Type 0} (m : Action A)
      → ((h : Home) → other h → pre h)
      → Leads pre m post
      → Leads other m post
  weaken-Leads m f l = record { runs = λ w h. l.runs w (f w.home h) }

  -- The rest after a result that is known.
  pub and_next_known :
      {A B : Type 0} {pre middle : Home → Type 0} {post : B → Home → Type 0} {first : Action A}
      (rest : A → Action B) (known : A)
      → Leads pre first (λ a h. middle h × (a ≡ known))
      → Leads middle (rest known) post
      → Leads pre (first and_next rest) post
  and_next_known {middle = middle} {post = post} rest known f l =
      and_next-Leads {middle = λ a h. middle h × (a ≡ known)} f (λ a. record {
        runs = λ w z. subst (λ b. Out w.left post (rest b w)) (sym z.1) (l.runs w z.0);
      })

  lead_to :
      {A : Type 0} {post other : A → Home → Type 0} (start : Option ℕ) (r : World × Ended A)
      → ((a : A) (h : Home) → post a h → other a h)
      → Out start post r
      → Out start other r
  lead_to start (w, finished a) f o = (f a w.home o.0, o.1)
  lead_to start (w, threw e) f o = o
  lead_to start (w, crashed) f o = o

  pub lead_to-Leads :
      {A : Type 0} {pre : Home → Type 0} {post other : A → Home → Type 0} (m : Action A)
      → ((a : A) (h : Home) → post a h → other a h)
      → Leads pre m post
      → Leads pre m other
  lead_to-Leads {post = post} {other = other} m f l = record {
    runs = λ w h. lead_to {post = post} {other = other} w.left (m w) f (l.runs w h);
  }
