-- ===== src/Registry/Crashes.antt =====
-- A deletion that is started again after crashes comes to its end (src/scs/storage/registry.py,
-- `delete_repository`).
use scs.Base.{ℕ, ◌≡◌, refl, true, Option, none, some, List, [], ◌∷◌, Text, ok, arith}
use scs.Value.{Fields}
use scs.Catalog.Record.{
  is_store_id, is_generation, validate_store_id, validate_store_generation, optional_generation,
}
use scs.Registry.World.{Home, World, Ended, finished, threw, crashed, Native, resolve}
use scs.Registry.Deletion.{delete_repository, generation_or_deletion}
use scs.Registry.Recovery.{Plan, Deletable, IsDeleted, Out}
use scs.Registry.Clearing.{delete_found-Leads}
use scs.Registry.Opening.{Answers}

-- The arguments of a deletion are a store id and, if it has one, a generation.
pub record IsWellFormed (store_id : Text) (generation : Option Text) : Type 0 where
  pub store : is_store_id store_id ≡ true
  pub version : (g : Text) → generation ≡ some g → is_generation g ≡ true

module _ (canonical digest retire_digest : Text → Text) (native : Native) (before : Home)
    (root store_id : Text) (generation : Option Text) (deletion_id : Text) where
  -- The deletion of the job, from the home `before`.
  abbrev pub plan : Plan
  plan = record {
    canonical = canonical;
    digest = digest;
    native = native;
    before = before;
    root = canonical root;
    store_id = store_id;
    generation = generation;
    tombstone_digest = retire_digest deletion_id;
  }

  -- A process that has just started on a home, with some changes before it crashes or none.
  abbrev pub started : Home → Option ℕ → World
  started h left = record { home = h; graphs = []; left = left }

  abbrev pub attempt_delete : Home → Option ℕ → World × Ended Fields
  attempt_delete h left =
      delete_repository canonical digest native retire_digest store_id generation deletion_id root
        (started h left)

  -- One process after the other, each with its number of changes before it crashes.
  abbrev pub after_crashes : List ℕ → Home → Home
  after_crashes [] h = h
  after_crashes (n ∷ ns) h = after_crashes ns (attempt_delete h (some n)).0.home

  optional_generation-ok :
      (g : Option Text)
      → ((t : Text) → g ≡ some t → is_generation t ≡ true)
      → optional_generation g ≡ ok g
  unfolding optional_generation validate_store_generation
  optional_generation-ok none h = refl
  optional_generation-ok (some t) h = rw (h t refl) refl

  resolve-ok :
      (t : Text)
      → is_store_id store_id ≡ true
      → is_generation t ≡ true
      → resolve store_id t ≡ ok (record { store_id = store_id; generation = t })
  unfolding resolve validate_store_id validate_store_generation
  resolve-ok t h k = rw (h, k) refl

  deletion-generation :
      (g : Option Text)
      → ((t : Text) → g ≡ some t → is_generation t ≡ true)
      → is_generation (generation_or_deletion g) ≡ true
  unfolding is_generation
  deletion-generation none h = refl
  deletion-generation (some t) h = h t refl

  module _ (hex : (t : Text) → is_store_id (digest t) ≡ true) (answers : Answers native)
      (formed : IsWellFormed store_id generation) where
    delete_repository-Out :
        (w : World)
        → Deletable plan w.home
        → Out plan w.left
            (λ r. IsDeleted plan)
            (delete_repository canonical digest native retire_digest store_id generation deletion_id
              root w)
    unfolding delete_repository validate_store_id
    delete_repository-Out w d =
        let (found, looked, mine) = d.mine in
        let valid = optional_generation-ok generation formed.version in
        let paths =
          resolve-ok (generation_or_deletion generation) formed.store
            (deletion-generation generation formed.version) in
        rw (formed.store, valid, paths, looked)
          ((delete_found-Leads plan answers hex found w.home
              (λ g e. resolve-ok g formed.store (formed.version g e)) d mine).runs
            w (refl, d, looked))

    IsDeleted-Deletable : (h : Home) → IsDeleted plan h → Deletable plan h
    IsDeleted-Deletable h e = record {
      orderly = e.orderly;
      mine = (none, e.unregistered, tt);
      once = λ z. e.gone;
      stored = λ found g look z live. absurd (ground (arith, e.gone));
      apart = e.untouched;
    }

    Out-Deletable :
        (left : Option ℕ) (r : World × Ended Fields)
        → Out plan left (λ a. IsDeleted plan) r
        → Deletable plan r.0.home
    Out-Deletable left (w, finished a) o = IsDeleted-Deletable w.home o.0
    Out-Deletable left (w, threw e) o = absurd o
    Out-Deletable left (w, crashed) o = o.0

    Out-finished :
        (r : World × Ended Fields)
        → Out plan none (λ a. IsDeleted plan) r
        → (result : Fields) × (r.1 ≡ finished result) × IsDeleted plan r.0.home
    Out-finished (w, finished a) o = (a, refl, o.0)
    Out-finished (w, threw e) o = absurd o
    Out-finished (w, crashed) o = absurd (o.1 refl)

    after_crashes-Deletable :
        (crashes : List ℕ) (h : Home) → Deletable plan h → Deletable plan (after_crashes crashes h)
    after_crashes-Deletable [] h d = d
    after_crashes-Deletable (n ∷ crashes) h d = after_crashes-Deletable crashes _ (
        Out-Deletable (some n) (attempt_delete h (some n))
          (delete_repository-Out (started h (some n)) d))

    -- However often a deletion is cut off before one of its changes and started again, the first
    -- process that is not cut off finishes it: the root is not found, no directory of the store is
    -- left, live or retired, and other roots, stores and databases are as they were before. This holds
    -- if digests are store ids, the native graph does not raise, the arguments are well-formed, and at
    -- first the root has no record or one with the deletion's binding, whose database is there while
    -- its store is live, and the store is not live under a tombstone of this deletion.
    pub delete_repository-recovers :
        (crashes : List ℕ)
        → Deletable plan before
        → (result : Fields) × ((attempt_delete (after_crashes crashes before) none).1
            ≡ finished result)
          × IsDeleted plan (attempt_delete (after_crashes crashes before) none).0.home
    delete_repository-recovers crashes d =
        Out-finished (attempt_delete (after_crashes crashes before) none) (
          delete_repository-Out (started (after_crashes crashes before) none)
            (after_crashes-Deletable crashes before d))
