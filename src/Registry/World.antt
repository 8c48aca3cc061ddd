-- ===== src/Registry/World.antt =====
-- The SCS home on disk, the open graphs, and calls that may raise or be cut off by a crash
-- (src/scs/storage/registry.py). The native graph is a parameter.
use scs.Base.{
  ℕ, suc, zero, Bool, not, ◌&&◌, Option, none, some, List, [], ◌∷◌, ◌++◌, Text, text_eq, any,
  filter_by, Outcome, ok, err, ◌>>=◌, Error, if◌then◌else◌,
}
use scs.Value.{Fields}
use scs.Catalog.Record.{validate_store_id, validate_store_generation}
use scs.Catalog.Store.{Disk}

-- `StoreBinding`. It also names the paths of a generation, which it determines.
pub record StoreBinding : Type 0 where
  pub store_id : Text
  pub generation : Text

abbrev pub same_binding : StoreBinding → StoreBinding → Bool
same_binding b c = text_eq b.store_id c.store_id && text_eq b.generation c.generation

-- The catalog's file, the directories of the live stores, the generations whose index.db is there, and
-- the retired directories, each by its store and the digest of its deletion.
pub record Home : Type 0 where
  pub disk : Disk
  pub live : List Text
  pub databases : List StoreBinding
  pub retired : List (Text × Text)

-- `_graphs`: a graph is known by the paths that it was opened on. `left` is how many changes of the
-- home are left before the process crashes, if it does.
pub record World : Type 0 where
  pub home : Home
  pub graphs : List (StoreBinding × StoreBinding)
  pub left : Option ℕ

pub data Ended {ℓ} (A : Type ℓ) : Type ℓ where
  finished : A → Ended A
  threw : Error → Ended A
  crashed : Ended A

abbrev pub Action : Type 0 → Type 0
Action A = World → World × Ended A

abbrev pub resume : {A B : Type 0} → World × Ended A → (A → Action B) → World × Ended B
resume (w, finished a) rest = rest a w
resume (w, threw e) rest = (w, threw e)
resume (w, crashed) rest = (w, crashed)

infixl 5 ◌and_next◌
abbrev pub ◌and_next◌ : {A B : Type 0} → Action A → (A → Action B) → Action B
(first and_next rest) w = resume (first w) rest

abbrev pub give : {A : Type 0} → A → Action A
give a w = (w, finished a)

abbrev pub ended : {A : Type 0} → Outcome A → Ended A
ended (ok a) = finished a
ended (err e) = threw e

-- A computation that may raise and changes nothing.
abbrev pub attempt : {A : Type 0} → Outcome A → Action A
attempt outcome w = (w, ended outcome)

-- A read of the home.
abbrev pub inspect_home : {A : Type 0} → (Home → Outcome A) → Action A
inspect_home read w = (w, ended (read w.home))

-- One change of the home, or the crash before it.
abbrev pub change_by : {A : Type 0} → Option ℕ → (Home → Home × Outcome A) → Action A
change_by none change w = (record w { home = (change w.home).0 }, ended (change w.home).1)
change_by (some zero) change w = (w, crashed)
change_by (some (suc n)) change w =
    (record w { home = (change w.home).0; left = some n }, ended (change w.home).1)

unfoldable pub change_home : {A : Type 0} → (Home → Home × Outcome A) → Action A
change_home change w = change_by w.left change w

-- A method of the catalog, on the catalog's file.
abbrev pub on_catalog : {A : Type 0} → (Disk → Disk × Outcome A) → Home → Home × Outcome A
on_catalog method h = (record h { disk = (method h.disk).0 }, (method h.disk).1)

-- The native graph: what opening it on paths, creating a repository in it, deleting one (with the dict
-- that it answers with) and flushing it end in.
pub record Native : Type 0 where
  pub opens : StoreBinding → Outcome (Unit {0})
  pub creates_repo : StoreBinding → Text → Outcome (Unit {0})
  pub deletes_repo : StoreBinding → Text → Outcome Fields
  pub flushes : StoreBinding → Outcome (Unit {0})

-- `ProjectStorePaths.resolve`, of a home whose directories are no links.
unfoldable pub resolve : Text → Text → Outcome StoreBinding
unfolding validate_store_id validate_store_generation
resolve store_id generation = do
  safe_store_id ← validate_store_id store_id
  safe_generation ← validate_store_generation generation
  ok (record { store_id = safe_store_id; generation = safe_generation })

-- `paths.store.exists()`
abbrev pub is_live : Text → Home → Bool
is_live store_id h = any (text_eq store_id) h.live

-- `paths.database.exists()`
abbrev pub has_database : StoreBinding → Home → Bool
has_database b h = any (same_binding b) h.databases

-- `paths.ensure()`
abbrev pub make_store : Text → Home → Home
make_store store_id h =
    if is_live store_id h then h else record h { live = h.live ++ store_id ∷ [] }

-- Opening a graph creates its database.
abbrev pub make_database : StoreBinding → Home → Home
make_database b h = if has_database b h then h else record h { databases = h.databases ++ b ∷ [] }

abbrev pub same_tombstone : Text × Text → Text × Text → Bool
same_tombstone t u = text_eq t.0 u.0 && text_eq t.1 u.1

-- `tombstone.exists()`
abbrev pub is_retired : Text × Text → Home → Bool
is_retired tombstone h = any (same_tombstone tombstone) h.retired

-- `paths.store.replace(tombstone)`
abbrev pub retire_store : Text × Text → Home → Home
retire_store tombstone h = record h {
  live = filter_by (λ s. not (text_eq tombstone.0 s)) h.live;
  databases = filter_by (λ (b : StoreBinding). not (text_eq tombstone.0 b.store_id)) h.databases;
  retired = h.retired ++ tombstone ∷ [];
}

-- `shutil.rmtree(tombstone)`
abbrev pub remove_tombstone : Text × Text → Home → Home
remove_tombstone tombstone h = record h {
  retired = filter_by (λ t. not (same_tombstone tombstone t)) h.retired;
}
