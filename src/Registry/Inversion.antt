-- ===== src/Registry/Inversion.antt =====
-- What follows from an action that finished, and the open graphs under their bindings
-- (src/scs/storage/registry.py).
use scs.Base.{
  ◌≡◌, refl, sym, ap, ap₂, ◌∙◌, Bool, true, false, not, Option, none, some, List, [], ◌∷◌, Text,
  text_eq, text_eq→eq, Outcome, ok, err, raise_if, All, arith, Bool-cases, inl, inr, >>=-eq-ok,
  and_parts, if◌then◌else◌, runtime_error, value_error,
}
use scs.Catalog.Record.{
  CatalogRecord, validate_store_id, validate_store_generation, is_store_id, is_generation,
}
use scs.Registry.World.{
  StoreBinding, same_binding, World, Ended, finished, threw, crashed, Action, resume, ended,
  attempt, resolve,
}
use scs.Registry.Graphs.{find_graph, put_graph, is_bound_as}
use scs.Registry.Unregistered.{same_generation-same}

-- Each open graph was opened on the paths of the binding that it is kept under.
abbrev pub IsFaithful : List (StoreBinding × StoreBinding) → Type 0
IsFaithful graphs = All (λ (held : StoreBinding × StoreBinding). held.1 ≡ held.0) graphs

pub resume-finished :
    {A B : Type 0} (r : World × Ended A) (rest : A → Action B) {w : World} {b : B}
    → resume r rest ≡ (w, finished b)
    → (v : World) × (a : A) × (r ≡ (v, finished a)) × (rest a v ≡ (w, finished b))
resume-finished (v, finished a) rest h = (v, a, refl, h)
resume-finished (v, threw e) rest h = absurd (ground arith)
resume-finished (v, crashed) rest h = absurd (ground arith)

ended-finished : {A : Type 0} (o : Outcome A) {a : A} → ended o ≡ finished a → o ≡ ok a
ended-finished (ok b) h = cc
ended-finished (err e) h = absurd (ground arith)

pub attempt-finished :
    {A : Type 0} (o : Outcome A) (w : World) {v : World} {a : A}
    → attempt o w ≡ (v, finished a)
    → (v ≡ w) × (o ≡ ok a)
attempt-finished o w h = (sym (ap (λ r. r.0) h), ended-finished o (ap (λ r. r.1) h))

same_binding-eq : (b c : StoreBinding) → same_binding b c ≡ true → c ≡ b
same_binding-eq b c h =
    let (store, version) = and_parts (text_eq b.store_id c.store_id) _ h in
    sym (
      ap₂ (λ (s g : Text). record { store_id = s; generation = g })
        (text_eq→eq b.store_id c.store_id store) (text_eq→eq b.generation c.generation version))

some_same : {b c : StoreBinding} → Option.some b ≡ some c → b ≡ c
some_same h = cc

pub finished_same : {A : Type 0} {a b : A} → Ended.finished a ≡ finished b → a ≡ b
finished_same h = cc

pub find_graph-same :
    (b : StoreBinding) (graphs : List (StoreBinding × StoreBinding)) {graph : StoreBinding}
    → IsFaithful graphs
    → find_graph b graphs ≡ some graph
    → graph ≡ b
unfolding find_graph
find_graph-same b [] f h = absurd (ground arith)
find_graph-same b (held ∷ rest) f h = elim (Bool-cases (same_binding b held.0)) [
  | inl e ↦ sym (some_same (rw e at h)) ∙ f.0 ∙ same_binding-eq b held.0 e
  | inr e ↦ find_graph-same b rest f.1 (rw e at h)
]

pub put_graph-IsFaithful :
    (b : StoreBinding) (graphs : List (StoreBinding × StoreBinding))
    → IsFaithful graphs
    → IsFaithful (put_graph b b graphs)
unfolding put_graph
put_graph-IsFaithful b [] f = (refl, tt)
put_graph-IsFaithful b (held ∷ rest) f = elim (Bool-cases (same_binding b held.0)) [
  | inl e ↦ rw e (sym (same_binding-eq b held.0 e), f.1)
  | inr e ↦ rw e (f.0, put_graph-IsFaithful b rest f.1)
]

ok_same : {A : Type 0} {a b : A} → Outcome.ok a ≡ ok b → a ≡ b
ok_same h = cc

checked-same :
    (b : Bool) (raw : Text) {t : Text} → (if b then ok raw else err value_error) ≡ ok t → t ≡ raw
checked-same true raw h = sym (ok_same h)
checked-same false raw h = absurd (ground arith)

pub resolve-same :
    (store_id generation : Text) {paths : StoreBinding}
    → resolve store_id generation ≡ ok paths
    → paths ≡ record { store_id = store_id; generation = generation }
unfolding resolve validate_store_id validate_store_generation
resolve-same store_id generation h =
    let (s, valid, h₁) = >>=-eq-ok (validate_store_id store_id) _ h in
    let (g, valid_too, h₂) = >>=-eq-ok (validate_store_generation generation) _ h₁ in
    sym (ok_same h₂)
    ∙ ap₂ (λ (x y : Text). record { store_id = x; generation = y })
        (checked-same (is_store_id store_id) store_id valid)
        (checked-same (is_generation generation) generation valid_too)

pub raised-not : (b : Bool) {t : Unit {0}} → raise_if (not b) runtime_error ≡ ok t → b ≡ true
raised-not true h = refl
raised-not false h = absurd (ground arith)

pub bound-eq :
    (b : StoreBinding) (found : Option CatalogRecord)
    → is_bound_as b found ≡ true
    → (r : CatalogRecord) × (found ≡ some r)
      × (r.store_id ≡ b.store_id)
      × (r.active_generation ≡ some b.generation)
bound-eq b none h = absurd (ground arith)
bound-eq b (some r) h =
    let (store, version) = and_parts (text_eq b.store_id r.store_id) _ h in
    (
      r,
      refl,
      sym (text_eq→eq b.store_id r.store_id store),
      same_generation-same (some b.generation) r.active_generation version,
    )
