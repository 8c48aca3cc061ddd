-- ===== src/Catalog/Lifetime.antt =====
-- What every sequence of calls of the project catalog keeps (src/scs/storage/catalog.py).
use scs.Base.{Option, ℕ, ◌≡◌, refl, sym, ap, ◌∙◌, subst, true, Memᴰ, Text, arith}
use scs.Sql.Counting.{All-mem}
use scs.Sql.Selecting.{unique-eq}
use scs.Catalog.Record.{StoreState, Row, is_store_id}
use scs.Catalog.Store.{
  Disk, with_schema, has_project, insert_root, register, activate, update_state, unregister,
  has_root, bound_to, owned_by, publish, set_state, store_id_for_root,
}
use scs.Catalog.Orderly.{IsOrderlyDisk, with_schema-IsOrderly}
use scs.Catalog.Registered.{register-IsOrderly}
use scs.Catalog.Sound.{activate-IsOrderly, update_state-IsOrderly, unregister-IsOrderly}
use scs.Catalog.Calls.{
  Step, registers, activates, updates, unregisters, Calls, idle, next, IsLater, IsLater-refl,
  IsLater-trans, IsLater-holds, insert_root-IsLater, commit_register-IsLater, update_row-IsLater,
  delete_row-IsLater, checked-IsLater,
}

module _ (canonical digest : Text → Text) where
  register-IsLater :
      (gap : ℕ) (root : Text) (d : Disk) → IsLater d (register canonical digest gap root d).0
  unfolding register store_id_for_root
  register-IsLater gap root d =
      let store_id = digest (canonical (canonical root)) in
      IsLater-holds d (with_schema d) (register canonical digest gap root d).0 refl (
        commit_register-IsLater (canonical root) store_id (with_schema d)
          (insert_root gap (canonical root) store_id (with_schema d))
          (λ longer. insert_root-IsLater gap (canonical root) store_id (with_schema d) longer))

  activate-IsLater :
      (generation : Text) (state : StoreState) (root : Text) (d : Disk)
      → IsLater d (activate canonical digest generation state root d).0
  unfolding activate
  activate-IsLater generation state root d = checked-IsLater _ d _ (λ safe.
      update_row-IsLater (canonical root) (has_root (canonical root)) (publish safe state) d
        (λ row. (refl, refl, refl)))

  update_state-IsLater :
      (generation : Text) (state : StoreState) (root : Text) (d : Disk)
      → IsLater d (update_state canonical digest generation state root d).0
  unfolding update_state
  update_state-IsLater generation state root d = checked-IsLater _ d _ (λ safe.
      update_row-IsLater (canonical root) (bound_to (canonical root) safe) (set_state state) d
        (λ row. (refl, refl, refl)))

  unregister-IsLater :
      (store_id : Text) (generation : Option Text) (root : Text) (d : Disk)
      → IsLater d (unregister canonical digest store_id generation root d).0
  unfolding unregister
  unregister-IsLater store_id generation root d =
      checked-IsLater _ d _
        (λ owner. delete_row-IsLater (owned_by (canonical root) owner.0 owner.1) d)

  Step-IsLater : (d e : Disk) → Step canonical digest d e → IsLater d e
  Step-IsLater d e (registers gap root h) = subst (IsLater d) h (register-IsLater gap root d)
  Step-IsLater d e (activates generation state root h) =
      subst (IsLater d) h (activate-IsLater generation state root d)
  Step-IsLater d e (updates generation state root h) =
      subst (IsLater d) h (update_state-IsLater generation state root d)
  Step-IsLater d e (unregisters store_id generation root h) =
      subst (IsLater d) h (unregister-IsLater store_id generation root d)

  Calls-IsLater : {d e : Disk} → Calls canonical digest d e → IsLater d e
  Calls-IsLater {d} idle = IsLater-refl d
  Calls-IsLater {d} (next {e} {f} calls step) =
      IsLater-trans d e f (Calls-IsLater calls) (Step-IsLater e f step)

  module _ (hex : (t : Text) → is_store_id (digest t) ≡ true) where
    Step-IsOrderly :
        (d e : Disk)
        → Step canonical digest d e
        → IsOrderlyDisk canonical digest d
        → IsOrderlyDisk canonical digest e
    Step-IsOrderly d e (registers gap root h) o =
        subst (IsOrderlyDisk canonical digest) h
          (register-IsOrderly canonical digest hex gap root d o)
    Step-IsOrderly d e (activates generation state root h) o =
        subst (IsOrderlyDisk canonical digest) h
          (activate-IsOrderly canonical digest generation state root d o)
    Step-IsOrderly d e (updates generation state root h) o =
        subst (IsOrderlyDisk canonical digest) h
          (update_state-IsOrderly canonical digest generation state root d o)
    Step-IsOrderly d e (unregisters store_id generation root h) o =
        subst (IsOrderlyDisk canonical digest) h
          (unregister-IsOrderly canonical digest store_id generation root d o)

    -- If digests are store ids, any calls from an orderly catalog lead to an orderly one: roots, store
    -- ids and project ids name at most one row, and each row reads back as a record, has the digest
    -- of its root as its store id, an id that was given out, and a state other than uninitialized
    -- only with a generation.
    pub Calls-IsOrderly :
        {d e : Disk}
        → Calls canonical digest d e
        → IsOrderlyDisk canonical digest d
        → IsOrderlyDisk canonical digest e
    Calls-IsOrderly idle o = o
    Calls-IsOrderly (next {e} {f} calls step) o = Step-IsOrderly e f step (Calls-IsOrderly calls o)

  -- A project id means the same root and the same store for good: from an orderly catalog, whatever
  -- calls are made, a row with an id that the catalog has is for that row's root and store.
  pub project_id-stable :
      {d e : Disk} (row later : Row)
      → Calls canonical digest d e
      → IsOrderlyDisk canonical digest d
      → Memᴰ row (with_schema d).rows
      → Memᴰ later (with_schema e).rows
      → row.project_id ≡ later.project_id
      → (row.canonical_root ≡ later.canonical_root) × (row.store_id ≡ later.store_id)
  project_id-stable {d} row later calls o here there same =
      let orderly = with_schema-IsOrderly canonical digest d o in
      let bound = All-mem _ (with_schema d).rows here orderly.bound in
      let le = bound.given in
      let (before, mem, id, root, store) =
        (Calls-IsLater calls).old later there (omega (arith, same, le)) in
      let equal : before ≡ row =
        unique-eq (has_project row.project_id) (with_schema d).rows mem here
          (let e = id ∙ sym same in ground arith) (ground arith) (orderly.one_id row.project_id) in
      (
        sym (ap (λ (r : Row). r.canonical_root) equal) ∙ root,
        sym (ap (λ (r : Row). r.store_id) equal) ∙ store,
      )
