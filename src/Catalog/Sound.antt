-- ===== src/Catalog/Sound.antt =====
-- Activation, a change of state and the removal of a binding keep the project catalog orderly
-- (src/scs/storage/catalog.py).
use native.Mathlib.Nat.{le_trans}
use scs.Base.{
  ℕ, ◌≤◌, ◌≡◌, refl, sym, ap, subst, Bool, true, Option, Text, Outcome, ok, err, arith, count, not,
  inl, inr, Bool-cases, text_eq, ◌==◌,
}
use scs.Sql.Counting.{All-update_where}
use scs.Sql.Selecting.{count-update_where-eq}
use scs.Sql.Deleting.{count-filter_by-le, All-filter_by}
use scs.Catalog.Record.{
  StoreState, Row, is_generation, validate_store_generation, optional_generation,
}
use scs.Catalog.Store.{
  Disk, no_home, no_database, blank, holds, has_root, has_store, has_project, commit_update,
  update_row, delete_row, publish, set_state, bound_to, owned_by, checked, activate, update_state,
  unregister, is_uninitialized,
}
use scs.Catalog.Orderly.{IsBound, IsOrderlyDisk}
use scs.Catalog.Typing.{
  read_state-state_text, record_of, record_from_row-ok, record_from_row-IsTyped,
}

module _ (canonical digest : Text → Text) where
  -- An update that keeps the three keys and the rows bound.
  update_row-IsOrderly :
      (root : Text) (test : Row → Bool) (assign : Row → Row) (disk : Disk)
      → ((row : Row)
          → ((assign row).canonical_root ≡ row.canonical_root)
            × ((assign row).store_id ≡ row.store_id)
            × ((assign row).project_id ≡ row.project_id))
      → ((n : ℕ) (row : Row)
          → test row ≡ true
          → IsBound canonical digest n row
          → IsBound canonical digest n (assign row))
      → IsOrderlyDisk canonical digest disk
      → IsOrderlyDisk canonical digest (update_row root test assign disk).0
  unfolding update_row commit_update
  update_row-IsOrderly root test assign no_home keys keeps o = tt
  update_row-IsOrderly root test assign no_database keys keeps o = tt
  update_row-IsOrderly root test assign blank keys keeps o = tt
  update_row-IsOrderly root test assign (holds c) keys keeps o =
      elim (Bool-cases (count test c.rows == 1)) [
        | inr e ↦ rw (e, update_row, commit_update) o
        | inl e ↦
            rw (e, update_row, commit_update)
              (record {
                one_root = λ x.
                    subst (λ n. n ≤ 1)
                      (sym (
                        count-update_where-eq (has_root x) test assign
                          (λ r. ap (λ y. text_eq y x) (keys r).0) c.rows))
                      (o.one_root x);
                one_store = λ x.
                    subst (λ n. n ≤ 1)
                      (sym (
                        count-update_where-eq (has_store x) test assign
                          (λ r. ap (λ y. text_eq y x) (keys r).1) c.rows))
                      (o.one_store x);
                one_id = λ x.
                    subst (λ n. n ≤ 1)
                      (sym (
                        count-update_where-eq (has_project x) test assign
                          (λ r. ap (λ y. y == x) (keys r).2) c.rows))
                      (o.one_id x);
                bound =
                    All-update_where (IsBound canonical digest c.highest) test assign
                      (keeps c.highest) c.rows o.bound;
              })
      ]

  publish-IsBound :
      (generation : Text) (state : StoreState) (n : ℕ) (row : Row)
      → is_generation generation ≡ true
      → IsBound canonical digest n row
      → IsBound canonical digest n (publish generation state row)
  unfolding optional_generation validate_store_generation
  publish-IsBound generation state n row valid b =
      let (old, parts, _) = record_from_row-IsTyped row b.typed.1 in
      record {
        typed = (
          record_of (publish generation state row) state,
          record_from_row-ok (publish generation state row) state (record {
            positive = b.positive;
            generation = ground arith;
            store_id = parts.store_id;
            read = read_state-state_text state;
          }),
        );
        derived = b.derived;
        positive = b.positive;
        given = b.given;
        pending = λ e. absurd (ground arith);
      }

  set_state-IsBound :
      (root generation : Text) (state : StoreState) (n : ℕ) (row : Row)
      → bound_to root generation row ≡ true
      → IsBound canonical digest n row
      → IsBound canonical digest n (set_state state row)
  set_state-IsBound root generation state n row here b =
      let (old, parts, _) = record_from_row-IsTyped row b.typed.1 in
      record {
        typed = (
          record_of (set_state state row) state,
          record_from_row-ok (set_state state row) state (record {
            positive = b.positive;
            generation = parts.generation;
            store_id = parts.store_id;
            read = read_state-state_text state;
          }),
        );
        derived = b.derived;
        positive = b.positive;
        given = b.given;
        pending = λ e. absurd (ground (arith, e));
      }

  pub activate-IsOrderly :
      (generation : Text) (state : StoreState) (root : Text) (disk : Disk)
      → IsOrderlyDisk canonical digest disk
      → IsOrderlyDisk canonical digest (activate canonical digest generation state root disk).0
  unfolding activate validate_store_generation
  activate-IsOrderly generation state root disk o = elim (Bool-cases (is_generation generation)) [
    | inr e ↦ rw (e, activate, validate_store_generation) o
    | inl e ↦ elim (Bool-cases (is_uninitialized state)) [
      | inl d ↦ rw (e, d, activate, validate_store_generation) o
      | inr d ↦
          rw (e, d, activate, validate_store_generation)
            (update_row-IsOrderly (canonical root) (has_root (canonical root))
              (publish generation state) disk (λ row. (refl, refl, refl))
              (λ n row t. publish-IsBound generation state n row e) o)
    ]
  ]

  pub update_state-IsOrderly :
      (generation : Text) (state : StoreState) (root : Text) (disk : Disk)
      → IsOrderlyDisk canonical digest disk
      → IsOrderlyDisk canonical digest (update_state canonical digest generation state root disk).0
  unfolding update_state validate_store_generation
  update_state-IsOrderly generation state root disk o =
      elim (Bool-cases (is_generation generation)) [
        | inr e ↦ rw (e, update_state, validate_store_generation) o
        | inl e ↦
            rw (e, update_state, validate_store_generation)
              (update_row-IsOrderly (canonical root) (bound_to (canonical root) generation)
                (set_state state) disk (λ row. (refl, refl, refl))
                (set_state-IsBound (canonical root) generation state) o)
      ]

  delete_row-IsOrderly :
      (test : Row → Bool) (disk : Disk)
      → IsOrderlyDisk canonical digest disk
      → IsOrderlyDisk canonical digest (delete_row test disk).0
  unfolding delete_row
  delete_row-IsOrderly test no_home o = tt
  delete_row-IsOrderly test no_database o = tt
  delete_row-IsOrderly test blank o = tt
  delete_row-IsOrderly test (holds c) o =
      let kept = λ (r : Row). not (test r) in
      record {
        one_root = λ x. le_trans (count-filter_by-le (has_root x) kept c.rows) (o.one_root x);
        one_store = λ x. le_trans (count-filter_by-le (has_store x) kept c.rows) (o.one_store x);
        one_id = λ x. le_trans (count-filter_by-le (has_project x) kept c.rows) (o.one_id x);
        bound = All-filter_by (IsBound canonical digest c.highest) kept c.rows o.bound;
      }

  checked-kept :
      {A : Type 0} (m : Outcome A) (disk : Disk) (rest : A → Disk × Outcome Bool)
      → IsOrderlyDisk canonical digest disk
      → ((a : A) → IsOrderlyDisk canonical digest (rest a).0)
      → IsOrderlyDisk canonical digest (checked m disk rest).0
  checked-kept (ok a) disk rest o h = h a
  checked-kept (err e) disk rest o h = o

  pub unregister-IsOrderly :
      (store_id : Text) (generation : Option Text) (root : Text) (disk : Disk)
      → IsOrderlyDisk canonical digest disk
      → IsOrderlyDisk canonical digest (unregister canonical digest store_id generation root disk).0
  unfolding unregister
  unregister-IsOrderly store_id generation root disk o =
      checked-kept _ disk _ o
        (λ owner. delete_row-IsOrderly (owned_by (canonical root) owner.0 owner.1) disk o)
