-- ===== src/Catalog/Laws/Updating.antt =====
-- `update_state` of the project catalog (src/scs/storage/catalog.py).
use native.Mathlib.Nat.{le_trans}
use scs.Base.{
  List, ◌≤◌, ◌≡◌, ◌≢◌, refl, ap, ◌∙◌, Bool, true, false, Option, none, some, Memᴰ, Text, ok, err,
  catalog_error, arith, count, any, ◌⊎◌, inl, inr, Bool-cases, text_eq, text_eq_refl, text_eq→eq,
}
use scs.Sql.{update_where, find_row}
use scs.Sql.Counting.{find_row-some, All-mem, count-pos}
use scs.Sql.Selecting.{find_row-pos, unique-eq}
use scs.Sql.Deleting.{count-pos_any, count-none}
use scs.Sql.Finding.{find_row-updated, find_row-update_other, count-and-le}
use scs.Catalog.Record.{StoreState, Row, record_from_row, is_generation, validate_store_generation}
use scs.Catalog.Store.{
  Catalog, Disk, holds, has_root, bound_to, same_generation, set_state, update_row, commit_update,
  update_state, lookup, read_row, optional_record,
}
use scs.Catalog.Orderly.{IsBound, IsOrderly}
use scs.Catalog.Typing.{
  record_of, record_from_row-ok, record_from_row-IsTyped, read_state-state_text,
}

pub find_row_unique {ℓ} :
    {A : Type ℓ} (test : A → Bool) (xs : List A) (a : A)
    → Memᴰ a xs
    → test a ≡ true
    → count test xs ≤ 1
    → find_row test xs ≡ some a
find_row_unique test xs a here t one =
    let (b, found) = find_row-pos test xs (count-pos test xs here t) in
    let (there, passes) = find_row-some test xs found in
    found ∙ ap some (unique-eq test xs there here passes t one)

same_generation-eq :
    (generation : Text) (active : Option Text)
    → same_generation (some generation) active ≡ true
    → active ≡ some generation
same_generation-eq generation none h = absurd (ground arith)
same_generation-eq generation (some active) h = ap some (text_eq→eq active generation h)

same_generation_refl : (generation : Option Text) → same_generation generation generation ≡ true
same_generation_refl none = refl
same_generation_refl (some generation) = text_eq_refl generation

module _ (canonical digest : Text → Text) where
  -- Another root's row is found as before.
  lookup-update_other :
      (root other generation : Text) (state : StoreState) (c : Catalog)
      → text_eq (canonical other) (canonical root) ≡ false
      → lookup canonical digest other (
          holds (record c {
            rows = update_where (bound_to (canonical root) generation) (set_state state) c.rows;
          }))
        ≡ lookup canonical digest other (holds c)
  unfolding lookup read_row
  lookup-update_other root other generation state c differ = ap optional_record (
      find_row-update_other (has_root (canonical other)) (bound_to (canonical root) generation)
        (set_state state) c.rows (λ r. refl)
        (λ r e.
          let same = text_eq→eq r.canonical_root (canonical other) e in
          let apart : has_root (canonical root) r ≡ false = rw same differ in ground arith))

  -- Only a worker whose generation is still active sets the state. For the row of the root: with that
  -- generation active the new state is stored and nothing else of the record changes, and other roots
  -- are looked up as before; otherwise CatalogError is raised and nothing changes.
  pub update_state-guarded :
      (generation : Text) (state : StoreState) (root : Text) (c : Catalog) (row : Row)
      → IsOrderly canonical digest c
      → is_generation generation ≡ true
      → Memᴰ row c.rows
      → row.canonical_root ≡ canonical root
      → ((row.active_generation ≡ some generation)
          × ((changed : Disk) × (update_state canonical digest generation state root (holds c)
                ≡ (changed, ok (record_of row state)))
              × (lookup canonical digest root changed ≡ ok (some (record_of row state)))
              × ((other : Text)
                  → text_eq (canonical other) (canonical root) ≡ false
                  → lookup canonical digest other changed
                    ≡ lookup canonical digest other (holds c))))
        ⊎ ((row.active_generation ≢ some generation)
            × (update_state canonical digest generation state root (holds c)
                ≡ (holds c, err catalog_error)))
  unfolding update_state update_row commit_update validate_store_generation lookup read_row
      optional_record
  update_state-guarded generation state root c row o valid here named =
      let key = canonical root in
      let is_here : has_root key row ≡ true = rw named (text_eq_refl key) in
      let found = find_row_unique (has_root key) c.rows row here is_here (o.one_root key) in
      let few =
        le_trans
          (count-and-le (has_root key) (λ r. same_generation (some generation) r.active_generation)
            c.rows)
          (o.one_root key) in
      elim (Bool-cases (any (bound_to key generation) c.rows)) [
        | inr e ↦
            let zero_rows = count-none (bound_to key generation) c.rows e in
            let other : row.active_generation ≢ some generation = λ same.
              let good : bound_to key generation row ≡ true =
                rw (is_here, same) (text_eq_refl generation) in
              ground (arith, count-pos (bound_to key generation) c.rows here good) in
            inr (other, rw (valid, zero_rows))
        | inl e ↦
            let some_rows = count-pos_any (bound_to key generation) c.rows e in
            let one : count (bound_to key generation) c.rows ≡ 1 = omega (arith, some_rows, few) in
            let (there_row, there) = find_row-pos (bound_to key generation) c.rows some_rows in
            let (mem, bound) = find_row-some (bound_to key generation) c.rows there in
            let same : there_row ≡ row =
              unique-eq (has_root key) c.rows mem here (ground arith) is_here (o.one_root key) in
            let good : bound_to key generation row ≡ true = rw (← same) bound in
            let active = same_generation-eq generation row.active_generation (ground arith) in
            let keeps = All-mem (IsBound canonical digest c.highest) c.rows here o.bound in
            let (old, parts, _) = record_from_row-IsTyped row keeps.typed.1 in
            let typed : record_from_row (set_state state row) ≡ ok (record_of row state) =
              record_from_row-ok (set_state state row) state (record {
                positive = parts.positive;
                generation = parts.generation;
                store_id = parts.store_id;
                read = read_state-state_text state;
              }) in
            let read =
              find_row-updated (has_root key) (bound_to key generation) (set_state state) c.rows
                (λ r. refl) found in
            inl (
              active,
              (
                holds (record c {
                  rows = update_where (bound_to key generation) (set_state state) c.rows;
                }),
                rw (valid, one, read, good, typed),
                rw (read, good, typed),
                λ other. lookup-update_other root other generation state c,
              ),
            )
      ]
