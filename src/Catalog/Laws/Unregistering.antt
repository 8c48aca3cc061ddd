-- ===== src/Catalog/Laws/Unregistering.antt =====
-- `unregister` of the project catalog (src/scs/storage/catalog.py).
use native.Mathlib.Nat.{le_trans}
use scs.Base.{
  ◌≤◌, ◌≡◌, ap, true, false, Option, none, List, Memᴰ, Text, ok, arith, count, any, ◌⊎◌, inl, inr,
  not, Bool-cases, Option-cases, text_eq, text_eq→eq, ◌&&◌, filter_by, and_parts,
}
use scs.Sql.{find_row}
use scs.Sql.Counting.{find_row-some, count-pos}
use scs.Sql.Selecting.{find_row-pos, unique-eq}
use scs.Sql.Deleting.{count-pos_any, count-none, count-deleted, filter_by_idle, mem-filter_by}
use scs.Sql.Finding.{find_row-filter_by, mem-filter_by-test, count-and-le}
use scs.Catalog.Record.{Row, is_store_id, validate_store_id, optional_generation}
use scs.Catalog.Store.{
  Catalog, Disk, holds, has_root, has_store, owned_by, same_generation, delete_row, unregister,
  lookup, read_row, optional_record,
}
use scs.Catalog.Orderly.{IsOrderly}

-- The `DELETE` on a table of which at most one row has the root.
module _ (root store_id : Text) (generation : Option Text) (c : Catalog) (row : Row)
    (one : count (has_root root) c.rows ≤ 1) (here : Memᴰ row c.rows)
    (named : has_root root row ≡ true) where
  abbrev kept : List Row
  kept = filter_by (λ r. not (owned_by root store_id generation r)) c.rows

  count_owned :
      owned_by root store_id generation row ≡ true
      → count (owned_by root store_id generation) c.rows ≡ 1
  count_owned e =
      let few =
        le_trans
          (count-and-le (has_root root)
            (λ r. has_store store_id r && same_generation generation r.active_generation) c.rows)
          one in
      omega (arith, few, count-pos (owned_by root store_id generation) c.rows here e)

  -- Once its row is deleted, the root is not found.
  find_row-deleted :
      owned_by root store_id generation row ≡ true → find_row (has_root root) kept ≡ none
  find_row-deleted e = elim (Option-cases (find_row (has_root root) kept)) [
    | inl z ↦ z
    | inr (other, found) ↦
        let (there, is_root) = find_row-some (has_root root) kept found in
        let owned = λ (r : Row). not (owned_by root store_id generation r) in
        let stays : owned other ≡ true = mem-filter_by-test owned c.rows there in
        let same : other ≡ row =
          unique-eq (has_root root) c.rows (mem-filter_by owned c.rows there) here is_root named
            one in
        let gone : owned row ≡ true = rw (← same) stays in absurd (ground arith)
  ]

  count_foreign :
      owned_by root store_id generation row ≡ false
      → count (owned_by root store_id generation) c.rows ≡ 0
  count_foreign e = elim (Bool-cases (any (owned_by root store_id generation) c.rows)) [
    | inr z ↦ count-none (owned_by root store_id generation) c.rows z
    | inl z ↦
        let (other, found) =
          find_row-pos (owned_by root store_id generation) c.rows
            (count-pos_any (owned_by root store_id generation) c.rows z) in
        let (there, owned) = find_row-some (owned_by root store_id generation) c.rows found in
        let same : other ≡ row =
          unique-eq (has_root root) c.rows there here (and_parts (has_root root other) _ owned).0
            named one in
        let mine : owned_by root store_id generation row ≡ true = rw (← same) owned in
        absurd (ground arith)
  ]

module _ (canonical digest : Text → Text) where
  -- A deletion job takes its own binding only. If the row of the root has the store and the
  -- generation of the job, the answer is true and the root is then not found; otherwise the answer
  -- is false and nothing changes. Other roots are looked up as before, and a second call answers
  -- false and changes nothing.
  pub unregister-owned :
      (store_id : Text) (generation : Option Text) (root : Text) (c : Catalog) (row : Row)
      → IsOrderly canonical digest c
      → is_store_id store_id ≡ true
      → optional_generation generation ≡ ok generation
      → Memᴰ row c.rows
      → has_root (canonical root) row ≡ true
      → (changed : Disk) × (unregister canonical digest store_id generation root (holds c)
          ≡ (changed, ok (owned_by (canonical root) store_id generation row)))
        × ((owned_by (canonical root) store_id generation row ≡ true)
              × (lookup canonical digest root changed ≡ ok none)
            ⊎ (owned_by (canonical root) store_id generation row ≡ false) × (changed ≡ holds c))
        × ((other : Text)
            → text_eq (canonical other) (canonical root) ≡ false
            → lookup canonical digest other changed ≡ lookup canonical digest other (holds c))
        × (unregister canonical digest store_id generation root changed ≡ (changed, ok false))
  unfolding unregister delete_row validate_store_id lookup read_row optional_record
  unregister-owned store_id generation root c row o hex valid here named =
      let key = canonical root in
      let owned = owned_by key store_id generation in
      let rest = filter_by (λ r. not (owned r)) c.rows in
      let none_left = count-deleted owned c.rows in
      let idle = filter_by_idle owned rest none_left in
      let again : unregister canonical digest store_id generation root
            (holds (record c { rows = rest }))
          ≡ (holds (record c { rows = rest }), ok false) =
        rw (hex, valid, none_left, idle) in
      let others = λ (other : Text) (differ : text_eq (canonical other) key ≡ false).
        ap optional_record (
          find_row-filter_by (has_root (canonical other)) (λ r. not (owned r)) c.rows
            (λ r e.
              let same = text_eq→eq r.canonical_root (canonical other) e in
              let apart : has_root key r ≡ false = rw same differ in ground arith)) in
      elim (Bool-cases (owned row)) [
        | inl e ↦
            let one = count_owned key store_id generation c row (o.one_root key) here named e in
            let gone =
              find_row-deleted key store_id generation c row (o.one_root key) here named e in
            (
              holds (record c { rows = rest }),
              rw (hex, valid, one, e),
              inl (e, rw (gone, optional_record)),
              others,
              again,
            )
        | inr e ↦
            let zero_rows =
              count_foreign key store_id generation c row (o.one_root key) here named e in
            let same = filter_by_idle owned c.rows zero_rows in
            (
              holds (record c { rows = rest }),
              rw (hex, valid, zero_rows, e),
              inr (e, ap (λ rows. holds (record c { rows = rows })) same),
              others,
              again,
            )
      ]
