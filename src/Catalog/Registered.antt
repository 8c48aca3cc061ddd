-- ===== src/Catalog/Registered.antt =====
-- A registration keeps the project catalog orderly (src/scs/storage/catalog.py, `register`).
use native.Mathlib.Nat.{le_trans}
use scs.Base.{
  ℕ, suc, ◌+◌, ◌≤◌, ◌≡◌, refl, subst, true, false, List, [], ◌∷◌, ◌++◌, Text, Outcome, ok, err,
  arith, any, All, All-append, inl, inr, Bool-cases, text_eq→eq,
}
use scs.Sql.Deleting.{count-insert-le, All-implied}
use scs.Catalog.Record.{uninitialized, Row, is_store_id, optional_generation}
use scs.Catalog.Store.{
  Catalog, Disk, has_root, has_store, has_project, with_schema, new_row, insert_root,
  commit_register, register, store_id_for_root,
}
use scs.Catalog.Orderly.{IsBound, IsOrderly, IsOrderlyDisk, with_schema-IsOrderly}
use scs.Catalog.Typing.{read_state-state_text, record_of, record_from_row-ok}

module _ (canonical digest : Text → Text) (hex : (t : Text) → is_store_id (digest t) ≡ true) where
  IsBound-later :
      (low high : ℕ) (row : Row)
      → low ≤ high
      → IsBound canonical digest low row
      → IsBound canonical digest high row
  IsBound-later low high row le b = record {
    typed = b.typed;
    derived = b.derived;
    positive = b.positive;
    given = le_trans b.given le;
    pending = b.pending;
  }

  new_row-IsBound :
      (id : ℕ) (root : Text)
      → 1 ≤ id
      → IsBound canonical digest id (new_row id root (digest (canonical root)))
  unfolding optional_generation
  new_row-IsBound id root le = record {
    typed = (
      record_of (new_row id root (digest (canonical root))) uninitialized,
      record_from_row-ok (new_row id root (digest (canonical root))) uninitialized (record {
        positive = le;
        generation = refl;
        store_id = hex (canonical root);
        read = read_state-state_text uninitialized;
      }),
    );
    derived = refl;
    positive = le;
    given = omega arith;
    pending = λ e. refl;
  }

  -- An id above all that were given out is new.
  fresh_id :
      (rows : List Row) (highest id : ℕ)
      → All (IsBound canonical digest highest) rows
      → suc highest ≤ id
      → any (has_project id) rows ≡ false
  fresh_id [] highest id all le = refl
  fresh_id (row ∷ rows) highest id all le =
      let g = all.0.given in ground (arith, fresh_id rows highest id all.1 le)

  pub insert_root-IsOrderly :
      (gap : ℕ) (root : Text) (c longer : Catalog)
      → IsOrderly canonical digest c
      → insert_root gap root (digest (canonical root)) c ≡ ok longer
      → IsOrderly canonical digest longer
  unfolding insert_root
  insert_root-IsOrderly gap root c longer o h = elim (Bool-cases (any (has_root root) c.rows)) [
    | inl e ↦ let same : c ≡ longer = ground arith in subst (IsOrderly canonical digest) same o
    | inr e ↦ elim (Bool-cases (any (has_store (digest (canonical root))) c.rows)) [
      | inl d ↦ absurd (ground arith)
      | inr d ↦
          let id = suc (c.highest + gap) in
          let row = new_row id root (digest (canonical root)) in
          let same : record { rows = c.rows ++ row ∷ []; highest = id } ≡ longer = ground arith in
          subst (IsOrderly canonical digest) same (record {
            one_root = λ other.
                count-insert-le (has_root other) c.rows row (o.one_root other)
                  (λ t. rw (← text_eq→eq root other t) e);
            one_store = λ other.
                count-insert-le (has_store other) c.rows row (o.one_store other)
                  (λ t. rw (← text_eq→eq (digest (canonical root)) other t) d);
            one_id = λ other.
                count-insert-le (has_project other) c.rows row (o.one_id other)
                  (λ t. fresh_id c.rows c.highest other o.bound (ground arith));
            bound =
                All-append (IsBound canonical digest id) c.rows (row ∷ [])
                  (All-implied (IsBound canonical digest c.highest) (IsBound canonical digest id)
                    (λ r. IsBound-later c.highest id r (omega arith)) c.rows o.bound)
                  (new_row-IsBound id root (omega arith), tt);
          })
    ]
  ]

  commit_register-IsOrderly :
      (root store_id : Text) (before : Catalog) (out : Outcome Catalog)
      → IsOrderly canonical digest before
      → ((c : Catalog) → out ≡ ok c → IsOrderly canonical digest c)
      → IsOrderlyDisk canonical digest (commit_register root store_id before out).0
  unfolding commit_register
  commit_register-IsOrderly root store_id before (ok c) o h = h c refl
  commit_register-IsOrderly root store_id before (err e) o h = o

  pub register-IsOrderly :
      (gap : ℕ) (root : Text) (disk : Disk)
      → IsOrderlyDisk canonical digest disk
      → IsOrderlyDisk canonical digest (register canonical digest gap root disk).0
  unfolding register store_id_for_root
  register-IsOrderly gap root disk o =
      let before = with_schema disk in
      let ready = with_schema-IsOrderly canonical digest disk o in
      commit_register-IsOrderly (canonical root) (digest (canonical (canonical root))) before
        (insert_root gap (canonical root) (digest (canonical (canonical root))) before) ready
        (λ c. insert_root-IsOrderly gap (canonical root) before c ready)
