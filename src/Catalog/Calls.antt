-- ===== src/Catalog/Calls.antt =====
-- The life of the project catalog (src/scs/storage/catalog.py): any calls of its methods, in any
-- order, whether they return or raise. What it keeps, and what an id means for good.
use native.Mathlib.Nat.{le_trans}
use scs.Base.{
  ℕ, suc, ◌+◌, ◌≤◌, ◌≡◌, refl, sym, ap, ◌∙◌, subst, Bool, Option, List, [], ◌∷◌, ◌++◌, Memᴰ, Text,
  Outcome, ok, err, arith, count, any, ◌⊎◌, inl, inr, Bool-cases, ◌==◌, not,
}
use scs.Sql.{update_where}
use scs.Sql.Selecting.{mem-cons-cases}
use scs.Sql.Deleting.{mem-filter_by}
use scs.Catalog.Record.{StoreState, Row}
use scs.Catalog.Store.{
  Catalog, Disk, no_home, no_database, blank, holds, has_root, has_store, with_schema, new_row,
  insert_root, commit_register, commit_update, update_row, delete_row, checked, register, activate,
  update_state, unregister,
}

-- One call of a method that writes.
pub data Step (canonical digest : Text → Text) (d e : Disk) : Type 0 where
  registers :
      (gap : ℕ) (root : Text)
      → (register canonical digest gap root d).0 ≡ e
      → Step canonical digest d e
  activates :
      (generation : Text) (state : StoreState) (root : Text)
      → (activate canonical digest generation state root d).0 ≡ e
      → Step canonical digest d e
  updates :
      (generation : Text) (state : StoreState) (root : Text)
      → (update_state canonical digest generation state root d).0 ≡ e
      → Step canonical digest d e
  unregisters :
      (store_id : Text) (generation : Option Text) (root : Text)
      → (unregister canonical digest store_id generation root d).0 ≡ e
      → Step canonical digest d e

-- Any number of calls.
pub data Calls (canonical digest : Text → Text) (d : Disk) : Disk → Type 0 where
  idle : Calls canonical digest d d
  next :
      {e f : Disk}
      → Calls canonical digest d e
      → Step canonical digest e f
      → Calls canonical digest d f

-- The rows of `e` with an id that `d` had given out are rows of `d`, with the same root and store.
pub record IsLater (d e : Disk) : Type 0 where
  pub high : (with_schema d).highest ≤ (with_schema e).highest
  pub old :
      (row : Row)
      → Memᴰ row (with_schema e).rows
      → row.project_id ≤ (with_schema d).highest
      → (before : Row) × Memᴰ before (with_schema d).rows
        × (before.project_id ≡ row.project_id)
        × (before.canonical_root ≡ row.canonical_root)
        × (before.store_id ≡ row.store_id)

pub IsLater-refl : (d : Disk) → IsLater d d
IsLater-refl d = record { high = omega arith; old = λ row m le. (row, m, refl, refl, refl) }

pub IsLater-trans : (d e f : Disk) → IsLater d e → IsLater e f → IsLater d f
IsLater-trans d e f h k = record {
  high = le_trans h.high k.high;
  old = λ row m le.
      let (mid, here, id, root, store) = k.old row m (le_trans le h.high) in
      let (first, there, id', root', store') = h.old mid here (omega (arith, id, le)) in
      (first, there, id' ∙ id, root' ∙ root, store' ∙ store);
}

-- A table that takes the place of another.
pub IsLater-holds :
    (d : Disk) (c : Catalog) (e : Disk) → with_schema d ≡ c → IsLater (holds c) e → IsLater d e
IsLater-holds d c e same h = record {
  high = rw same h.high;
  old = λ row m le. rw same (h.old row m (rw same at le));
}

mem-append-cases {ℓ} :
    {A : Type ℓ} (xs : List A) {a x : A} → Memᴰ a (xs ++ x ∷ []) → Memᴰ a xs ⊎ (a ≡ x)
mem-append-cases [] {a} {x} m = elim (mem-cons-cases {x = x} {xs = []} m) [
  | inl e ↦ inr e
  | inr n ↦ inl n
]
mem-append-cases (y ∷ ys) {a} {x} m = elim (mem-cons-cases {x = y} {xs = ys ++ x ∷ []} m) [
  | inl e ↦ inl (Memᴰ.head e)
  | inr n ↦ elim (mem-append-cases ys n) [ inl k ↦ inl (Memᴰ.tail k) | inr e ↦ inr e ]
]

mem-update_where-cases {ℓ} :
    {A : Type ℓ} (test : A → Bool) (f : A → A) (xs : List A) {a : A}
    → Memᴰ a (update_where test f xs)
    → (b : A) × Memᴰ b xs × ((a ≡ b) ⊎ (a ≡ f b))
mem-update_where-cases test f [] m = elim m [ ]
mem-update_where-cases test f (x ∷ xs) {a} m = elim (Bool-cases (test x)) [
  | inl e ↦
      elim (mem-cons-cases {x = f x} {xs = update_where test f xs} (subst (Memᴰ a) (rw e) m)) [
        | inl same ↦ (x, Memᴰ.head refl, inr same)
        | inr n ↦ let (b, k, c) = mem-update_where-cases test f xs n in (b, Memᴰ.tail k, c)
      ]
  | inr e ↦ elim (mem-cons-cases {x = x} {xs = update_where test f xs} (subst (Memᴰ a) (rw e) m)) [
    | inl same ↦ (x, Memᴰ.head refl, inl same)
    | inr n ↦ let (b, k, c) = mem-update_where-cases test f xs n in (b, Memᴰ.tail k, c)
  ]
]

pub insert_root-IsLater :
    (gap : ℕ) (root store_id : Text) (c longer : Catalog)
    → insert_root gap root store_id c ≡ ok longer
    → IsLater (holds c) (holds longer)
unfolding insert_root
insert_root-IsLater gap root store_id c longer h = elim (Bool-cases (any (has_root root) c.rows)) [
  | inl e ↦
      let same : c ≡ longer = ground arith in
      subst (λ x. IsLater (holds c) (holds x)) same (IsLater-refl (holds c))
  | inr e ↦ elim (Bool-cases (any (has_store store_id) c.rows)) [
    | inl d ↦ absurd (ground arith)
    | inr d ↦
        let id = suc (c.highest + gap) in
        let row = new_row id root store_id in
        let same : record { rows = c.rows ++ row ∷ []; highest = id } ≡ longer = ground arith in
        subst (λ x. IsLater (holds c) (holds x)) same
          (record {
            high = omega arith;
            old = λ r m le. elim (mem-append-cases c.rows m) [
              | inl here ↦ (r, here, refl, refl, refl)
              | inr new ↦ absurd (omega (arith, ap (λ (x : Row). x.project_id) new, le))
            ];
          })
  ]
]

pub commit_register-IsLater :
    (root store_id : Text) (c : Catalog) (out : Outcome Catalog)
    → ((longer : Catalog) → out ≡ ok longer → IsLater (holds c) (holds longer))
    → IsLater (holds c) (commit_register root store_id c out).0
unfolding commit_register
commit_register-IsLater root store_id c (ok longer) h = h longer refl
commit_register-IsLater root store_id c (err e) h = IsLater-refl (holds c)

pub update_row-IsLater :
    (root : Text) (test : Row → Bool) (assign : Row → Row) (d : Disk)
    → ((row : Row)
        → ((assign row).project_id ≡ row.project_id)
          × ((assign row).canonical_root ≡ row.canonical_root)
          × ((assign row).store_id ≡ row.store_id))
    → IsLater d (update_row root test assign d).0
unfolding update_row commit_update
update_row-IsLater root test assign no_home keys = IsLater-refl no_home
update_row-IsLater root test assign no_database keys = record {
  high = omega arith;
  old = λ row m le. elim m [ ];
}
update_row-IsLater root test assign blank keys = IsLater-refl blank
update_row-IsLater root test assign (holds c) keys = elim (Bool-cases (count test c.rows == 1)) [
  | inr e ↦ rw (e, update_row, commit_update) (IsLater-refl (holds c))
  | inl e ↦
      rw (e, update_row, commit_update)
        (record {
          high = omega arith;
          old = λ row m le.
              let (b, here, change) = mem-update_where-cases test assign c.rows m in
              elim change [
                | inl same ↦ (row, rw same here, refl, refl, refl)
                | inr same ↦
                    let (id, root_kept, store_kept) = keys b in
                    (
                      b,
                      here,
                      sym id ∙ sym (ap (λ (r : Row). r.project_id) same),
                      sym root_kept ∙ sym (ap (λ (r : Row). r.canonical_root) same),
                      sym store_kept ∙ sym (ap (λ (r : Row). r.store_id) same),
                    )
              ];
        })
]

pub delete_row-IsLater : (test : Row → Bool) (d : Disk) → IsLater d (delete_row test d).0
unfolding delete_row
delete_row-IsLater test no_home = IsLater-refl no_home
delete_row-IsLater test no_database = IsLater-refl no_database
delete_row-IsLater test blank = IsLater-refl blank
delete_row-IsLater test (holds c) = record {
  high = omega arith;
  old = λ row m le. (row, mem-filter_by (λ r. not (test r)) c.rows m, refl, refl, refl);
}

pub checked-IsLater :
    {A B : Type 0} (m : Outcome A) (d : Disk) (rest : A → Disk × Outcome B)
    → ((a : A) → IsLater d (rest a).0)
    → IsLater d (checked m d rest).0
checked-IsLater (ok a) d rest h = h a
checked-IsLater (err e) d rest h = IsLater-refl d
