-- ===== src/Jobs/Sound/Update.antt =====
-- Two rules for the table's invariant: an update of one row by its id, and an update of all rows
-- that pass a test.
use native.Mathlib.Nat.{le_trans}
use scs.Base.{
  ◌+◌, ◌≤◌, ◌≡◌, sym, ap, ◌∙◌, Bool, true, Memᴰ, Text, arith, bit, count, not, ◌&&◌, ◌⊎◌, inl, inr,
  text_eq, text_eq_refl, text_eq→eq, Bool-cases, and_parts,
}
use scs.Jobs.Record.{Job, is_queue, is_leased}
use scs.Sql.{update_where}
use scs.Jobs.Rows.{Table, has_id, queued_for}
use scs.Jobs.Queue.Claim.{busy_in, store_key}
use scs.Jobs.Queue.Finish.{other_queued}
use scs.Jobs.Sound.Defs.{IsSound, IsConsistent}
use scs.Sql.Counting.{
  count-update_one, count-other, count-update_where-le, All-update_one, All-update_where,
}

-- The columns that no update changes.
pub record Keeps (row changed : Job) : Type 0 where
  pub id : changed.id ≡ row.id
  pub repo_path : changed.repo_path ≡ row.repo_path
  pub store_id : changed.store_id ≡ row.store_id

-- What an update may do to the two flags that are unique: it may leave a flag, drop it, or raise it
-- where no other row has it.
module _ (table : Table) (sound : IsSound table) (row : Job) (here : Memᴰ row table) (f : Job → Job)
    (keeps : Keeps row (f row)) where
  abbrev changed : Table
  changed = update_where (has_id row.id) f table

  count_lem : (p : Job → Bool) → count p changed + bit (p row) ≡ count p table + bit (p (f row))
  count_lem p =
      count-update_one p (has_id row.id) f table row here (text_eq_refl row.id)
        (sound.one_id row.id)

  pub one_id-changed : (id : Text) → count (has_id id) changed ≤ 1
  one_id-changed id =
      let same : has_id id (f row) ≡ has_id id row = ap (λ x. text_eq x id) keeps.id in
      omega (arith, count_lem (has_id id), ap bit same, sound.one_id id)

  other_lem :
      (p : Job → Bool)
      → count p table ≡ count (λ r. p r && not (has_id row.id r)) table + bit (p row)
  other_lem p =
      count-other p (has_id row.id) table row here (text_eq_refl row.id) (sound.one_id row.id)

  -- The flag `p` stays unique.
  flag_lem :
      (p : Job → Bool)
      → count p table ≤ 1
      → (p (f row) ≡ true → (p row ≡ true) ⊎ (count (λ r. p r && not (has_id row.id r)) table ≡ 0))
      → count p changed ≤ 1
  flag_lem p one free = elim (Bool-cases (p (f row))) [
    | inr e ↦ omega (arith, count_lem p, ap bit e)
    | inl e ↦ elim (free e) [
      | inl r ↦ omega (arith, count_lem p, ap bit e, ap bit r)
      | inr z ↦ omega (arith, count_lem p, ap bit e, z, other_lem p)
    ]
  ]

  pub one_queued-changed :
      (is_queue (f row).status ≡ true
        → (is_queue row.status ≡ true) ⊎ (count (other_queued row.repo_path row.id) table ≡ 0))
      → (repo_path : Text) → count (queued_for repo_path) changed ≤ 1
  one_queued-changed free repo_path =
      flag_lem (queued_for repo_path) (sound.one_queued repo_path) λ e.
        let (named, queue) = and_parts _ _ e in
        let same : row.repo_path ≡ repo_path =
          sym keeps.repo_path ∙ text_eq→eq (f row).repo_path repo_path named in
        elim (free queue) [ inl r ↦ inl (rw (same, r, text_eq_refl)) | inr z ↦ inr (rw same at z) ]

  store_key-keeps : store_key (f row) ≡ store_key row
  store_key-keeps = rw (keeps.store_id, keeps.repo_path)

  pub one_leased-changed :
      (is_leased (f row).status ≡ true
        → (is_leased row.status ≡ true) ⊎ (count (busy_in (store_key row)) table ≡ 0))
      → (key : Text) → count (busy_in key) changed ≤ 1
  one_leased-changed free key = flag_lem (busy_in key) (sound.one_leased key) λ e.
      let (named, busy) = and_parts _ _ e in
      let same : store_key row ≡ key =
        sym store_key-keeps ∙ text_eq→eq (store_key (f row)) key named in
      elim (free busy) [
        | inl r ↦ inl (rw (same, r, text_eq_refl))
        | inr z ↦
            let none_busy : count (busy_in key) table ≡ 0 = rw same at z in
            inr (omega (arith, other_lem (busy_in key), none_busy))
      ]

  pub IsSound-update_one :
      IsConsistent (f row)
      → (is_queue (f row).status ≡ true
          → (is_queue row.status ≡ true) ⊎ (count (other_queued row.repo_path row.id) table ≡ 0))
      → (is_leased (f row).status ≡ true
          → (is_leased row.status ≡ true) ⊎ (count (busy_in (store_key row)) table ≡ 0))
      → IsSound changed
  IsSound-update_one ok queue busy = record {
    one_id = one_id-changed;
    one_queued = one_queued-changed queue;
    one_leased = one_leased-changed busy;
    consistent =
        All-update_one IsConsistent (has_id row.id) f table row here (text_eq_refl row.id)
          (sound.one_id row.id) sound.consistent ok;
  }

-- An update of every row that passes `test`, which raises no flag.
pub record Quiet (row changed : Job) : Type 0 where
  pub keeps : Keeps row changed
  pub queue : is_queue changed.status ≡ true → is_queue row.status ≡ true
  pub busy : is_leased changed.status ≡ true → is_leased row.status ≡ true

and_true : (a b : Bool) → a ≡ true → b ≡ true → (a && b) ≡ true
and_true a b h k = rw (h, k)

module _ (row changed : Job) (q : Quiet row changed) where
  has_id-quiet : (id : Text) → has_id id changed ≡ true → has_id id row ≡ true
  has_id-quiet id e = rw q.keeps.id at e

  queued_for-quiet :
      (repo_path : Text) → queued_for repo_path changed ≡ true → queued_for repo_path row ≡ true
  queued_for-quiet repo_path e =
      let (named, queue) = and_parts (text_eq changed.repo_path repo_path) _ e in
      and_true _ _ (rw q.keeps.repo_path at named) (q.queue queue)

  busy_in-quiet : (key : Text) → busy_in key changed ≡ true → busy_in key row ≡ true
  busy_in-quiet key e =
      let (named, busy) = and_parts (text_eq (store_key changed) key) _ e in
      and_true _ _ (rw (q.keeps.store_id, q.keeps.repo_path) at named) (q.busy busy)

pub IsSound-update_where :
    (test : Job → Bool) (f : Job → Job) (table : Table)
    → IsSound table
    → ((row : Job) → test row ≡ true → Quiet row (f row))
    → ((row : Job) → test row ≡ true → IsConsistent row → IsConsistent (f row))
    → IsSound (update_where test f table)
IsSound-update_where test f table sound quiet ok = record {
  one_id = λ id. bounded (has_id id) (λ row q. has_id-quiet row (f row) q id) (sound.one_id id);
  one_queued = λ repo_path.
      bounded (queued_for repo_path) (λ row q. queued_for-quiet row (f row) q repo_path)
        (sound.one_queued repo_path);
  one_leased = λ key.
      bounded (busy_in key) (λ row q. busy_in-quiet row (f row) q key) (sound.one_leased key);
  consistent = All-update_where IsConsistent test f ok table sound.consistent;
}
  where
    bounded :
        (p : Job → Bool)
        → ((row : Job) → Quiet row (f row) → p (f row) ≡ true → p row ≡ true)
        → count p table ≤ 1
        → count p (update_where test f table) ≤ 1
    bounded p back one =
        le_trans (count-update_where-le p test f (λ row t. back row (quiet row t)) table) one
