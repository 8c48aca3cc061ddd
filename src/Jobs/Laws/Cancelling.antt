-- ===== src/Jobs/Laws/Cancelling.antt =====
-- `request_cancel_all` (src/scs/indexing/jobs.py): what a cancellation of everything reaches.
use scs.Base.{
  ℕ, ◌≤◌, ◌≡◌, refl, ◌∙◌, Bool, true, false, List, [], ◌∷◌, Memᴰ, Text, ok, arith, count, length,
  filter_by, text_eq_refl,
}
use scs.Jobs.Record.{Job, is_queue, is_active, is_drop}
use scs.Sql.{update_where, select_all}
use scs.Jobs.Rows.{Table, has_id, get_locked}
use scs.Jobs.Queue.Finish.{release}
use scs.Jobs.Queue.Cancel.{
  request_cancel_all, cancel_all_rows, reread_all, ask_to_stop, index_work, is_running,
  created_then_id,
}
use scs.Sql.Counting.{count-pos}
use scs.Sql.Selecting.{mem-select_all, length-select_all, count-update_where-eq, find_row-pos}

module _ {ℓ} {A : Type ℓ} where
  -- Rows that pass `p` are left alone by an update of rows that do not.
  pub filter-update_where :
      (p test : A → Bool) (f : A → A)
      → ((a : A) → test a ≡ true → p a ≡ false)
      → ((a : A) → p (f a) ≡ p a)
      → (xs : List A) → filter_by p (update_where test f xs) ≡ filter_by p xs
  filter-update_where p test f h k [] = refl
  filter-update_where p test f h k (x ∷ xs) =
      ground (arith, h x, k x, filter-update_where p test f h k xs)

  -- An update after which the test fails leaves no row that passes it.
  count-update_where-zero :
      (p test : A → Bool) (f : A → A)
      → ((a : A) → test a ≡ true → p (f a) ≡ false)
      → ((a : A) → test a ≡ false → p a ≡ false)
      → (xs : List A) → count p (update_where test f xs) ≡ 0
  count-update_where-zero p test f h k [] = refl
  count-update_where-zero p test f h k (x ∷ xs) =
      ground (arith, h x, k x, count-update_where-zero p test f h k xs)

  count-update_where_zero_kept :
      (p test : A → Bool) (f : A → A)
      → ((a : A) → test a ≡ true → p (f a) ≡ false)
      → (xs : List A) → count p xs ≡ 0
      → count p (update_where test f xs) ≡ 0
  count-update_where_zero_kept p test f h [] z = refl
  count-update_where_zero_kept p test f h (x ∷ xs) z =
      ground (arith, h x, count-update_where_zero_kept p test f h xs)

module _ (now : ℕ) (table : Table) where
  abbrev released : Table
  released = update_where (index_work is_queue) (release now) table

  cancel_all_rows_none_queued : count (index_work is_queue) (cancel_all_rows now table) ≡ 0
  unfolding cancel_all_rows
  cancel_all_rows_none_queued =
      count-update_where_zero_kept (index_work is_queue) (index_work is_running) (ask_to_stop now)
        (λ row t. ground arith) released
        (count-update_where-zero (index_work is_queue) (index_work is_queue) (release now)
          (λ row t. ground arith) (λ row t. t) table)

  cancel_all_rows_none_running : count (index_work is_running) (cancel_all_rows now table) ≡ 0
  unfolding cancel_all_rows
  cancel_all_rows_none_running =
      count-update_where-zero (index_work is_running) (index_work is_running) (ask_to_stop now)
        (λ row t. ground arith) (λ row t. t) released

  cancel_all_rows_deletions :
      filter_by (λ row. is_drop row.mode) (cancel_all_rows now table)
      ≡ filter_by (λ row. is_drop row.mode) table
  unfolding cancel_all_rows
  cancel_all_rows_deletions =
      filter-update_where (λ row. is_drop row.mode) (index_work is_running) (ask_to_stop now)
        (λ row t. ground arith) (λ row. refl) released
      ∙ filter-update_where (λ row. is_drop row.mode) (index_work is_queue) (release now)
          (λ row t. ground arith) (λ row. refl) table

  count_id-cancel_all_rows :
      (id : Text) → count (has_id id) (cancel_all_rows now table) ≡ count (has_id id) table
  unfolding cancel_all_rows
  count_id-cancel_all_rows id =
      count-update_where-eq (has_id id) (index_work is_running) (ask_to_stop now) (λ row. refl)
        released
      ∙ count-update_where-eq (has_id id) (index_work is_queue) (release now) (λ row. refl) table

get_locked-pos :
    (id : Text) (table : Table)
    → 1 ≤ count (has_id id) table
    → (job : Job) × (get_locked id table ≡ ok job)
unfolding get_locked
get_locked-pos id table h =
    let (job, found) = find_row-pos (has_id id) table h in (job, rw (found, get_locked))

reread_all-pos :
    (rows table : Table)
    → ((row : Job) → Memᴰ row rows → 1 ≤ count (has_id row.id) table)
    → (jobs : List Job) × (reread_all rows table ≡ ok jobs) × (length jobs ≡ length rows)
unfolding reread_all
reread_all-pos [] table h = ([], refl, refl)
reread_all-pos (row ∷ rows) table h =
    let (job, found) = get_locked-pos row.id table (h row (Memᴰ.head refl)) in
    let (jobs, rest, long) = reread_all-pos rows table (λ r m. h r (Memᴰ.tail m)) in
    (job ∷ jobs, rw (found, rest), omega (arith, long))

-- Cancelling everything always answers, with one job for each active job that is no deletion.
-- Afterwards no such job is queued, retrying or running, and every deletion is as it was.
pub request_cancel_all_reach :
    (now : ℕ) (table : Table)
    → (changed : Table) × (jobs : List Job) × (request_cancel_all now table ≡ ok (changed, jobs))
      × (length jobs ≡ count (index_work is_active) table)
      × (count (index_work is_queue) changed ≡ 0)
      × (count (index_work is_running) changed ≡ 0)
      × (filter_by (λ row. is_drop row.mode) changed ≡ filter_by (λ row. is_drop row.mode) table)
unfolding request_cancel_all
request_cancel_all_reach now table =
    let rows = select_all created_then_id (index_work is_active) table in
    let changed = cancel_all_rows now table in
    let (jobs, done, long) = reread_all-pos rows changed (λ row m.
      let (here, _) = mem-select_all created_then_id (index_work is_active) table m in
      omega (
        arith,
        count_id-cancel_all_rows now table row.id,
        count-pos (has_id row.id) table here (text_eq_refl row.id),
      )) in
    (
      changed,
      jobs,
      rw (done, request_cancel_all),
      long ∙ length-select_all created_then_id (index_work is_active) table,
      cancel_all_rows_none_queued now table,
      cancel_all_rows_none_running now table,
      cancel_all_rows_deletions now table,
    )
