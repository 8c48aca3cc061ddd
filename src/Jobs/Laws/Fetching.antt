-- ===== src/Jobs/Laws/Fetching.antt =====
-- Reading a row back in a sound table (src/scs/indexing/jobs.py, `_get_locked`).
use scs.Base.{
  ◌≡◌, ap, false, some, [], ◌∷◌, ◌++◌, Memᴰ, Text, ok, arith, any, text_eq, text_eq_refl,
  text_eq→eq,
}
use scs.Jobs.Record.{Job}
use scs.Sql.{update_where, find_row}
use scs.Jobs.Rows.{Table, has_id, get_locked}
use scs.Jobs.Sound.{IsSound}
use scs.Sql.Counting.{find_row-some, count-pos}
use scs.Sql.Finding.{find_row-update_where, find_row-append, find_row-update_other}
use scs.Sql.Selecting.{find_row-pos, unique-eq}

-- The row that an id names.
pub get_locked-mem :
    (table : Table)
    → IsSound table
    → (row : Job) → Memᴰ row table
    → get_locked row.id table ≡ ok row
unfolding get_locked
get_locked-mem table sound row here =
    let (other, found) =
      find_row-pos (has_id row.id) table
        (count-pos (has_id row.id) table here (text_eq_refl row.id)) in
    let (there, same) = find_row-some (has_id row.id) table found in
    let equal =
      unique-eq (has_id row.id) table there here same (text_eq_refl row.id) (sound.one_id row.id) in
    rw (found, get_locked, equal)

-- The row that an update by id has changed.
pub get_locked-update :
    (id : Text) (f : Job → Job) (table : Table) {row : Job}
    → get_locked id table ≡ ok row
    → (f row).id ≡ row.id
    → get_locked id (update_where (has_id id) f table) ≡ ok (f row)
unfolding get_locked
get_locked-update id f table {row} h keeps =
    let found : find_row (has_id id) table ≡ some row = ground arith in
    let (_, named) = find_row-some (has_id id) table found in
    rw (find_row-update_where (has_id id) f table found (rw keeps named), get_locked)

-- A row that was appended under a fresh id.
pub get_locked-append :
    (table : Table) (row : Job)
    → any (has_id row.id) table ≡ false
    → get_locked row.id (table ++ row ∷ []) ≡ ok row
unfolding get_locked
get_locked-append table row fresh =
    rw (find_row-append (has_id row.id) table row fresh (text_eq_refl row.id), get_locked)

pub get_locked-update_other :
    (id : Text) (other : Text) (f : Job → Job) (table : Table)
    → ((row : Job) → (f row).id ≡ row.id)
    → text_eq id other ≡ false
    → get_locked id (update_where (has_id other) f table) ≡ get_locked id table
unfolding get_locked
get_locked-update_other id other f table keeps differ = rw (
  find_row-update_other (has_id id) (has_id other) f table
      (λ row. ap (λ x. text_eq x id) (keeps row)) (λ row e. rw (text_eq→eq row.id id e) differ),
  get_locked,
)
