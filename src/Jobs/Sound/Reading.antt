-- ===== src/Jobs/Sound/Reading.antt =====
-- Lemmas on the reads of Jobs/Rows.
use scs.Base.{◌≡◌, Memᴰ, Text, ok, text_eq→eq, arith}
use scs.Sql.Counting.{find_row-some}
use scs.Jobs.Record.{Job}
use scs.Jobs.Rows.{Table, has_id, get_locked, answer}

pub get_locked-ok :
    (id : Text) (table : Table) {row : Job}
    → get_locked id table ≡ ok row
    → Memᴰ row table × (row.id ≡ id)
unfolding get_locked
get_locked-ok id table {row} h =
    let (m, t) = find_row-some (has_id id) table {a = row} (ground arith) in
    (m, text_eq→eq row.id id t)

pub answer-ok :
    (id : Text) (changed : Table) {table : Table} {job : Job}
    → answer id changed ≡ ok (table, job)
    → (changed ≡ table) × (get_locked id changed ≡ ok job)
unfolding answer
answer-ok id changed h = ground arith
