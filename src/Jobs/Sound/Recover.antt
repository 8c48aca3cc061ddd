-- ===== src/Jobs/Sound/Recover.antt =====
-- `reclaim_stale_running` (src/scs/indexing/jobs.py): it always answers, keeps the invariant, and
-- leaves no stale row.
use native.Mathlib.Nat.{le_trans}
use scs.Base.{
  ℕ, ◌+◌, ◌≤◌, ◌≡◌, refl, ap, subst, Bool, true, false, Option, List, [], ◌∷◌, Memᴰ, Text, Outcome,
  ok, arith, bit, count, length, inl, inr, Bool-cases, text_eq_refl,
}
use scs.Jobs.Record.{Job, is_leased}
use scs.Sql.{select_all}
use scs.Jobs.Rows.{Table, has_id, older}
use scs.Jobs.Queue.Reclaim.{reclaim_stale_running, reclaim_rows, reclaim_row, stale, own_name}
use scs.Jobs.Sound.Defs.{IsSound}
use scs.Sql.Counting.{count-pos}
use scs.Sql.Selecting.{length-select_all, count-select_all-le, mem-select_all}
use scs.Jobs.Sound.Reclaimed.{
  reclaim_row-IsSound, mem-reclaim_row, count-stale-reclaim_row, reread-reclaim_row,
}

pub record Pending (now : ℕ) (owner : Option Text) (rows table : Table) : Type 0 where
  pub known : (r : Job) → Memᴰ r rows → Memᴰ r table × (stale now owner r ≡ true)
  pub apart : (id : Text) → count (has_id id) rows ≤ 1

stale-leased :
    (now : ℕ) (owner : Option Text) (row : Job)
    → stale now owner row ≡ true
    → is_leased row.status ≡ true
stale-leased now owner row e = ground arith

-- The state after the loop.
abbrev Recovered : ℕ → Option Text → Table → Table → Outcome (Table × List Job) → Type 0
Recovered now owner rows table out =
    (changed : Table) × (jobs : List Job) × (out ≡ ok (changed, jobs))
    × IsSound changed
    × (count (stale now owner) changed + length rows ≤ count (stale now owner) table)
    × (length jobs ≡ length rows)

Pending-tail :
    (now : ℕ) (owner : Option Text) (row : Job) (rows table : Table) (sound : IsSound table)
    → Pending now owner (row ∷ rows) table
    → Pending now owner rows (reclaim_row now owner row table)
Pending-tail now owner row rows table sound p = record {
  known = λ r m.
      let (there, old) = p.known r (Memᴰ.tail m) in
      let (here, first) = p.known row (Memᴰ.head refl) in
      (
        mem-reclaim_row now owner table sound row here (stale-leased now owner row first) r there
            (stale-leased now owner r old) (alone r m),
        old,
      );
  apart = λ id. omega (arith, p.apart id);
}
  where
    alone : (r : Job) → Memᴰ r rows → has_id row.id r ≡ false
    alone r m = elim (Bool-cases (has_id row.id r)) [
      | inr differ ↦ differ
      | inl same ↦ absurd (
          omega (
            arith,
            p.apart row.id,
            ap bit (text_eq_refl row.id),
            count-pos (has_id row.id) rows m same,
          ))
    ]

reclaim_rows-Recovered :
    (now : ℕ) (owner : Option Text) (rows table : Table)
    → IsSound table
    → Pending now owner rows table
    → Recovered now owner rows table (reclaim_rows now owner rows table)
unfolding reclaim_rows
reclaim_rows-Recovered now owner [] table sound p = (table, [], refl, sound, omega arith, refl)
reclaim_rows-Recovered now owner (row ∷ rows) table sound p =
    let (here, old) = p.known row (Memᴰ.head refl) in
    let busy = stale-leased now owner row old in
    let changed = reclaim_row now owner row table in
    let (job, again) = reread-reclaim_row now owner table sound row here busy in
    let (after, jobs, done, still, fewer, long) =
      reclaim_rows-Recovered now owner rows changed
        (reclaim_row-IsSound now owner table sound row here busy)
        (Pending-tail now owner row rows table sound p) in
    (
      after,
      job ∷ jobs,
      rw (again, done),
      still,
      omega (arith, fewer, count-stale-reclaim_row now owner table sound row here busy old),
      omega (arith, long),
    )

-- Recovery always answers. Afterwards the table is sound, no stale row is left, and the answer has
-- one job for each row that was stale.
pub reclaim_stale_running-recovers :
    (now : ℕ) (lease_owner : Option Text) (reclaim_other_owners : Bool) (table : Table)
    → IsSound table
    → (changed : Table) × (jobs : List Job) × (reclaim_stale_running now lease_owner
          reclaim_other_owners table
        ≡ ok (changed, jobs))
      × IsSound changed
      × (count (stale now (own_name reclaim_other_owners lease_owner)) changed ≡ 0)
      × (length jobs ≡ count (stale now (own_name reclaim_other_owners lease_owner)) table)
unfolding reclaim_stale_running
reclaim_stale_running-recovers now lease_owner reclaim_other_owners table sound =
    let owner = own_name reclaim_other_owners lease_owner in
    let rows = select_all older (stale now owner) table in
    let (changed, jobs, done, still, fewer, long) =
      reclaim_rows-Recovered now owner rows table sound (record {
        known = λ r m. mem-select_all older (stale now owner) table m;
        apart = λ id.
            le_trans (count-select_all-le older (stale now owner) (has_id id) table)
              (sound.one_id id);
      }) in
    let all = length-select_all older (stale now owner) table in
    (changed, jobs, done, still, omega (arith, fewer, all), omega (arith, long, all))

pub reclaim_stale_running-IsSound :
    (now : ℕ) (lease_owner : Option Text) (reclaim_other_owners : Bool) (table : Table)
    → IsSound table
    → {changed : Table} {jobs : List Job}
    → reclaim_stale_running now lease_owner reclaim_other_owners table ≡ ok (changed, jobs)
    → IsSound changed
reclaim_stale_running-IsSound now lease_owner reclaim_other_owners table sound h =
    let (after, answered, done, still, _, _) =
      reclaim_stale_running-recovers now lease_owner reclaim_other_owners table sound in
    subst IsSound (cc) still
