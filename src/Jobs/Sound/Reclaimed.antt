-- ===== src/Jobs/Sound/Reclaimed.antt =====
-- One stale row reclaimed, among the rows of a sound table (src/scs/indexing/jobs.py,
-- `reclaim_stale_running`).
use scs.Base.{
  ℕ, ◌+◌, ◌≤◌, ◌≡◌, refl, ap, ◌∙◌, true, false, Option, none, some, Memᴰ, Text, ok, arith, bit,
  count, inl, inr, Bool-cases, Option-cases, text_eq_refl, text_eq, and_parts, not,
}
use scs.Jobs.Record.{Job, is_queue, is_leased}
use scs.Sql.{update_where, select_first}
use scs.Jobs.Rows.{Table, has_id, older, queued_for, get}
use scs.Jobs.Queue.Finish.{absorb, attempt_status, other_queued}
use scs.Jobs.Queue.Reclaim.{
  reclaim_row, reclaimed_id, stale, foreign, counted_attempts, fold_reclaimed, settle_reclaimed,
  reclaim_note, reread,
}
use scs.Jobs.Sound.Defs.{IsSound, IsConsistent}
use scs.Sql.Counting.{select_first-none, select_first-some, count-update_one, count-pos}
use scs.Sql.Selecting.{
  mem-update_where, unique-eq, find_row-pos, count-and_none, count-update_where-eq,
}
use scs.Jobs.Sound.Update.{IsSound-update_one, IsSound-update_where}
use scs.Jobs.Sound.Bulk.{IsSound-absorb}

IsSound-fold_reclaimed :
    (now : ℕ) (table : Table)
    → IsSound table
    → (id : Text) → IsSound (update_where (has_id id) (fold_reclaimed now) table)
IsSound-fold_reclaimed now table sound id =
    IsSound-update_where (has_id id) (fold_reclaimed now) table sound (λ row t. ground arith)
      (λ row t c. ground arith)

settle_reclaimed-IsConsistent :
    (now attempts : ℕ) (note : Text) (row : Job)
    → IsConsistent
        (settle_reclaimed now (attempt_status attempts row.max_attempts) attempts note row)
settle_reclaimed-IsConsistent now attempts note row = ground arith

settled_idle :
    (now attempts limit : ℕ) (note : Text) (row : Job)
    → is_leased (settle_reclaimed now (attempt_status attempts limit) attempts note row).status
      ≡ false
settled_idle now attempts limit note row = ground arith

idle-stale :
    (now : ℕ) (owner : Option Text) (row : Job)
    → is_leased row.status ≡ false
    → stale now owner row ≡ false
idle-stale now owner row e = ground arith

stale-absorb :
    (now : ℕ) (owner : Option Text) (follow_up row r : Job)
    → stale now owner (absorb now follow_up row r) ≡ stale now owner r
stale-absorb now owner follow_up row r = ground arith

reread-pos :
    (id : Text) (table : Table)
    → 1 ≤ count (has_id id) table
    → (job : Job) × (reread id table ≡ ok job)
unfolding get
reread-pos id table h =
    let (job, found) = find_row-pos (has_id id) table h in (job, rw (found, reread))

-- One round, for a leased row of the table.
module _ (now : ℕ) (owner : Option Text) (table : Table) (sound : IsSound table) (row : Job)
    (here : Memᴰ row table) (busy : is_leased row.status ≡ true) where
  abbrev note : Text
  note = reclaim_note (foreign owner row)

  abbrev tries : ℕ
  tries = counted_attempts (foreign owner row) row.attempts

  abbrev settled : Job → Job
  settled = settle_reclaimed now (attempt_status tries row.max_attempts) tries note

  abbrev follow_up? : Option Job
  follow_up? = select_first older (queued_for row.repo_path) table

  none_else : follow_up? ≡ none → count (other_queued row.repo_path row.id) table ≡ 0
  none_else e =
      count-and_none (queued_for row.repo_path) (λ r. not (has_id row.id r)) table
        (select_first-none older (queued_for row.repo_path) table e)

  pub reclaim_row-IsSound : IsSound (reclaim_row now owner row table)
  unfolding reclaim_row
  reclaim_row-IsSound = elim (Option-cases follow_up?) [
    | inl e ↦
        rw (e, reclaim_row)
          (IsSound-update_one table sound row here settled (ground arith)
            (settle_reclaimed-IsConsistent now tries note row) (λ q. inr (none_else e))
            (λ l. inl busy))
    | inr (follow_up, e) ↦
        rw (e, reclaim_row)
          (IsSound-fold_reclaimed now _
            (IsSound-absorb now table sound (has_id follow_up.id) follow_up row) row.id)
  ]

  pub count_id-reclaim_row :
      (id : Text) → count (has_id id) (reclaim_row now owner row table) ≡ count (has_id id) table
  unfolding reclaim_row
  count_id-reclaim_row id = elim (Option-cases follow_up?) [
    | inl e ↦
        rw (e, reclaim_row)
          (count-update_where-eq (has_id id) (has_id row.id) settled (λ r. refl) table)
    | inr (follow_up, e) ↦
        rw (e, reclaim_row)
          (count-update_where-eq (has_id id) (has_id row.id) (fold_reclaimed now) (λ r. refl) _
            ∙ count-update_where-eq (has_id id) (has_id follow_up.id) (absorb now follow_up row)
                (λ r. refl) table)
  ]

  -- A leased row is not the follow-up.
  other_id :
      (follow_up r : Job)
      → follow_up? ≡ some follow_up
      → Memᴰ r table
      → is_leased r.status ≡ true
      → has_id follow_up.id r ≡ false
  other_id follow_up r e m l = elim (Bool-cases (has_id follow_up.id r)) [
    | inr differ ↦ differ
    | inl same ↦
        let (there, queue) = select_first-some older (queued_for row.repo_path) table e in
        let equal =
          unique-eq (has_id follow_up.id) table m there same (text_eq_refl follow_up.id)
            (sound.one_id follow_up.id) in
        let waits = (and_parts (text_eq follow_up.repo_path row.repo_path) _ queue).1 in
        absurd (idle follow_up (rw equal at l) waits)
  ]
    where
      idle : (r : Job) → is_leased r.status ≡ true → is_queue r.status ≡ true → ⊥
      idle r a b = ground arith

  pub mem-reclaim_row :
      (r : Job)
      → Memᴰ r table
      → is_leased r.status ≡ true
      → has_id row.id r ≡ false
      → Memᴰ r (reclaim_row now owner row table)
  unfolding reclaim_row
  mem-reclaim_row r m l differ = elim (Option-cases follow_up?) [
    | inl e ↦ rw (e, reclaim_row) (mem-update_where (has_id row.id) settled table m differ)
    | inr (follow_up, e) ↦
        rw (e, reclaim_row)
          (mem-update_where (has_id row.id) (fold_reclaimed now) _
            (mem-update_where (has_id follow_up.id) (absorb now follow_up row) table m
              (other_id follow_up r e m l))
            differ)
  ]

  -- One stale row less.
  pub count-stale-reclaim_row :
      stale now owner row ≡ true
      → count (stale now owner) (reclaim_row now owner row table) + 1
        ≤ count (stale now owner) table
  unfolding reclaim_row
  count-stale-reclaim_row old = elim (Option-cases follow_up?) [
    | inl e ↦
        rw (e, reclaim_row)
          (omega (
            arith,
            ap bit old,
            ap bit (idle-stale now owner _ (settled_idle now tries row.max_attempts note row)),
            count-update_one (stale now owner) (has_id row.id) settled table row here
                (text_eq_refl row.id) (sound.one_id row.id),
          ))
    | inr (follow_up, e) ↦
        let absorbed = update_where (has_id follow_up.id) (absorb now follow_up row) table in
        let still = IsSound-absorb now table sound (has_id follow_up.id) follow_up row in
        let there =
          mem-update_where (has_id follow_up.id) (absorb now follow_up row) table here
            (other_id follow_up row e here busy) in
        rw (e, reclaim_row)
          (omega (
            arith,
            ap bit old,
            ap bit (idle-stale now owner (fold_reclaimed now row) refl),
            count-update_where-eq (stale now owner) (has_id follow_up.id) (absorb now follow_up row)
                (stale-absorb now owner follow_up row) table,
            count-update_one (stale now owner) (has_id row.id) (fold_reclaimed now) absorbed row
                there (text_eq_refl row.id) (still.one_id row.id),
          ))
  ]

  reclaimed_id-pos : 1 ≤ count (has_id (reclaimed_id row table)) table
  reclaimed_id-pos = elim (Option-cases follow_up?) [
    | inl e ↦ rw (e, reclaimed_id) (count-pos (has_id row.id) table here (text_eq_refl row.id))
    | inr (follow_up, e) ↦
        let (there, _) = select_first-some older (queued_for row.repo_path) table e in
        rw (e, reclaimed_id)
          (count-pos (has_id follow_up.id) table there (text_eq_refl follow_up.id))
  ]

  pub reread-reclaim_row :
      (job : Job) × (reread (reclaimed_id row table) (reclaim_row now owner row table) ≡ ok job)
  reread-reclaim_row =
      reread-pos (reclaimed_id row table) (reclaim_row now owner row table)
        (omega (arith, count_id-reclaim_row (reclaimed_id row table), reclaimed_id-pos))

-- What the loop needs of the rows that it has still to visit.
