-- ===== src/Jobs/Laws/Claiming.antt =====
-- `claim_next` (src/scs/indexing/jobs.py): which job a worker gets.
use scs.Base.{
  ℕ, ◌≡◌, refl, ◌⊎◌, inl, inr, Bool, true, false, Option, none, some, List, [], ◌∷◌, Memᴰ, Text, ok,
  arith, Option-cases, Bool-cases, any, count,
}
use scs.Jobs.Record.{Job, is_queue}
use scs.Sql.{update_where, select_first, choose}
use scs.Jobs.Rows.{Table, has_id}
use scs.Jobs.Queue.Claim.{
  claim_next, claimable, claimed_before, lease, utc_after, busy_in, store_key,
}
use scs.Jobs.Sound.{IsSound}
use scs.Sql.Counting.{select_first-none, select_first-some, count-pos}
use scs.Jobs.Laws.Fetching.{get_locked-mem, get_locked-update}

-- Of a total preorder `select_first` takes a least row.
module _ {ℓ} {A : Type ℓ} (before : A → A → Bool)
    (total : (a b : A) → before a b ≡ false → before b a ≡ true)
    (trans : (a b c : A) → before a b ≡ true → before b c ≡ true → before a c ≡ true) where
  before_refl : (a : A) → before a a ≡ true
  before_refl a = elim (Bool-cases (before a a)) [ inl e ↦ e | inr e ↦ total a a e ]

  choose-le :
      (x o : A)
      → (before (choose before x (some o)) x ≡ true) × (before (choose before x (some o)) o ≡ true)
  choose-le x o = ground (arith, before_refl x, before_refl o, total x o)

  choose-left : (x : A) (rest : Option A) → before (choose before x rest) x ≡ true
  choose-left x none = before_refl x
  choose-left x (some o) = (choose-le x o).0

  pub select_first-least :
      (test : A → Bool) (xs : List A) (a b : A)
      → select_first before test xs ≡ some a
      → Memᴰ b xs
      → test b ≡ true
      → before a b ≡ true
  unfolding select_first
  select_first-least test [] a b h m t = elim m [ ]
  select_first-least test (x ∷ xs) a b h (Memᴰ.head e) t =
      let rest = select_first before test xs in
      let same : a ≡ choose before x rest = ground (arith, e) in rw (same, e) (choose-left x rest)
  select_first-least test (x ∷ xs) a b h (Memᴰ.tail m) t =
      elim (Option-cases (select_first before test xs)) [
        | inl r ↦ absurd (omega (arith, count-pos test xs m t, select_first-none before test xs r))
        | inr (o, r) ↦
            let below = select_first-least test xs o b r m t in
            elim (Bool-cases (test x)) [
              | inl e ↦
                  let same : a ≡ choose before x (some o) = ground arith in
                  rw same (trans (choose before x (some o)) o b (choose-le x o).1 below)
              | inr e ↦ let same : a ≡ o = ground arith in rw same below
            ]
      ]

claimed_before-total : (a b : Job) → claimed_before a b ≡ false → claimed_before b a ≡ true
claimed_before-total a b h = ground arith

claimed_before_trans :
    (a b c : Job)
    → claimed_before a b ≡ true
    → claimed_before b c ≡ true
    → claimed_before a c ≡ true
claimed_before_trans a b c h k = ground arith

-- What a worker is handed: a job that was waiting, in a store with no job under a lease, before
-- which no other such job comes; it is handed over running, leased to the worker.
pub record IsClaim (now clock : ℕ) (owner : Text) (seconds : ℕ) (table : Table) (job row : Job)
    : Type 0 where
  pub known : Memᴰ row table
  pub waiting : is_queue row.status ≡ true
  pub store_free : any (busy_in (store_key row)) table ≡ false
  pub first :
      (other : Job)
      → Memᴰ other table
      → claimable table other ≡ true
      → claimed_before row other ≡ true
  pub leased : job ≡ lease now owner (utc_after clock seconds) row

-- A claim answers with a job exactly if some job is claimable, and then with the first of them.
pub claim_next-IsClaim :
    (now clock : ℕ) (owner : Text) (seconds : ℕ) (table : Table)
    → IsSound table
    → (count (claimable table) table ≡ 0)
        × (claim_next now clock owner seconds table ≡ ok (table, none))
      ⊎ ((job : Job) × (row : Job) × IsClaim now clock owner seconds table job row
          × (claim_next now clock owner seconds table
              ≡ ok (
                update_where (has_id row.id) (lease now owner (utc_after clock seconds)) table,
                some job,
              )))
unfolding claim_next
claim_next-IsClaim now clock owner seconds table sound =
    elim (Option-cases (select_first claimed_before (claimable table) table)) [
      | inl e ↦ inl (select_first-none claimed_before (claimable table) table e, rw (e, claim_next))
      | inr (row, e) ↦
          let f = lease now owner (utc_after clock seconds) in
          let (here, t) = select_first-some claimed_before (claimable table) table e in
          let read = get_locked-update row.id f table (get_locked-mem table sound row here) refl in
          inr (
            f row,
            row,
            record {
              known = here;
              waiting = ground arith;
              store_free = ground arith;
              first = λ other there u.
                  select_first-least claimed_before claimed_before-total claimed_before_trans
                    (claimable table) table row other e there u;
              leased = refl;
            },
            rw (e, read, claim_next),
          )
    ]
