-- ===== src/Sql/Statements.antt =====
-- The SQL statements of the stores (src/scs/indexing/jobs.py, src/scs/storage/catalog.py) over a
-- table, a list of rows in the order of their insertion.
use scs.Base.{Bool, Option, none, some, List, [], ◌∷◌, if◌then◌else◌}

-- `SELECT`, `UPDATE` and `ORDER BY` over rows of any kind.
module _ {ℓ} {A : Type ℓ} where
  -- `UPDATE ... SET ... WHERE test`
  abbrev pub update_where : (A → Bool) → (A → A) → List A → List A
  update_where test assign [] = []
  update_where test assign (row ∷ rows) =
      (if test row then assign row else row) ∷ update_where test assign rows

  abbrev pub choose : (A → A → Bool) → A → Option A → A
  choose before row none = row
  choose before row (some other) = if before row other then row else other

  -- `SELECT * ... WHERE test ORDER BY ... LIMIT 1`: `before row other` says that `row`, which was
  -- inserted earlier, comes before `other`.
  unfoldable pub select_first : (A → A → Bool) → (A → Bool) → List A → Option A
  select_first before test [] = none
  select_first before test (row ∷ rows) =
      let rest = select_first before test rows in
      if test row then some (choose before row rest) else rest

  abbrev pub insert_before : (A → A → Bool) → A → List A → List A
  insert_before before row [] = row ∷ []
  insert_before before row (next ∷ rest) =
      let later = insert_before before row rest in
      if before row next then row ∷ next ∷ rest else next ∷ later

  -- `SELECT * ... WHERE test ORDER BY ...`; rows with equal keys stay in the order of insertion.
  unfoldable pub select_all : (A → A → Bool) → (A → Bool) → List A → List A
  select_all before test [] = []
  select_all before test (row ∷ rows) =
      let rest = select_all before test rows in
      if test row then insert_before before row rest else rest

  -- `fetchone()` of the rows that pass, in the order of insertion.
  unfoldable pub find_row : (A → Bool) → List A → Option A
  find_row test [] = none
  find_row test (row ∷ rows) = let rest = find_row test rows in if test row then some row else rest
