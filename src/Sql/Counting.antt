-- ===== src/Sql/Counting.antt =====
-- What a selected row is, and how an update counts.
use scs.Base.{
  ◌+◌, ◌≤◌, ◌≡◌, refl, Bool, true, false, Option, none, some, List, [], ◌∷◌, Memᴰ, arith, bit,
  count, All, not, ◌&&◌, ◌⊎◌, inl, inr, Bool-cases, sym,
}
use scs.Sql.Statements.{update_where, choose, select_first, find_row}

module _ {ℓ} {A : Type ℓ} where
  pub count-pos :
      (test : A → Bool) (xs : List A) {a : A} → Memᴰ a xs → test a ≡ true → 1 ≤ count test xs
  count-pos test [] m h = elim m [ ]
  count-pos test (x ∷ xs) (Memᴰ.head e) h = ground (arith, e)
  count-pos test (x ∷ xs) (Memᴰ.tail m) h = omega (arith, count-pos test xs m h)

  pub find_row-some :
      (test : A → Bool) (xs : List A) {a : A}
      → find_row test xs ≡ some a
      → Memᴰ a xs × (test a ≡ true)
  unfolding find_row
  find_row-some test [] h = cc
  find_row-some test (x ∷ xs) h = elim (Bool-cases (test x)) [
    | inl e ↦ (Memᴰ.head (ground arith), ground arith)
    | inr e ↦ let (m, t) = find_row-some test xs (rw (e, find_row) at h) in (Memᴰ.tail m, t)
  ]

  choose-cases :
      (before : A → A → Bool) (x : A) (rest : Option A) (a : A)
      → choose before x rest ≡ a
      → (a ≡ x) ⊎ (rest ≡ some a)
  choose-cases before x none a h = inl (sym h)
  choose-cases before x (some o) a h = ground arith

  pub select_first-some :
      (before : A → A → Bool) (test : A → Bool) (xs : List A) {a : A}
      → select_first before test xs ≡ some a
      → Memᴰ a xs × (test a ≡ true)
  unfolding select_first
  select_first-some before test [] h = cc
  select_first-some before test (x ∷ xs) {a} h = elim (Bool-cases (test x)) [
    | inl e ↦ elim (choose-cases before x (select_first before test xs) a (ground arith)) [
      | inl same ↦ (Memᴰ.head same, ground arith)
      | inr later ↦ let (m, t) = select_first-some before test xs later in (Memᴰ.tail m, t)
    ]
    | inr e ↦
        let (m, t) = select_first-some before test xs {a = a} (ground arith) in (Memᴰ.tail m, t)
  ]

  pub select_first-none :
      (before : A → A → Bool) (test : A → Bool) (xs : List A)
      → select_first before test xs ≡ none
      → count test xs ≡ 0
  unfolding select_first
  select_first-none before test [] h = refl
  select_first-none before test (x ∷ xs) h = ground (arith, select_first-none before test xs)

  pub update_where-none :
      (test : A → Bool) (f : A → A) (xs : List A) → count test xs ≡ 0 → update_where test f xs ≡ xs
  update_where-none test f [] h = refl
  update_where-none test f (x ∷ xs) h = ground (arith, update_where-none test f xs)

  -- An update that makes no row pass leaves the count no larger.
  pub count-update_where-le :
      (p test : A → Bool) (f : A → A)
      → ((a : A) → test a ≡ true → p (f a) ≡ true → p a ≡ true)
      → (xs : List A) → count p (update_where test f xs) ≤ count p xs
  count-update_where-le p test f h [] = omega arith
  count-update_where-le p test f h (x ∷ xs) =
      ground (arith, h x, count-update_where-le p test f h xs)

  -- One row, which alone passes the test: the count changes by that row.
  pub count-update_one :
      (p test : A → Bool) (f : A → A) (xs : List A) (a : A)
      → Memᴰ a xs
      → test a ≡ true
      → count test xs ≤ 1
      → count p (update_where test f xs) + bit (p a) ≡ count p xs + bit (p (f a))
  count-update_one p test f [] a m t h = elim m [ ]
  count-update_one p test f (x ∷ xs) a (Memᴰ.head e) t h =
      ground (arith, e, update_where-none test f xs)
  count-update_one p test f (x ∷ xs) a (Memᴰ.tail m) t h =
      ground (arith, count-pos test xs m t, count-update_one p test f xs a m t)

  count-and_not_none :
      (p test : A → Bool) (xs : List A)
      → count test xs ≡ 0
      → count (λ r. p r && not (test r)) xs ≡ count p xs
  count-and_not_none p test [] h = refl
  count-and_not_none p test (x ∷ xs) h = ground (arith, count-and_not_none p test xs)

  -- Without the row itself one less passes, if the row passes.
  pub count-other :
      (p test : A → Bool) (xs : List A) (a : A)
      → Memᴰ a xs
      → test a ≡ true
      → count test xs ≤ 1
      → count p xs ≡ count (λ r. p r && not (test r)) xs + bit (p a)
  count-other p test [] a m t h = elim m [ ]
  count-other p test (x ∷ xs) a (Memᴰ.head e) t h = ground (arith, e, count-and_not_none p test xs)
  count-other p test (x ∷ xs) a (Memᴰ.tail m) t h =
      ground (arith, count-pos test xs m t, count-other p test xs a m t)

pub All-update_one {ℓ κ} :
    {A : Type ℓ} (P : A → Type κ) (test : A → Bool) (f : A → A) (xs : List A) (a : A)
    → Memᴰ a xs
    → test a ≡ true
    → count test xs ≤ 1
    → All P xs
    → P (f a)
    → All P (update_where test f xs)
All-update_one P test f [] a m t h all c = elim m [ ]
All-update_one P test f (x ∷ xs) a (Memᴰ.head e) t h all c =
    let passes : test x ≡ true = rw e at t in
    let rest : count test xs ≡ 0 = ground arith in
    rw (passes, update_where-none test f xs rest) (rw e at c, all.1)
All-update_one P test f (x ∷ xs) a (Memᴰ.tail m) t h all c =
    let fails : test x ≡ false = ground (arith, count-pos test xs m t) in
    rw fails (all.0, All-update_one P test f xs a m t (omega arith) all.1 c)

pub All-update_where {ℓ κ} :
    {A : Type ℓ} (P : A → Type κ) (test : A → Bool) (f : A → A)
    → ((a : A) → test a ≡ true → P a → P (f a))
    → (xs : List A) → All P xs
    → All P (update_where test f xs)
All-update_where P test f h [] all = tt
All-update_where P test f h (x ∷ xs) all = elim (Bool-cases (test x)) [
  | inl e ↦ rw e (h x e all.0, All-update_where P test f h xs all.1)
  | inr e ↦ rw e (all.0, All-update_where P test f h xs all.1)
]

pub All-mem {ℓ κ} : {A : Type ℓ} (P : A → Type κ) (xs : List A) {a : A} → Memᴰ a xs → All P xs → P a
All-mem P [] m all = elim m [ ]
All-mem P (x ∷ xs) (Memᴰ.head e) all = rw e all.0
All-mem P (x ∷ xs) (Memᴰ.tail m) all = All-mem P xs m all.1
