-- ===== src/Sql/Finding.antt =====
-- What a read finds after a write.
use scs.Base.{
  ◌≡◌, refl, Bool, true, false, some, List, [], ◌∷◌, ◌++◌, Memᴰ, arith, any, inl, inr, Bool-cases,
  if◌then◌else◌, count, ◌≤◌, ◌&&◌, filter_by, subst,
}
use scs.Sql.Statements.{update_where, find_row}
use scs.Sql.Selecting.{mem-cons-cases}

pub find_row-update_where {ℓ} :
    {A : Type ℓ} (test : A → Bool) (f : A → A) (xs : List A) {a : A}
    → find_row test xs ≡ some a
    → test (f a) ≡ true
    → find_row test (update_where test f xs) ≡ some (f a)
unfolding find_row
find_row-update_where test f [] h t = cc
find_row-update_where test f (x ∷ xs) {a} h t = elim (Bool-cases (test x)) [
  | inl e ↦ let same : x ≡ a = ground arith in ground arith
  | inr e ↦ ground (arith, find_row-update_where test f xs {a = a})
]

pub find_row-append {ℓ} :
    {A : Type ℓ} (test : A → Bool) (xs : List A) (a : A)
    → any test xs ≡ false
    → test a ≡ true
    → find_row test (xs ++ a ∷ []) ≡ some a
unfolding find_row
find_row-append test [] a h t = rw t
find_row-append test (x ∷ xs) a h t = ground (arith, find_row-append test xs a)

-- An update of other rows does not matter.
pub find_row-update_other {ℓ} :
    {A : Type ℓ} (test other : A → Bool) (f : A → A) (xs : List A)
    → ((a : A) → test (f a) ≡ test a)
    → ((a : A) → test a ≡ true → other a ≡ false)
    → find_row test (update_where other f xs) ≡ find_row test xs
unfolding find_row
find_row-update_other test other f [] k h = refl
find_row-update_other test other f (x ∷ xs) k h =
    ground (arith, k x, h x, find_row-update_other test other f xs k h)

-- An update that does not change what the test reads.
pub find_row-updated {ℓ} :
    {A : Type ℓ} (test other : A → Bool) (f : A → A) (xs : List A) {a : A}
    → ((b : A) → test (f b) ≡ test b)
    → find_row test xs ≡ some a
    → find_row test (update_where other f xs) ≡ some (if other a then f a else a)
unfolding find_row
find_row-updated test other f [] k h = cc
find_row-updated test other f (x ∷ xs) {a} k h = elim (Bool-cases (test x)) [
  | inl e ↦ let same : x ≡ a = ground arith in ground (arith, k x)
  | inr e ↦ ground (arith, k x, find_row-updated test other f xs {a = a} k)
]

pub mem-filter_by-test {ℓ} :
    {A : Type ℓ} (test : A → Bool) (xs : List A) {a : A}
    → Memᴰ a (filter_by test xs)
    → test a ≡ true
mem-filter_by-test test [] m = elim m [ ]
mem-filter_by-test test (x ∷ xs) {a} m = elim (Bool-cases (test x)) [
  | inl e ↦ elim (mem-cons-cases {x = x} {xs = filter_by test xs} (subst (Memᴰ a) (rw e) m)) [
    | inl d ↦ rw d e
    | inr n ↦ mem-filter_by-test test xs n
  ]
  | inr e ↦ mem-filter_by-test test xs (subst (Memᴰ a) (rw e) m)
]

-- A row that is kept is found as before.
pub find_row-filter_by {ℓ} :
    {A : Type ℓ} (test kept : A → Bool) (xs : List A)
    → ((a : A) → test a ≡ true → kept a ≡ true)
    → find_row test (filter_by kept xs) ≡ find_row test xs
unfolding find_row
find_row-filter_by test kept [] h = refl
find_row-filter_by test kept (x ∷ xs) h = ground (arith, h x, find_row-filter_by test kept xs h)

pub count-and-le {ℓ} :
    {A : Type ℓ} (p q : A → Bool) (xs : List A) → count (λ x. p x && q x) xs ≤ count p xs
count-and-le p q [] = omega arith
count-and-le p q (x ∷ xs) = ground (arith, count-and-le p q xs)

pub any-pos {ℓ} : {A : Type ℓ} (p : A → Bool) (xs : List A) → 1 ≤ count p xs → any p xs ≡ true
any-pos p [] h = absurd (omega arith)
any-pos p (x ∷ xs) h = ground (arith, any-pos p xs)
