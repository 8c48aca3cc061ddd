-- ===== src/Sql/Deleting.antt =====
-- Lemmas on deleted and inserted rows.
use scs.Base.{
  ◌≤◌, ◌≡◌, refl, Bool, true, false, List, [], ◌∷◌, ◌++◌, Memᴰ, arith, count, any, All, not, inl,
  inr, Bool-cases, filter_by, count-append, subst,
}
use scs.Sql.Selecting.{mem-cons-cases}

module _ {ℓ} {A : Type ℓ} where
  pub count-filter_by-le :
      (p test : A → Bool) (xs : List A) → count p (filter_by test xs) ≤ count p xs
  count-filter_by-le p test [] = omega arith
  count-filter_by-le p test (x ∷ xs) = ground (arith, count-filter_by-le p test xs)

  -- A table without the deleted rows has none of them.
  pub count-deleted :
      (test : A → Bool) (xs : List A) → count test (filter_by (λ x. not (test x)) xs) ≡ 0
  count-deleted test [] = refl
  count-deleted test (x ∷ xs) = ground (arith, count-deleted test xs)

  pub filter_by_idle :
      (test : A → Bool) (xs : List A) → count test xs ≡ 0 → filter_by (λ x. not (test x)) xs ≡ xs
  filter_by_idle test [] h = refl
  filter_by_idle test (x ∷ xs) h = ground (arith, filter_by_idle test xs)

  pub mem-filter_by :
      (test : A → Bool) (xs : List A) {a : A} → Memᴰ a (filter_by test xs) → Memᴰ a xs
  mem-filter_by test [] m = m
  mem-filter_by test (x ∷ xs) {a} m = elim (Bool-cases (test x)) [
    | inl e ↦ elim (mem-cons-cases {x = x} {xs = filter_by test xs} (subst (Memᴰ a) (rw e) m)) [
      | inl d ↦ Memᴰ.head d
      | inr n ↦ Memᴰ.tail (mem-filter_by test xs n)
    ]
    | inr e ↦ Memᴰ.tail (mem-filter_by test xs (subst (Memᴰ a) (rw e) m))
  ]

  pub count-none : (p : A → Bool) (xs : List A) → any p xs ≡ false → count p xs ≡ 0
  count-none p [] h = refl
  count-none p (x ∷ xs) h = ground (arith, count-none p xs)

  pub any-count : (p : A → Bool) (xs : List A) → count p xs ≡ 0 → any p xs ≡ false
  any-count p [] h = refl
  any-count p (x ∷ xs) h = ground (arith, any-count p xs)

  pub count-pos_any : (p : A → Bool) (xs : List A) → any p xs ≡ true → 1 ≤ count p xs
  count-pos_any p [] h = ground arith
  count-pos_any p (x ∷ xs) h = ground (arith, count-pos_any p xs)

  -- A new row keeps a flag unique, if no row had the flag or the new row has it not.
  pub count-insert-le :
      (p : A → Bool) (xs : List A) (x : A)
      → count p xs ≤ 1
      → (p x ≡ true → any p xs ≡ false)
      → count p (xs ++ x ∷ []) ≤ 1
  count-insert-le p xs x one new = elim (Bool-cases (p x)) [
    | inl e ↦ ground (arith, count-append p xs (x ∷ []), count-none p xs (new e))
    | inr e ↦ ground (arith, count-append p xs (x ∷ []))
  ]

module _ {ℓ κ} {A : Type ℓ} where
  pub All-filter_by :
      (P : A → Type κ) (test : A → Bool) (xs : List A) → All P xs → All P (filter_by test xs)
  All-filter_by P test [] all = all
  All-filter_by P test (x ∷ xs) all = elim (Bool-cases (test x)) [
    | inl e ↦ rw e (all.0, All-filter_by P test xs all.1)
    | inr e ↦ rw e (All-filter_by P test xs all.1)
  ]

  pub All-implied : (P Q : A → Type κ) → ((x : A) → P x → Q x) → (xs : List A) → All P xs → All Q xs
  All-implied P Q h [] all = tt
  All-implied P Q h (x ∷ xs) all = (h x all.0, All-implied P Q h xs all.1)
