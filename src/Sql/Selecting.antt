-- ===== src/Sql/Selecting.antt =====
-- Lemmas on `select_all`, on rows that an update leaves alone, and on rows that are unique.
use scs.Base.{
  suc, ◌+◌, ◌≤◌, ◌≡◌, refl, sym, ◌∙◌, subst, Bool, true, false, some, List, [], ◌∷◌, Memᴰ, arith,
  bit, count, length, ◌&&◌, ◌⊎◌, inl, inr, Bool-cases,
}
use scs.Sql.Statements.{update_where, insert_before, select_all, find_row}
use scs.Sql.Counting.{count-pos}

module _ {ℓ} {A : Type ℓ} where
  count-insert_before :
      (p : A → Bool) (before : A → A → Bool) (x : A) (xs : List A)
      → count p (insert_before before x xs) ≡ bit (p x) + count p xs
  count-insert_before p before x [] = refl
  count-insert_before p before x (y ∷ ys) = ground (arith, count-insert_before p before x ys)

  length-insert_before :
      (before : A → A → Bool) (x : A) (xs : List A)
      → length (insert_before before x xs) ≡ suc (length xs)
  length-insert_before before x [] = refl
  length-insert_before before x (y ∷ ys) = ground (arith, length-insert_before before x ys)

  pub mem-cons-cases : {a x : A} {xs : List A} → Memᴰ a (x ∷ xs) → (a ≡ x) ⊎ Memᴰ a xs
  mem-cons-cases (Memᴰ.head e) = inl e
  mem-cons-cases (Memᴰ.tail m) = inr m

  mem-insert_before :
      (before : A → A → Bool) (x : A) (xs : List A) {a : A}
      → Memᴰ a (insert_before before x xs)
      → (a ≡ x) ⊎ Memᴰ a xs
  mem-insert_before before x [] m = mem-cons-cases m
  mem-insert_before before x (y ∷ ys) {a} m = elim (Bool-cases (before x y)) [
    | inl e ↦ mem-cons-cases (subst (Memᴰ a) (rw e) m)
    | inr e ↦
        elim (mem-cons-cases {x = y} {xs = insert_before before x ys} (subst (Memᴰ a) (rw e) m)) [
          | inl first ↦ inr (Memᴰ.head first)
          | inr rest ↦ elim (mem-insert_before before x ys rest) [
            | inl same ↦ inl same
            | inr later ↦ inr (Memᴰ.tail later)
          ]
        ]
  ]

  module _ (before : A → A → Bool) (test : A → Bool) where
    pub count-select_all-le :
        (p : A → Bool) (xs : List A) → count p (select_all before test xs) ≤ count p xs
    unfolding select_all
    count-select_all-le p [] = omega arith
    count-select_all-le p (x ∷ xs) = ground (
      arith,
      count-insert_before p before x (select_all before test xs),
      count-select_all-le p xs,
    )

    pub length-select_all : (xs : List A) → length (select_all before test xs) ≡ count test xs
    unfolding select_all
    length-select_all [] = refl
    length-select_all (x ∷ xs) =
        ground
          (arith, length-insert_before before x (select_all before test xs), length-select_all xs)

    pub mem-select_all :
        (xs : List A) {a : A} → Memᴰ a (select_all before test xs) → Memᴰ a xs × (test a ≡ true)
    unfolding select_all
    mem-select_all [] m = elim m [ ]
    mem-select_all (x ∷ xs) {a} m = elim (Bool-cases (test x)) [
      | inl e ↦
          elim (mem-insert_before before x (select_all before test xs) {a = a}
            (subst (Memᴰ a) (rw (e, select_all)) m)) [
              | inl same ↦ (Memᴰ.head same, rw same e)
              | inr later ↦ let (here, t) = mem-select_all xs later in (Memᴰ.tail here, t)
            ]
      | inr e ↦
          let (here, t) = mem-select_all xs {a = a} (subst (Memᴰ a) (rw (e, select_all)) m) in
          (Memᴰ.tail here, t)
    ]

  pub mem-update_where :
      (test : A → Bool) (f : A → A) (xs : List A) {a : A}
      → Memᴰ a xs
      → test a ≡ false
      → Memᴰ a (update_where test f xs)
  mem-update_where test f [] m t = elim m [ ]
  mem-update_where test f (x ∷ xs) {a} (Memᴰ.head e) t = Memᴰ.head (ground (arith, e))
  mem-update_where test f (x ∷ xs) (Memᴰ.tail m) t = Memᴰ.tail (mem-update_where test f xs m t)

  pub unique-eq :
      (test : A → Bool) (xs : List A) {a b : A}
      → Memᴰ a xs
      → Memᴰ b xs
      → test a ≡ true
      → test b ≡ true
      → count test xs ≤ 1
      → a ≡ b
  unique-eq test [] m n s t h = elim m [ ]
  unique-eq test (x ∷ xs) (Memᴰ.head e) (Memᴰ.head d) s t h = e ∙ sym d
  unique-eq test (x ∷ xs) (Memᴰ.head e) (Memᴰ.tail n) s t h =
      absurd (ground (arith, e, count-pos test xs n t))
  unique-eq test (x ∷ xs) (Memᴰ.tail m) (Memᴰ.head d) s t h =
      absurd (ground (arith, d, count-pos test xs m s))
  unique-eq test (x ∷ xs) (Memᴰ.tail m) (Memᴰ.tail n) s t h =
      unique-eq test xs m n s t (omega arith)

  pub find_row-pos :
      (test : A → Bool) (xs : List A) → 1 ≤ count test xs → (a : A) × (find_row test xs ≡ some a)
  unfolding find_row
  find_row-pos test [] h = absurd (omega arith)
  find_row-pos test (x ∷ xs) h = elim (Bool-cases (test x)) [
    | inl e ↦ (x, rw e)
    | inr e ↦ let (a, found) = find_row-pos test xs (ground arith) in (a, ground arith)
  ]

  pub count-and_none :
      (p q : A → Bool) (xs : List A) → count p xs ≡ 0 → count (λ r. p r && q r) xs ≡ 0
  count-and_none p q [] h = refl
  count-and_none p q (x ∷ xs) h = ground (arith, count-and_none p q xs)

  pub count-update_where-eq :
      (p test : A → Bool) (f : A → A)
      → ((a : A) → p (f a) ≡ p a)
      → (xs : List A) → count p (update_where test f xs) ≡ count p xs
  count-update_where-eq p test f h [] = refl
  count-update_where-eq p test f h (x ∷ xs) =
      ground (arith, h x, count-update_where-eq p test f h xs)
