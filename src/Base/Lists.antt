-- ===== src/Base/Lists.antt =====
-- Lists over the native numbers, predicates on them, and counting.
use Prim.Native.Nat.{ℕ, zero, suc, ◌+◌, ◌≤◌}
use mathlib.Core.Path.{◌≡◌}
use mathlib.Core.Bool.{Bool, true, false, ◌||◌}
use mathlib.Core.List.{List, [], ◌∷◌, ◌++◌, map, Memᴰ}
use native.Mathlib.Omega.{arith}
use scs.Base.Tests.{if◌then◌else◌, bit}

module _ {ℓ} {A : Type ℓ} where
  abbrev pub length : List A → ℕ
  length [] = 0
  length (x ∷ xs) = suc (length xs)

  -- Python's `any` over a test.
  abbrev pub any : (A → Bool) → List A → Bool
  any p [] = false
  any p (x ∷ xs) = p x || any p xs

  abbrev pub filter_by : (A → Bool) → List A → List A
  filter_by p [] = []
  filter_by p (x ∷ xs) = let rest = filter_by p xs in if p x then x ∷ rest else rest

  abbrev pub count : (A → Bool) → List A → ℕ
  count p [] = 0
  count p (x ∷ xs) = bit (p x) + count p xs

  abbrev pub take : ℕ → List A → List A
  take zero xs = []
  take (suc n) [] = []
  take (suc n) (x ∷ xs) = x ∷ take n xs

  abbrev pub drop : ℕ → List A → List A
  drop zero xs = xs
  drop (suc n) [] = []
  drop (suc n) (x ∷ xs) = drop n xs

  pub count-append : (p : A → Bool) (xs ys : List A) → count p (xs ++ ys) ≡ count p xs + count p ys
  count-append p [] ys = omega arith
  count-append p (x ∷ xs) ys = omega (arith, count-append p xs ys)

  -- A map that makes no element pass leaves the count no larger.
  pub count-map-le :
      (p : A → Bool) (f : A → A)
      → ((x : A) → p (f x) ≡ true → p x ≡ true)
      → (xs : List A) → count p (map f xs) ≤ count p xs
  count-map-le p f h [] = omega arith
  count-map-le p f h (x ∷ xs) = ground (arith, h x, count-map-le p f h xs)

  pub count-mem : (p : A → Bool) (xs : List A) {x : A} → Memᴰ x xs → p x ≡ true → 1 ≤ count p xs
  count-mem p [] m h = elim m [ ]
  count-mem p (x ∷ xs) (Memᴰ.head e) h = ground (arith, e)
  count-mem p (x ∷ xs) (Memᴰ.tail m) h = omega (arith, count-mem p xs m h)

module _ {ℓ κ} {A : Type ℓ} where
  abbrev pub All : (A → Type κ) → List A → Type κ
  All P [] = Unit
  All P (x ∷ xs) = P x × All P xs

  pub All-append :
      (P : A → Type κ) (front back : List A) (f : All P front) (b : All P back)
      → All P (front ++ back)
  All-append P (x ∷ front) back f b = (f.0, All-append P front back f.1 b)
  All-append P [] back f b = b

  pub All-map :
      (P : A → Type κ) (f : A → A)
      → ((x : A) → P x → P (f x))
      → (xs : List A) → All P xs
      → All P (map f xs)
  All-map P f h [] a = a
  All-map P f h (x ∷ xs) a = (h x a.0, All-map P f h xs a.1)
