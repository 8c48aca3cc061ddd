-- ===== src/Base/Sorted.antt =====
-- `sorted({...})` over texts: insertion into a strictly ascending list, a repeated text dropped.
use mathlib.Core.Path.{◌≡◌, refl, ap, ◌∙◌, sym}
use mathlib.Core.Bool.{true, false, ◌||◌}
use mathlib.Core.List.{List, [], ◌∷◌, ◌++◌, append-nil}
use native.Mathlib.Omega.{arith}
use scs.Base.Tests.{if◌then◌else◌}
use scs.Base.Chars.{Text, text_eq, text_ltb, text_eq_iff, text_eq_refl, mem_text}

unfoldable pub insert_text : Text → List Text → List Text
insert_text x [] = x ∷ []
insert_text x (y ∷ ys) =
    let rest = insert_text x ys in
    if text_eq x y then y ∷ ys else if text_ltb x y then x ∷ y ∷ ys else y ∷ rest

unfoldable pub sorted_set : List Text → List Text
unfolding insert_text
sorted_set [] = []
sorted_set (x ∷ xs) = insert_text x (sorted_set xs)

pub text_ltb_irrefl : (x : Text) → text_ltb x x ≡ false
unfolding text_ltb
text_ltb_irrefl [] = refl
text_ltb_irrefl (x ∷ xs) = ground (arith, text_ltb_irrefl xs)

pub text_ltb_trans :
    (x y z : Text) → text_ltb x y ≡ true → text_ltb y z ≡ true → text_ltb x z ≡ true
unfolding text_ltb
text_ltb_trans [] [] z h k = cc
text_ltb_trans (x ∷ xs) [] z h k = cc
text_ltb_trans [] (y ∷ ys) [] h k = cc
text_ltb_trans [] (y ∷ ys) (z ∷ zs) h k = refl
text_ltb_trans (x ∷ xs) (y ∷ ys) [] h k = cc
text_ltb_trans (x ∷ xs) (y ∷ ys) (z ∷ zs) h k = ground (arith, text_ltb_trans xs ys zs)

pub text_ltb_total : (x y : Text) → text_eq x y ≡ false → text_ltb x y ≡ false → text_ltb y x ≡ true
unfolding text_eq text_ltb
text_ltb_total [] [] h k = cc
text_ltb_total [] (y ∷ ys) h k = cc
text_ltb_total (x ∷ xs) [] h k = refl
text_ltb_total (x ∷ xs) (y ∷ ys) h k = ground (arith, text_ltb_total xs ys)

pub text_eq_sym : (x y : Text) → text_eq x y ≡ text_eq y x
unfolding text_eq
text_eq_sym [] [] = refl
text_eq_sym [] (y ∷ ys) = refl
text_eq_sym (x ∷ xs) [] = refl
text_eq_sym (x ∷ xs) (y ∷ ys) = ground (arith, text_eq_sym xs ys)

pub mem-insert_text :
    (a x : Text) (ys : List Text) → mem_text a (insert_text x ys) ≡ (text_eq a x || mem_text a ys)
unfolding insert_text
mem-insert_text a x [] = refl
mem-insert_text a x (y ∷ ys) =
    ground (arith, text_eq_iff x y, text_eq_iff a x, text_eq_iff a y, mem-insert_text a x ys)

pub mem-sorted_set : (a : Text) (xs : List Text) → mem_text a (sorted_set xs) ≡ mem_text a xs
unfolding sorted_set
mem-sorted_set a [] = refl
mem-sorted_set a (x ∷ xs) =
    mem-insert_text a x (sorted_set xs) ∙ ap (λ b. text_eq a x || b) (mem-sorted_set a xs)

pub mem_text-append :
    (a : Text) (xs ys : List Text) → mem_text a (xs ++ ys) ≡ (mem_text a xs || mem_text a ys)
mem_text-append a [] ys = refl
mem_text-append a (x ∷ xs) ys = ground (arith, mem_text-append a xs ys)

pub insert_text_idem :
    (x : Text) (zs : List Text) → insert_text x (insert_text x zs) ≡ insert_text x zs
unfolding insert_text
insert_text_idem x [] = ground (arith, text_eq_refl x)
insert_text_idem x (z ∷ zs) = ground (arith, text_eq_refl x, text_eq_iff x z, insert_text_idem x zs)

pub insert_text_comm :
    (x y : Text) (zs : List Text)
    → insert_text x (insert_text y zs) ≡ insert_text y (insert_text x zs)
unfolding insert_text
insert_text_comm x y [] = ground (
  arith,
  text_eq_iff x y,
  text_eq_sym x y,
  text_ltb_total x y,
  text_ltb_trans x y x,
  text_ltb_irrefl x,
)
insert_text_comm x y (z ∷ zs) = ground (
  arith,
  text_eq_iff x y,
  text_eq_iff x z,
  text_eq_iff y z,
  text_eq_sym x y,
  text_eq_refl x,
  text_ltb_total x y,
  text_ltb_total x z,
  text_ltb_total y z,
  text_ltb_trans x y z,
  text_ltb_trans y x z,
  text_ltb_trans x y x,
  text_ltb_trans x z y,
  text_ltb_trans y z x,
  text_ltb_irrefl x,
  insert_text_comm x y zs,
)

sorted_set-cons_append :
    (x : Text) (xs ys : List Text)
    → sorted_set (xs ++ x ∷ ys) ≡ insert_text x (sorted_set (xs ++ ys))
unfolding sorted_set
sorted_set-cons_append x [] ys = refl
sorted_set-cons_append x (y ∷ xs) ys =
    ap (insert_text y) (sorted_set-cons_append x xs ys)
    ∙ insert_text_comm y x (sorted_set (xs ++ ys))

pub sorted_set-append_comm : (xs ys : List Text) → sorted_set (xs ++ ys) ≡ sorted_set (ys ++ xs)
unfolding sorted_set
sorted_set-append_comm [] ys = ap sorted_set (sym (append-nil ys))
sorted_set-append_comm (x ∷ xs) ys =
    ap (insert_text x) (sorted_set-append_comm xs ys) ∙ sym (sorted_set-cons_append x ys xs)
