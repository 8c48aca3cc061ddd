-- ===== src/Search/Scores.antt =====
-- The floats of a search: fusion scores and distances, with the operations that the code applies.
use scs.Base.{ℕ, ◌≡◌, Bool, true, false, ◌⊎◌}

-- `reciprocal n` is `1.0 / n`.
pub record Scores {ℓ} (F : Type ℓ) : Type ℓ where
  pub nought : F
  pub plus : F → F → F
  pub reciprocal : ℕ → F
  pub less : F → F → Bool

-- `<` on floats other than NaN. No score is NaN: it is a sum of finitely many positive reciprocals.
pub record IsOrdered {ℓ} (F : Type ℓ) ⦃s : Scores F⦄ : Type ℓ where
  pub less_irrefl : (a : F) → s.less a a ≡ false
  pub less_trans : (a b c : F) → s.less a b ≡ true → s.less b c ≡ true → s.less a c ≡ true
  pub less-between : (a b c : F) → s.less a c ≡ true → (s.less a b ≡ true) ⊎ (s.less b c ≡ true)
