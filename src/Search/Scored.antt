-- ===== src/Search/Scored.antt =====
-- What a ranking promises: each id once, the better score
-- first and the smaller id among equal scores, and for each id the sum of its hits.
use scs.Base.{
  ◌≡◌, Bool, false, not, ◌&&◌, ◌||◌, Option, none, some, List, [], ◌∷◌, Text, text_eq, text_ltb,
  if◌then◌else◌, All,
}
use scs.Search.Scores.{Scores}
use scs.Search.Fusion.{CodeSearchMatch}

module _ {F : Type 0} where
  abbrev pub holds_id : Text → List (CodeSearchMatch F) → Bool
  holds_id x [] = false
  holds_id x (m ∷ rest) = text_eq x m.node.id || holds_id x rest

  abbrev pub Distinct : List (CodeSearchMatch F) → Type 0
  Distinct [] = Unit
  Distinct (m ∷ rest) = (holds_id m.node.id rest ≡ false) × Distinct rest

  -- The score that an id has, if it is there.
  abbrev pub score_at : Text → List (CodeSearchMatch F) → Option F
  score_at x [] = none
  score_at x (m ∷ rest) = if text_eq x m.node.id then some m.fusion_score else score_at x rest

  -- `(-m.fusion_score, m.node.id) < (-n.fusion_score, n.node.id)`
  abbrev pub beats : ⦃s : Scores F⦄ → CodeSearchMatch F → CodeSearchMatch F → Bool
  beats ⦃s⦄ m n =
      s.less n.fusion_score m.fusion_score
      || (not (s.less m.fusion_score n.fusion_score) && text_ltb m.node.id n.node.id)

  -- Nothing stands behind what it beats.
  abbrev pub IsRanked : ⦃s : Scores F⦄ → List (CodeSearchMatch F) → Type 0
  IsRanked [] = Unit
  IsRanked (m ∷ rest) = All (λ n. beats n m ≡ false) rest × IsRanked rest

-- A hit: an id, and what it adds to the id's score.
abbrev pub Hit : Type 0 → Type 0
Hit F = Text × F

module _ {F : Type 0} ⦃s : Scores F⦄ where
  -- A score with a hit added: the first one is added to nought.
  abbrev pub raise_score : Option F → F → Option F
  raise_score none v = some (s.plus s.nought v)
  raise_score (some total) v = some (s.plus total v)

  -- The sum of the hits of one id in their order: the specification of a pool, one id at a time.
  abbrev pub tally : Text → Option F → List (Hit F) → Option F
  tally x total [] = total
  tally x total (hit ∷ hits) =
      tally x (if text_eq x hit.0 then raise_score total hit.1 else total) hits
