-- ===== src/Gating/Sound.antt =====
-- The gate keeps readers and deletions apart, and no wake-up is lost (src/scs/graph/gating.py).
use scs.Base.{
  ◌+◌, ◌≤◌, ◌≡◌, refl, ◌∙◌, Bool, true, false, List, [], ◌∷◌, ◌++◌, map, arith, bit, count, not,
  ◌==◌, count-append,
}
use scs.Gating.Gate.{Gate, Position, outside, reading, mutating, waiting, draining, is_closed, wake}

abbrev pub is_reading : Position → Bool
is_reading reading = true
is_reading _ = false

abbrev pub is_draining : Position → Bool
is_draining (draining _) = true
is_draining _ = false

abbrev pub is_mutating : Position → Bool
is_mutating mutating = true
is_mutating _ = false

-- A thread that sleeps although what it waits for has come.
abbrev pub is_stuck : Gate → Position → Bool
is_stuck g (waiting false) = not (is_closed g)
is_stuck g (draining false) = g.readers == 0
is_stuck g _ = false

-- The gate's fields count the threads.
pub record IsGuarded (g : Gate) (threads : List Position) : Type 0 where
  pub readers : count is_reading threads ≡ g.readers
  pub reserved : count is_draining threads ≡ bit g.mutation_reserved
  pub active : count is_mutating threads ≡ bit g.mutation_active
  pub one : bit g.mutation_reserved + bit g.mutation_active ≤ 1
  pub alone : g.mutation_active ≡ true → g.readers ≡ 0
  pub awake : count (is_stuck g) threads ≡ 0

pub count-at :
    (test : Position → Bool) (before after : List Position) (p : Position)
    → count test (before ++ p ∷ after) ≡ count test (before ++ after) + bit (test p)
count-at test before after p =
    omega (arith, count-append test before (p ∷ after), count-append test before after)

pub count-weaker :
    (strong weak : Position → Bool)
    → ((p : Position) → strong p ≡ true → weak p ≡ true)
    → (threads : List Position) → count strong threads ≤ count weak threads
count-weaker strong weak h [] = omega arith
count-weaker strong weak h (p ∷ threads) = ground (arith, h p, count-weaker strong weak h threads)

count-wake :
    (test : Position → Bool)
    → ((p : Position) → test (wake p) ≡ test p)
    → (threads : List Position) → count test (map wake threads) ≡ count test threads
count-wake test h [] = refl
count-wake test h (p ∷ threads) = ground (arith, h p, count-wake test h threads)

stuck-wake : (g : Gate) (p : Position) → is_stuck g (wake p) ≡ false
stuck-wake g (waiting b) = refl
stuck-wake g (draining b) = refl
stuck-wake g outside = refl
stuck-wake g reading = refl
stuck-wake g mutating = refl

count_stuck-wake : (g : Gate) (threads : List Position) → count (is_stuck g) (map wake threads) ≡ 0
count_stuck-wake g [] = refl
count_stuck-wake g (p ∷ threads) = ground (arith, stuck-wake g p, count_stuck-wake g threads)

is_reading-wake : (p : Position) → is_reading (wake p) ≡ is_reading p
is_reading-wake p = ground arith

is_draining-wake : (p : Position) → is_draining (wake p) ≡ is_draining p
is_draining-wake p = ground arith

is_mutating-wake : (p : Position) → is_mutating (wake p) ≡ is_mutating p
is_mutating-wake p = ground arith

-- `notify_all` keeps the counts, and after it nobody is stuck.
pub IsGuarded-wake :
    (g : Gate) (threads : List Position)
    → count is_reading threads ≡ g.readers
    → count is_draining threads ≡ bit g.mutation_reserved
    → count is_mutating threads ≡ bit g.mutation_active
    → bit g.mutation_reserved + bit g.mutation_active ≤ 1
    → (g.mutation_active ≡ true → g.readers ≡ 0)
    → IsGuarded g (map wake threads)
IsGuarded-wake g threads r d m one alone = record {
  readers = count-wake is_reading is_reading-wake threads ∙ r;
  reserved = count-wake is_draining is_draining-wake threads ∙ d;
  active = count-wake is_mutating is_mutating-wake threads ∙ m;
  one = one;
  alone = alone;
  awake = count_stuck-wake g threads;
}
