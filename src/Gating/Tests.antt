-- ===== src/Gating/Tests.antt =====
-- A reader and a deletion at the gate (src/scs/graph/gating.py).
use scs.Base.{◌≤◌, ◌≡◌, ◌≢◌, refl, true, false, [], ◌∷◌, Memᴰ, arith, count}
use scs.Gating.Gate.{
  new_gate, outside, reading, mutating, draining, begin_read, end_read, begin_mutation, resume,
  move, enter_read, leave_read, drain, arrive, World, Step, moves, Reach, start, next,
}
use scs.Gating.Sound.{is_reading, is_mutating}
use scs.Gating.Safety.{Reach-exclusive, Reach-CanServe, CanServe, HasReason}

abbrev both_outside : World
both_outside = record { gate = new_gate; threads = outside ∷ outside ∷ [] }

abbrev one_reads : World
one_reads = record {
  gate = record { readers = 1; mutation_reserved = false; mutation_active = false };
  threads = reading ∷ outside ∷ [];
}

abbrev one_drains : World
one_drains = record {
  gate = record { readers = 1; mutation_reserved = true; mutation_active = false };
  threads = reading ∷ draining false ∷ [];
}

abbrev notified : World
notified = record {
  gate = record { readers = 0; mutation_reserved = true; mutation_active = false };
  threads = outside ∷ draining true ∷ [];
}

abbrev one_mutates : World
one_mutates = record {
  gate = record { readers = 0; mutation_reserved = false; mutation_active = true };
  threads = outside ∷ mutating ∷ [];
}

read_begins : Step both_outside one_reads
unfolding move enter_read
read_begins = moves [] (outside ∷ []) outside begin_read _ refl refl refl refl

mutation_arrives : Step one_reads one_drains
unfolding move arrive drain
mutation_arrives = moves (reading ∷ []) [] outside begin_mutation _ refl refl refl refl

read_leaves : Step one_drains notified
unfolding move leave_read
read_leaves = moves [] (draining false ∷ []) reading end_read _ refl refl refl refl

mutation_enters : Step notified one_mutates
unfolding move drain
mutation_enters = moves (outside ∷ []) [] (draining true) resume _ refl refl refl refl

run_drains : Reach one_drains
run_drains = next (next (start 2) read_begins) mutation_arrives

run_mutates : Reach one_mutates
run_mutates = next (next run_drains read_leaves) mutation_enters

Reach-exclusive_example :
    (count is_mutating one_mutates.threads ≤ 1)
    × (1 ≤ count is_mutating one_mutates.threads → count is_reading one_mutates.threads ≡ 0)
Reach-exclusive_example = Reach-exclusive run_mutates

draining_inside : draining false ≢ outside
draining_inside = λ e. absurd (ground (arith, e))

Reach-CanServe_example : HasReason one_drains.gate (draining false) × CanServe one_drains
Reach-CanServe_example =
    Reach-CanServe (draining false) run_drains (Memᴰ.tail (Memᴰ.head refl)) draining_inside
