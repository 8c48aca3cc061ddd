-- ===== src/Gating/Gate.antt =====
-- `GraphMutationGate` (src/scs/graph/gating.py) and the threads that pass it. The code between two
-- waits holds the condition's lock and is one move of its thread.
use scs.Base.{
  ℕ, zero, suc, ◌-◌, ◌≡◌, Bool, true, false, Option, none, some, List, [], ◌∷◌, ◌++◌, Outcome, ok,
  err, ◌>>◌, raise_if, busy_error, ◌==◌, ltb, ◌||◌, map, if◌then◌else◌,
}

pub record Gate : Type 0 where
  pub readers : ℕ
  pub mutation_reserved : Bool
  pub mutation_active : Bool

abbrev pub new_gate : Gate
new_gate = record { readers = 0; mutation_reserved = false; mutation_active = false }

-- Where a thread stands: outside, in the body of `read`, in the first or in the second `while` of
-- `mutation`, or in the body of `mutation`. A thread in a `while` sleeps in `wait` or was notified.
pub data Position : Type 0 where
  outside reading mutating : Position
  waiting draining : Bool → Position

abbrev pub asleep : Bool
asleep = false

abbrev pub awake : Bool
awake = true

-- A deletion is admitted or on its way.
abbrev pub is_closed : Gate → Bool
is_closed g = g.mutation_reserved || g.mutation_active

-- The entry of `read`.
unfoldable pub enter_read : Gate → Outcome Gate
enter_read g = do raise_if (is_closed g) busy_error; ok (record g { readers = suc g.readers })

-- The `finally` of `read`.
unfoldable pub leave_read : Gate → Gate
leave_read g = record g { readers = g.readers - 1 }

-- From the second `while` of `mutation` on.
unfoldable pub drain : Gate → Gate × Position
drain g =
    if ltb 0 g.readers
    then (g, draining asleep)
    else (record g { mutation_reserved = false; mutation_active = true }, mutating)

-- From the first `while` of `mutation` on.
unfoldable pub arrive : Gate → Gate × Position
unfolding drain
arrive g =
    let reserved = drain (record g { mutation_reserved = true }) in
    if is_closed g then (g, waiting asleep) else reserved

-- The `finally` of `mutation`.
unfoldable pub leave_mutation : Gate → Gate
leave_mutation g = record g { mutation_active = false }

-- What a thread does next.
pub data Act : Type 0 where
  begin_read end_read begin_mutation resume end_mutation : Act

-- The gate and the thread's position after a move, and whether it calls `notify_all`.
pub record Turn : Type 0 where
  pub gate : Gate
  pub position : Position
  pub notifies : Bool

-- A reader that GraphBusyError turns away is outside again.
abbrev pub admitted : Gate → Outcome Gate → Turn
admitted g (ok entered) = record { gate = entered; position = reading; notifies = false }
admitted g (err e) = record { gate = g; position = outside; notifies = false }

abbrev pub silent : Gate × Position → Turn
silent turn = record { gate = turn.0; position = turn.1; notifies = false }

unfoldable pub move : Act → Gate → Position → Option Turn
unfolding enter_read leave_read arrive drain leave_mutation
move begin_read g outside = some (admitted g (enter_read g))
move end_read g reading =
    let left = leave_read g in
    some (record { gate = left; position = outside; notifies = left.readers == 0 })
move begin_mutation g outside = some (silent (arrive g))
move resume g (waiting true) = some (silent (arrive g))
move resume g (draining true) = some (silent (drain g))
move end_mutation g mutating =
    some (record { gate = leave_mutation g; position = outside; notifies = true })
move _ _ _ = none

abbrev pub wake : Position → Position
wake (waiting _) = waiting awake
wake (draining _) = draining awake
wake p = p

-- `notify_all()`
abbrev pub notify : Bool → List Position → List Position
notify true threads = map wake threads
notify false threads = threads

pub record World : Type 0 where
  pub gate : Gate
  pub threads : List Position

-- One move of one thread.
pub data Step (w u : World) : Type 0 where
  moves :
      (before after : List Position) (p : Position) (act : Act) (turn : Turn)
      → w.threads ≡ before ++ p ∷ after
      → move act w.gate p ≡ some turn
      → u.gate ≡ turn.gate
      → u.threads ≡ notify turn.notifies (before ++ turn.position ∷ after)
      → Step w u

abbrev pub all_outside : ℕ → List Position
all_outside zero = []
all_outside (suc n) = outside ∷ all_outside n

-- The worlds that any interleaving of any number of threads leads to.
pub data Reach : World → Type 0 where
  start : (n : ℕ) → Reach (record { gate = new_gate; threads = all_outside n })
  next : {w u : World} → Reach w → Step w u → Reach u
