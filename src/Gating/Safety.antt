-- ===== src/Gating/Safety.antt =====
-- What holds of every interleaving at the gate (src/scs/graph/gating.py).
use scs.Base.{
  ℕ, suc, zero, ◌≤◌, ◌≡◌, ◌≢◌, refl, sym, ap, ◌∙◌, Bool, true, false, some, List, [], ◌∷◌, ◌++◌,
  Memᴰ, arith, bit, count, ◌⊎◌, inl, inr, Bool-cases, ltb,
}
use scs.Sql.Counting.{count-pos}
use scs.Gating.Gate.{
  Gate, new_gate, Position, outside, reading, mutating, waiting, draining, is_closed, enter_read,
  leave_read, drain, arrive, leave_mutation, Act, begin_read, end_read, begin_mutation, resume,
  end_mutation, Turn, move, World, Step, moves, all_outside, Reach, start, next,
}
use scs.Gating.Sound.{is_reading, is_draining, is_mutating, is_stuck, IsGuarded}
use scs.Gating.Moves.{Step-IsGuarded}

count-outside :
    (test : Position → Bool) (n : ℕ) → test outside ≡ false → count test (all_outside n) ≡ 0
count-outside test zero h = refl
count-outside test (suc n) h = omega (arith, ap bit h, count-outside test n h)

Reach-IsGuarded : {w : World} → Reach w → IsGuarded w.gate w.threads
Reach-IsGuarded (start n) = record {
  readers = count-outside is_reading n refl;
  reserved = count-outside is_draining n refl;
  active = count-outside is_mutating n refl;
  one = omega arith;
  alone = λ a. refl;
  awake = count-outside (is_stuck new_gate) n refl;
}
Reach-IsGuarded (next {w} {u} r s) = Step-IsGuarded w u s (Reach-IsGuarded r)

-- In every interleaving at most one thread is in a mutation, and while one is, no thread reads.
pub Reach-exclusive :
    {w : World}
    → Reach w
    → (count is_mutating w.threads ≤ 1)
      × (1 ≤ count is_mutating w.threads → count is_reading w.threads ≡ 0)
Reach-exclusive {w} r =
    let s = Reach-IsGuarded r in
    (
      omega (arith, s.active, s.one),
      λ some_one. s.readers ∙ s.alone (let a = s.active in ground arith),
    )

-- A position with a thread in it splits the threads.
split_at :
    (test : Position → Bool) (threads : List Position)
    → 1 ≤ count test threads
    → (before : List Position) × (after : List Position) × (q : Position) × (threads
        ≡ before ++ q ∷ after)
      × (test q ≡ true)
split_at test [] h = absurd (omega arith)
split_at test (p ∷ threads) h = elim (Bool-cases (test p)) [
  | inl e ↦ ([], threads, p, refl, e)
  | inr e ↦
      let (before, after, q, here, t) = split_at test threads (ground arith) in
      (p ∷ before, after, q, ap (λ ps. p ∷ ps) here, t)
]

-- The thread is outside, or in the body of the mutation it came for.
abbrev pub is_served : Position → Bool
is_served outside = true
is_served mutating = true
is_served _ = false

-- The thread has called `read` or `mutation` and has not returned.
abbrev pub is_inside : Position → Bool
is_inside outside = false
is_inside _ = true

-- Some thread that is inside can move on: it leaves its body, or is admitted to its mutation.
abbrev pub CanServe : World → Type 0
CanServe w =
    (before : List Position) × (after : List Position) × (q : Position) × (act : Act)
    × (turn : Turn) × (w.threads ≡ before ++ q ∷ after)
    × (is_inside q ≡ true)
    × (move act w.gate q ≡ some turn)
    × (is_served turn.position ≡ true)

-- A thread sleeps only while what it waits for has not come.
abbrev pub HasReason : Gate → Position → Type 0
HasReason g (waiting false) = is_closed g ≡ true
HasReason g (draining false) = 1 ≤ g.readers
HasReason g _ = Unit {0}

not_stuck-HasReason : (g : Gate) (p : Position) → is_stuck g p ≡ false → HasReason g p
not_stuck-HasReason g (waiting false) h = ground arith
not_stuck-HasReason g (waiting true) h = tt
not_stuck-HasReason g (draining false) h = ground arith
not_stuck-HasReason g (draining true) h = tt
not_stuck-HasReason g outside h = tt
not_stuck-HasReason g reading h = tt
not_stuck-HasReason g mutating h = tt

absent :
    (test : Position → Bool) (threads : List Position) {p : Position}
    → Memᴰ p threads
    → count test threads ≡ 0
    → test p ≡ false
absent test threads {p} here none_here = elim (Bool-cases (test p)) [
  | inl e ↦ absurd (omega (arith, count-pos test threads here e))
  | inr e ↦ e
]

move-drains :
    (act : Act) (g : Gate) (p : Position) (turn : Turn)
    → move act g p ≡ some turn
    → g.mutation_reserved ≡ true
    → (turn.gate.readers ≤ g.readers)
      × ((turn.gate.mutation_reserved ≡ true) ⊎ (turn.gate.mutation_active ≡ true))
unfolding move enter_read leave_read arrive drain leave_mutation
move-drains begin_read g outside turn h e = ground arith
move-drains end_read g reading turn h e = ground arith
move-drains begin_mutation g outside turn h e = ground arith
move-drains resume g (waiting true) turn h e = ground arith
move-drains resume g (draining true) turn h e = ground arith
move-drains end_mutation g mutating turn h e = ground arith
move-drains _ g p turn h e = absurd (ground arith)

-- The rest of a world with a thread at `q` in it.
module _ (w : World) (before after : List Position) where
  reading_ends : (q : Position) → w.threads ≡ before ++ q ∷ after → is_reading q ≡ true → CanServe w
  unfolding move
  reading_ends reading here t = (before, after, reading, end_read, _, here, refl, refl, refl)
  reading_ends _ here t = absurd (ground arith)

  mutation_ends :
      (q : Position) → w.threads ≡ before ++ q ∷ after → is_mutating q ≡ true → CanServe w
  unfolding move
  mutation_ends mutating here t = (before, after, mutating, end_mutation, _, here, refl, refl, refl)
  mutation_ends _ here t = absurd (ground arith)

  mem-middle : (xs : List Position) (q : Position) → Memᴰ q (xs ++ q ∷ after)
  mem-middle [] q = Memᴰ.head refl
  mem-middle (x ∷ xs) q = Memᴰ.tail (mem-middle xs q)

  not_stuck :
      (q : Position)
      → count (is_stuck w.gate) w.threads ≡ 0
      → w.threads ≡ before ++ q ∷ after
      → is_stuck w.gate q ≡ false
  not_stuck q none_stuck here = elim (Bool-cases (is_stuck w.gate q)) [
    | inr e ↦ e
    | inl e ↦
        let some_stuck =
          count-pos (is_stuck w.gate) (before ++ q ∷ after) (mem-middle before q) e in
        absurd (omega (arith, some_stuck, ap (count (is_stuck w.gate)) here, none_stuck))
  ]

  -- With no readers the thread that holds the reservation goes in.
  drained :
      (q : Position)
      → w.threads ≡ before ++ q ∷ after
      → is_draining q ≡ true
      → is_stuck w.gate q ≡ false
      → w.gate.readers ≡ 0
      → CanServe w
  unfolding move drain
  drained (draining true) here t free none_read =
      (before, after, draining true, resume, _, here, refl, refl, rw none_read refl)
  drained (draining false) here t free none_read = absurd (ground arith)
  drained _ here t free none_read = absurd (ground arith)

  -- At an open gate a waiting thread goes in.
  admits :
      (q : Position)
      → w.threads ≡ before ++ q ∷ after
      → q ≢ outside
      → is_reading q ≡ false
      → is_draining q ≡ false
      → is_mutating q ≡ false
      → is_stuck w.gate q ≡ false
      → is_closed w.gate ≡ false
      → w.gate.readers ≡ 0
      → CanServe w
  unfolding move arrive drain
  admits (waiting true) here out r d m free open_gate none_read =
      (before, after, waiting true, resume, _, here, refl, refl, rw (open_gate, none_read) refl)
  admits outside here out r d m free open_gate none_read = absurd (out refl)
  admits _ here out r d m free open_gate none_read = absurd (ground arith)

mem-split :
    (threads : List Position) (q : Position)
    → Memᴰ q threads
    → (before : List Position) × (after : List Position) × (threads ≡ before ++ q ∷ after)
mem-split [] q m = elim m [ ]
mem-split (p ∷ threads) q (Memᴰ.head e) = ([], threads, ap (λ x. x ∷ threads) (sym e))
mem-split (p ∷ threads) q (Memᴰ.tail m) =
    let (before, after, here) = mem-split threads q m in (p ∷ before, after, ap (λ ps. p ∷ ps) here)

inside-CanServe :
    {w : World} (p : Position)
    → IsGuarded w.gate w.threads
    → Memᴰ p w.threads
    → p ≢ outside
    → CanServe w
inside-CanServe {w} p s here out = elim (Bool-cases (ltb 0 (count is_reading w.threads))) [
  | inl e ↦
      let (before, after, q, at, t) = split_at is_reading w.threads (ground arith) in
      reading_ends w before after q at t
  | inr no_reader ↦
      let none_read : w.gate.readers ≡ 0 = let k = s.readers in ground arith in
      elim (Bool-cases w.gate.mutation_active) [
        | inl e ↦
            let (before, after, q, at, t) =
              split_at is_mutating w.threads (omega (arith, s.active, ap bit e)) in
            mutation_ends w before after q at t
        | inr idle ↦ elim (Bool-cases w.gate.mutation_reserved) [
          | inl e ↦
              let (before, after, q, at, t) =
                split_at is_draining w.threads (omega (arith, s.reserved, ap bit e)) in
              drained w before after q at t (not_stuck w before after q s.awake at) none_read
          | inr free ↦
              let (before, after, at) = mem-split w.threads p here in
              admits w before after p at out (absent is_reading w.threads here (ground arith))
                (absent is_draining w.threads here (omega (arith, s.reserved, ap bit free)))
                (absent is_mutating w.threads here (omega (arith, s.active, ap bit idle)))
                (not_stuck w before after p s.awake at) (ground arith) none_read
        ]
      ]
]

-- No wake-up is lost and the gate never deadlocks: while some thread is inside `read` or `mutation`,
-- it sleeps only while what it waits for has not come, and some thread inside can at once leave its
-- body or be admitted to its mutation.
pub Reach-CanServe :
    {w : World} (p : Position)
    → Reach w
    → Memᴰ p w.threads
    → p ≢ outside
    → HasReason w.gate p × CanServe w
Reach-CanServe {w} p r here out =
    let s = Reach-IsGuarded r in
    (
      not_stuck-HasReason w.gate p (absent (is_stuck w.gate) w.threads here s.awake),
      inside-CanServe p s here out,
    )

-- While a mutation is reserved no reader comes in: the readers only become fewer, and the
-- reservation lasts until the mutation is admitted.
pub Step-drains :
    {w u : World}
    → Step w u
    → w.gate.mutation_reserved ≡ true
    → (u.gate.readers ≤ w.gate.readers)
      × ((u.gate.mutation_reserved ≡ true) ⊎ (u.gate.mutation_active ≡ true))
Step-drains {w} {u} (moves before after p act turn here h gate threads) reserved =
    rw gate (move-drains act w.gate p turn h reserved)
