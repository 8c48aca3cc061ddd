-- ===== src/Gating/Moves.antt =====
-- Every move of a thread keeps the gate guarded (src/scs/graph/gating.py).
use scs.Base.{
  suc, ◌+◌, ◌≤◌, ◌≡◌, refl, sym, ap, ◌∙◌, subst, true, false, some, List, ◌∷◌, ◌++◌, map, arith,
  bit, count, inl, inr, Bool-cases, ◌==◌, ltb,
}
use scs.Gating.Gate.{
  Gate, Position, outside, reading, mutating, waiting, draining, is_closed, enter_read, leave_read,
  drain, arrive, leave_mutation, Act, begin_read, end_read, begin_mutation, resume, end_mutation,
  Turn, admitted, silent, move, wake, notify, World, Step, moves,
}
use scs.Gating.Sound.{
  is_reading, is_draining, is_mutating, is_stuck, IsGuarded, IsGuarded-wake, count-at, count-weaker,
}

some-injective : {a b : Turn} → some a ≡ some b → a ≡ b
some-injective h = cc

-- One thread at `p` among the others.
module _ (before after : List Position) where
  abbrev others : List Position
  others = before ++ after

  -- The gate's fields count one thread at `p` and the others.
  record IsBalanced (g : Gate) (p : Position) : Type 0 where
    readers : count is_reading others + bit (is_reading p) ≡ g.readers
    reserved : count is_draining others + bit (is_draining p) ≡ bit g.mutation_reserved
    active : count is_mutating others + bit (is_mutating p) ≡ bit g.mutation_active
    one : bit g.mutation_reserved + bit g.mutation_active ≤ 1
    alone : g.mutation_active ≡ true → g.readers ≡ 0

  balance : (g : Gate) (p : Position) → IsGuarded g (before ++ p ∷ after) → IsBalanced g p
  balance g p s = record {
    readers = sym (count-at is_reading before after p) ∙ s.readers;
    reserved = sym (count-at is_draining before after p) ∙ s.reserved;
    active = sym (count-at is_mutating before after p) ∙ s.active;
    one = s.one;
    alone = s.alone;
  }

  still :
      (g : Gate) (p : Position) → IsGuarded g (before ++ p ∷ after) → count (is_stuck g) others ≡ 0
  still g p s = omega (arith, count-at (is_stuck g) before after p, s.awake)

  -- A move without a notification: what wakes the others has not come.
  quiet :
      (g h : Gate) (p q : Position)
      → IsGuarded g (before ++ p ∷ after)
      → IsBalanced h q
      → is_stuck h q ≡ false
      → ((o : Position) → is_stuck h o ≡ true → is_stuck g o ≡ true)
      → IsGuarded h (before ++ q ∷ after)
  quiet g h p q s b free weaker = record {
    readers = count-at is_reading before after q ∙ b.readers;
    reserved = count-at is_draining before after q ∙ b.reserved;
    active = count-at is_mutating before after q ∙ b.active;
    one = b.one;
    alone = b.alone;
    awake = omega (
      arith,
      count-at (is_stuck h) before after q,
      ap bit free,
      count-weaker (is_stuck h) (is_stuck g) weaker others,
      still g p s,
    );
  }

  -- A move that notifies everybody.
  loud : (h : Gate) (q : Position) → IsBalanced h q → IsGuarded h (map wake (before ++ q ∷ after))
  loud h q b =
      IsGuarded-wake h (before ++ q ∷ after) (count-at is_reading before after q ∙ b.readers)
        (count-at is_draining before after q ∙ b.reserved)
        (count-at is_mutating before after q ∙ b.active) b.one b.alone

  abbrev Kept : Turn → Type 0
  Kept turn = IsGuarded turn.gate (notify turn.notifies (before ++ turn.position ∷ after))

  begin_read-Kept :
      (g : Gate) → IsGuarded g (before ++ outside ∷ after) → Kept (admitted g (enter_read g))
  unfolding enter_read
  begin_read-Kept g s = elim (Bool-cases (is_closed g)) [
    | inl e ↦ rw (e, enter_read) s
    | inr e ↦
        let b = balance g outside s in
        rw (e, enter_read)
          (quiet g (record g { readers = suc g.readers }) outside reading s
            (record {
              readers = omega (arith, b.readers);
              reserved = b.reserved;
              active = b.active;
              one = b.one;
              alone = λ a. absurd (ground arith);
            })
            refl (λ o t. ground arith))
  ]

  end_read-Kept :
      (g : Gate)
      → IsGuarded g (before ++ reading ∷ after)
      → Kept (record {
        gate = leave_read g;
        position = outside;
        notifies = (leave_read g).readers == 0;
      })
  unfolding leave_read
  end_read-Kept g s =
      let b = balance g reading s in
      let left : IsBalanced (leave_read g) outside = record {
        readers = omega (arith, b.readers);
        reserved = b.reserved;
        active = b.active;
        one = b.one;
        alone = λ a. omega (arith, b.alone a);
      } in
      elim (Bool-cases ((leave_read g).readers == 0)) [
        | inl e ↦ rw e (loud (leave_read g) outside left)
        | inr e ↦ rw e (quiet g (leave_read g) reading outside s left refl (λ o t. ground arith))
      ]

  -- A thread that holds the reservation, alone.
  drain-Kept :
      (g : Gate) (p : Position)
      → IsGuarded g (before ++ p ∷ after)
      → is_reading p ≡ false
      → is_draining p ≡ true
      → is_mutating p ≡ false
      → Kept (silent (drain g))
  unfolding drain
  drain-Kept g p s nr d nm =
      let b = balance g p s in
      elim (Bool-cases (ltb 0 g.readers)) [
        | inl e ↦
            rw (e, drain)
              (quiet g g p (draining false) s
                (record {
                  readers = omega (arith, b.readers, ap bit nr);
                  reserved = omega (arith, b.reserved, ap bit d);
                  active = omega (arith, b.active, ap bit nm);
                  one = b.one;
                  alone = b.alone;
                })
                (ground arith) (λ o t. t))
        | inr e ↦
            rw (e, drain)
              (quiet g (record g { mutation_reserved = false; mutation_active = true }) p mutating s
                (record {
                  readers = omega (arith, b.readers, ap bit nr);
                  reserved = omega (arith, b.reserved, ap bit d, b.one);
                  active = omega (arith, b.active, ap bit nm, b.reserved, ap bit d, b.one);
                  one = omega arith;
                  alone = λ a. ground arith;
                })
                refl (λ o t. ground arith))
      ]

  -- A thread that wants the reservation.
  arrive-Kept :
      (g : Gate) (p : Position)
      → IsGuarded g (before ++ p ∷ after)
      → is_reading p ≡ false
      → is_draining p ≡ false
      → is_mutating p ≡ false
      → Kept (silent (arrive g))
  unfolding arrive
  arrive-Kept g p s nr nd nm =
      let b = balance g p s in
      elim (Bool-cases (is_closed g)) [
        | inl e ↦
            rw (e, arrive)
              (quiet g g p (waiting false) s
                (record {
                  readers = omega (arith, b.readers, ap bit nr);
                  reserved = omega (arith, b.reserved, ap bit nd);
                  active = omega (arith, b.active, ap bit nm);
                  one = b.one;
                  alone = b.alone;
                })
                (ground arith) (λ o t. t))
        | inr e ↦
            let reserved = record g { mutation_reserved = true } in
            rw (e, arrive)
              (drain-Kept reserved (draining true)
                (quiet g reserved p (draining true) s
                  (record {
                    readers = omega (arith, b.readers, ap bit nr);
                    reserved = ground (arith, b.reserved);
                    active = omega (arith, b.active, ap bit nm);
                    one = ground arith;
                    alone = b.alone;
                  })
                  refl (λ o t. ground arith))
                refl refl refl)
      ]

  end_mutation-Kept :
      (g : Gate)
      → IsGuarded g (before ++ mutating ∷ after)
      → Kept (record { gate = leave_mutation g; position = outside; notifies = true })
  unfolding leave_mutation
  end_mutation-Kept g s =
      let b = balance g mutating s in
      loud (leave_mutation g) outside (record {
        readers = b.readers;
        reserved = b.reserved;
        active = ground (arith, b.active);
        one = omega (arith, b.one);
        alone = λ a. absurd (ground arith);
      })

  pub move-Kept :
      (act : Act) (g : Gate) (p : Position) (turn : Turn)
      → move act g p ≡ some turn
      → IsGuarded g (before ++ p ∷ after)
      → Kept turn
  unfolding move
  move-Kept begin_read g outside turn h s = subst Kept (some-injective h) (begin_read-Kept g s)
  move-Kept end_read g reading turn h s = subst Kept (some-injective h) (end_read-Kept g s)
  move-Kept begin_mutation g outside turn h s =
      subst Kept (some-injective h) (arrive-Kept g outside s refl refl refl)
  move-Kept resume g (waiting true) turn h s =
      subst Kept (some-injective h) (arrive-Kept g (waiting true) s refl refl refl)
  move-Kept resume g (draining true) turn h s =
      subst Kept (some-injective h) (drain-Kept g (draining true) s refl refl refl)
  move-Kept end_mutation g mutating turn h s = subst Kept (some-injective h) (end_mutation-Kept g s)
  move-Kept _ g p turn h s = absurd (ground arith)

pub Step-IsGuarded :
    (w u : World) → Step w u → IsGuarded w.gate w.threads → IsGuarded u.gate u.threads
Step-IsGuarded w u (moves before after p act turn here h gate threads) s =
    rw (gate, threads)
      (move-Kept before after act w.gate p turn h (subst (IsGuarded w.gate) here s))
