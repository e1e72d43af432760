-- ===== src/IncDec/Count.antt =====
-- The count and the wake-ups of the inc_dec programs of Pthread.
use cuda_open_mp.Common.{◌-◌, ◌%◌, ◌^◌, ◌≤◌, ◌≡◌, ◌≢◌, refl, Bool, true, false, arith}
use cuda_open_mp.IncDec.{
  Kind, waits_in_loop, waits_once, goes_on, free, by_decrement, by_increment, DecrementPc,
  test_zero, asleep, decrement, unlock_decrement, IncrementPc, lock_increment, signal_zero,
  increment, State, after_wait, locked_increment, Decrements, Increments, decrements, increments,
  wakes, Reach, start, later,
}

-- A thread is between its lock and its unlock.
abbrev decrementing : DecrementPc → Bool
decrementing test_zero = true
decrementing decrement = true
decrementing unlock_decrement = true
decrementing d = false

abbrev incrementing : IncrementPc → Bool
incrementing lock_increment = false
incrementing i = true

waits_signals : (k : Kind) → k ≢ goes_on → locked_increment k ≡ signal_zero
waits_signals waits_in_loop h = refl
waits_signals waits_once h = refl
waits_signals goes_on h = absurd (h refl)

record Inv (k : Kind) (s : State) : Type 0 where
  sleeps : s.decrementer ≡ asleep → k ≢ goes_on
  held_by_decrement : decrementing s.decrementer ≡ true → s.owner ≡ by_decrement
  held_by_increment : incrementing s.incrementer ≡ true → s.owner ≡ by_increment
  some_left : s.decrementer ≡ decrement → s.count ≢ 0
  zero_asleep : s.decrementer ≡ asleep → s.count ≡ 0
  signalled : s.decrementer ≡ asleep → s.incrementer ≢ increment
  fewer : s.minuses ≤ s.pluses
  difference : s.count ≡ (s.pluses - s.minuses) % 2 ^ 32

module _ (k : Kind) where
  takes_free :
      {s t : State} {d : DecrementPc} → Decrements k s d t → decrementing d ≡ false → s.owner ≡ free
  takes_free (Decrements.lock h) e = h
  takes_free (Decrements.relock h) e = h
  takes_free mv e = cc

  Decrements-some :
      {s t : State} {d : DecrementPc} → Decrements k s d t → t.decrementer ≡ decrement → s.count ≢ 0
  Decrements-some (Decrements.not_zero h) e = h
  Decrements-some (Decrements.relock h) e = absurd (after k e)
    where
      after : (k : Kind) → after_wait k ≢ decrement
      after waits_in_loop e = cc
      after waits_once e = cc
      after goes_on e = cc
  Decrements-some mv e = cc

  sleeps_at_zero :
      {s t : State} {d : DecrementPc}
      → Decrements k s d t
      → t.decrementer ≡ asleep
      → (s.count ≡ 0) × (k ≢ goes_on)
  sleeps_at_zero (Decrements.wait h n) e = (h, n)
  sleeps_at_zero (Decrements.relock h) e = absurd (after k e)
    where
      after : (k : Kind) → after_wait k ≢ asleep
      after waits_in_loop e = cc
      after waits_once e = cc
      after goes_on e = cc
  sleeps_at_zero mv e = cc

  adds_free :
      {s t : State} {i : IncrementPc} → Increments k s i t → incrementing i ≡ false → s.owner ≡ free
  adds_free (Increments.lock h) e = h
  adds_free mv e = cc

  leaves_asleep :
      {s t : State} {i : IncrementPc}
      → Increments k s i t
      → i ≡ signal_zero
      → t.decrementer ≡ asleep
      → s.count ≢ 0
  leaves_asleep (Increments.no_signal h) e a = h
  leaves_asleep mv e a = ground arith

  Decrements-Inv :
      {s t : State} {d : DecrementPc} → Inv k s → Decrements k s d t → s.decrementer ≡ d → Inv k t
  Decrements-Inv {s} inv Decrements.decrease e =
      let left : s.count ≢ 0 = inv.some_left e in
      let d = inv.difference in
      let f = inv.fewer in
      record {
        sleeps = λ h. ground arith;
        held_by_decrement = λ h. ground (arith, inv.held_by_decrement);
        held_by_increment = λ h. ground (arith, inv.held_by_decrement, inv.held_by_increment);
        some_left = λ h. cc;
        zero_asleep = λ h. cc;
        signalled = λ h. cc;
        fewer = omega arith;
        difference = omega arith;
      }
  Decrements-Inv {s} inv mv e = record {
    sleeps = λ h. (sleeps_at_zero mv h).1;
    held_by_decrement = λ h. ground (arith, inv.held_by_decrement, takes_free mv);
    held_by_increment =
        λ h. ground (arith, inv.held_by_increment, inv.held_by_decrement, takes_free mv);
    some_left = λ h. ground (arith, Decrements-some mv);
    zero_asleep = λ h. (sleeps_at_zero mv h).0;
    signalled = λ h. ground (arith, inv.signalled, inv.held_by_increment, inv.held_by_decrement);
    fewer = ground (arith, inv.fewer);
    difference = ground (arith, inv.difference);
  }

  Increments-Inv :
      {s t : State} {i : IncrementPc} → Inv k s → Increments k s i t → s.incrementer ≡ i → Inv k t
  Increments-Inv {s} inv Increments.increase e =
      let d = inv.difference in
      let f = inv.fewer in
      record {
        sleeps = inv.sleeps;
        held_by_decrement = inv.held_by_decrement;
        held_by_increment = λ h. ground (arith, inv.held_by_increment);
        some_left = λ h. ground (arith, inv.held_by_decrement, inv.held_by_increment);
        zero_asleep = λ h. ground (arith, inv.signalled);
        signalled = λ h. ground arith;
        fewer = omega arith;
        difference = omega arith;
      }
  Increments-Inv {s} inv mv e = record {
    sleeps = λ h. ground (arith, inv.sleeps);
    held_by_decrement =
        λ h. ground (arith, inv.held_by_decrement, inv.held_by_increment, adds_free mv);
    held_by_increment = λ h. ground (arith, inv.held_by_increment, adds_free mv);
    some_left = λ h. ground (arith, inv.some_left);
    zero_asleep = λ h. ground (arith, inv.zero_asleep);
    signalled = λ h.
        ground
          (arith, inv.signalled, inv.zero_asleep, inv.sleeps, waits_signals k, leaves_asleep mv);
    fewer = ground (arith, inv.fewer);
    difference = ground (arith, inv.difference);
  }

  Reach-Inv : {s : State} → Reach k s → Inv k s
  Reach-Inv start = record {
    sleeps = λ h. cc;
    held_by_decrement = λ h. cc;
    held_by_increment = λ h. cc;
    some_left = λ h. cc;
    zero_asleep = λ h. cc;
    signalled = λ h. cc;
    fewer = omega arith;
    difference = refl;
  }
  Reach-Inv (later r (decrements mv)) = Decrements-Inv (Reach-Inv r) mv refl
  Reach-Inv (later r (increments mv)) = Increments-Inv (Reach-Inv r) mv refl
  Reach-Inv (later r (wakes e)) =
      let inv = Reach-Inv r in
      record {
        sleeps = λ h. cc;
        held_by_decrement = λ h. cc;
        held_by_increment = inv.held_by_increment;
        some_left = λ h. cc;
        zero_asleep = λ h. cc;
        signalled = λ h. cc;
        fewer = inv.fewer;
        difference = inv.difference;
      }

  -- `count` never passes below zero: there are at most as many decrements as increments, and `count`
  -- is their difference modulo 2 ^ 32.
  pub count-difference :
      {s : State} → Reach k s → (s.minuses ≤ s.pluses) × (s.count ≡ (s.pluses - s.minuses) % 2 ^ 32)
  count-difference r = let inv = Reach-Inv r in (inv.fewer, inv.difference)

  -- No wake-up is lost: the decrementer sleeps only while `count` is zero, and it has been woken by
  -- the time the incrementer is about to add.
  pub asleep_at_zero :
      {s : State} → Reach k s → s.decrementer ≡ asleep → (s.count ≡ 0) × (s.incrementer ≢ increment)
  asleep_at_zero r e = let inv = Reach-Inv r in (inv.zero_asleep e, inv.signalled e)

  -- The two threads are never both between the lock and the unlock.
  pub one_at_a_time :
      {s : State}
      → Reach k s
      → decrementing s.decrementer ≡ true
      → incrementing s.incrementer ≡ true
      → ⊥
  one_at_a_time r d i =
      let inv = Reach-Inv r in
      let by_d = inv.held_by_decrement d in let by_i = inv.held_by_increment i in cc
