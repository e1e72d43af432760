-- ===== src/IncDec.antt =====
-- Pthread/inc_dec.c, inc_dec_cond.c, inc_dec_mutex.c, inc_dec1.c, inc_dec2.c and dotprod_mutex.c: a
-- thread that decrements a shared unsigned `count` and one that increments it, for ever.
pub mod Count
mod Tests
use cuda_open_mp.Common.{ℕ, ◌+◌, ◌-◌, ◌%◌, ◌^◌, ◌≡◌, ◌≢◌, Bool, true, false, ◌==◌, if◌then◌else◌}

-- What `decrement_count` does at zero: wait in a loop on the condition, wait once, or go on; the
-- programs that wait signal in `increment_count`.
pub data Kind : Type 0 where
  waits_in_loop waits_once goes_on : Kind

-- The owner of `count_lock`.
pub data Owner : Type 0 where
  free by_decrement by_increment : Owner

pub data DecrementPc : Type 0 where
  lock_decrement : DecrementPc
  test_zero : DecrementPc
  asleep : DecrementPc  -- in `pthread_cond_wait`
  woken : DecrementPc  -- awake in it, without the lock
  decrement : DecrementPc
  unlock_decrement : DecrementPc

pub data IncrementPc : Type 0 where
  lock_increment : IncrementPc
  signal_zero : IncrementPc  -- `if (count==0) pthread_cond_signal`
  increment : IncrementPc
  unlock_increment : IncrementPc

-- `minuses` and `pluses` count the decrements and the increments made.
pub record State : Type 0 where
  pub count : ℕ
  pub owner : Owner
  pub decrementer : DecrementPc
  pub incrementer : IncrementPc
  pub minuses : ℕ
  pub pluses : ℕ

-- `pthread_cond_signal`
abbrev pub wake : DecrementPc → DecrementPc
wake asleep = woken
wake d = d

-- Behind `pthread_cond_wait`.
abbrev pub after_wait : Kind → DecrementPc
after_wait waits_in_loop = test_zero
after_wait waits_once = unlock_decrement
after_wait goes_on = unlock_decrement

-- Behind the lock of `increment_count`.
abbrev pub locked_increment : Kind → IncrementPc
locked_increment waits_in_loop = signal_zero
locked_increment waits_once = signal_zero
locked_increment goes_on = increment

-- One step of `decrement_count`.
pub data Decrements (k : Kind) (s : State) : DecrementPc → State → Type 0 where
  lock :
      s.owner ≡ free
      → Decrements k s lock_decrement (record s { owner = by_decrement; decrementer = test_zero })
  not_zero : s.count ≢ 0 → Decrements k s test_zero (record s { decrementer = decrement })
  is_zero :
      s.count ≡ 0
      → k ≡ goes_on
      → Decrements k s test_zero (record s { decrementer = unlock_decrement })
  wait :
      s.count ≡ 0
      → k ≢ goes_on
      → Decrements k s test_zero (record s { owner = free; decrementer = asleep })
  relock :
      s.owner ≡ free
      → Decrements k s woken (record s { owner = by_decrement; decrementer = after_wait k })
  decrease : Decrements k s decrement (record s {
    count = (s.count + (2 ^ 32 - 1)) % 2 ^ 32;
    decrementer = unlock_decrement;
    minuses = s.minuses + 1;
  })
  unlock : Decrements k s unlock_decrement (record s { owner = free; decrementer = lock_decrement })

-- One step of `increment_count`.
pub data Increments (k : Kind) (s : State) : IncrementPc → State → Type 0 where
  lock :
      s.owner ≡ free
      → Increments k s lock_increment
          (record s { owner = by_increment; incrementer = locked_increment k })
  signal :
      s.count ≡ 0
      → Increments k s signal_zero
          (record s { decrementer = wake s.decrementer; incrementer = increment })
  no_signal : s.count ≢ 0 → Increments k s signal_zero (record s { incrementer = increment })
  increase : Increments k s increment (record s {
    count = (s.count + 1) % 2 ^ 32;
    incrementer = unlock_increment;
    pluses = s.pluses + 1;
  })
  unlock : Increments k s unlock_increment (record s { owner = free; incrementer = lock_increment })

-- The last step is a spurious wake-up, which POSIX allows.
pub data Step (k : Kind) (s : State) : State → Type 0 where
  decrements : {t : State} → Decrements k s s.decrementer t → Step k s t
  increments : {t : State} → Increments k s s.incrementer t → Step k s t
  wakes : s.decrementer ≡ asleep → Step k s (record s { decrementer = woken })

abbrev pub init : State
init = record {
  count = 0;
  owner = free;
  decrementer = lock_decrement;
  incrementer = lock_increment;
  minuses = 0;
  pluses = 0;
}

pub data Reach (k : Kind) : State → Type 0 where
  start : Reach k init
  later : {s t : State} → Reach k s → Step k s t → Reach k t

abbrev pub inc_dec : Kind
inc_dec = waits_in_loop

abbrev pub inc_dec_cond : Kind
inc_dec_cond = waits_once

abbrev pub inc_dec_mutex : Kind
inc_dec_mutex = goes_on

abbrev pub inc_dec1 : Kind
inc_dec1 = goes_on

abbrev pub inc_dec2 : Kind
inc_dec2 = goes_on

-- dotprod_mutex.c holds the text of inc_dec2.c.
abbrev pub dotprod_mutex : Kind
dotprod_mutex = goes_on
