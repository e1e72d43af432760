-- ===== src/Common/Lock.antt =====
-- What a thread relies on of a lock, and the two locks that the programs use: a mutex and a
-- semaphore that starts at 1.
use Prim.Native.Nat.{ℕ, ◌+◌, ◌-◌, ◌≤◌, ◌<◌}
use mathlib.Core.Path.{◌≡◌}
use mathlib.Core.Bool.{Bool, true, false}
use mathlib.Core.Option.{Option, none, some}
use native.Mathlib.Omega.{arith}
use cuda_open_mp.Common.Tests.{ltb}

-- `acquires i l l'`: the call of thread `i` returns and takes the lock from `l` to `l'`.
pub record Lock (L : Type 0) : Type 1 where
  pub initial : L
  pub acquires : ℕ → L → L → Type 0
  pub releases : ℕ → L → L → Type 0

-- A lock excludes: it is not free from an acquisition up to the release. `IsSound` holds of the
-- states of the lock that come up.
pub record Excludes {L : Type 0} (lock : Lock L) : Type 1 where
  pub is_free : L → Bool
  pub IsSound : L → Type 0
  pub initial-IsSound : IsSound lock.initial
  pub acquires-IsSound : {i : ℕ} {l l' : L} → IsSound l → lock.acquires i l l' → IsSound l'
  pub releases-IsSound :
      {i : ℕ} {l l' : L} → IsSound l → is_free l ≡ false → lock.releases i l l' → IsSound l'
  pub acquires-is_free : {i : ℕ} {l l' : L} → IsSound l → lock.acquires i l l' → is_free l ≡ true
  pub acquires-taken : {i : ℕ} {l l' : L} → IsSound l → lock.acquires i l l' → is_free l' ≡ false

-- `pthread_mutex_lock` and `pthread_mutex_unlock`; the state is the owner.
abbrev pub mutex : Lock (Option ℕ)
mutex = record {
  initial = none;
  acquires = λ i l l'. (l ≡ none) × (l' ≡ some i);
  releases = λ i l l'. l' ≡ none;
}

-- `sem_wait` and `sem_post` on a semaphore that `sem_init` sets to 1; the state is its value.
abbrev pub semaphore : Lock ℕ
semaphore = record {
  initial = 1;
  acquires = λ i l l'. (0 < l) × (l' ≡ l - 1);
  releases = λ i l l'. l' ≡ l + 1;
}

abbrev has_no_owner : Option ℕ → Bool
has_no_owner none = true
has_no_owner (some i) = false

pub mutex-Excludes : Excludes mutex
mutex-Excludes = record {
  is_free = has_no_owner;
  IsSound = λ l. Unit {0};
  initial-IsSound = tt;
  acquires-IsSound = λ s a. tt;
  releases-IsSound = λ s f r. tt;
  acquires-is_free = λ s a. ground arith;
  acquires-taken = λ s a. ground arith;
}

pub semaphore-Excludes : Excludes semaphore
semaphore-Excludes = record {
  is_free = λ l. ltb 0 l;
  IsSound = λ l. l ≤ 1;
  initial-IsSound = omega arith;
  acquires-IsSound = λ s a. omega arith;
  releases-IsSound = λ {i} {l} {l'} s f r. ground arith;
  acquires-is_free = λ s a. ground arith;
  acquires-taken = λ s a. ground arith;
}

pub IsSound-le : {l : ℕ} → semaphore-Excludes.IsSound l → l ≤ 1
unfolding semaphore-Excludes
IsSound-le h = h
