-- ===== src/Counter.antt =====
-- Pthread/thread_with_mutex.c, thread_with_sem.c, 2thread_count.c, thread_no_sem.c,
-- 2thread_error_count.c and 2thread_error_count_1.c: two threads that increment a global `count`,
-- NITER times each.
pub mod Stores
pub mod Total
pub mod Lost
pub mod Bare
mod Tests
use cuda_open_mp.Common.{ℕ, zero, suc, ◌+◌, ◌*◌, ◌<◌, ◌≡◌, Bool, Option, ltb}
use cuda_open_mp.Common.Threads.{System}
use cuda_open_mp.Common.Lock.{Lock, mutex, semaphore}

-- NITER
abbrev pub niter : ℕ
niter = 1000000

-- The global `count`, and the lock.
pub record Shared (L : Type 0) : Type 0 where
  pub count : ℕ
  pub lock : L

-- Where a thread stands, with its `i` and, where it is live, its `tmp`.
pub data Pc : Type 0 where
  loop : ℕ → Pc  -- the test of the `for`
  locked : ℕ → Pc
  loaded : ℕ → ℕ → Pc  -- behind `tmp = count`
  incremented : ℕ → ℕ → Pc  -- behind `tmp = tmp + 1`
  stored : ℕ → Pc  -- behind `count = tmp`
  ended : Pc

-- One step of `ThreadAdd` in thread `i`, with `n` for NITER and `lock` around the three statements.
pub data Adds {L : Type 0} (lock : Lock L) (n i : ℕ) (m : Shared L)
    : Pc → Shared L → Pc → Type 0 where
  take :
      {k : ℕ} {l : L}
      → k < n
      → lock.acquires i m.lock l
      → Adds lock n i m (loop k) (record m { lock = l }) (locked k)
  load : {k : ℕ} → Adds lock n i m (locked k) m (loaded k m.count)
  increment : {k tmp : ℕ} → Adds lock n i m (loaded k tmp) m (incremented k (tmp + 1))
  store : {k tmp : ℕ} → Adds lock n i m (incremented k tmp) (record m { count = tmp }) (stored k)
  give :
      {k : ℕ} {l : L}
      → lock.releases i m.lock l
      → Adds lock n i m (stored k) (record m { lock = l }) (loop (k + 1))
  done : {k : ℕ} → k ≡ n → Adds lock n i m (loop k) m ended

-- Threads 0 and 1 are those that `main` creates.
abbrev pub created : ℕ → Pc
created zero = loop 0
created (suc zero) = loop 0
created (suc (suc i)) = ended

abbrev pub init : {L : Type 0} → Lock L → System (Shared L) Pc
init lock = record { mem = record { count = 0; lock = lock.initial }; pc = created }

-- `ThreadAdd` of thread_with_mutex.c.
abbrev pub MutexAdd : ℕ → Shared (Option ℕ) → Pc → Shared (Option ℕ) → Pc → Type 0
MutexAdd = Adds mutex niter

-- `ThreadAdd` of thread_with_sem.c.
abbrev pub SemAdd : ℕ → Shared ℕ → Pc → Shared ℕ → Pc → Type 0
SemAdd = Adds semaphore niter

-- `count_function` of 2thread_count.c, whose `count++` is the same load, increment and store.
abbrev pub CountFunction : ℕ → Shared (Option ℕ) → Pc → Shared (Option ℕ) → Pc → Type 0
CountFunction = Adds mutex niter

abbrev pub sem_init : System (Shared ℕ) Pc
sem_init = init semaphore

abbrev pub count_init : System (Shared (Option ℕ)) Pc
count_init = init mutex

-- `ThreadAdd` of thread_no_sem.c, which takes no lock.
pub data BareAdd (i : ℕ) (m : ℕ) : Pc → ℕ → Pc → Type 0 where
  load : {k : ℕ} → k < niter → BareAdd i m (loop k) m (loaded k m)
  increment : {k tmp : ℕ} → BareAdd i m (loaded k tmp) m (incremented k (tmp + 1))
  store : {k tmp : ℕ} → BareAdd i m (incremented k tmp) tmp (loop (k + 1))
  done : {k : ℕ} → k ≡ niter → BareAdd i m (loop k) m ended

abbrev pub bare_init : System ℕ Pc
bare_init = record { mem = 0; pc = created }

-- `count_function` of 2thread_error_count.c, and of 2thread_error_count_1.c.
abbrev pub ErrorCount : ℕ → ℕ → Pc → ℕ → Pc → Type 0
ErrorCount = BareAdd

abbrev pub ErrorCount1 : ℕ → ℕ → Pc → ℕ → Pc → Type 0
ErrorCount1 = BareAdd

-- The test of `main` behind the two joins: `true` prints BOOM.
abbrev pub boom : ℕ → ℕ → Bool
boom n count = ltb count (2 * n)
