-- ===== src/Counter/Tests.antt =====
-- Tests and witnesses for the counters.
use cuda_open_mp.Common.{ℕ, ◌*◌, ◌≡◌, refl, false, Option, arith, ℕ_discrete}
use cuda_open_mp.Common.Threads.{System, pick, Reach, start, later}
use cuda_open_mp.Common.Lock.{mutex, mutex-Excludes}
use cuda_open_mp.Counter.{Shared, Pc, Adds, BareAdd, init, bare_init, boom}
use cuda_open_mp.Counter.Adds.{take, load, increment, store, give, done}
use cuda_open_mp.Counter.Total.{no_boom}

-- A round of the first thread, with NITER 1.
abbrev first_round : (s : System (Shared (Option ℕ)) Pc) × Reach (Adds mutex 1) (init mutex) s
unfolding ℕ_discrete
first_round = (
  _,
  later
      (later
        (later
          (later (later (later start (pick 0 (take (omega arith) (refl, refl)))) (pick 0 load))
            (pick 0 increment))
          (pick 0 store))
        (pick 0 (give refl)))
      (pick 0 (done refl)),
)

abbrev both_rounds : (s : System (Shared (Option ℕ)) Pc) × Reach (Adds mutex 1) (init mutex) s
unfolding ℕ_discrete
both_rounds = (
  _,
  later
      (later
        (later
          (later
            (later (later first_round.1 (pick 1 (take (omega arith) (refl, refl)))) (pick 1 load))
            (pick 1 increment))
          (pick 1 store))
        (pick 1 (give refl)))
      (pick 1 (done refl)),
)

no_boom_example : (both_rounds.0.mem.count ≡ 2 * 1) × (boom 1 both_rounds.0.mem.count ≡ false)
unfolding ℕ_discrete
no_boom_example = no_boom mutex-Excludes 1 both_rounds.1 refl refl

-- The first thread of thread_no_sem.c with a stale `tmp`.
abbrev stale : (s : System ℕ Pc) × Reach BareAdd bare_init s
unfolding ℕ_discrete
stale = (
  _,
  later
      (later
        (later (later start (pick 0 (BareAdd.load (omega arith))))
          (pick 1 (BareAdd.load (omega arith))))
        (pick 1 BareAdd.increment))
      (pick 1 BareAdd.store),
)
