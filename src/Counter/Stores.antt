-- ===== src/Counter/Stores.antt =====
-- The stores that the two threads of the counter programs have made.
use cuda_open_mp.Common.{ℕ, zero, suc, ◌+◌, ◌≡◌, ap, arith, ℕ_discrete}
use cuda_open_mp.Common.Threads.{update}
use cuda_open_mp.Counter.{Pc, loop, locked, loaded, incremented, stored, ended}

-- The stores that a thread has made.
abbrev pub stores : ℕ → Pc → ℕ
stores n (loop k) = k
stores n (locked k) = k
stores n (loaded k tmp) = k
stores n (incremented k tmp) = k
stores n (stored k) = k + 1
stores n ended = n

module _ (n : ℕ) where
  -- A store adds one to the stores of its thread, which is 0 or 1, and to `count`.
  pub total-store :
      (pc : ℕ → Pc) (i k tmp count : ℕ)
      → pc i ≡ incremented k tmp
      → tmp ≡ count + 1
      → stores n (pc 0) + stores n (pc 1) ≡ count
      → ((j : ℕ) → pc (suc (suc j)) ≡ ended)
      → stores n (update pc i (stored k) 0) + stores n (update pc i (stored k) 1) ≡ tmp
  unfolding ℕ_discrete
  total-store pc zero k tmp count e f t o = let s = ap (stores n) e in omega arith
  total-store pc (suc zero) k tmp count e f t o = let s = ap (stores n) e in omega arith
  total-store pc (suc (suc i)) k tmp count e f t o = let h = o i in cc

  -- No other move changes the stores of a thread.
  pub total-same :
      (pc : ℕ → Pc) (i : ℕ) (p : Pc)
      → stores n p ≡ stores n (pc i)
      → stores n (update pc i p 0) + stores n (update pc i p 1) ≡ stores n (pc 0) + stores n (pc 1)
  total-same pc i p e = ground arith
