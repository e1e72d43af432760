-- ===== src/Server/Workers/Tests.antt =====
-- Tests and witnesses for the worker threads.
use cuda_open_mp.Common.{ℕ, ◌<◌, ◌≡◌, refl, ℕ_discrete, arith}
use cuda_open_mp.Server.Text.Decimal.{int_end}
use cuda_open_mp.Common.Threads.{System, Reach, start, later, pick}
use cuda_open_mp.Server.Workers.{Shared, Pc, Move, init}
use cuda_open_mp.Server.Workers.Ids.{request_ids_distinct}

-- Worker 0 serves the first request.
abbrev one_served : (s : System Shared Pc) × Reach Move init s
unfolding ℕ_discrete
one_served = (
  _,
  later
      (later
        (later (later (later start (pick 0 Move.accept)) (pick 0 (Move.lock refl)))
          (pick 0 Move.read))
        (pick 0 (Move.increment (omega arith))))
      (pick 0 Move.unlock),
)

-- Worker 1 reads the next id.
abbrev one_more : (s : System Shared Pc) × Reach Move one_served.0 s
unfolding ℕ_discrete
one_more = (
  _,
  later (later (later start (pick 1 Move.accept)) (pick 1 (Move.lock refl))) (pick 1 Move.read),
)

request_ids_distinct_example : (◌≡◌ {A = ℕ} 0 0) × (0 < int_end)
unfolding ℕ_discrete
request_ids_distinct_example = request_ids_distinct {s = one_served.0} 0 0 0 one_served.1 refl refl
