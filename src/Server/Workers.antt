-- ===== src/Server/Workers.antt =====
-- The worker threads of Pthread/pthreads-web-server-master/server.c: `accept`, and the request ids
-- that `process_requests` hands out under `accept_mutex`.
pub mod Ids
mod Tests
use cuda_open_mp.Common.{ℕ, ◌+◌, ◌≤◌, ◌<◌, ◌≡◌, ◌⊎◌, Option, none, some}
use cuda_open_mp.Common.Threads.{System}
use cuda_open_mp.Server.Text.Decimal.{int_end}

-- What the workers share: `next_request_id`, an `int`, and the owner of `accept_mutex`.
pub record Shared : Type 0 where
  pub next_request_id : ℕ
  pub owner : Option ℕ

-- Where a worker stands, with the value of `request_id` that is live there.
pub data Pc : Type 0 where
  accepting : Pc  -- head of the loop, at `accept`
  accepted : Pc  -- before `pthread_mutex_lock`
  locked : Pc
  got : ℕ → Pc  -- behind `request_id = *(td.next_request_idp)`
  bumped : ℕ → Pc  -- behind the increment, before `pthread_mutex_unlock`
  serving : ℕ → Pc  -- from `recv` to the end of the round
  exited : Pc  -- `pthread_exit`
  undefined : Pc  -- the counter has overflowed

-- The errno with which a worker gives up: EBADF, EINVAL, or 53.
abbrev pub EndsWorker : ℕ → Type 0
EndsWorker errno = (errno ≡ 22) ⊎ (errno ≡ 9) ⊎ (errno ≡ 53)

-- One access of worker `i`. `served` covers every way in which a round ends. An increment that leaves
-- the range of an `int` is undefined, and its worker is followed no further.
pub data Move (i : ℕ) (m : Shared) : Pc → Shared → Pc → Type 0 where
  accept : Move i m accepting m accepted
  accept_fails : (errno : ℕ) → ¬ EndsWorker errno → Move i m accepting m accepting
  accept_ends : (errno : ℕ) → EndsWorker errno → Move i m accepting m exited
  lock : m.owner ≡ none → Move i m accepted (record m { owner = some i }) locked
  read : Move i m locked m (got m.next_request_id)
  increment :
      {r : ℕ}
      → m.next_request_id + 1 < int_end
      → Move i m (got r) (record m { next_request_id = m.next_request_id + 1 }) (bumped r)
  overflow : {r : ℕ} → int_end ≤ m.next_request_id + 1 → Move i m (got r) m undefined
  unlock : {r : ℕ} → Move i m (bumped r) (record m { owner = none }) (serving r)
  served : {r : ℕ} → Move i m (serving r) m accepting

-- `main`: ids from 0, the mutex free, every worker at the head of its loop.
abbrev pub init : System Shared Pc
init = record { mem = record { next_request_id = 0; owner = none }; pc = λ _. accepting }
