-- ===== src/Cuda/Threads.antt =====
-- The numbering of the threads of a launch by blocks and places.
use native.Mathlib.Nat.{mul-add-div_right, div-eq_of_lt, mul-add-mod_self_right, mod-eq_of_lt}
use cuda_open_mp.Common.{
  ℕ, zero, suc, ◌+◌, ◌-◌, ◌*◌, ◌/◌, ◌%◌, ap, ◌∙◌, ◌≤◌, ◌<◌, ◌≡◌, inl, inr, arith, ltb, Bool-cases,
}

-- The number of a thread in the grid, and the thread of a number.
pub thread_lt : (g b bid tid : ℕ) → bid < g → tid < b → b * bid + tid < g * b
thread_lt zero b bid tid h h' = absurd (omega arith)
thread_lt (suc g) b zero tid h h' = ground arith
thread_lt (suc g) b (suc bid) tid h h' = ground (arith, thread_lt g b bid tid (omega arith) h')

pub thread_of :
    (g b t : ℕ) → t < g * b → (bid : ℕ) × (tid : ℕ) × (bid < g) × (tid < b) × (t ≡ b * bid + tid)
thread_of zero b t h = absurd (ground arith)
thread_of (suc g) b t h = elim (Bool-cases (ltb t (g * b))) [
  | inl below ↦
      let (bid, tid, lb, lt, e) = thread_of g b t (ground arith) in (bid, tid, omega arith, lt, e)
  | inr above ↦ (g, t - g * b, omega arith, ground arith, ground arith)
]

pub below_scaled : (m s : ℕ) → 0 < s → m < suc m * s
below_scaled zero s h = ground arith
below_scaled (suc m) s h = ground (arith, below_scaled m s h)

pub le_scaled : (g b : ℕ) → 0 < g → b ≤ g * b
le_scaled zero b h = absurd (omega arith)
le_scaled (suc g) b h = ground arith

pub scaled_le : (a g b : ℕ) → a ≤ g → a * b ≤ g * b
scaled_le zero g b h = ground arith
scaled_le (suc a) zero b h = absurd (omega arith)
scaled_le (suc a) (suc g) b h = ground (arith, scaled_le a g b (omega arith))

pub le_times : (g b : ℕ) → 0 < b → g ≤ g * b
le_times zero b h = ground arith
le_times (suc g) b h = ground (arith, le_times g b h)

-- A number by its row and its column.
pub place-div : (row n column : ℕ) → column < n → (row * n + column) / n ≡ row
place-div row n column h =
    let pos : 0 < n = omega arith in
    mul-add-div_right pos row column ∙ ap (◌+◌ row) (div-eq_of_lt h) ∙ sum_zero row
  where
    sum_zero : (m : ℕ) → m + 0 ≡ m
    sum_zero m = omega arith

pub place-mod : (row n column : ℕ) → column < n → (row * n + column) % n ≡ column
place-mod row n column h = mul-add-mod_self_right row n column ∙ mod-eq_of_lt h
