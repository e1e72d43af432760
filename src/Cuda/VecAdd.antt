-- ===== src/Cuda/VecAdd.antt =====
-- CUDA_sample/vec_add.cu: its kernels, vecAdd_cpu, check_result, and the tests that main runs. The
-- element type and its addition are parameters, as C's `float` is not modelled. The number `n` of
-- elements is ELEMENT_COUNT in main; `suc n` rounds are fuel for each loop.
mod Tests
pub mod Launches
pub mod Table
use cuda_open_mp.Common.{
  not, ℕ, zero, suc, ◌+◌, ◌*◌, ◌/◌, Bool, true, false, Option, none, some, List, [], ◌∷◌, ltb,
  if◌then◌else◌, length, get_elem?, get_or, replicate, set, ◌>>=◌,
}
use cuda_open_mp.Cuda.Launch.{launch_cells, perform}
use cuda_open_mp.Cuda.Strides.{u32, grid_stride, guarded}

abbrev pub element_count : ℕ
element_count = 1024 * 1024

-- The kernels vecAdd_gpu_kernel_*.
pub data Kernel : Type 0 where
  kernel_better : Kernel
  kernel_better_a : Kernel
  kernel_better_b : Kernel
  kernel_better_c : Kernel
  kernel_better_d : Kernel
  kernel_better_e : Kernel
  kernel_2_19 : Kernel
  kernel_2_19_a : Kernel
  kernel_2_19_b : Kernel
  kernel_2_18 : Kernel
  kernel_2_18_a : Kernel
  kernel_2_18_b : Kernel
  kernel_2_10 : Kernel
  kernel_2_10_a : Kernel
  kernel_2_10_b : Kernel
  kernel_2_10_c : Kernel
  kernel_256_1 : Kernel
  kernel_256_2 : Kernel
  kernel_2_256 : Kernel
  kernel_1_1 : Kernel
  kernel_1_2 : Kernel
  kernel_1_256 : Kernel
  kernel_1_4096 : Kernel

module _ (n grid_dim block_dim bid tid : ℕ) where
  -- The kernels that start at `idx` and step by the number of threads.
  unfoldable pub better_cells : Option (List ℕ)
  better_cells = grid_stride (suc n) n (u32 (block_dim * grid_dim)) (u32 (block_dim * bid + tid))

  -- The kernels that add the thread's number in the grid to a multiple of `step`.
  unfoldable pub step_cells : ℕ → Option (List ℕ)
  step_cells step = guarded (suc n) n step (u32 (block_dim * bid + tid)) 0

  -- The kernels that add the thread's number in its block to a multiple of `step`.
  unfoldable pub block_cells : ℕ → Option (List ℕ)
  block_cells step = guarded (suc n) n step tid 0

  unfoldable pub thread_cells : Kernel → Option (List ℕ)
  thread_cells kernel_better = better_cells
  thread_cells kernel_better_a = better_cells
  thread_cells kernel_better_b = better_cells
  thread_cells kernel_better_c = better_cells
  thread_cells kernel_better_d = better_cells
  thread_cells kernel_better_e = better_cells
  thread_cells kernel_2_19 = step_cells (1024 * 512)
  thread_cells kernel_2_19_a = step_cells (1024 * 512)
  thread_cells kernel_2_19_b = step_cells (1024 * 512)
  thread_cells kernel_2_18 = step_cells (1024 * 256)
  thread_cells kernel_2_18_a = step_cells (1024 * 256)
  thread_cells kernel_2_18_b = step_cells (1024 * 256)
  thread_cells kernel_2_10 = step_cells 1024
  thread_cells kernel_2_10_a = step_cells 1024
  thread_cells kernel_2_10_b = step_cells 1024
  thread_cells kernel_2_10_c = step_cells 1024
  thread_cells kernel_256_1 = step_cells 256
  thread_cells kernel_256_2 = step_cells 512
  thread_cells kernel_2_256 = step_cells 512
  thread_cells kernel_1_1 = grid_stride (suc n) n 1 0
  thread_cells kernel_1_2 = block_cells 2
  thread_cells kernel_1_256 = block_cells 256
  thread_cells kernel_1_4096 = block_cells 4096

module _ {F : Type 0} (plus : F → F → F) where
  -- `vecC[i] = vecB[i] + vecA[i]`; `none` is an index out of range.
  unfoldable pub add_cell : List F → List F → ℕ → List F → Option (List F)
  add_cell a b i c = do
    x ← get_elem? b i
    y ← get_elem? a i
    if ltb i (length c) then some (set c i (plus x y)) else none

  -- A launch, whose writes are made in the order that `schedule` puts them in.
  unfoldable pub launch :
      (List ℕ → List ℕ) → Kernel → ℕ → ℕ → ℕ → List F → List F → List F → Option (List F)
  launch schedule kernel n grid block a b c = do
    cells ← launch_cells (λ bid tid. thread_cells n grid block bid tid kernel) grid block
    perform (add_cell a b) (schedule cells) c

  -- `k` rounds of the loop of vecAdd_cpu, from `i` on.
  unfoldable pub cpu_from : ℕ → ℕ → List F → List F → List F → Option (List F)
  cpu_from zero i a b c = some c
  cpu_from (suc k) i a b c = do c' ← add_cell a b i c; cpu_from k (suc i) a b c'

  unfoldable pub vec_add_cpu : ℕ → List F → List F → List F → Option (List F)
  vec_add_cpu n a b c = cpu_from n 0 a b c

module _ {F : Type 0} (equal : F → F → Bool) where
  -- `k` rounds of the loop of check_result, from `i` on.
  unfoldable pub check_from : ℕ → ℕ → List F → List F → Option Bool
  check_from zero i h d = some true
  check_from (suc k) i h d = do
    x ← get_elem? h i
    y ← get_elem? d i
    elim (equal x y) [ true ↦ check_from k (suc i) h d | false ↦ some false ]

  unfoldable pub check_result : ℕ → List F → List F → Option Bool
  check_result n h d = check_from n 0 h d

abbrev pub grids : List ℕ
grids =
    1 ∷ 1 ∷ 1 ∷ 2 ∷ 4 ∷ 256 ∷ 256 ∷ 256 ∷ 1024 ∷ 2048 ∷ 4096 ∷ 8192 ∷ 16384 ∷ 32768 ∷ 65536 ∷ 131072
    ∷ 262144 ∷ 524288 ∷ 1048576 ∷ []

abbrev pub blocks : List ℕ
blocks =
    1 ∷ 2 ∷ 256 ∷ 256 ∷ 256 ∷ 1 ∷ 2 ∷ 4 ∷ 1024 ∷ 512 ∷ 256 ∷ 128 ∷ 64 ∷ 32 ∷ 16 ∷ 8 ∷ 4 ∷ 2 ∷ 1 ∷ []

-- The kernels of the cases of main's switch, from case 0 on.
abbrev pub cases : List Kernel
cases =
    kernel_1_1 ∷ kernel_1_2 ∷ kernel_1_256 ∷ kernel_256_1 ∷ kernel_256_2 ∷ kernel_256_1
    ∷ kernel_256_2 ∷ kernel_2_10_a ∷ kernel_2_10_b ∷ kernel_2_10_c ∷ kernel_2_18_a ∷ kernel_2_18_b
    ∷ kernel_2_19_a ∷ kernel_2_19_b ∷ kernel_better_a ∷ kernel_better_b ∷ kernel_better_c
    ∷ kernel_better_d ∷ kernel_better_e ∷ []

-- What a test of main prints last.
pub data Outcome : Type 0 where
  skip : Outcome
  launch_failed : Outcome
  sync_failed : Outcome
  result : Bool → Outcome

module _ {F : Type 0} (nought : F) (plus : F → F → F) (equal : F → F → Bool)
    (schedule : List ℕ → List ℕ) (max_threads : ℕ) (launches syncs : ℕ → ℕ → Bool) where
  -- Round `i` of main's loop over the configurations, on `n` elements; `none` is an index out of
  -- range or a thread that does not end. The device's limit, and whether a launch and the wait for
  -- it succeed, are parameters.
  unfoldable pub test : ℕ → ℕ → List F → List F → List F → Option Outcome
  test n i a b h = do
    g ← get_elem? grids i
    k ← get_elem? blocks i
    if ltb max_threads k
        then some skip
        else if not (launches g k)
        then some launch_failed
        else if not (syncs g k)
        then some sync_failed
        else (launch plus schedule (get_or cases i kernel_better) n g k a b (replicate n nought)
            >>= (λ d. check_result equal n h d >>= (λ ok. some (result ok))))
