-- ===== src/Cuda/InnerProduct.antt =====
-- CUDA_sample/inner_product.cu and CUDA_sample/inner_product1.cu: the inner product of two vectors
-- by kernels that multiply and sum, and vecDot_cpu. The element type and its operations are
-- parameters, as C's `float` is not modelled; `none` is an index out of range.
mod Tests
pub mod Blocks
pub mod Totals
pub mod InPlace
use cuda_open_mp.Common.{
  ℕ, zero, suc, ◌+◌, ◌*◌, ◌^◌, Option, none, some, List, [], ◌∷◌, ltb, leb, if◌then◌else◌, length,
  get_elem?, set, upto, ◌>>=◌,
}
use cuda_open_mp.Cuda.Launch.{launch_cells, perform}
use cuda_open_mp.Cuda.Strides.{u32}
use cuda_open_mp.Cuda.Reduction.{tree_sum, unrolled_sum}

-- The cell of a thread of vecMul_gpu_kernel. From 2 ^ 31 on the `int` `i` is negative, and the
-- thread would write before the array.
unfoldable pub mul_cells : ℕ → ℕ → ℕ → ℕ → Option (List ℕ)
mul_cells n block_dim bid tid =
    let i = u32 (bid * block_dim + tid) in
    if leb (2 ^ 31) i then none else if ltb i n then some (i ∷ []) else some []

module _ {F : Type 0} (plus times : F → F → F) where
  -- `vecC[i] = vecB[i] * vecA[i]`.
  unfoldable pub mul_cell : List F → List F → ℕ → List F → Option (List F)
  mul_cell a b i c = do
    y ← get_elem? b i
    x ← get_elem? a i
    if ltb i (length c) then some (set c i (times y x)) else none

  -- `k` rounds of a loop from `i` on that adds `v[at + i]` to `s`.
  unfoldable pub add_up : ℕ → ℕ → ℕ → List F → F → Option F
  add_up zero i at v s = some s
  add_up (suc k) i at v s = do x ← get_elem? v (at + i); add_up k (suc i) at v (plus s x)

  -- `k` rounds of the loop of vecDot_cpu, from `i` on.
  unfoldable pub dot_from : ℕ → ℕ → List F → List F → F → Option F
  dot_from zero i a b s = some s
  dot_from (suc k) i a b s = do
    y ← get_elem? b i
    x ← get_elem? a i
    dot_from k (suc i) a b (plus s (times y x))

  unfoldable pub vec_dot_cpu : ℕ → List F → List F → F → Option F
  vec_dot_cpu n a b s = dot_from n 0 a b s

  module _ (nought : F) (schedule : List ℕ → List ℕ) (block_dim : ℕ) where
    unfoldable pub vec_mul_gpu : ℕ → ℕ → List F → List F → List F → Option (List F)
    vec_mul_gpu n grid_dim a b c = do
      cells ← launch_cells (λ bid tid. mul_cells n block_dim bid tid) grid_dim block_dim
      perform (mul_cell a b) (schedule cells) c

    -- The block `bid` of vecSum_gpu_kernel_1, of which only thread 0 does anything.
    unfoldable pub vec_sum_1 : List F → ℕ → List F → Option (List F)
    vec_sum_1 c bid partial_sum = do
      local_sum ← add_up block_dim 0 (bid * block_dim) c nought
      if ltb bid (length partial_sum) then some (set partial_sum bid local_sum) else none

    -- `vec[tid] = vecC[id]`.
    unfoldable pub load : List F → ℕ → ℕ → List F → Option (List F)
    load c bid tid vec = do
      x ← get_elem? c (bid * block_dim + tid)
      if ltb tid (length vec) then some (set vec tid x) else none

    -- The block `bid` of vecSum_gpu_kernel_2, whose shared array starts as `shared`.
    unfoldable pub vec_sum_2 : List F → List F → ℕ → List F → Option (List F)
    vec_sum_2 shared c bid partial_sum = do
      vec ← perform (load c bid) (schedule (upto block_dim 0)) shared
      local_sum ← add_up block_dim 0 0 vec nought
      if ltb bid (length partial_sum) then some (set partial_sum bid local_sum) else none

    -- What main of inner_product.cu computes with the kernel `vec_sum` of a block.
    unfoldable pub total_gpu :
        (List F → ℕ → List F → Option (List F))
        → ℕ
        → ℕ
        → List F
        → List F
        → List F
        → List F
        → Option F
    total_gpu vec_sum n grid_dim a b c partial_sum = do
      c' ← vec_mul_gpu n grid_dim a b c
      partial_sum' ← perform (vec_sum c') (schedule (upto grid_dim 0)) partial_sum
      add_up grid_dim 0 0 partial_sum' nought

    -- The block `bid` of vecSum_gpu_kernel_3 and vecSum_gpu_kernel, which write into the array they
    -- read; `sum` is the reduction of the loaded array.
    unfoldable pub vec_sum_in_place : List F → (List F → Option F) → ℕ → List F → Option (List F)
    vec_sum_in_place shared sum bid c = do
      vec ← perform (load c bid) (schedule (upto block_dim 0)) shared
      s ← sum vec
      if ltb bid (length c) then some (set c bid s) else none

    -- What main of inner_product1.cu computes, with the blocks in the given order; it launches
    -- vecSum_gpu_kernel, whose `sum` is `unrolled_sum`.
    unfoldable pub total_in_place :
        List F → (List F → Option F) → ℕ → ℕ → List ℕ → List F → List F → List F → Option F
    total_in_place shared sum n grid_dim order a b c = do
      c' ← vec_mul_gpu n grid_dim a b c
      c'' ← perform (vec_sum_in_place shared sum) order c'
      add_up grid_dim 0 0 c'' nought
