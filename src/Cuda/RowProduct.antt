-- ===== src/Cuda/RowProduct.antt =====
-- The matrix product of CUDA_sample/second_cuda3.cu, whose blocks share a row of the first matrix.
-- The element type and its operations are parameters, as C's `float` is not modelled; `none` is an
-- index out of range, or a loop that has not ended when its fuel has run out. Main's leading
-- dimensions are all `n`.
mod Tests
pub mod Rows
pub mod Products
use cuda_open_mp.Common.{
  ℕ, zero, suc, ◌+◌, ◌*◌, Option, none, some, List, ltb, if◌then◌else◌, length, get_elem?, set,
  ◌>>=◌,
}
use cuda_open_mp.Cuda.Launch.{launch_cells, perform}
use cuda_open_mp.Cuda.Strides.{grid_stride}
use cuda_open_mp.Cuda.MatMul.{num_threads, compensated_from}

module _ {F : Type 0} (n : ℕ) where
  -- `for (i = tid; i < n; i += blockDim.x)` in all threads of a block, which access the memory `mem`
  -- in the order that `schedule` puts them in.
  unfoldable pub for_each_thread :
      (List ℕ → List ℕ) → (ℕ → List F → Option (List F)) → List F → Option (List F)
  for_each_thread schedule cell mem = do
    cells ← launch_cells (λ bid tid. grid_stride (suc n) n num_threads tid) 1 num_threads
    perform cell (schedule cells) mem

module _ {F : Type 0} (plus minus times : F → F → F) (nought : F) (n : ℕ) (a b : List F) where
  -- `data[i] = a[row * lda + i]`.
  unfoldable pub load_cell : ℕ → ℕ → List F → Option (List F)
  load_cell row i row_data = do
    x ← get_elem? a (row * n + i)
    if ltb i (length row_data) then some (set row_data i x) else none

  -- The body of the second loop; `row_data`, the array `data`, is a matrix with a single row.
  unfoldable pub row_cell : ℕ → List F → ℕ → List F → Option (List F)
  row_cell row row_data j c = do
    t ← compensated_from plus minus times n 0 0 n 0 j row_data b nought nought
    if ltb (row * n + j) (length c) then some (set c (row * n + j) t) else none

  -- The threads of a block: the barrier separates their two loops, which are numbered 0 and 1 for
  -- `schedule`, and `shared` is what the shared array holds when the block starts.
  module _ (schedule : ℕ → ℕ → List ℕ → List ℕ) (shared : ℕ → List F) where
    unfoldable pub row_block : ℕ → List F → Option (List F)
    row_block row c = do
      row_data ← for_each_thread n (schedule row 0) (load_cell row) (shared row)
      for_each_thread n (schedule row 1) (row_cell row row_data) c

    -- The launch of matmultCUDA, with its `n` blocks in the given order.
    unfoldable pub matmult_by_rows : List ℕ → List F → Option (List F)
    matmult_by_rows order c = perform row_block order c
