-- ===== src/Cuda/MatMul.antt =====
-- The square matrix products of CUDA_sample/second_cuda1.cu and CUDA_sample/second_cuda2.cu, and the
-- one of TensorCore/four_compare/gemm_compare.cu that does not use a library. The element type and
-- its operations are parameters, as C's `float` is not modelled; `none` is an index out of range.
-- A cell is the number `row * n + column`, and main's leading dimensions are all `n`.
mod Tests
pub mod Sums
pub mod Launches
pub mod Products
pub mod Modulo
use cuda_open_mp.Common.{
  ℕ, zero, suc, ◌+◌, ◌-◌, ◌*◌, ◌/◌, ◌%◌, ◌&&◌, Option, none, some, List, [], ◌∷◌, ltb,
  if◌then◌else◌, length, get_elem?, set, upto, ◌>>=◌,
}
use cuda_open_mp.Cuda.Launch.{launch_cells, perform}

abbrev pub num_threads : ℕ
num_threads = 256

-- The cell of a thread of matMultCUDA.
unfoldable pub row_column_cells : ℕ → ℕ → ℕ → ℕ → Option (List ℕ)
row_column_cells n block_dim bid tid =
    let idx = bid * block_dim + tid in
    if ltb (idx / n) n && ltb (idx % n) n then some ((idx / n * n + idx % n) ∷ []) else some []

-- The cell of a thread of gemm_cuda_core_kernel, whose grid and blocks have two dimensions: `side`
-- blocks and `width` threads in each; the blocks and threads are numbered row by row.
unfoldable pub gemm_cells : ℕ → ℕ → ℕ → ℕ → ℕ → Option (List ℕ)
gemm_cells n side width block thread =
    let row = block / side * width + thread / width in
    let col = block % side * width + thread % width in
    if ltb row n && ltb col n then some ((row * n + col) ∷ []) else some []

module _ {F D : Type 0} (add : D → F → D) (times : F → F → F) where
  -- `k` rounds of `t += a[row * lda + i] * b[i * ldb + column]`, from `i` on, where the type of `t`
  -- may be a wider one than that of the elements.
  unfoldable pub sum_from : ℕ → ℕ → ℕ → ℕ → ℕ → ℕ → List F → List F → D → Option D
  sum_from zero i lda ldb row column a b t = some t
  sum_from (suc k) i lda ldb row column a b t = do
    x ← get_elem? a (row * lda + i)
    y ← get_elem? b (i * ldb + column)
    sum_from k (suc i) lda ldb row column a b (add t (times x y))

  -- matmult on the CPU, whose sums are of type double: `rounded` is the conversion to float.
  module _ (nought : D) (rounded : D → F) (n : ℕ) (a b : List F) where
    unfoldable pub cpu_cell : ℕ → ℕ → List F → Option (List F)
    cpu_cell i j c = do
      t ← sum_from n 0 n n i j a b nought
      if ltb (i * n + j) (length c) then some (set c (i * n + j) (rounded t)) else none

    unfoldable pub matmult : List F → Option (List F)
    matmult c = perform (λ i. perform (λ j. cpu_cell i j) (upto n 0)) (upto n 0) c

module _ {F : Type 0} (plus minus times : F → F → F) where
  -- `k` rounds of the loop of second_cuda2.cu, which carries the rounding error `y` along.
  unfoldable pub compensated_from : ℕ → ℕ → ℕ → ℕ → ℕ → ℕ → List F → List F → F → F → Option F
  compensated_from zero i lda ldb row column a b t y = some t
  compensated_from (suc k) i lda ldb row column a b t y = do
    u ← get_elem? a (row * lda + i)
    v ← get_elem? b (i * ldb + column)
    compensated_from k (suc i) lda ldb row column a b (minus t (minus y (times u v)))
        (plus (minus (minus t (minus y (times u v))) t) (minus y (times u v)))

  module _ (nought : F) (n : ℕ) (a b : List F) where
    -- What a thread of second_cuda1.cu and of gemm_cuda_core_kernel writes into its cell.
    unfoldable pub plain_cell : ℕ → List F → Option (List F)
    plain_cell cell c = do
      t ← sum_from plus times n 0 n n (cell / n) (cell % n) a b nought
      if ltb cell (length c) then some (set c cell t) else none

    -- What a thread of second_cuda2.cu writes into its cell.
    unfoldable pub compensated_cell : ℕ → List F → Option (List F)
    compensated_cell cell c = do
      t ← compensated_from n 0 n n (cell / n) (cell % n) a b nought nought
      if ltb cell (length c) then some (set c cell t) else none

    -- The launch of matmultCUDA, with the write `write` of a thread.
    unfoldable pub matmult_cuda :
        (List ℕ → List ℕ) → (ℕ → List F → Option (List F)) → List F → Option (List F)
    matmult_cuda schedule write c = do
      cells ←
          launch_cells (row_column_cells n num_threads) ((n + num_threads - 1) / num_threads * n)
            num_threads
      perform write (schedule cells) c

    -- The launch of run_gemm_cuda_core, with 16 by 16 threads in a block.
    unfoldable pub gemm_cuda_core : (List ℕ → List ℕ) → List F → Option (List F)
    gemm_cuda_core schedule c = do
      cells ←
          launch_cells (gemm_cells n ((n + 16 - 1) / 16) 16)
            ((n + 16 - 1) / 16 * ((n + 16 - 1) / 16)) (16 * 16)
      perform plain_cell (schedule cells) c
