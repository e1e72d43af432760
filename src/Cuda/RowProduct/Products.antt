-- ===== src/Cuda/RowProduct/Products.antt =====
-- The matrix product by rows gives what matmult gives.
use mathlib.Core.List as List
use mathlib.Core.Option as Option
use mathlib.Core.List.{Perm}
use mathlib.Core.Logic.{∥∥₁_elim}
use cuda_open_mp.Common.{
  ℕ, ◌+◌, ◌*◌, ◌/◌, ◌^◌, ◌≤◌, ◌≡◌, sym, ◌∙◌, subst, List, arith, length, upto,
}
use cuda_open_mp.Cuda.Launch.{
  Within, Within-Permᴰ, Among-Permᴰ, perform-blocks, upto-Within, upto-Among,
}
use cuda_open_mp.Cuda.MatMul.{num_threads, compensated_cell, matmult}
use cuda_open_mp.Cuda.MatMul.Launches.{
  row_column, matrix_product, length-matrix_product, compensated_cell-value,
}
use cuda_open_mp.Cuda.MatMul.Products.{matmult-product}
use cuda_open_mp.Cuda.RowProduct.{row_block, matmult_by_rows}
use cuda_open_mp.Cuda.RowProduct.Rows.{row_block-Makes}

-- In exact arithmetic, where subtracting the negative of `p` adds `p`, a sum less one of its terms is
-- the other, and converting the wider sums of matmult commutes with each addition, the launch of
-- second_cuda3.cu on square matrices stays in range and gives what matmult gives, whatever the shared
-- arrays held, the order of the blocks, and that of the threads in each loop between the barriers;
-- an `int` has to hold the row's length and the number of threads of a block together.
pub matmult_by_rows-matmult :
    {F D : Type 0} (nought : F) (plus minus times : F → F → F) (wide : D) (add : D → F → D)
    (rounded : D → F)
    → rounded wide ≡ nought
    → ((t : D) (p : F) → rounded (add t p) ≡ plus (rounded t) p)
    → ((t p : F) → minus t (minus nought p) ≡ plus t p)
    → ((t p : F) → plus (minus (plus t p) t) (minus nought p) ≡ nought)
    → (n : ℕ) (a b c : List F) → length a ≡ n * n
    → length b ≡ n * n
    → length c ≡ n * n
    → n + num_threads ≤ 2 ^ 31
    → IsSet F
    → (schedule : ℕ → ℕ → List ℕ → List ℕ) → ((row k : ℕ) (l : List ℕ) → Perm l (schedule row k l))
    → (shared : ℕ → List F) → ((row : ℕ) → length (shared row) ≡ n)
    → (order : List ℕ) → Perm (upto n 0) order
    → matmult_by_rows plus minus times nought n a b schedule shared order c
      ≡ matmult add times wide rounded n a b c
unfolding matmult_by_rows
matmult_by_rows-matmult nought plus minus times wide add rounded e exact plus_minus no_error n a b c
      la lb lc fits F_set schedule fair shared room order p =
    ∥∥₁_elim p (Option.is_set (List.is_set F_set) _ _) (λ q.
      perform-blocks (n * n) n (compensated_cell plus minus times nought n a b)
        (matrix_product nought plus minus times n a b la lb)
        (length-matrix_product nought plus minus times n a b la lb)
        (λ i c' lt l.
          compensated_cell-value nought plus minus times n a b la lb plus_minus no_error i c' lt l)
        n (row_block plus minus times nought n a b schedule shared)
        (λ row lt.
          row_block-Makes nought plus minus times n a b la row lt fits F_set schedule fair shared
            (room row))
        F_set order c
        (Within-Permᴰ n q (subst (λ k. Within k (upto n 0)) (sum_zero n) (upto-Within n 0)))
        (λ m lt.
          Among-Permᴰ (m / n) q
            (upto-Among n 0 (m / n) (omega arith) (omega (arith, (row_column n m lt).0))))
        lc)
    ∙ sym (matmult-product nought plus minus times wide add rounded e exact n a b la lb c lc)
  where
    sum_zero : (k : ℕ) → 0 + k ≡ k
    sum_zero k = omega arith
