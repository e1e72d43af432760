-- ===== src/Cuda/MatMul/Products.antt =====
-- The matrix products on the GPU and matmult.
use mathlib.Core.List.{Perm}
use cuda_open_mp.Common.{
  ℕ, zero, suc, ◌+◌, ◌-◌, ◌*◌, ◌/◌, ◌≤◌, ◌<◌, ◌≡◌, refl, sym, ap, ◌∙◌, fun_ext, subst, none, some,
  List, arith, length, upto, ◌>>=◌, set, ltb, if◌then◌else◌,
}
use cuda_open_mp.Cuda.Launch.{
  perform, perform-all, perform-append, perform-launch_cells, upto-append, upto-Within, upto-Among,
  Within,
}
use cuda_open_mp.Cuda.Threads.{place-div, place-mod}
use cuda_open_mp.Cuda.MatMul.{
  num_threads, row_column_cells, gemm_cells, plain_cell, compensated_cell, cpu_cell, matmult,
  matmult_cuda, gemm_cuda_core,
}
use cuda_open_mp.Cuda.MatMul.Sums.{sum_from-rounded}
use cuda_open_mp.Cuda.MatMul.Launches.{
  row_column_cells-Safe, row_column_cells-Hits, gemm_cells-Safe, gemm_cells-Hits, matrix_product,
  length-matrix_product, plain_cell-value, compensated_cell-value,
}

-- The sums of matmult have the type `D`; converting one to `F` gives what adding in `F` gives.
module _ {F D : Type 0} (nought : F) (plus minus times : F → F → F) (wide : D) (add : D → F → D)
    (rounded : D → F) (rounded_nought : rounded wide ≡ nought)
    (exact : (t : D) (p : F) → rounded (add t p) ≡ plus (rounded t) p) (n : ℕ) (a b : List F) where
  cpu_cell-plain_cell :
      (i j : ℕ) (c : List F)
      → j < n
      → cpu_cell add times wide rounded n a b i j c
        ≡ plain_cell plus minus times nought n a b (i * n + j) c
  unfolding cpu_cell plain_cell
  cpu_cell-plain_cell i j c h =
      rw (place-div i n j h, place-mod i n j h, sym rounded_nought)
        (sum_from-rounded add plus times rounded exact n a b i j n 0 wide
          (λ t. if ltb (i * n + j) (length c) then some (set c (i * n + j) t) else none))

  row-cells :
      (k i j : ℕ) (c : List F)
      → j + k ≤ n
      → perform (λ j. cpu_cell add times wide rounded n a b i j) (upto k j) c
        ≡ perform (plain_cell plus minus times nought n a b) (upto k (i * n + j)) c
  unfolding perform
  row-cells zero i j c h = refl
  row-cells (suc k) i j c h =
      let e : i * n + suc j ≡ suc (i * n + j) = omega arith in
      rw (cpu_cell-plain_cell i j c (omega arith)) (
        ap (λ f. plain_cell plus minus times nought n a b (i * n + j) c >>= f)
          (fun_ext (λ c'.
            row-cells k i (suc j) c' (omega arith)
            ∙ ap (λ q. perform (plain_cell plus minus times nought n a b) (upto k q) c') e)))

  rows-cells :
      (k i : ℕ) (c : List F)
      → perform
          (λ i. perform (λ j. cpu_cell add times wide rounded n a b i j) (upto n 0))
          (upto k i)
          c
        ≡ perform (plain_cell plus minus times nought n a b) (upto (k * n) (i * n)) c
  unfolding perform
  rows-cells zero i c =
      let e : 0 ≡ 0 * n = omega arith in
      ap (λ q. perform (plain_cell plus minus times nought n a b) (upto q (i * n)) c) e
  rows-cells (suc k) i c =
      let e : i * n + 0 ≡ i * n = omega arith in
      let e' : n + k * n ≡ suc k * n = ground arith in
      let next : suc i * n ≡ i * n + n = ground arith in
      rw (row-cells n i 0 c (omega arith), e)
        (ap (λ f. perform (plain_cell plus minus times nought n a b) (upto n (i * n)) c >>= f)
            (fun_ext (λ c'.
              rows-cells k (suc i) c'
              ∙ ap (λ q. perform (plain_cell plus minus times nought n a b) (upto (k * n) q) c')
                  next))
          ∙ sym (
              perform-append (plain_cell plus minus times nought n a b) (upto n (i * n))
                (upto (k * n) (i * n + n)) c)
          ∙ ap (λ l. perform (plain_cell plus minus times nought n a b) l c)
              (sym (upto-append n (k * n) (i * n)) ∙ ap (λ q. upto q (i * n)) e'))

  module _ (la : length a ≡ n * n) (lb : length b ≡ n * n) (c : List F)
      (lc : length c ≡ n * n) where
    -- On square matrices matmult stays in range and leaves in each cell the sum, from the left, of
    -- the products of its row and its column, where converting its sums to the type of the elements
    -- commutes with each addition.
    pub matmult-product :
        matmult add times wide rounded n a b c
        ≡ some (matrix_product nought plus minus times n a b la lb)
    unfolding matmult
    matmult-product =
        let e : 0 + n * n ≡ n * n = omega arith in
        let e' : 0 * n ≡ 0 = omega arith in
        rows-cells n 0 c
        ∙ ap (λ q. perform (plain_cell plus minus times nought n a b) (upto (n * n) q) c) e'
        ∙ perform-all (n * n) (plain_cell plus minus times nought n a b)
            (matrix_product nought plus minus times n a b la lb)
            (length-matrix_product nought plus minus times n a b la lb)
            (λ q c' lt l. plain_cell-value nought plus minus times n a b la lb q c' lt l)
            (upto (n * n) 0) c (subst (λ q. Within q (upto (n * n) 0)) e (upto-Within (n * n) 0))
            (λ m lt. upto-Among (n * n) 0 m (omega arith) (omega arith)) lc

    module _ (F_set : IsSet F) (schedule : List ℕ → List ℕ)
        (fair : (l : List ℕ) → Perm l (schedule l)) where
      -- On square matrices the launch of second_cuda1.cu stays in range and gives what matmult gives,
      -- whatever the order of the threads, where converting the wider sums of matmult to the type of
      -- the elements commutes with each addition.
      pub matmult_cuda-matmult :
          matmult_cuda plus minus times nought n a b schedule
            (plain_cell plus minus times nought n a b)
            c
          ≡ matmult add times wide rounded n a b c
      unfolding matmult_cuda
      matmult_cuda-matmult =
          perform-launch_cells (n * n) (plain_cell plus minus times nought n a b)
            (matrix_product nought plus minus times n a b la lb)
            (length-matrix_product nought plus minus times n a b la lb)
            (λ q c' lt l. plain_cell-value nought plus minus times n a b la lb q c' lt l) F_set
            schedule fair (row_column_cells n num_threads) ((n + num_threads - 1) / num_threads * n)
            num_threads (λ bid tid lg lk. row_column_cells-Safe n bid tid) (row_column_cells-Hits n)
            c lc
          ∙ sym matmult-product

      -- On square matrices the launch of gemm_cuda_core_kernel stays in range and gives what matmult
      -- gives, whatever the order of the threads, where converting the wider sums of matmult to the
      -- type of the elements commutes with each addition.
      pub gemm_cuda_core-matmult :
          gemm_cuda_core plus minus times nought n a b schedule c
          ≡ matmult add times wide rounded n a b c
      unfolding gemm_cuda_core
      gemm_cuda_core-matmult =
          let side = (n + 16 - 1) / 16 in
          let wide : n ≤ side * 16 = omega arith in
          perform-launch_cells (n * n) (plain_cell plus minus times nought n a b)
            (matrix_product nought plus minus times n a b la lb)
            (length-matrix_product nought plus minus times n a b la lb)
            (λ q c' lt l. plain_cell-value nought plus minus times n a b la lb q c' lt l) F_set
            schedule fair (gemm_cells n side 16) (side * side) (16 * 16)
            (λ bid tid lg lk. gemm_cells-Safe n side bid tid)
            (λ m lt. gemm_cells-Hits n side m wide lt) c lc
          ∙ sym matmult-product

      -- In exact arithmetic, where subtracting the negative of `p` adds `p`, a sum less one of its
      -- terms is the other, and converting the wider sums of matmult commutes with each addition, the
      -- launch of second_cuda2.cu on square matrices stays in range and gives what matmult gives,
      -- whatever the order of the threads.
      pub compensated-matmult :
          ((t p : F) → minus t (minus nought p) ≡ plus t p)
          → ((t p : F) → plus (minus (plus t p) t) (minus nought p) ≡ nought)
          → matmult_cuda plus minus times nought n a b schedule
              (compensated_cell plus minus times nought n a b)
              c
            ≡ matmult add times wide rounded n a b c
      unfolding matmult_cuda
      compensated-matmult plus_minus no_error =
          perform-launch_cells (n * n) (compensated_cell plus minus times nought n a b)
            (matrix_product nought plus minus times n a b la lb)
            (length-matrix_product nought plus minus times n a b la lb)
            (λ q c' lt l.
              compensated_cell-value nought plus minus times n a b la lb plus_minus no_error q c' lt
                l)
            F_set schedule fair (row_column_cells n num_threads)
            ((n + num_threads - 1) / num_threads * n) num_threads
            (λ bid tid lg lk. row_column_cells-Safe n bid tid) (row_column_cells-Hits n) c lc
          ∙ sym matmult-product
