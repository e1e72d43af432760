-- ===== src/Cuda/MatMul/Launches.antt =====
-- The launches of the matrix products against matmult.

use native.Mathlib.Nat.{div-add-mod', div-lt_iff_lt-mul, mod-lt}
use cuda_open_mp.Common.{
  ℕ, zero, suc, ◌+◌, ◌-◌, ◌*◌, ◌/◌, ◌%◌, ◌≤◌, ◌<◌, ◌≡◌, inl, inr, refl, sym, ◌&&◌, some, List, [],
  ◌∷◌, map, arith, ltb, lt→ltb, Bool-cases, length, get_elem?, set, upto,
}
use cuda_open_mp.Cuda.Launch.{Safe, Hits, get_elem?-map-upto, length-map-upto}
use cuda_open_mp.Cuda.Threads.{thread_of, scaled_le, place-div, place-mod}
use cuda_open_mp.Cuda.Reduction.Sums.{sum_to}
use cuda_open_mp.Cuda.MatMul.{
  num_threads, row_column_cells, gemm_cells, plain_cell, compensated_cell,
}
use cuda_open_mp.Cuda.MatMul.Sums.{place_lt, term, sum_from-all, compensated_from-all}

-- The row and the column of a cell.
pub row_column : (n q : ℕ) → q < n * n → (q / n < n) × (q % n < n) × (q / n * n + q % n ≡ q)
row_column n q h =
    let pos : 0 < n = positive n h in ((div-lt_iff_lt-mul pos).1 h, mod-lt q pos, div-add-mod' q n)
  where
    positive : (n : ℕ) → q < n * n → 0 < n
    positive zero h = absurd (omega arith)
    positive (suc n) h = omega arith

-- The threads of matMultCUDA.
module _ (n : ℕ) where
  pub row_column_cells-Safe : (bid tid : ℕ) → Safe (n * n) (row_column_cells n num_threads bid tid)
  unfolding row_column_cells
  row_column_cells-Safe bid tid =
      let idx = bid * num_threads + tid in
      elim (Bool-cases (ltb (idx / n) n && ltb (idx % n) n)) [
        | inl inside ↦ (
          (idx / n * n + idx % n) ∷ [],
          rw (inside) refl,
          (place_lt n (idx / n) (idx % n) (ground arith) (ground arith), tt),
        )
        | inr out ↦ ([], rw (out) refl, tt)
      ]

  pub row_column_cells-Hits :
      (m : ℕ)
      → m < n * n
      → (bid : ℕ) × (tid : ℕ) × (bid < (n + num_threads - 1) / num_threads * n)
        × (tid < num_threads)
        × Hits (row_column_cells n num_threads bid tid) m
  unfolding row_column_cells
  row_column_cells-Hits m h =
      let enough : n * n ≤ (n + num_threads - 1) / num_threads * n * num_threads =
        ground (
          arith,
          scaled_le n ((n + num_threads - 1) / num_threads * num_threads) n (omega arith),
        ) in
      let (bid, tid, lb, lt, e) =
        thread_of ((n + num_threads - 1) / num_threads * n) num_threads m (omega (arith, enough)) in
      let idx : bid * num_threads + tid ≡ m = omega (arith, e) in
      let (lr, lc, em) = row_column n m h in
      (
        bid,
        tid,
        lb,
        lt,
        (
          (m / n * n + m % n) ∷ [],
          rw (idx, lt→ltb (m / n) n lr, lt→ltb (m % n) n lc) refl,
          inl (sym em),
        ),
      )

  -- The threads of gemm_cuda_core_kernel.
  pub gemm_cells-Safe : (side block thread : ℕ) → Safe (n * n) (gemm_cells n side 16 block thread)
  unfolding gemm_cells
  gemm_cells-Safe side block thread =
      let row = block / side * 16 + thread / 16 in
      let col = block % side * 16 + thread % 16 in
      elim (Bool-cases (ltb row n && ltb col n)) [
        | inl inside ↦ (
          (row * n + col) ∷ [],
          rw (inside) refl,
          (place_lt n row col (ground arith) (ground arith), tt),
        )
        | inr out ↦ ([], rw (out) refl, tt)
      ]

  pub gemm_cells-Hits :
      (side m : ℕ)
      → n ≤ side * 16
      → m < n * n
      → (block : ℕ) × (thread : ℕ) × (block < side * side)
        × (thread < 16 * 16)
        × Hits (gemm_cells n side 16 block thread) m
  unfolding gemm_cells
  gemm_cells-Hits side m wide h =
      let (lr, lc, em) = row_column n m h in
      let row = m / n in
      let col = m % n in
      let cb : col / 16 < side = omega arith in
      let rows : (row / 16 * side + col / 16) / side ≡ row / 16 =
        place-div (row / 16) side (col / 16) cb in
      let cols : (row / 16 * side + col / 16) % side ≡ col / 16 =
        place-mod (row / 16) side (col / 16) cb in
      let block_row : (row / 16 * side + col / 16) / side * 16 + (row % 16 * 16 + col % 16) / 16
          ≡ row =
        omega (arith, rows) in
      let block_col : (row / 16 * side + col / 16) % side * 16 + (row % 16 * 16 + col % 16) % 16
          ≡ col =
        omega (arith, cols) in
      (
        row / 16 * side + col / 16,
        row % 16 * 16 + col % 16,
        place_lt side (row / 16) (col / 16) (omega arith) cb,
        omega arith,
        (
          (row * n + col) ∷ [],
          rw (block_row, block_col, lt→ltb row n lr, lt→ltb col n lc) refl,
          inl (sym em),
        ),
      )

module _ {F : Type 0} (nought : F) (plus minus times : F → F → F) (n : ℕ) (a b : List F)
    (la : length a ≡ n * n) (lb : length b ≡ n * n) where
  -- The independent description: in each cell the sum of the products of its row and its column.
  abbrev pub cell_value : ℕ → F
  cell_value q = sum_to nought plus (term nought plus minus times n a b (q / n) (q % n)) n

  abbrev pub matrix_product : List F
  matrix_product = map cell_value (upto (n * n) 0)

  pub length-matrix_product : length matrix_product ≡ n * n
  length-matrix_product = length-map-upto cell_value (n * n) 0

  pub plain_cell-value :
      (q : ℕ) (c : List F)
      → q < n * n
      → length c ≡ n * n
      → (v : F) × (get_elem? matrix_product q ≡ some v)
        × (plain_cell plus minus times nought n a b q c ≡ some (set c q v))
  unfolding plain_cell
  plain_cell-value q c h l =
      let (lr, lc, em) = row_column n q h in
      (
        cell_value q,
        get_elem?-map-upto cell_value (n * n) q h,
        rw
            (
              sum_from-all nought plus minus times n a b la lb (q / n) (q % n) lr lc,
              lt→ltb q (length c) (omega (arith, l)),
            )
            refl,
      )

  module _ (plus_minus : (t p : F) → minus t (minus nought p) ≡ plus t p)
      (no_error : (t p : F) → plus (minus (plus t p) t) (minus nought p) ≡ nought) where
    pub compensated_cell-value :
        (q : ℕ) (c : List F)
        → q < n * n
        → length c ≡ n * n
        → (v : F) × (get_elem? matrix_product q ≡ some v)
          × (compensated_cell plus minus times nought n a b q c ≡ some (set c q v))
    unfolding compensated_cell
    compensated_cell-value q c h l =
        let (lr, lc, em) = row_column n q h in
        (
          cell_value q,
          get_elem?-map-upto cell_value (n * n) q h,
          rw
              (
                compensated_from-all nought plus minus times n a b la lb (q / n) (q % n) lr lc
                    plus_minus no_error,
                lt→ltb q (length c) (omega (arith, l)),
              )
              refl,
        )
