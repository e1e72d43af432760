-- ===== src/Cuda/RowProduct/Rows.antt =====
-- The matrix product by rows and matmult.
use mathlib.Core.List.{Perm}
use mathlib.Core.Logic.{∥∥₁_map}
use mathlib.Core.Option.{some-injective}
use cuda_open_mp.Common.{
  ℕ, zero, suc, ◌+◌, ◌*◌, ◌/◌, ◌%◌, ◌^◌, ◌≤◌, ◌<◌, ◌≡◌, refl, sym, ap, ◌∙◌, fun_ext, subst, Option,
  some, List, map, arith, lt→ltb, length, get_elem?, get_or, get_elem?-eq-get_or, set, Among, upto,
  ◌>>=◌,
}
use cuda_open_mp.Cuda.Launch.{
  Within, Safe, Hits, launch_cells, launch_cells-Safe, launch_cells-Hits, Within-Permᴰ, Among-Permᴰ,
  perform, perform-launch_cells, Makes, perform-map, Within-map, Among-map, length-map-upto,
  get_elem?-map-upto,
}
use cuda_open_mp.Cuda.Threads.{place-div, place-mod}
use cuda_open_mp.Cuda.Strides.{grid_stride, grid_stride-Safe, grid_stride-Hits}
use cuda_open_mp.Cuda.MatMul.{num_threads, compensated_from, compensated_cell}
use cuda_open_mp.Cuda.MatMul.Sums.{place_lt}
use cuda_open_mp.Cuda.MatMul.Launches.{row_column}
use cuda_open_mp.Cuda.RowProduct.{for_each_thread, load_cell, row_cell, row_block}

-- The loop over a row in all threads of a block.
module _ (n : ℕ) (fits : n + num_threads ≤ 2 ^ 31) where
  stride-Safe :
      (bid tid : ℕ) → bid < 1 → tid < num_threads → Safe n (grid_stride (suc n) n num_threads tid)
  stride-Safe bid tid lb lt =
      grid_stride-Safe n num_threads (omega arith) (suc n) tid (omega arith) (omega arith)
        (omega arith)

  stride-Hits :
      (m : ℕ)
      → m < n
      → (bid : ℕ) × (tid : ℕ) × (bid < 1)
        × (tid < num_threads)
        × Hits (grid_stride (suc n) n num_threads tid) m
  stride-Hits m lt = (
    0,
    m % num_threads,
    omega arith,
    omega arith,
    grid_stride-Hits n num_threads (omega arith) (suc n) (m % num_threads) m (m / num_threads)
        (omega arith) (omega arith) (omega arith) lt,
  )

  -- The cells of all threads.
  row_cells :
      (cells : List ℕ) × (launch_cells
          (λ bid tid. grid_stride (suc n) n num_threads tid)
          1
          num_threads
        ≡ some cells)
      × Within n cells
      × ((m : ℕ) → m < n → Among m cells)
  row_cells =
      let body : ℕ → ℕ → Option (List ℕ) = λ bid tid. grid_stride (suc n) n num_threads tid in
      let (cells, e, w) = launch_cells-Safe n body 1 num_threads stride-Safe in
      (
        cells,
        e,
        w,
        λ m lt.
            let (bid, tid, lb, lk, hit) = stride-Hits m lt in
            let (cells', e', a') =
              launch_cells-Hits n body 1 num_threads stride-Safe m bid tid lb lk hit in
            let same : cells' ≡ cells = some-injective cells' cells (sym e' ∙ e) in
            subst (Among m) same a',
      )

module _ {F : Type 0} (nought : F) (plus minus times : F → F → F) (n : ℕ) (a b : List F) where
  -- The loop gives the same with a row of its own as within the whole matrix.
  compensated_from-row :
      (row_data : List F) (row j : ℕ)
      → ((i : ℕ) → i < n → get_elem? row_data (0 * 0 + i) ≡ get_elem? a (row * n + i))
      → (k i : ℕ) (t y : F) → i + k ≡ n
      → compensated_from plus minus times k i 0 n 0 j row_data b t y
        ≡ compensated_from plus minus times k i n n row j a b t y
  unfolding compensated_from
  compensated_from-row row_data row j reads zero i t y h = refl
  compensated_from-row row_data row j reads (suc k) i t y h = rw (reads i (omega arith)) (
      ap (λ f. get_elem? a (row * n + i) >>= f)
        (fun_ext (λ u.
          ap (λ f. get_elem? b (i * n + j) >>= f)
            (fun_ext (λ v.
              compensated_from-row row_data row j reads k (suc i) (minus t (minus y (times u v)))
                (plus (minus (minus t (minus y (times u v))) t) (minus y (times u v)))
                (omega arith))))))

  -- A row of the first matrix.
  abbrev row_of : ℕ → List F
  row_of row = map (λ i. get_or a (row * n + i) nought) (upto n 0)

  module _ (la : length a ≡ n * n) (row : ℕ) (hr : row < n) where
    row_read : (i : ℕ) → i < n → get_elem? a (row * n + i) ≡ some (get_or a (row * n + i) nought)
    row_read i lt =
        get_elem?-eq-get_or a (row * n + i) nought (omega (arith, la, place_lt n row i hr lt))

    row_of-read : (i : ℕ) → i < n → get_elem? (row_of row) (0 * 0 + i) ≡ get_elem? a (row * n + i)
    row_of-read i lt =
        let e : 0 * 0 + i ≡ i = omega arith in
        ap (get_elem? (row_of row)) e
        ∙ get_elem?-map-upto (λ i. get_or a (row * n + i) nought) n i lt
        ∙ sym (row_read i lt)

    load_cell-value :
        (i : ℕ) (v : List F)
        → i < n
        → length v ≡ n
        → (x : F) × (get_elem? (row_of row) i ≡ some x)
          × (load_cell plus minus times nought n a b row i v ≡ some (set v i x))
    unfolding load_cell
    load_cell-value i v lt lv = (
      get_or a (row * n + i) nought,
      get_elem?-map-upto (λ i. get_or a (row * n + i) nought) n i lt,
      rw (row_read i lt, lt→ltb i (length v) (omega (arith, lv))) refl,
    )

    row_cell-compensated :
        (j : ℕ) (c : List F)
        → j < n
        → row_cell plus minus times nought n a b row (row_of row) j c
          ≡ compensated_cell plus minus times nought n a b (row * n + j) c
    unfolding row_cell compensated_cell
    row_cell-compensated j c lt =
        rw
          (
            place-div row n j lt,
            place-mod row n j lt,
            compensated_from-row (row_of row) row j row_of-read n 0 nought nought (omega arith),
          )
          refl

    module _ (fits : n + num_threads ≤ 2 ^ 31) (F_set : IsSet F)
        (schedule : ℕ → ℕ → List ℕ → List ℕ)
        (fair : (row k : ℕ) (l : List ℕ) → Perm l (schedule row k l)) (shared : ℕ → List F)
        (room : length (shared row) ≡ n) where
      -- Behind the barrier the shared array holds the row, whatever it held before.
      load-row :
          for_each_thread n
            (schedule row 0)
            (load_cell plus minus times nought n a b row)
            (shared row)
          ≡ some (row_of row)
      unfolding for_each_thread
      load-row =
          perform-launch_cells n (load_cell plus minus times nought n a b row) (row_of row)
            (length-map-upto (λ i. get_or a (row * n + i) nought) n 0) load_cell-value F_set
            (schedule row 0) (fair row 0) (λ bid tid. grid_stride (suc n) n num_threads tid) 1
            num_threads (stride-Safe n fits) (stride-Hits n fits) (shared row) room

      -- A block makes the writes of its row.
      pub row_block-Makes :
          ∥ Makes
            (n * n)
            n
            (compensated_cell plus minus times nought n a b)
            (λ q. q ≡ row)
            (row_block plus minus times nought n a b schedule shared row) ∥₁
      unfolding row_block for_each_thread
      row_block-Makes =
          let (cells, e, w, all) = row_cells n fits in
          ∥∥₁_map (fair row 1 cells) (λ p.
            let w' = Within-Permᴰ n p w in
            (
              map (λ j. row * n + j) (schedule row 1 cells),
              Within-map (n * n) n (λ j. row * n + j) (schedule row 1 cells)
                  (λ j lt. place_lt n row j hr lt) w',
              (λ m lt mine.
                  let (lr, lc, em) = row_column n m lt in
                  let at : row * n + m % n ≡ m = ap (λ q. q * n + m % n) (sym mine) ∙ em in
                  subst (λ q. Among q (map (λ j. row * n + j) (schedule row 1 cells))) at
                    (Among-map (m % n) (λ j. row * n + j) (schedule row 1 cells)
                      (Among-Permᴰ (m % n) p (all (m % n) lc)))),
              λ c lc.
                  ap
                    (λ o. o >>= (λ row_data.
                      for_each_thread n (schedule row 1)
                        (row_cell plus minus times nought n a b row row_data) c))
                    load-row
                  ∙ ap
                      (λ o. o >>= (λ l.
                        perform (row_cell plus minus times nought n a b row (row_of row))
                          (schedule row 1 l) c))
                      e
                  ∙ perform-map n (compensated_cell plus minus times nought n a b)
                      (row_cell plus minus times nought n a b row (row_of row)) (λ j. row * n + j)
                      (λ j c' lt. row_cell-compensated j c' lt) (schedule row 1 cells) c w',
            ))
