-- ===== src/Cuda/InnerProduct/Totals.antt =====
-- The totals that main of CUDA_sample/inner_product.cu computes on the GPU, against vecDot_cpu.
use mathlib.Core.List.{Perm}
use cuda_open_mp.Common.{
  ℕ, zero, suc, ◌+◌, ◌*◌, ◌^◌, ◌≤◌, ◌<◌, ◌≡◌, refl, sym, ap, ◌∙◌, Option, some, List, arith, map,
  lt→ltb, length, get_or, set, upto,
}
use cuda_open_mp.Cuda.Launch.{
  perform, perform-launch, get_elem?-map-upto, length-map-upto, get_or-map-upto, upto-Among,
}
use cuda_open_mp.Cuda.Threads.{scaled_le}
use cuda_open_mp.Cuda.Reduction.Sums.{sum_to, sum_to-ext, sum_to-append}
use cuda_open_mp.Cuda.InnerProduct.{vec_dot_cpu, vec_sum_1, vec_sum_2, total_gpu}
use cuda_open_mp.Cuda.InnerProduct.Blocks.{
  upto_0-Within, product, add_up-all, add_up-list, vec_dot_cpu-sum, vec_mul_gpu-products,
  load-block,
}

module _ {F : Type 0} (nought : F) (plus times : F → F → F) (b : ℕ) where
  -- The sum of the elements of block `bid`.
  abbrev pub block_sum : List F → ℕ → F
  block_sum c bid = sum_to nought plus (λ m. get_or c (bid * b + m) nought) b

module _ {F : Type 0} (nought : F) (plus : F → F → F)
    (plus_assoc : (x y z : F) → plus (plus x y) z ≡ plus x (plus y z))
    (plus_comm : (x y : F) → plus x y ≡ plus y x) (plus_nought : (x : F) → plus nought x ≡ x) where
  -- Sums of blocks add up to the sum of all.
  pub blocks-sum :
      (f : ℕ → F) (g b : ℕ)
      → sum_to nought plus (λ q. sum_to nought plus (λ m. f (q * b + m)) b) g
        ≡ sum_to nought plus f (g * b)
  unfolding sum_to
  blocks-sum f zero b = let e : 0 ≡ 0 * b = omega arith in ap (sum_to nought plus f) e
  blocks-sum f (suc g) b =
      let e : suc g * b ≡ g * b + b = ground arith in
      ap (λ q. plus q (sum_to nought plus (λ m. f (g * b + m)) b)) (blocks-sum f g b)
      ∙ ap (plus (sum_to nought plus f (g * b))) (
          sum_to-ext nought plus _ _ b
            (λ m lt. let c : g * b + m ≡ m + g * b = omega arith in ap f c))
      ∙ sym (sum_to-append nought plus plus_assoc plus_comm plus_nought f (g * b) b)
      ∙ ap (sum_to nought plus f) (sym e)

  module _ (times : F → F → F) (F_set : IsSet F) (schedule : List ℕ → List ℕ)
      (fair : (l : List ℕ) → Perm l (schedule l)) (n g b : ℕ) (whole : n ≡ g * b)
      (fits : n < 2 ^ 31) where
    block_fits : (bid : ℕ) → bid < g → bid * b + b ≤ n
    block_fits bid lt = ground (arith, scaled_le (suc bid) g b lt)

    vec_sum_1-cell :
        (c : List F) (bid : ℕ) (p : List F)
        → bid < g
        → length c ≡ n
        → length p ≡ g
        → vec_sum_1 plus times nought schedule b c bid p
          ≡ some (set p bid (block_sum nought plus times b c bid))
    unfolding vec_sum_1
    vec_sum_1-cell c bid p lt lc lp =
        rw
          (
            add_up-all nought plus times b (bid * b) c (omega (arith, block_fits bid lt)),
            lt→ltb bid (length p) (omega arith),
          )
          refl

    vec_sum_2-cell :
        (shared c : List F) (bid : ℕ) (p : List F)
        → length shared ≡ b
        → bid < g
        → length c ≡ n
        → length p ≡ g
        → vec_sum_2 plus times nought schedule b shared c bid p
          ≡ some (set p bid (block_sum nought plus times b c bid))
    unfolding vec_sum_2
    vec_sum_2-cell shared c bid p ls lt lc lp =
        let f : ℕ → F = λ m. get_or c (bid * b + m) nought in
        rw
          (
            load-block nought plus times F_set schedule fair n g b whole fits bid c shared lt lc ls,
            add_up-list nought plus times b (map f (upto b 0)) f
                (omega (arith, length-map-upto f b 0)) (λ m lm. get_or-map-upto f b m nought lm),
            lt→ltb bid (length p) (omega arith),
          )
          refl

    total_gpu-sum :
        (vec_sum : List F → ℕ → List F → Option (List F)) (x y c p : List F)
        → ((c' : List F) (bid : ℕ) (p' : List F)
            → bid < g
            → length c' ≡ n
            → length p' ≡ g
            → vec_sum c' bid p' ≡ some (set p' bid (block_sum nought plus times b c' bid)))
        → length x ≡ n
        → length y ≡ n
        → length c ≡ n
        → length p ≡ g
        → total_gpu plus times nought schedule b vec_sum n g x y c p
          ≡ vec_dot_cpu plus times n x y nought
    unfolding total_gpu
    total_gpu-sum vec_sum x y c p cell lx ly lc lp =
        let all = map (product nought plus times x y) (upto n 0) in
        let sums = block_sum nought plus times b all in
        let la : length all ≡ n = length-map-upto (product nought plus times x y) n 0 in
        let run : perform (vec_sum all) (schedule (upto g 0)) p ≡ some (map sums (upto g 0)) =
          perform-launch g (vec_sum all) (map sums (upto g 0)) (length-map-upto sums g 0)
            (λ i q li lq. (sums i, get_elem?-map-upto sums g i li, cell all i q li la lq)) F_set
            (upto g 0) (schedule (upto g 0)) p (upto_0-Within g)
            (λ m lm. upto-Among g 0 m (omega arith) (omega arith)) lp (fair (upto g 0)) in
        rw
          (
            vec_mul_gpu-products nought plus times F_set schedule fair n g b whole fits x y c lx ly
                lc,
            run,
          )
          (add_up-list nought plus times g (map sums (upto g 0)) sums
              (omega (arith, length-map-upto sums g 0)) (λ m lm. get_or-map-upto sums g m nought lm)
            ∙ ap some (
                blocks-sum (λ m. get_or all m nought) g b
                ∙ ap (sum_to nought plus (λ m. get_or all m nought)) (sym whole)
                ∙ sum_to-ext nought plus _ _ n
                    (λ m lm. get_or-map-upto (product nought plus times x y) n m nought lm))
            ∙ sym (vec_dot_cpu-sum nought plus times n x y lx ly))

    -- For an addition that is associative and commutative, main of inner_product.cu with
    -- vecSum_gpu_kernel_1 stays in range on vectors that fill its blocks, and gets the inner
    -- product that vecDot_cpu computes, whatever the order of threads and blocks.
    pub total_gpu-vec_sum_1 :
        (x y c p : List F)
        → length x ≡ n
        → length y ≡ n
        → length c ≡ n
        → length p ≡ g
        → total_gpu plus times nought schedule b
            (vec_sum_1 plus times nought schedule b)
            n
            g
            x
            y
            c
            p
          ≡ vec_dot_cpu plus times n x y nought
    total_gpu-vec_sum_1 x y c p lx ly lc lp =
        total_gpu-sum (vec_sum_1 plus times nought schedule b) x y c p
          (λ c' bid p' lt lc' lp'. vec_sum_1-cell c' bid p' lt lc' lp') lx ly lc lp

    -- The same of vecSum_gpu_kernel_2, whatever its shared array holds at first.
    pub total_gpu-vec_sum_2 :
        (shared x y c p : List F)
        → length shared ≡ b
        → length x ≡ n
        → length y ≡ n
        → length c ≡ n
        → length p ≡ g
        → total_gpu plus times nought schedule b
            (vec_sum_2 plus times nought schedule b shared)
            n
            g
            x
            y
            c
            p
          ≡ vec_dot_cpu plus times n x y nought
    total_gpu-vec_sum_2 shared x y c p ls lx ly lc lp =
        total_gpu-sum (vec_sum_2 plus times nought schedule b shared) x y c p
          (λ c' bid p' lt lc' lp'. vec_sum_2-cell shared c' bid p' ls lt lc' lp') lx ly lc lp
