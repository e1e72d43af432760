-- ===== src/Cuda/InnerProduct/InPlace.antt =====
-- The kernels of CUDA_sample/inner_product1.cu, which write the sums of the blocks into the array
-- that the blocks read, against vecDot_cpu.
use mathlib.Core.List.{Perm}
use cuda_open_mp.Common.{
  ℕ, zero, suc, ◌+◌, ◌*◌, ◌^◌, ◌≤◌, ◌<◌, ◌≡◌, refl, sym, ap, ◌∙◌, subst, Option, some, List,
  ℕ_discrete, arith, map, lt→ltb, length, length-set, get_or, get_or-set_self, get_or-set_ne, set,
  upto,
}
use cuda_open_mp.Cuda.Launch.{perform, length-map-upto, get_or-map-upto}
use cuda_open_mp.Cuda.Threads.{le_times}
use cuda_open_mp.Cuda.Reduction.{unrolled_sum}
use cuda_open_mp.Cuda.Reduction.Sums.{sum_to, sum_to-ext, unrolled_sum-sum}
use cuda_open_mp.Cuda.InnerProduct.{vec_dot_cpu, vec_sum_in_place, total_in_place}
use cuda_open_mp.Cuda.InnerProduct.Blocks.{
  product, add_up-list, vec_dot_cpu-sum, vec_mul_gpu-products, load-block,
}
use cuda_open_mp.Cuda.InnerProduct.Totals.{block_sum, blocks-sum}

module _ {F : Type 0} (nought : F) (plus times : F → F → F) (F_set : IsSet F)
    (schedule : List ℕ → List ℕ) (fair : (l : List ℕ) → Perm l (schedule l)) (n g b : ℕ)
    (whole : n ≡ g * b) (fits : n < 2 ^ 31) (shared : List F) (ls : length shared ≡ b)
    (sum : List F → Option F)
    (sums : (v : List F)
      → length v ≡ b
      → sum v ≡ some (sum_to nought plus (λ m. get_or v m nought) b)) where
  in_place-block :
      (c : List F) (bid : ℕ)
      → bid < g
      → bid < n
      → length c ≡ n
      → vec_sum_in_place plus times nought schedule b shared sum bid c
        ≡ some (set c bid (block_sum nought plus times b c bid))
  unfolding vec_sum_in_place
  in_place-block c bid lt lt' lc =
      let f : ℕ → F = λ m. get_or c (bid * b + m) nought in
      rw
        (
          load-block nought plus times F_set schedule fair n g b whole fits bid c shared lt lc ls,
          sums (map f (upto b 0)) (length-map-upto f b 0),
          lt→ltb bid (length c) (omega arith),
          sum_to-ext nought plus _ f b (λ m lm. get_or-map-upto f b m nought lm),
        )
        refl

  -- Blocks in their order read what they have not written: each leaves its sum.
  in_order :
      (k i : ℕ) (c : List F)
      → i + k ≤ g
      → 0 < b
      → length c ≡ n
      → (r : List F) × (perform
            (vec_sum_in_place plus times nought schedule b shared sum)
            (upto k i)
            c
          ≡ some r)
        × (length r ≡ n)
        × ((m : ℕ) → m < i → get_or r m nought ≡ get_or c m nought)
        × ((m : ℕ) → i ≤ m → m < i + k → get_or r m nought ≡ block_sum nought plus times b c m)
  unfolding perform
  in_order zero i c h hb lc = (c, refl, lc, (λ m lt. refl), λ m ge lt. absurd (omega arith))
  in_order (suc k) i c h hb lc =
      let v = block_sum nought plus times b c i in
      let inside : i < n = ground (arith, whole, le_times g b hb) in
      let (r, e, lr, kept, later) =
        in_order k (suc i) (set c i v) (omega arith) hb (length-set c i v ∙ lc) in
      (
        r,
        rw (in_place-block c i (omega arith) inside lc) e,
        lr,
        (λ m lt.
            kept m (omega arith) ∙ get_or-set_ne c i m v nought (λ q. absurd (omega (arith, q)))),
        λ m ge lt. elim (ℕ_discrete i m) [
          | yes same ↦
              kept m (omega (arith, same))
              ∙ subst (λ q. get_or (set c i v) q nought ≡ block_sum nought plus times b c q) same
                  (get_or-set_self c i v nought (omega arith))
          | no ne ↦
              later m (ground (arith, ne)) (omega arith)
              ∙ sum_to-ext nought plus _ _ b (λ m' lm.
                get_or-set_ne c i (m * b + m') v nought
                  (λ q. absurd (ground (arith, q, ne, le_times m b hb))))
        ],
      )

  module _ (plus_assoc : (x y z : F) → plus (plus x y) z ≡ plus x (plus y z))
      (plus_comm : (x y : F) → plus x y ≡ plus y x)
      (plus_nought : (x : F) → plus nought x ≡ x) where
    total_in_place-sum :
        (x y c : List F)
        → 0 < b
        → length x ≡ n
        → length y ≡ n
        → length c ≡ n
        → total_in_place plus times nought schedule b shared sum n g (upto g 0) x y c
          ≡ vec_dot_cpu plus times n x y nought
    unfolding total_in_place
    total_in_place-sum x y c hb lx ly lc =
        let all = map (product nought plus times x y) (upto n 0) in
        let la : length all ≡ n = length-map-upto (product nought plus times x y) n 0 in
        let (r, e, lr, kept, sums') = in_order g 0 all (omega arith) hb la in
        rw
          (
            vec_mul_gpu-products nought plus times F_set schedule fair n g b whole fits x y c lx ly
                lc,
            e,
          )
          (add_up-list nought plus times g r (block_sum nought plus times b all)
              (ground (arith, lr, whole, le_times g b hb))
              (λ m lt. sums' m (omega arith) (omega arith))
            ∙ ap some (
                blocks-sum nought plus plus_assoc plus_comm plus_nought (λ m. get_or all m nought) g
                  b
                ∙ ap (sum_to nought plus (λ m. get_or all m nought)) (sym whole)
                ∙ sum_to-ext nought plus _ _ n
                    (λ m lm. get_or-map-upto (product nought plus times x y) n m nought lm))
            ∙ sym (vec_dot_cpu-sum nought plus times n x y lx ly))

module _ {F : Type 0} (nought : F) (plus times : F → F → F)
    (plus_assoc : (x y z : F) → plus (plus x y) z ≡ plus x (plus y z))
    (plus_comm : (x y : F) → plus x y ≡ plus y x) (plus_nought : (x : F) → plus nought x ≡ x)
    (F_set : IsSet F) where
  module _ (schedule : List ℕ → List ℕ) (turns : ℕ → List ℕ → List ℕ)
      (fair : (l : List ℕ) → Perm l (schedule l))
      (fair' : (i : ℕ) (l : List ℕ) → Perm l (turns i l)) (n g : ℕ) (whole : n ≡ g * 1024)
      (fits : n < 2 ^ 31) (shared : List F) (ls : length shared ≡ 1024) where
    -- For an addition that is associative and commutative, a block of vecSum_gpu_kernel stays in range
    -- and leaves in vecC[blockIdx.x] the sum of its 1024 elements, as they are when the block runs, and
    -- every other element as it was, whatever the shared array held and in whatever order the threads
    -- run between two barriers; the grid has `g` blocks, which `n` elements fill.
    pub vec_sum_in_place-unrolled_sum :
        (bid : ℕ) (c : List F)
        → bid < g
        → length c ≡ n
        → vec_sum_in_place plus times nought schedule 1024 shared (unrolled_sum plus turns) bid c
          ≡ some (set c bid (sum_to nought plus (λ m. get_or c (bid * 1024 + m) nought) 1024))
    vec_sum_in_place-unrolled_sum bid c lt lc =
        in_place-block nought plus times F_set schedule fair n g 1024 whole fits shared ls
          (unrolled_sum plus turns)
          (λ v lv.
            unrolled_sum-sum nought plus plus_assoc plus_comm plus_nought F_set turns fair' v lv)
          c bid lt (omega (arith, whole)) lc

    -- If the blocks run in their order, main of inner_product1.cu gets the inner product that
    -- vecDot_cpu computes. Nothing in the program or in CUDA orders them.
    total_in_place-unrolled_sum :
        (x y c : List F)
        → length x ≡ n
        → length y ≡ n
        → length c ≡ n
        → total_in_place plus times nought schedule 1024 shared
            (unrolled_sum plus turns)
            n
            g
            (upto g 0)
            x
            y
            c
          ≡ vec_dot_cpu plus times n x y nought
    total_in_place-unrolled_sum x y c lx ly lc =
        total_in_place-sum nought plus times F_set schedule fair n g 1024 whole fits shared ls
          (unrolled_sum plus turns)
          (λ v lv.
            unrolled_sum-sum nought plus plus_assoc plus_comm plus_nought F_set turns fair' v lv)
          plus_assoc plus_comm plus_nought x y c (omega arith) lx ly lc
