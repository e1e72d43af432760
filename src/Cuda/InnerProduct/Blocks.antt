-- ===== src/Cuda/InnerProduct/Blocks.antt =====
-- What the kernels of CUDA_sample/inner_product.cu leave, block by block.
use mathlib.Core.List.{Perm}
use cuda_open_mp.Common.{
  ℕ, zero, suc, ◌+◌, ◌*◌, ◌^◌, ◌≤◌, ◌<◌, ◌≡◌, inl, refl, ap, ◌∙◌, subst, some, List, [], ◌∷◌, false,
  arith, map, leb, lt→ltb, length, get_elem?, get_or, get_elem?-eq-get_or, set, upto,
}
use cuda_open_mp.Cuda.Launch.{
  Within, Safe, perform, perform-launch, perform-launch_cells, get_elem?-map-upto, length-map-upto,
  upto-Within, upto-Among,
}
use cuda_open_mp.Cuda.Strides.{u32, u32-small}
use cuda_open_mp.Cuda.Threads.{thread_lt, thread_of}
use cuda_open_mp.Cuda.Reduction.Sums.{sum_to, sum_to-ext}
use cuda_open_mp.Cuda.InnerProduct.{
  mul_cells, mul_cell, add_up, dot_from, vec_dot_cpu, vec_mul_gpu, load,
}

pub upto_0-Within : (k : ℕ) → Within k (upto k 0)
upto_0-Within k =
    let e : 0 + k ≡ k = omega arith in subst (λ q. Within q (upto k 0)) e (upto-Within k 0)

module _ (n g b : ℕ) (whole : n ≡ g * b) (fits : n < 2 ^ 31) where
  -- A thread writes the cell of its number.
  mul_cells-cell :
      (bid tid : ℕ)
      → bid < g
      → tid < b
      → (mul_cells n b bid tid ≡ some ((bid * b + tid) ∷ [])) × (bid * b + tid < n)
  unfolding mul_cells
  mul_cells-cell bid tid lg lb =
      let lt : bid * b + tid < n = ground (arith, thread_lt g b bid tid lg lb) in
      let at : u32 (bid * b + tid) ≡ bid * b + tid = u32-small (bid * b + tid) (omega arith) in
      let positive : leb (2 ^ 31) (bid * b + tid) ≡ false = ground arith in
      (rw (at, positive, lt→ltb (bid * b + tid) n lt) refl, lt)

  mul_cells-Safe : (bid tid : ℕ) → bid < g → tid < b → Safe n (mul_cells n b bid tid)
  mul_cells-Safe bid tid lg lb =
      let (e, lt) = mul_cells-cell bid tid lg lb in ((bid * b + tid) ∷ [], e, (lt, tt))

module _ {F : Type 0} (nought : F) (plus times : F → F → F) where
  -- The product at `m`, with the default out of range.
  abbrev pub product : List F → List F → ℕ → F
  product a b m = times (get_or b m nought) (get_or a m nought)

  add_up-sum :
      (k i at : ℕ) (v : List F)
      → at + (i + k) ≤ length v
      → add_up plus times k i at v (sum_to nought plus (λ m. get_or v (at + m) nought) i)
        ≡ some (sum_to nought plus (λ m. get_or v (at + m) nought) (i + k))
  unfolding add_up sum_to
  add_up-sum zero i at v h =
      let e : i ≡ i + 0 = omega arith in
      ap (λ q. some (sum_to nought plus (λ m. get_or v (at + m) nought) q)) e
  add_up-sum (suc k) i at v h =
      let e : suc i + k ≡ i + suc k = omega arith in
      rw (get_elem?-eq-get_or v (at + i) nought (omega arith)) (
        add_up-sum k (suc i) at v (omega arith)
        ∙ ap (λ q. some (sum_to nought plus (λ m. get_or v (at + m) nought) q)) e)

  -- A loop from 0 on adds up what it reads.
  pub add_up-all :
      (k at : ℕ) (v : List F)
      → at + k ≤ length v
      → add_up plus times k 0 at v nought
        ≡ some (sum_to nought plus (λ m. get_or v (at + m) nought) k)
  unfolding sum_to
  add_up-all k at v h =
      let e : 0 + k ≡ k = omega arith in
      add_up-sum k 0 at v (omega arith)
      ∙ ap (λ q. some (sum_to nought plus (λ m. get_or v (at + m) nought) q)) e

  pub add_up-list :
      (k : ℕ) (v : List F) (f : ℕ → F)
      → k ≤ length v
      → ((m : ℕ) → m < k → get_or v m nought ≡ f m)
      → add_up plus times k 0 0 v nought ≡ some (sum_to nought plus f k)
  add_up-list k v f h same =
      add_up-all k 0 v (omega arith)
      ∙ ap some (
          sum_to-ext nought plus _ f k
            (λ m lt. let e : 0 + m ≡ m = omega arith in ap (λ q. get_or v q nought) e ∙ same m lt))

  dot_from-sum :
      (k i : ℕ) (a b : List F)
      → i + k ≤ length a
      → i + k ≤ length b
      → dot_from plus times k i a b (sum_to nought plus (product a b) i)
        ≡ some (sum_to nought plus (product a b) (i + k))
  unfolding dot_from sum_to
  dot_from-sum zero i a b h h' =
      let e : i ≡ i + 0 = omega arith in ap (λ q. some (sum_to nought plus (product a b) q)) e
  dot_from-sum (suc k) i a b h h' =
      let e : suc i + k ≡ i + suc k = omega arith in
      rw
        (get_elem?-eq-get_or b i nought (omega arith), get_elem?-eq-get_or a i nought (omega arith))
        (dot_from-sum k (suc i) a b (omega arith) (omega arith)
          ∙ ap (λ q. some (sum_to nought plus (product a b) q)) e)

  -- vecDot_cpu stays in range and sums the products from the left.
  pub vec_dot_cpu-sum :
      (n : ℕ) (a b : List F)
      → length a ≡ n
      → length b ≡ n
      → vec_dot_cpu plus times n a b nought ≡ some (sum_to nought plus (product a b) n)
  unfolding vec_dot_cpu sum_to
  vec_dot_cpu-sum n a b la lb =
      let e : 0 + n ≡ n = omega arith in
      dot_from-sum n 0 a b (omega arith) (omega arith)
      ∙ ap (λ q. some (sum_to nought plus (product a b) q)) e

  module _ (F_set : IsSet F) (schedule : List ℕ → List ℕ)
      (fair : (l : List ℕ) → Perm l (schedule l)) (n g b : ℕ) (whole : n ≡ g * b)
      (fits : n < 2 ^ 31) where
    mul_cell-product :
        (x y : List F)
        → length x ≡ n
        → length y ≡ n
        → (i : ℕ) (c : List F) → i < n
        → length c ≡ n
        → (v : F) × (get_elem? (map (product x y) (upto n 0)) i ≡ some v)
          × (mul_cell plus times x y i c ≡ some (set c i v))
    unfolding mul_cell
    mul_cell-product x y lx ly i c lt lc = (
      product x y i,
      get_elem?-map-upto (product x y) n i lt,
      rw
          (
            get_elem?-eq-get_or y i nought (omega arith),
            get_elem?-eq-get_or x i nought (omega arith),
            lt→ltb i (length c) (omega arith),
          )
          refl,
    )

    -- vecMul_gpu_kernel leaves the products.
    pub vec_mul_gpu-products :
        (x y c : List F)
        → length x ≡ n
        → length y ≡ n
        → length c ≡ n
        → vec_mul_gpu plus times nought schedule b n g x y c ≡ some (map (product x y) (upto n 0))
    unfolding vec_mul_gpu
    vec_mul_gpu-products x y c lx ly lc =
        perform-launch_cells n (mul_cell plus times x y) (map (product x y) (upto n 0))
          (length-map-upto (product x y) n 0) (mul_cell-product x y lx ly) F_set schedule fair
          (λ bid tid. mul_cells n b bid tid) g b (mul_cells-Safe n g b whole fits)
          (λ m lt.
            let (bid, tid, lg, lb, em) = thread_of g b m (omega (arith, whole)) in
            let (em', lt') = mul_cells-cell n g b whole fits bid tid lg lb in
            (bid, tid, lg, lb, ((bid * b + tid) ∷ [], em', inl (ground (arith, em)))))
          c lc

    load-cell :
        (bid : ℕ) (c v : List F) (i : ℕ)
        → bid < g
        → i < b
        → length c ≡ n
        → length v ≡ b
        → load plus times nought schedule b c bid i v
          ≡ some (set v i (get_or c (bid * b + i) nought))
    unfolding load
    load-cell bid c v i lt li lc lv =
        rw
          (
            get_elem?-eq-get_or c (bid * b + i) nought (ground (arith, thread_lt g b bid i lt li)),
            lt→ltb i (length v) (omega arith),
          )
          refl

    -- Threads that load a block's elements, in any order.
    pub load-block :
        (bid : ℕ) (c shared : List F)
        → bid < g
        → length c ≡ n
        → length shared ≡ b
        → perform (load plus times nought schedule b c bid) (schedule (upto b 0)) shared
          ≡ some (map (λ m. get_or c (bid * b + m) nought) (upto b 0))
    load-block bid c shared lt lc ls =
        let f : ℕ → F = λ m. get_or c (bid * b + m) nought in
        perform-launch b (load plus times nought schedule b c bid) (map f (upto b 0))
          (length-map-upto f b 0)
          (λ i v li lv. (f i, get_elem?-map-upto f b i li, load-cell bid c v i lt li lc lv)) F_set
          (upto b 0) (schedule (upto b 0)) shared (upto_0-Within b)
          (λ m lm. upto-Among b 0 m (omega arith) (omega arith)) ls (fair (upto b 0))
