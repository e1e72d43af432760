-- ===== src/Cuda/Reduction/Recursive.antt =====
-- recursiveReduce of CUDA_sample/ParallelReduction.cu.
use cuda_open_mp.Common.{
  ℕ, zero, suc, ◌+◌, ◌*◌, ◌/◌, ◌^◌, ◌≤◌, ◌<◌, ◌≡◌, refl, sym, ap, ◌∙◌, none, some, List, false,
  arith, ltb, ◌==◌, ltb→lt, lt→ltb, length, get_or, get_elem?-eq-get_or, upto, ◌>>=◌,
}
use cuda_open_mp.Cuda.Launch.{perform}
use cuda_open_mp.Cuda.Reduction.{add_to, fold_thread, add_range, recursive_reduce}
use cuda_open_mp.Cuda.Reduction.Phases.{range-sums}
use cuda_open_mp.Cuda.Reduction.Sums.{
  double, pow_pos, halved, sum_to, sum_to-ext, sum_to-plus, sum_to-append,
}

module _ {F : Type 0} (plus : F → F → F) where
  add_range-perform :
      (k i stride : ℕ) (v : List F)
      → i + k ≤ stride
      → add_range plus k i stride v
        ≡ perform (fold_thread plus (λ tid. ltb tid stride) stride) (upto k i) v
  unfolding add_range perform fold_thread
  add_range-perform zero i stride v h = refl
  add_range-perform (suc k) i stride v h =
      rw (lt→ltb i stride (omega arith))
        (elim (add_to plus stride i v)
          as (λ o. (o >>= (λ r. add_range plus k (suc i) stride r)) ≡ (
            o >>= (λ r.
              perform (fold_thread plus (λ tid. ltb tid stride) stride) (upto k (suc i)) r))) [
                | none ↦ refl
                | some r ↦ add_range-perform k (suc i) stride r (omega arith)
              ])

  -- recursiveReduce leaves out the last element where the size is odd and above 1.
  pub recursive_reduce-odd :
      (s fuel : ℕ) (v : List F)
      → 0 < s
      → recursive_reduce plus fuel (2 * s + 1) v ≡ recursive_reduce plus fuel (2 * s) v
  unfolding recursive_reduce
  recursive_reduce-odd s zero v h = refl
  recursive_reduce-odd s (suc fuel) v h =
      let odd : ((2 * s + 1) == 1) ≡ false = ground arith in
      let even : ((2 * s) == 1) ≡ false = ground arith in
      let same : (2 * s + 1) / 2 ≡ s = ground arith in
      let same' : (2 * s) / 2 ≡ s = ground arith in
      rw (odd, even, same, same', recursive_reduce) refl

module _ {F : Type 0} (nought : F) (plus : F → F → F)
    (plus_assoc : (x y z : F) → plus (plus x y) z ≡ plus x (plus y z))
    (plus_comm : (x y : F) → plus x y ≡ plus y x) (plus_nought : (x : F) → plus nought x ≡ x) where
  add_range-sum :
      (s : ℕ) (v : List F)
      → s + s ≤ length v
      → (r : List F) × (add_range plus s 0 s v ≡ some r)
        × (length r ≡ length v)
        × (sum_to nought plus (λ m. get_or r m nought) s
            ≡ sum_to nought plus (λ m. get_or v m nought) (s + s))
  add_range-sum s v h =
      let (r, e, lr, sums) =
        range-sums nought plus (λ tid. ltb tid s) s
          (λ a b on on' same. absurd (omega (arith, same, ltb→lt a s on, ltb→lt b s on')))
          (length v) s v (λ tid on lt. omega (arith, ltb→lt tid s on)) (omega arith) refl in
      (
        r,
        add_range-perform plus s 0 s v (omega arith) ∙ e,
        lr,
        sum_to-ext nought plus _ _ s (λ m lt. sums m lt (lt→ltb m s lt))
            ∙ sum_to-plus nought plus plus_assoc plus_comm plus_nought (λ m. get_or v m nought)
                (λ m. get_or v (m + s) nought) s
            ∙ sym (
                sum_to-append nought plus plus_assoc plus_comm plus_nought (λ m. get_or v m nought)
                  s s),
      )

  -- On 2 ^ j elements or more recursiveReduce of size 2 ^ j ends within its array, with `j + 1`
  -- calls, and returns the sum of the first 2 ^ j elements.
  pub recursive_reduce-sum :
      (j fuel : ℕ) (v : List F)
      → j < fuel
      → 2 ^ j ≤ length v
      → recursive_reduce plus fuel (2 ^ j) v
        ≡ some (sum_to nought plus (λ m. get_or v m nought) (2 ^ j))
  unfolding recursive_reduce sum_to
  recursive_reduce-sum j zero v f h = absurd (omega arith)
  recursive_reduce-sum zero (suc fuel) v f h =
      get_elem?-eq-get_or v 0 nought h ∙ ap some (sym (plus_nought (get_or v 0 nought)))
  recursive_reduce-sum (suc j) (suc fuel) v f h =
      let large : (2 ^ suc j == 1) ≡ false = ground (arith, double j, pow_pos j) in
      let (r, e, lr, s) = add_range-sum (2 ^ j) v (omega (arith, double j)) in
      rw (large, halved j, e, recursive_reduce)
        (recursive_reduce-sum j fuel r (omega arith) (omega (arith, double j, lr))
          ∙ ap some (s ∙ ap (sum_to nought plus (λ m. get_or v m nought)) (sym (double j))))
