-- ===== src/Cuda/Reduction/Sums.antt =====
-- The reductions against the sum of the elements, for an addition that is associative and
-- commutative; C's `float` addition is only nearly so.
use mathlib.Core.List.{Perm}
use cuda_open_mp.Common.{
  ℕ, zero, suc, ◌+◌, ◌/◌, ◌^◌, ◌≤◌, ◌<◌, ◌≡◌, refl, sym, ap, ap₂, ◌∙◌, some, List, arith, ltb,
  ltb→lt, lt→ltb, length, get_elem?, get_or, get_elem?-eq-get_or, upto, ◌>>=◌,
}
use cuda_open_mp.Cuda.Reduction.{halves_round, halves, tree_sum, unrolled, unrolled_sum, strides}
use cuda_open_mp.Cuda.Reduction.Phases.{phase-sums}

pub double : (j : ℕ) → 2 ^ (suc j) ≡ 2 ^ j + 2 ^ j
double j = ground arith

pub pow_pos : (j : ℕ) → 0 < 2 ^ j
pow_pos zero = omega arith
pow_pos (suc j) = omega (arith, double j, pow_pos j)

pub lt_pow : (j : ℕ) → j < 2 ^ j
lt_pow zero = omega arith
lt_pow (suc j) = omega (arith, double j, lt_pow j)

pub halved : (j : ℕ) → 2 ^ (suc j) / 2 ≡ 2 ^ j
halved j = ground (arith, double j)

module _ {F : Type 0} (nought : F) (plus : F → F → F) where
  -- The independent description: `f 0 + ... + f (k - 1)`.
  unfoldable pub sum_to : (ℕ → F) → ℕ → F
  sum_to f zero = nought
  sum_to f (suc k) = plus (sum_to f k) (f k)

  pub sum_to-ext : (f g : ℕ → F) (k : ℕ) → ((m : ℕ) → m < k → f m ≡ g m) → sum_to f k ≡ sum_to g k
  unfolding sum_to
  sum_to-ext f g zero h = refl
  sum_to-ext f g (suc k) h =
      ap₂ plus (sum_to-ext f g k (λ m lt. h m (omega arith))) (h k (omega arith))

module _ {F : Type 0} (nought : F) (plus : F → F → F)
    (plus_assoc : (x y z : F) → plus (plus x y) z ≡ plus x (plus y z))
    (plus_comm : (x y : F) → plus x y ≡ plus y x) (plus_nought : (x : F) → plus nought x ≡ x) where
  interchange : (a b c d : F) → plus (plus a b) (plus c d) ≡ plus (plus a c) (plus b d)
  interchange a b c d =
      plus_assoc a b (plus c d)
      ∙ ap (plus a) (sym (plus_assoc b c d) ∙ ap (λ q. plus q d) (plus_comm b c) ∙ plus_assoc c b d)
      ∙ sym (plus_assoc a c (plus b d))

  pub sum_to-plus :
      (f g : ℕ → F) (k : ℕ)
      → sum_to nought plus (λ m. plus (f m) (g m)) k
        ≡ plus (sum_to nought plus f k) (sum_to nought plus g k)
  unfolding sum_to
  sum_to-plus f g zero = sym (plus_nought nought)
  sum_to-plus f g (suc k) =
      ap (λ q. plus q (plus (f k) (g k))) (sum_to-plus f g k) ∙ interchange _ _ _ _

  pub sum_to-append :
      (f : ℕ → F) (a b : ℕ)
      → sum_to nought plus f (a + b)
        ≡ plus (sum_to nought plus f a) (sum_to nought plus (λ m. f (m + a)) b)
  unfolding sum_to
  sum_to-append f a zero =
      let e : a + 0 ≡ a = omega arith in
      ap (sum_to nought plus f) e
      ∙ sym (plus_nought (sum_to nought plus f a))
      ∙ plus_comm nought (sum_to nought plus f a)
  sum_to-append f a (suc b) =
      let e : a + suc b ≡ suc (a + b) = omega arith in
      let e' : a + b ≡ b + a = omega arith in
      ap (sum_to nought plus f) e
      ∙ ap₂ plus (sum_to-append f a b) (ap f e')
      ∙ plus_assoc (sum_to nought plus f a) (sum_to nought plus (λ m. f (m + a)) b) (f (b + a))

  module _ (F_set : IsSet F) (schedule : ℕ → List ℕ → List ℕ)
      (fair : (i : ℕ) (l : List ℕ) → Perm l (schedule i l)) (n : ℕ) where
    -- A round that adds the upper half of `2 * i` elements to the lower one keeps their sum.
    halves_round-sum :
        (i : ℕ) (v : List F)
        → i + i ≤ n
        → length v ≡ n
        → (r : List F) × (halves_round plus schedule n i v ≡ some r)
          × (length r ≡ n)
          × (sum_to nought plus (λ m. get_or r m nought) i
              ≡ sum_to nought plus (λ m. get_or v m nought) (i + i))
    unfolding halves_round
    halves_round-sum i v h l =
        let (r, e, lr, sums) =
          phase-sums nought plus (λ tid. ltb tid i) i
            (λ a b on on' same. absurd (omega (arith, same, ltb→lt a i on, ltb→lt b i on'))) F_set n
            (schedule i (upto n 0)) v (λ tid on lt. omega (arith, ltb→lt tid i on)) l
            (fair i (upto n 0)) in
        (
          r,
          e,
          lr,
          sum_to-ext nought plus _ _ i (λ m lt. sums m (omega arith) (lt→ltb m i lt))
              ∙ sum_to-plus (λ m. get_or v m nought) (λ m. get_or v (m + i) nought) i
              ∙ sym (sum_to-append (λ m. get_or v m nought) i i),
        )

    halves-sum :
        (j fuel : ℕ) (v : List F)
        → suc j < fuel
        → 2 ^ suc j ≤ n
        → length v ≡ n
        → (r : List F) × (halves plus schedule n fuel (2 ^ j) v ≡ some r)
          × (length r ≡ n)
          × (get_or r 0 nought ≡ sum_to nought plus (λ m. get_or v m nought) (2 ^ suc j))
    unfolding halves sum_to
    halves-sum j zero v f h l = absurd (omega arith)
    halves-sum zero (suc zero) v f h l = absurd (omega arith)
    halves-sum zero (suc (suc fuel)) v f h l =
        let (r, e, lr, s) = halves_round-sum 1 v h l in
        (r, rw (e) refl, lr, sym (plus_nought (get_or r 0 nought)) ∙ s)
    halves-sum (suc j) (suc fuel) v f h l =
        let (r, e, lr, s) = halves_round-sum (2 ^ suc j) v (omega (arith, double (suc j))) l in
        let (r', e', lr', s') =
          halves-sum j fuel r (omega arith) (omega (arith, double (suc j))) lr in
        (
          r',
          rw (lt→ltb 0 (2 ^ suc j) (pow_pos (suc j)), e, halved j, halves) e',
          lr',
          s' ∙ s ∙ ap (sum_to nought plus (λ m. get_or v m nought)) (sym (double (suc j))),
        )

    -- With 2 ^ (j + 1) threads that run in any order between two barriers, the loop of
    -- vecSum_gpu_kernel_3 ends within its arrays and leaves the sum of the block's elements.
    pub tree_sum-sum :
        (j : ℕ) (v : List F)
        → n ≡ 2 ^ suc j
        → length v ≡ n
        → tree_sum plus schedule n v ≡ some (sum_to nought plus (λ m. get_or v m nought) n)
    unfolding tree_sum
    tree_sum-sum j v e l =
        let (r, er, lr, s) =
          halves-sum j (suc n) v (omega (arith, e, lt_pow (suc j))) (omega (arith, e)) l in
        let half : n / 2 ≡ 2 ^ j = ap (λ q. q / 2) e ∙ halved j in
        rw (half, er, get_elem?-eq-get_or r 0 nought (omega (arith, lr, e, pow_pos (suc j))))
          (ap some (s ∙ ap (sum_to nought plus (λ m. get_or v m nought)) (sym e)))

module _ {F : Type 0} (plus : F → F → F) (schedule : ℕ → List ℕ → List ℕ) where
  -- The rounds that vecSum_gpu_kernel writes out do what the loop of vecSum_gpu_kernel_3 does with
  -- 1024 threads, for any array and any order of the threads.
  pub unrolled_sum-tree_sum :
      (v : List F) → unrolled_sum plus schedule v ≡ tree_sum plus schedule 1024 v
  unfolding unrolled_sum tree_sum unrolled halves
  unrolled_sum-tree_sum v = ap (λ o. o >>= (λ r. get_elem? r 0)) (unrolled-halves v)
    where
      unrolled-halves :
          (v : List F)
          → unrolled plus schedule 1024 strides v ≡ halves plus schedule 1024 1025 512 v
      unrolled-halves v = refl

module _ {F : Type 0} (nought : F) (plus : F → F → F)
    (plus_assoc : (x y z : F) → plus (plus x y) z ≡ plus x (plus y z))
    (plus_comm : (x y : F) → plus x y ≡ plus y x) (plus_nought : (x : F) → plus nought x ≡ x)
    (F_set : IsSet F) (schedule : ℕ → List ℕ → List ℕ)
    (fair : (i : ℕ) (l : List ℕ) → Perm l (schedule i l)) where
  -- With 1024 threads that run in any order between two barriers, the rounds of vecSum_gpu_kernel
  -- stay in range and leave the sum of the block's elements.
  pub unrolled_sum-sum :
      (v : List F)
      → length v ≡ 1024
      → unrolled_sum plus schedule v ≡ some (sum_to nought plus (λ m. get_or v m nought) 1024)
  unrolled_sum-sum v l =
      unrolled_sum-tree_sum plus schedule v
      ∙ tree_sum-sum nought plus plus_assoc plus_comm plus_nought F_set schedule fair 1024 9 v refl
          l
