-- ===== src/Cuda/VecAdd/Table.antt =====
-- The tests that CUDA_sample/vec_add.cu's main runs, against vecAdd_cpu.
use mathlib.Core.List.{Perm}
use mathlib.Core.Option.{some-injective}
use cuda_open_mp.Common.{
  ℕ, zero, suc, ◌+◌, ◌*◌, ◌^◌, ◌≤◌, ◌<◌, ◌≡◌, refl, sym, ap, ◌∙◌, subst, none, some, List, [], ◌∷◌,
  Bool, true, false, arith, ltb, length, length-replicate, get_elem?, lt-get_elem?, get_or,
  replicate, upto, drop_at, ◌>>=◌,
}
use cuda_open_mp.Cuda.Launch.{Within, perform, perform-all, upto-Within, upto-Among}
use cuda_open_mp.Cuda.VecAdd.{
  Kernel, kernel_better, element_count, add_cell, cpu_from, vec_add_cpu, check_from, check_result,
  launch, grids, blocks, cases, result, test,
}
use cuda_open_mp.Cuda.VecAdd.Launches.{Reaches, sums, length-sums, add_cell-sums, launch-sums}

module _ {F : Type 0} (plus : F → F → F) where
  cpu_from-perform :
      (k i : ℕ) (a b c : List F)
      → cpu_from plus k i a b c ≡ perform (add_cell plus a b) (upto k i) c
  unfolding cpu_from perform
  cpu_from-perform zero i a b c = refl
  cpu_from-perform (suc k) i a b c =
      elim (add_cell plus a b i c)
        as (λ o.
          (o >>= (λ c'. cpu_from plus k (suc i) a b c'))
          ≡ (o >>= (λ c'. perform (add_cell plus a b) (upto k (suc i)) c'))) [
            | none ↦ refl
            | some c' ↦ cpu_from-perform k (suc i) a b c'
          ]

  -- On arrays of `n` elements vec_add_cpu stays in range and leaves the sums of the elements.
  pub vec_add_cpu-sums :
      (n : ℕ) (a b c : List F)
      → length a ≡ n
      → length b ≡ n
      → length c ≡ n
      → vec_add_cpu plus n a b c ≡ some (sums plus a b)
  unfolding vec_add_cpu
  vec_add_cpu-sums n a b c la lb lc =
      let e : 0 + n ≡ n = omega arith in
      cpu_from-perform n 0 a b c
      ∙ perform-all n (add_cell plus a b) (sums plus a b) (length-sums plus a b (la ∙ sym lb) ∙ la)
          (add_cell-sums plus n a b la lb) (upto n 0) c
          (subst (λ q. Within q (upto n 0)) e (upto-Within n 0))
          (λ m lt. upto-Among n 0 m (omega arith) (omega arith)) lc

module _ {F : Type 0} (equal : F → F → Bool) (equal-refl : (x : F) → equal x x ≡ true) where
  check_from-same : (k i : ℕ) (d : List F) → i + k ≤ length d → check_from equal k i d d ≡ some true
  unfolding check_from
  check_from-same zero i d h = refl
  check_from-same (suc k) i d h =
      let (x, e, _) = drop_at d i (omega arith) in
      rw (e, equal-refl x) (check_from-same k (suc i) d (omega arith))

-- Every configuration of main has threads enough for its kernel, and not too many.
abbrev Each : List ℕ → List ℕ → List Kernel → Type 0
Each [] [] [] = Unit {0}
Each (g ∷ gs) (b ∷ bs) (k ∷ ks) = Reaches k g b × (g * b ≤ 1024 * 1024) × Each gs bs ks
Each _ _ _ = ⊥

each : Each grids blocks cases
unfolding Reaches
each = (
  (omega arith, omega arith),
  omega arith,
  (
    (omega arith, omega arith),
    omega arith,
    (
      (omega arith, omega arith),
      omega arith,
      (
        omega arith,
        omega arith,
        (
          omega arith,
          omega arith,
          (
            omega arith,
            omega arith,
            (
              omega arith,
              omega arith,
              (
                omega arith,
                omega arith,
                (
                  omega arith,
                  omega arith,
                  (
                    omega arith,
                    omega arith,
                    (
                      omega arith,
                      omega arith,
                      (
                        omega arith,
                        omega arith,
                        (
                          omega arith,
                          omega arith,
                          (
                            omega arith,
                            omega arith,
                            (
                              omega arith,
                              omega arith,
                              (
                                omega arith,
                                omega arith,
                                (
                                  omega arith,
                                  omega arith,
                                  (omega arith, omega arith, (omega arith, omega arith, tt)),
                                ),
                              ),
                            ),
                          ),
                        ),
                      ),
                    ),
                  ),
                ),
              ),
            ),
          ),
        ),
      ),
    ),
  ),
)

Each-get :
    (gs bs : List ℕ) (ks : List Kernel) (i : ℕ)
    → Each gs bs ks
    → i < length gs
    → (g : ℕ) × (b : ℕ) × (get_elem? gs i ≡ some g)
      × (get_elem? bs i ≡ some b)
      × Reaches (get_or ks i kernel_better) g b
      × (g * b ≤ 1024 * 1024)
Each-get (g ∷ gs) (b ∷ bs) (k ∷ ks) zero (r, small, h) lt = (g, b, refl, refl, r, small)
Each-get (g ∷ gs) (b ∷ bs) (k ∷ ks) (suc i) (r, small, h) lt = Each-get gs bs ks i h (omega arith)
Each-get [] bs ks i h lt = absurd (omega arith)
Each-get (g ∷ gs) [] ks i h lt = absurd h
Each-get (g ∷ gs) (b ∷ bs) [] i h lt = absurd h

module _ {F : Type 0} (nought : F) (plus : F → F → F) (equal : F → F → Bool)
    (schedule : List ℕ → List ℕ) (max_threads : ℕ) (launches syncs : ℕ → ℕ → Bool) where
  test-result :
      (i g b n : ℕ) (a d h r : List F)
      → get_elem? grids i ≡ some g
      → get_elem? blocks i ≡ some b
      → b ≤ max_threads
      → launches g b ≡ true
      → syncs g b ≡ true
      → launch plus schedule (get_or cases i kernel_better) n g b a d (replicate n nought) ≡ some r
      → check_result equal n h r ≡ some true
      → test nought plus equal schedule max_threads launches syncs n i a d h ≡ some (result true)
  unfolding test
  test-result i g b n a d h r eg eb fits lok sok run ok =
      let under : ltb max_threads b ≡ false = ground arith in
      rw (eg, eb, under, lok, sok, run, ok) refl

  -- In main, a test whose block the device can hold, and whose launch and wait succeed, prints OK:
  -- on arrays of ELEMENT_COUNT elements or fewer, with a comparison that holds of equal elements,
  -- its kernel leaves what vecAdd_cpu leaves, whatever the order of the writes.
  pub test-ok :
      IsSet F
      → ((x : F) → equal x x ≡ true)
      → ((l : List ℕ) → Perm l (schedule l))
      → (n i g b : ℕ) (a d c h : List F) → n ≤ element_count
      → get_elem? grids i ≡ some g
      → get_elem? blocks i ≡ some b
      → b ≤ max_threads
      → launches g b ≡ true
      → syncs g b ≡ true
      → length a ≡ n
      → length d ≡ n
      → length c ≡ n
      → vec_add_cpu plus n a d c ≡ some h
      → test nought plus equal schedule max_threads launches syncs n i a d h ≡ some (result true)
  unfolding check_result
  test-ok F_set equal-refl perm n i g b a d c h most eg eb fits lok sok la ld lc cpu =
      let (g', b', eg', eb', r, small) =
        Each-get grids blocks cases i each (lt-get_elem? grids i g eg) in
      let sg : g' ≡ g = some-injective g' g (sym eg' ∙ eg) in
      let sb : b' ≡ b = some-injective b' b (sym eb' ∙ eb) in
      let right : sums plus a d ≡ h =
        some-injective _ _ (sym (vec_add_cpu-sums plus n a d c la ld lc) ∙ cpu) in
      let lh : length h ≡ n = ap length (sym right) ∙ length-sums plus a d (la ∙ sym ld) ∙ la in
      test-result i g b n a d h h eg eb fits lok sok
        (launch-sums plus n a d la ld F_set schedule perm (get_or cases i kernel_better) g b
            (subst (λ q. n + g * q < 2 ^ 32) sb (subst (λ q. n + q * b' < 2 ^ 32) sg (omega arith)))
            (subst (λ q. Reaches (get_or cases i kernel_better) g q) sb
              (subst (λ q. Reaches (get_or cases i kernel_better) q b') sg r))
            (replicate n nought) (length-replicate n nought)
          ∙ ap some right)
        (check_from-same equal equal-refl n 0 h (omega (arith, lh)))
