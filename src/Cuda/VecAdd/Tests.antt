-- ===== src/Cuda/VecAdd/Tests.antt =====
-- The launches of CUDA_sample/vec_add.cu at inputs.
use mathlib.Core.HLevel.{hedberg}
use mathlib.Core.List.{Perm}
use mathlib.Core.List.Perm as Perm
use cuda_open_mp.Common.{ℕ, ◌+◌, ◌≡◌, refl, true, some, List, [], ◌∷◌, arith, ◌==◌, ℕ_discrete}
use cuda_open_mp.Cuda.VecAdd.{kernel_1_2, launch, vec_add_cpu, test, result}
use cuda_open_mp.Cuda.VecAdd.Launches.{launch-sums, Reaches}
use cuda_open_mp.Cuda.VecAdd.Table.{vec_add_cpu-sums, test-ok}

abbrev as_is : List ℕ → List ℕ
as_is l = l

as_is-Perm : (l : List ℕ) → Perm l (as_is l)
as_is-Perm l = Perm.refl l

launch-sums_example :
    launch ◌+◌ as_is kernel_1_2 3 1 2 (1 ∷ 2 ∷ 3 ∷ []) (10 ∷ 20 ∷ 30 ∷ []) (0 ∷ 0 ∷ 0 ∷ [])
    ≡ some (11 ∷ 22 ∷ 33 ∷ [])
unfolding Reaches
launch-sums_example =
    launch-sums ◌+◌ 3 (1 ∷ 2 ∷ 3 ∷ []) (10 ∷ 20 ∷ 30 ∷ []) refl refl (hedberg ℕ_discrete) as_is
      as_is-Perm kernel_1_2 1 2 (omega arith) (omega arith, omega arith) (0 ∷ 0 ∷ 0 ∷ []) refl

vec_add_cpu-sums_example :
    vec_add_cpu ◌+◌ 3 (1 ∷ 2 ∷ 3 ∷ []) (10 ∷ 20 ∷ 30 ∷ []) (0 ∷ 0 ∷ 0 ∷ [])
    ≡ some (11 ∷ 22 ∷ 33 ∷ [])
vec_add_cpu-sums_example =
    vec_add_cpu-sums ◌+◌ 3 (1 ∷ 2 ∷ 3 ∷ []) (10 ∷ 20 ∷ 30 ∷ []) (0 ∷ 0 ∷ 0 ∷ []) refl refl refl

test-ok_example :
    test 0 ◌+◌ ◌==◌ as_is 1024
      (λ g b. true)
      (λ g b. true)
      2
      9
      (1 ∷ 2 ∷ [])
      (3 ∷ 4 ∷ [])
      (4 ∷ 6 ∷ [])
    ≡ some (result true)
test-ok_example =
    test-ok 0 ◌+◌ ◌==◌ as_is 1024 (λ g b. true) (λ g b. true) (hedberg ℕ_discrete)
      (λ x. ground arith) as_is-Perm 2 9 2048 512 (1 ∷ 2 ∷ []) (3 ∷ 4 ∷ []) (0 ∷ 0 ∷ [])
      (4 ∷ 6 ∷ []) (omega arith) refl refl (omega arith) refl refl refl refl refl
      (vec_add_cpu-sums ◌+◌ 2 (1 ∷ 2 ∷ []) (3 ∷ 4 ∷ []) (0 ∷ 0 ∷ []) refl refl refl)
