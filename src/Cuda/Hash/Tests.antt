-- ===== src/Cuda/Hash/Tests.antt =====
-- The hash at inputs, with a memory of two words.
use mathlib.Core.List.{Perm}
use cuda_open_mp.Common.{ℕ, ◌*◌, ◌≡◌, refl, some, List, [], ◌∷◌, arith, replicate, upto}
use cuda_open_mp.Cuda.Hash.{num_coords, cpu_k_hash, k_hash_kernel}
use cuda_open_mp.Cuda.Hash.Slices.{Kept}
use cuda_open_mp.Cuda.Hash.Kernel.{Placed, k_hash_kernel-cpu, cpu_k_hash-Perm}

abbrev results : List ℕ
results = replicate 156 0

k_hash_kernel-cpu_example :
    (coords : List ℕ) × (big' : List ℕ) × (results' : List ℕ) × (cpu_k_hash 2 3 9 (7 ∷ 7 ∷ [])
      ≡ some coords)
    × (k_hash_kernel 2 3 2 1 (5 ∷ 9 ∷ []) (0 ∷ 0 ∷ 0 ∷ 0 ∷ []) results ≡ some (big', results'))
    × Placed 0 78 1 coords results results'
    × Kept 2 (1 * 2) (0 ∷ 0 ∷ 0 ∷ 0 ∷ []) big'
k_hash_kernel-cpu_example =
    k_hash_kernel-cpu 1 2 3 refl 2 1 (5 ∷ 9 ∷ []) (0 ∷ 0 ∷ 0 ∷ 0 ∷ []) results (7 ∷ 7 ∷ [])
      (omega arith) refl (omega arith) (omega arith) refl

cpu_k_hash-Perm_example :
    (coords : List ℕ) × (cpu_k_hash 2 3 9 (7 ∷ 7 ∷ []) ≡ some coords)
    × Perm (upto num_coords 0) coords
cpu_k_hash-Perm_example = cpu_k_hash-Perm 1 2 3 refl 9 (7 ∷ 7 ∷ []) refl
