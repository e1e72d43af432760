-- ===== src/Cuda/Reduction.antt =====
-- The reductions of CUDA_sample/inner_product1.cu and CUDA_sample/ParallelReduction.cu: the threads
-- of a block add in rounds that barriers separate. The element type and its addition are
-- parameters, as C's `float` is not modelled; `none` is an index out of range, or a loop that has
-- not ended when its fuel has run out.
pub mod Phases
pub mod Sums
pub mod Recursive
use cuda_open_mp.Common.{
  ℕ, zero, suc, ◌+◌, ◌*◌, ◌/◌, Bool, true, false, Option, none, some, List, [], ◌∷◌, ltb, ◌==◌,
  if◌then◌else◌, length, get_elem?, set, upto, ◌>>=◌,
}
use cuda_open_mp.Cuda.Launch.{perform}

module _ {F : Type 0} (plus : F → F → F) where
  -- `idata[i] += idata[i + stride]`.
  unfoldable pub add_to : ℕ → ℕ → List F → Option (List F)
  add_to stride i idata = do
    x ← get_elem? idata i
    y ← get_elem? idata (i + stride)
    some (set idata i (plus x y))

  -- A thread of a round, which adds if it is active.
  unfoldable pub fold_thread : (ℕ → Bool) → ℕ → ℕ → List F → Option (List F)
  fold_thread active stride tid vec = if active tid then add_to stride tid vec else some vec

  -- `k` rounds of the loop of recursiveReduce, from `i` on.
  unfoldable pub add_range : ℕ → ℕ → ℕ → List F → Option (List F)
  add_range zero i stride idata = some idata
  add_range (suc k) i stride idata = do
    idata' ← add_to stride i idata
    add_range k (suc i) stride idata'

  unfoldable pub recursive_reduce : ℕ → ℕ → List F → Option F
  recursive_reduce zero size idata = none
  recursive_reduce (suc fuel) size idata = elim (size == 1) [
    | true ↦ get_elem? idata 0
    | false ↦
        (add_range (size / 2) 0 (size / 2) idata
          >>= (λ idata'. recursive_reduce fuel (size / 2) idata'))
  ]

  -- The threads of a block, by their numbers, in the order that `schedule` puts them in for the
  -- round with the given stride.
  module _ (schedule : ℕ → List ℕ → List ℕ) (block_dim : ℕ) where
    unfoldable pub halves_round : ℕ → List F → Option (List F)
    halves_round i vec =
        perform (fold_thread (λ tid. ltb tid i) i) (schedule i (upto block_dim 0)) vec

    -- `for (int i = blockDim.x / 2; i > 0; i /= 2)` in vecSum_gpu_kernel_3.
    unfoldable pub halves : ℕ → ℕ → List F → Option (List F)
    halves zero i vec = none
    halves (suc fuel) i vec = elim (ltb 0 i) [
      | true ↦ halves_round i vec >>= (λ vec'. halves fuel (i / 2) vec')
      | false ↦ some vec
    ]

    -- The rounds that vecSum_gpu_kernel has one behind the other.
    unfoldable pub unrolled : List ℕ → List F → Option (List F)
    unrolled [] vec = some vec
    unrolled (i ∷ is) vec = do vec' ← halves_round i vec; unrolled is vec'

abbrev pub strides : List ℕ
strides = 512 ∷ 256 ∷ 128 ∷ 64 ∷ 32 ∷ 16 ∷ 8 ∷ 4 ∷ 2 ∷ 1 ∷ []

module _ {F : Type 0} (plus : F → F → F) (schedule : ℕ → List ℕ → List ℕ) where
  -- A block of vecSum_gpu_kernel_3, from the loaded array on, with `block_dim` threads.
  unfoldable pub tree_sum : ℕ → List F → Option F
  tree_sum block_dim vec = do
    vec' ← halves plus schedule block_dim (suc block_dim) (block_dim / 2) vec
    get_elem? vec' 0

  -- A block of vecSum_gpu_kernel, from the loaded array on.
  unfoldable pub unrolled_sum : List F → Option F
  unrolled_sum vec = do vec' ← unrolled plus schedule 1024 strides vec; get_elem? vec' 0
