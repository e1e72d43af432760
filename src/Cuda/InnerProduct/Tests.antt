-- ===== src/Cuda/InnerProduct/Tests.antt =====
-- The inner products at inputs, over the natural numbers.
use mathlib.Core.HLevel.{hedberg}
use mathlib.Core.List.Perm as Perm
use mathlib.Core.List.{Perm}
use cuda_open_mp.Common.{
  ℕ, ◌+◌, ◌*◌, ◌≡◌, refl, some, List, [], ◌∷◌, arith, ℕ_discrete, replicate, set,
}
use cuda_open_mp.Cuda.Launch.{launch_cells, gather, perform}
use cuda_open_mp.Cuda.Strides.{u32}
use cuda_open_mp.Cuda.Reduction.{
  add_to, fold_thread, halves_round, halves, tree_sum, unrolled_sum, recursive_reduce,
}
use cuda_open_mp.Cuda.Reduction.Sums.{sum_to, tree_sum-sum}
use cuda_open_mp.Cuda.Reduction.Recursive.{recursive_reduce-sum}
use cuda_open_mp.Cuda.InnerProduct.{
  add_up, vec_dot_cpu, dot_from, load, vec_sum_1, total_gpu, vec_sum_in_place, total_in_place,
  vec_mul_gpu, mul_cells, mul_cell,
}
use cuda_open_mp.Cuda.InnerProduct.Totals.{total_gpu-vec_sum_1}
use cuda_open_mp.Cuda.InnerProduct.InPlace.{vec_sum_in_place-unrolled_sum}

abbrev as_is : List ℕ → List ℕ
as_is l = l

as_is-Perm : (l : List ℕ) → Perm l (as_is l)
as_is-Perm l = Perm.refl l

abbrev by_turn : ℕ → List ℕ → List ℕ
by_turn i l = l

by_turn-Perm : (i : ℕ) (l : List ℕ) → Perm l (by_turn i l)
by_turn-Perm i l = Perm.refl l

add_assoc : (x y z : ℕ) → x + y + z ≡ x + (y + z)
add_assoc x y z = omega arith

add_comm : (x y : ℕ) → x + y ≡ y + x
add_comm x y = omega arith

zero_add : (x : ℕ) → 0 + x ≡ x
zero_add x = omega arith

ℕ_IsSet : IsSet ℕ
ℕ_IsSet = hedberg ℕ_discrete

abbrev four : List ℕ
four = 1 ∷ 2 ∷ 3 ∷ 4 ∷ []

tree_sum-sum_example : tree_sum ◌+◌ by_turn 4 four ≡ some 10
unfolding sum_to
tree_sum-sum_example =
    tree_sum-sum 0 ◌+◌ add_assoc add_comm zero_add ℕ_IsSet by_turn by_turn-Perm 4 1 four refl refl

recursive_reduce-sum_example : recursive_reduce ◌+◌ 3 4 four ≡ some 10
unfolding sum_to
recursive_reduce-sum_example =
    recursive_reduce-sum 0 ◌+◌ add_assoc add_comm zero_add 2 3 four (omega arith) (omega arith)

total_gpu-vec_sum_1_example :
    total_gpu ◌+◌ ◌*◌ 0 as_is 2 (vec_sum_1 ◌+◌ ◌*◌ 0 as_is 2) 4 2 four four four (7 ∷ 7 ∷ [])
    ≡ vec_dot_cpu ◌+◌ ◌*◌ 4 four four 0
total_gpu-vec_sum_1_example =
    total_gpu-vec_sum_1 0 ◌+◌ add_assoc add_comm zero_add ◌*◌ ℕ_IsSet as_is as_is-Perm 4 2 2 refl
      (omega arith) four four four (7 ∷ 7 ∷ []) refl refl refl refl

-- Block 1 of two blocks.
vec_sum_in_place-unrolled_sum_example :
    vec_sum_in_place ◌+◌ ◌*◌ 0 as_is 1024
      (replicate 1024 9)
      (unrolled_sum ◌+◌ by_turn)
      1
      (replicate 2048 3)
    ≡ some (set (replicate 2048 3) 1 3072)
unfolding sum_to
vec_sum_in_place-unrolled_sum_example =
    vec_sum_in_place-unrolled_sum 0 ◌+◌ ◌*◌ add_assoc add_comm zero_add ℕ_IsSet as_is by_turn
      as_is-Perm by_turn-Perm 2048 2 refl (omega arith) (replicate 1024 9) refl 1 (replicate 2048 3)
      (omega arith) refl

vec_dot_cpu-four : vec_dot_cpu ◌+◌ ◌*◌ 4 four four 0 ≡ some 30
unfolding vec_dot_cpu dot_from
vec_dot_cpu-four = refl

-- Block 1 before block 0, whose input it has overwritten: 26 and 25 in place of 5 and 25.
total_in_place-late :
    total_in_place ◌+◌ ◌*◌ 0 as_is 2
      (9 ∷ 9 ∷ [])
      (tree_sum ◌+◌ by_turn 2)
      4
      2
      (1 ∷ 0 ∷ [])
      four
      four
      four
    ≡ some 51
unfolding total_in_place vec_mul_gpu launch_cells gather mul_cells mul_cell perform vec_sum_in_place
    load tree_sum halves halves_round fold_thread add_to add_up u32
total_in_place-late = refl
