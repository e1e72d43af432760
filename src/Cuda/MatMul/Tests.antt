-- ===== src/Cuda/MatMul/Tests.antt =====
-- The matrix products at inputs, over the numbers and over the integers modulo 2.
use mathlib.Core.HLevel.{hedberg}
use mathlib.Core.List.Perm as Perm
use mathlib.Core.List.{Perm}
use cuda_open_mp.Common.{
  ℕ, ◌+◌, ◌-◌, ◌*◌, ◌≡◌, refl, Bool, true, false, some, List, [], ◌∷◌, ℕ_discrete,
}
use cuda_open_mp.Cuda.Launch.{perform}
use cuda_open_mp.Cuda.MatMul.{sum_from, cpu_cell, plain_cell, matmult, matmult_cuda}
use cuda_open_mp.Cuda.MatMul.Products.{matmult_cuda-matmult}

abbrev as_is : List ℕ → List ℕ
as_is l = l

as_is-Perm : (l : List ℕ) → Perm l (as_is l)
as_is-Perm l = Perm.refl l

ℕ_IsSet : IsSet ℕ
ℕ_IsSet = hedberg ℕ_discrete

abbrev plain : ℕ → ℕ
plain t = t

abbrev four : List ℕ
four = 1 ∷ 2 ∷ 3 ∷ 4 ∷ []

matmult-four : matmult ◌+◌ ◌*◌ 0 plain 2 four four four ≡ some (7 ∷ 10 ∷ 15 ∷ 22 ∷ [])
unfolding matmult cpu_cell sum_from perform
matmult-four = refl

matmult_cuda-matmult_example :
    matmult_cuda ◌+◌ ◌-◌ ◌*◌ 0 2 four four as_is (plain_cell ◌+◌ ◌-◌ ◌*◌ 0 2 four four) four
    ≡ matmult ◌+◌ ◌*◌ 0 plain 2 four four four
matmult_cuda-matmult_example =
    matmult_cuda-matmult 0 ◌+◌ ◌-◌ ◌*◌ 0 ◌+◌ plain refl (λ t p. refl) 2 four four refl refl four
      refl ℕ_IsSet as_is as_is-Perm

abbrev bits : List Bool
bits = true ∷ true ∷ false ∷ true ∷ []
