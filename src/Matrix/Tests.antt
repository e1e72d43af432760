-- ===== src/Matrix/Tests.antt =====
-- Tests and witnesses for the matrix products, over the natural numbers.
use mathlib.Core.HLevel.{hedberg}
use mathlib.Core.List.Perm as Perm
use cuda_open_mp.Common.{ℕ, ◌+◌, ◌*◌, ◌≡◌, refl, some, List, [], ◌∷◌, flat, ℕ_discrete}
use cuda_open_mp.Matrix.{accumulate, row, rows_from, mxv, omp_mxv}
use cuda_open_mp.Matrix.Product.{omp_mxv-mxv}

abbrev two_rows : List (List ℕ)
two_rows = (1 ∷ 2 ∷ 3 ∷ []) ∷ (4 ∷ 5 ∷ 6 ∷ []) ∷ []

abbrev vector : List ℕ
vector = 1 ∷ 10 ∷ 100 ∷ []

mxv-two_rows : mxv 0 ◌+◌ ◌*◌ 2 3 (7 ∷ 7 ∷ []) (flat two_rows) vector ≡ some (321 ∷ 654 ∷ [])
unfolding mxv rows_from row accumulate
mxv-two_rows = refl

omp_mxv-mxv_example :
    omp_mxv 0 ◌+◌ ◌*◌ (1 ∷ 0 ∷ []) 3 (7 ∷ 7 ∷ []) (flat two_rows) vector
    ≡ mxv 0 ◌+◌ ◌*◌ 2 3 (7 ∷ 7 ∷ []) (flat two_rows) vector
omp_mxv-mxv_example =
    omp_mxv-mxv 0 ◌+◌ ◌*◌ 3 two_rows vector (refl, (refl, tt)) refl (hedberg ℕ_discrete)
      (7 ∷ 7 ∷ []) (1 ∷ 0 ∷ []) refl (Perm.swap 1 0 [])
