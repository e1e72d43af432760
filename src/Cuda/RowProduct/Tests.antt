-- ===== src/Cuda/RowProduct/Tests.antt =====
-- The matrix product by rows at inputs, over the integers modulo 2.

use mathlib.Core.Bool.{Bool-set}
use mathlib.Core.List.Perm as Perm
use mathlib.Core.List.{Perm}
use cuda_open_mp.Common.{ℕ, ◌≡◌, refl, Bool, true, false, List, [], ◌∷◌, arith, replicate}
use cuda_open_mp.Cuda.MatMul.{matmult}
use cuda_open_mp.Cuda.MatMul.Modulo.{differ, both, differ_twice, differ_error}
use cuda_open_mp.Cuda.RowProduct.{matmult_by_rows}
use cuda_open_mp.Cuda.RowProduct.Products.{matmult_by_rows-matmult}

abbrev bits : List Bool
bits = true ∷ true ∷ false ∷ true ∷ []

abbrev in_turn : ℕ → ℕ → List ℕ → List ℕ
in_turn row k l = l

in_turn-Perm : (row k : ℕ) (l : List ℕ) → Perm l (in_turn row k l)
in_turn-Perm row k l = Perm.refl l

matmult_by_rows-matmult_example :
    matmult_by_rows differ differ both false 2 bits bits in_turn
      (λ row. replicate 2 true)
      (1 ∷ 0 ∷ [])
      bits
    ≡ matmult differ both false (λ x. x) 2 bits bits bits
matmult_by_rows-matmult_example =
    matmult_by_rows-matmult false differ differ both false differ (λ x. x) refl (λ t p. refl)
      differ_twice differ_error 2 bits bits bits refl refl refl (omega arith) Bool-set in_turn
      in_turn-Perm (λ row. replicate 2 true) (λ row. refl) (1 ∷ 0 ∷ []) (Perm.swap 1 0 [])
