-- ===== src/Matrix.antt =====
-- OpenMP/matrix_times.c and OpenMP/matrix_times_omp.c: the product of a matrix and a vector. The
-- element type and its operations are parameters, as C's `double` is not modelled.
pub mod Rows
pub mod Product
mod Tests
use cuda_open_mp.Common.{
  ℕ, zero, suc, ◌+◌, ◌*◌, ◌<◌, ◌≡◌, Option, none, some, List, [], ◌∷◌, ltb, if◌then◌else◌, length,
  get_elem?, set,
}

module _ {F : Type 0} (nought : F) (plus times : F → F → F) where
  -- `for (j ...) a[i] += b[i*n+j]*c[j]` with `k` rounds to go; `none` is an index out of range.
  unfoldable pub accumulate : ℕ → ℕ → ℕ → ℕ → List F → List F → List F → Option (List F)
  accumulate zero n i j a b c = some a
  accumulate (suc k) n i j a b c = elim (get_elem? a i) [
    | none ↦ none
    | some s ↦ elim (get_elem? b (i * n + j)) [
      | none ↦ none
      | some x ↦ elim (get_elem? c j) [
        | none ↦ none
        | some y ↦ accumulate k n i (suc j) (set a i (plus s (times x y))) b c
      ]
    ]
  ]

  -- The body of the loop over `i`.
  unfoldable pub row : ℕ → ℕ → List F → List F → List F → Option (List F)
  row n i a b c = if ltb i (length a) then accumulate n n i 0 (set a i nought) b c else none

  -- `for (i = i; i < m; i++)` with `k` rounds to go.
  unfoldable pub rows_from : ℕ → ℕ → ℕ → List F → List F → List F → Option (List F)
  rows_from zero n i a b c = some a
  rows_from (suc k) n i a b c = elim (row n i a b c) [
    | none ↦ none
    | some a' ↦ rows_from k n (suc i) a' b c
  ]

  unfoldable pub mxv : ℕ → ℕ → List F → List F → List F → Option (List F)
  mxv m n a b c = rows_from m n 0 a b c

  -- The loop over `i` of `omp_mxv`, its rounds run in a given order: each writes one cell of `a` that
  -- no other one touches.
  unfoldable pub omp_mxv : List ℕ → ℕ → List F → List F → List F → Option (List F)
  omp_mxv [] n a b c = some a
  omp_mxv (i ∷ order) n a b c = elim (row n i a b c) [
    | none ↦ none
    | some a' ↦ omp_mxv order n a' b c
  ]
