-- ===== src/Matrix/Rows.antt =====
-- The rows of a matrix that is stored row by row.
use cuda_open_mp.Common.{
  ℕ, zero, suc, ◌+◌, ◌*◌, ◌≤◌, ◌<◌, ◌≡◌, refl, ap, ◌∙◌, subst, some, List, [], ◌∷◌, ◌++◌, arith,
  length, get_elem?, drop, flat,
}

module _ {F : Type 0} where
  -- Every row has `n` elements.
  abbrev pub AllOf : ℕ → List (List F) → Type 0
  AllOf n [] = Unit {0}
  AllOf n (r ∷ rows) = (length r ≡ n) × AllOf n rows

  -- The elements of row `i` in the matrix, which is stored row by row.
  get_elem?-append_lt : (r s : List F) (j : ℕ) → j < length r → get_elem? (r ++ s) j ≡ get_elem? r j
  get_elem?-append_lt [] s j h = absurd (omega arith)
  get_elem?-append_lt (x ∷ r) s zero h = refl
  get_elem?-append_lt (x ∷ r) s (suc j) h = get_elem?-append_lt r s j (omega arith)

  get_elem?-append_ge : (r s : List F) (j : ℕ) → get_elem? (r ++ s) (length r + j) ≡ get_elem? s j
  get_elem?-append_ge [] s j = let e : 0 + j ≡ j = omega arith in ap (get_elem? s) e
  get_elem?-append_ge (x ∷ r) s j =
      let e : suc (length r) + j ≡ suc (length r + j) = omega arith in
      ap (get_elem? (x ∷ (r ++ s))) e ∙ get_elem?-append_ge r s j

  pub drop_all : (j : ℕ) (r : List F) → length r ≤ j → drop j r ≡ []
  drop_all zero [] h = refl
  drop_all zero (x ∷ r) h = absurd (omega arith)
  drop_all (suc j) [] h = refl
  drop_all (suc j) (x ∷ r) h = drop_all j r (omega arith)

  pub AllOf-get :
      {n : ℕ} (rows : List (List F)) (i : ℕ) (r : List F)
      → AllOf n rows
      → get_elem? rows i ≡ some r
      → length r ≡ n
  AllOf-get [] i r all e = cc
  AllOf-get {n} (r' ∷ rows) zero r (l, all) e =
      let same : r' ≡ r = cc in subst (λ q. length q ≡ n) same l
  AllOf-get (r' ∷ rows) (suc i) r (l, all) e = AllOf-get rows i r all e

  pub get_elem?-flat :
      (n : ℕ) (rows : List (List F)) (i j : ℕ) (r : List F)
      → AllOf n rows
      → get_elem? rows i ≡ some r
      → j < n
      → get_elem? (flat rows) (i * n + j) ≡ get_elem? r j
  get_elem?-flat n [] i j r all e h = cc
  get_elem?-flat n (r' ∷ rows) zero j r (l, all) e h =
      let same : r' ≡ r = cc in
      let at : 0 * n + j ≡ j = omega arith in
      ap (get_elem? (r' ++ flat rows)) at
      ∙ get_elem?-append_lt r' (flat rows) j (omega arith)
      ∙ ap (λ q. get_elem? q j) same
  get_elem?-flat n (r' ∷ rows) (suc i) j r (l, all) e h =
      let at : suc i * n + j ≡ length r' + (i * n + j) = ground arith in
      ap (get_elem? (r' ++ flat rows)) at
      ∙ get_elem?-append_ge r' (flat rows) (i * n + j)
      ∙ get_elem?-flat n rows i j r all e h
