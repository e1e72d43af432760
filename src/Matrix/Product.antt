-- ===== src/Matrix/Product.antt =====
-- The products of OpenMP/matrix_times.c and OpenMP/matrix_times_omp.c against the products of the
-- rows.
use mathlib.Core.List.{Perm, Permᴰ}
use mathlib.Core.List.Permᴰ.{cons, nil, swap, trans}
use mathlib.Core.List as List
use mathlib.Core.Option as Option
use mathlib.Core.Logic.{∥∥₁_elim}
use cuda_open_mp.Common.{
  ℕ, zero, suc, ◌+◌, ◌≤◌, ◌<◌, ◌≡◌, inl, inr, refl, sym, ap, ◌∙◌, subst, none, some, List, [], ◌∷◌,
  ◌++◌, arith, map, append_assoc, lt→ltb, Option-cases, length-append, length, length-set, upto,
  get_elem?, get_elem?-set_self, set, set-set_ne, set-set_self, set-get_elem?, set-append_end, drop,
  drop_at, flat, ℕ_discrete,
}
use cuda_open_mp.Common.Orders.{run_in, run_in-Perm}
use cuda_open_mp.Matrix.Rows.{AllOf, AllOf-get, get_elem?-flat, drop_all}
use cuda_open_mp.Matrix.{accumulate, row, rows_from, mxv, omp_mxv}

-- The independent description: the inner product of a row, from the left, onto `s`.
module _ {F : Type 0} (nought : F) (plus times : F → F → F) where
  abbrev pub dot : List F → List F → F → F
  dot [] c s = s
  dot (x ∷ r) [] s = s
  dot (x ∷ r) (y ∷ c) s = dot r c (plus s (times x y))

  abbrev pub products : List (List F) → List F → List F
  products rows c = map (λ r. dot r c nought) rows

  accumulate-dot :
      (k n i j : ℕ) (rows : List (List F)) (r a c : List F) (s : F)
      → AllOf n rows
      → get_elem? rows i ≡ some r
      → length r ≡ n
      → length c ≡ n
      → j + k ≡ n
      → i < length a
      → get_elem? a i ≡ some s
      → accumulate nought plus times k n i j a (flat rows) c
        ≡ some (set a i (dot (drop j r) (drop j c) s))
  unfolding accumulate
  accumulate-dot zero n i j rows r a c s all e lr lc h ia es =
      rw (drop_all j r (omega arith)) (ap some (sym (set-get_elem? a i s es)))
  accumulate-dot (suc k) n i j rows r a c s all e lr lc h ia es =
      let (x, ex, dx) = drop_at r j (omega arith) in
      let (y, ey, dy) = drop_at c j (omega arith) in
      let v = plus s (times x y) in
      let rest =
        accumulate-dot k n i (suc j) rows r (set a i v) c v all e lr lc (omega arith)
          (omega (arith, length-set a i v)) (get_elem?-set_self a i v ia) in
      rw (es, get_elem?-flat n rows i j r all e (omega arith), ex, ey, dx, dy, accumulate)
        (rest ∙ ap some (set-set_self a i v _))

  row-dot :
      (n i : ℕ) (rows : List (List F)) (r a c : List F)
      → AllOf n rows
      → get_elem? rows i ≡ some r
      → length r ≡ n
      → length c ≡ n
      → i < length a
      → row nought plus times n i a (flat rows) c ≡ some (set a i (dot r c nought))
  unfolding row
  row-dot n i rows r a c all e lr lc ia = rw (lt→ltb i (length a) ia) (
      accumulate-dot n n i 0 rows r (set a i nought) c nought all e lr lc (omega arith)
        (omega (arith, length-set a i nought)) (get_elem?-set_self a i nought ia)
      ∙ ap some (set-set_self a i nought _))

  -- The writes of the rounds, once each round is known.
  value : List (List F) → List F → ℕ → F
  value rows c i = elim (get_elem? rows i) [ none ↦ nought | some r ↦ dot r c nought ]

  value-get_elem? :
      (rows : List (List F)) (c : List F) (i : ℕ) (r : List F)
      → get_elem? rows i ≡ some r
      → value rows c i ≡ dot r c nought
  unfolding value
  value-get_elem? rows c i r e = rw (e, value) refl

  module _ (n : ℕ) (rows : List (List F)) (c : List F) (all : AllOf n rows)
      (lc : length c ≡ n) where
    write : ℕ → List F → List F
    write i a = set a i (value rows c i)

    row-write :
        (i : ℕ) (a : List F)
        → i < length rows
        → i < length a
        → row nought plus times n i a (flat rows) c ≡ some (write i a)
    unfolding write
    row-write i a h ia =
        let (r, e, d) = drop_at rows i h in
        row-dot n i rows r a c all e (AllOf-get rows i r all e) lc ia
        ∙ ap (λ v. some (set a i v)) (sym (value-get_elem? rows c i r e))

    -- Indices below the number of rows.
    abbrev Below : List ℕ → Type 0
    Below [] = Unit {0}
    Below (i ∷ is) = (i < length rows) × Below is

    omp_mxv-run_in :
        (order : List ℕ) (a : List F)
        → Below order
        → length a ≡ length rows
        → omp_mxv nought plus times order n a (flat rows) c ≡ some (run_in write order a)
    unfolding omp_mxv run_in write
    omp_mxv-run_in [] a h l = refl
    omp_mxv-run_in (i ∷ order) a (h, hs) l =
        rw (row-write i a h (omega arith), omp_mxv)
          (omp_mxv-run_in order (write i a) hs (length-set a i (value rows c i) ∙ l))

    write_comm : (i j : ℕ) (a : List F) → write j (write i a) ≡ write i (write j a)
    unfolding write
    write_comm i j a = elim (ℕ_discrete i j) [
      | yes same ↦ subst (λ q. write q (write i a) ≡ write i (write q a)) same refl
      | no ne ↦ set-set_ne a i j (value rows c i) (value rows c j) ne
    ]

    -- Each cell is written once, from the first on.
    run_in-upto :
        (k : ℕ) (pre old : List F) (rs : List (List F))
        → drop (length pre) rows ≡ rs
        → length pre + k ≡ length rows
        → length old ≡ k
        → run_in write (upto k (length pre)) (pre ++ old) ≡ pre ++ products rs c
    unfolding run_in write
    run_in-upto zero pre [] rs d l o =
        let gone : rs ≡ [] = sym d ∙ drop_all (length pre) rows (omega arith) in
        ap (λ q. pre ++ products q c) (sym gone)
    run_in-upto zero pre (x ∷ old) rs d l o = absurd (omega arith)
    run_in-upto (suc k) pre [] rs d l o = absurd (omega arith)
    run_in-upto (suc k) pre (x ∷ old) rs d l o =
        let (r, e, d') = drop_at rows (length pre) (omega arith) in
        let v = dot r c nought in
        let first : rs ≡ r ∷ drop (suc (length pre)) rows = sym d ∙ d' in
        let longer : length (pre ++ (v ∷ [])) ≡ suc (length pre) =
          omega (arith, length-append pre (v ∷ [])) in
        let rest =
          run_in-upto k (pre ++ (v ∷ [])) old (drop (suc (length pre)) rows)
            (ap (λ q. drop q rows) longer) (omega (arith, longer)) (omega arith) in
        ap (λ w. run_in write (upto k (suc (length pre))) (set (pre ++ (x ∷ old)) (length pre) w))
          (value-get_elem? rows c (length pre) r e)
        ∙ ap (run_in write (upto k (suc (length pre))))
            (set-append_end pre x v old ∙ sym (append_assoc pre (v ∷ []) old))
        ∙ ap (λ q. run_in write (upto k q) ((pre ++ (v ∷ [])) ++ old)) (sym longer)
        ∙ rest
        ∙ append_assoc pre (v ∷ []) (products (drop (suc (length pre)) rows) c)
        ∙ ap (λ q. pre ++ products q c) (sym first)

    upto-Below : (k i : ℕ) → i + k ≤ length rows → Below (upto k i)
    upto-Below zero i h = tt
    upto-Below (suc k) i h = (omega arith, upto-Below k (suc i) (omega arith))

    Below-Permᴰ : {is js : List ℕ} → Permᴰ is js → Below is → Below js
    Below-Permᴰ nil h = tt
    Below-Permᴰ (cons e d) (h, hs) = (subst (λ q. q < length rows) e h, Below-Permᴰ d hs)
    Below-Permᴰ (swap e e') (h, (h', hs)) =
        (subst (λ q. q < length rows) e' h', (subst (λ q. q < length rows) e h, hs))
    Below-Permᴰ (trans d d') h = Below-Permᴰ d' (Below-Permᴰ d h)

    rows_from-upto :
        (k i : ℕ) (a : List F)
        → rows_from nought plus times k n i a (flat rows) c
          ≡ omp_mxv nought plus times (upto k i) n a (flat rows) c
    unfolding rows_from omp_mxv
    rows_from-upto zero i a = refl
    rows_from-upto (suc k) i a = elim (Option-cases (row nought plus times n i a (flat rows) c)) [
      | inl out ↦ rw (out, rows_from, omp_mxv)
      | inr (a', e) ↦ rw (e, rows_from, omp_mxv) (rows_from-upto k (suc i) a')
    ]

    -- On a matrix of full rows, stored one behind the other, and vectors of fitting lengths, `mxv`
    -- stays inside its arrays and leaves in `a` the inner product of each row with `c`, summed from
    -- the left, whatever the arithmetic.
    pub mxv-products :
        (a : List F)
        → length a ≡ length rows
        → mxv nought plus times (length rows) n a (flat rows) c ≡ some (products rows c)
    unfolding mxv
    mxv-products a l =
        rows_from-upto (length rows) 0 a
        ∙ omp_mxv-run_in (upto (length rows) 0) a (upto-Below (length rows) 0 (omega arith)) l
        ∙ ap some (run_in-upto (length rows) [] a rows refl (omega arith) l)

    -- On a matrix of full rows and vectors of fitting lengths, over any set of elements, `omp_mxv`
    -- gives what `mxv` gives, whatever the order in which the rounds of its loop run, each once.
    pub omp_mxv-mxv :
        IsSet F
        → (a : List F) (order : List ℕ) → length a ≡ length rows
        → Perm (upto (length rows) 0) order
        → omp_mxv nought plus times order n a (flat rows) c
          ≡ mxv nought plus times (length rows) n a (flat rows) c
    unfolding mxv
    omp_mxv-mxv F_set a order l p =
        let ordered = upto-Below (length rows) 0 (omega arith) in
        ∥∥₁_elim p (Option.is_set (List.is_set F_set) _ _) (λ d.
          omp_mxv-run_in order a (Below-Permᴰ d ordered) l
          ∙ ap some (sym (run_in-Perm write write_comm (List.is_set F_set) p a))
          ∙ sym (omp_mxv-run_in (upto (length rows) 0) a ordered l)
          ∙ sym (rows_from-upto (length rows) 0 a))
