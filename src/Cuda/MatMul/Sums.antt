-- ===== src/Cuda/MatMul/Sums.antt =====
-- The inner loops of the matrix products against sums.
use cuda_open_mp.Common.{
  ℕ, zero, suc, ◌+◌, ◌*◌, ◌<◌, ◌≡◌, refl, ap, ◌∙◌, Option, none, some, List, arith, length,
  get_elem?, get_or, get_elem?-eq-get_or, ◌>>=◌,
}
use cuda_open_mp.Cuda.Threads.{scaled_le}
use cuda_open_mp.Cuda.Reduction.Sums.{sum_to}
use cuda_open_mp.Cuda.MatMul.{sum_from, compensated_from}

-- A place in a matrix that is stored row by row.
pub place_lt : (n row column : ℕ) → row < n → column < n → row * n + column < n * n
place_lt n row column h h' = ground (arith, scaled_le (suc row) n n h)

module _ {F : Type 0} (nought : F) (plus minus times : F → F → F) (n : ℕ) (a b : List F) where
  -- The independent description: the products of a row and a column.
  abbrev pub term : ℕ → ℕ → ℕ → F
  term row column i = times (get_or a (row * n + i) nought) (get_or b (i * n + column) nought)

  module _ (la : length a ≡ n * n) (lb : length b ≡ n * n) (row column : ℕ) (hr : row < n)
      (hc : column < n) where
    sum_from-sum :
        (k i : ℕ)
        → i + k ≡ n
        → sum_from plus times k i n n row column a b (sum_to nought plus (term row column) i)
          ≡ some (sum_to nought plus (term row column) n)
    unfolding sum_from sum_to
    sum_from-sum zero i h =
        let e : i ≡ n = omega arith in ap (λ q. some (sum_to nought plus (term row column) q)) e
    sum_from-sum (suc k) i h =
        let left : row * n + i < length a = omega (arith, la, place_lt n row i hr (omega arith)) in
        let right : i * n + column < length b =
          omega (arith, lb, place_lt n i column (omega arith) hc) in
        rw
          (
            get_elem?-eq-get_or a (row * n + i) nought left,
            get_elem?-eq-get_or b (i * n + column) nought right,
          )
          (sum_from-sum k (suc i) (omega arith))

    pub sum_from-all :
        sum_from plus times n 0 n n row column a b nought
        ≡ some (sum_to nought plus (term row column) n)
    unfolding sum_to
    sum_from-all = sum_from-sum n 0 (omega arith)

    module _ (plus_minus : (t p : F) → minus t (minus nought p) ≡ plus t p)
        (no_error : (t p : F) → plus (minus (plus t p) t) (minus nought p) ≡ nought) where
      compensated_from-sum :
          (k i : ℕ)
          → i + k ≡ n
          → compensated_from plus minus times k i n n row column a b
              (sum_to nought plus (term row column) i)
              nought
            ≡ some (sum_to nought plus (term row column) n)
      unfolding compensated_from sum_to
      compensated_from-sum zero i h =
          let e : i ≡ n = omega arith in ap (λ q. some (sum_to nought plus (term row column) q)) e
      compensated_from-sum (suc k) i h =
          let left : row * n + i < length a =
            omega (arith, la, place_lt n row i hr (omega arith)) in
          let right : i * n + column < length b =
            omega (arith, lb, place_lt n i column (omega arith) hc) in
          let t = sum_to nought plus (term row column) i in
          rw
            (
              get_elem?-eq-get_or a (row * n + i) nought left,
              get_elem?-eq-get_or b (i * n + column) nought right,
              plus_minus t (term row column i),
              no_error t (term row column i),
            )
            (compensated_from-sum k (suc i) (omega arith))

      pub compensated_from-all :
          compensated_from plus minus times n 0 n n row column a b nought nought
          ≡ some (sum_to nought plus (term row column) n)
      unfolding sum_to
      compensated_from-all = compensated_from-sum n 0 (omega arith)

-- Two loops that begin with the same read give the same, if they do from there on.
same_read :
    {A B C E : Type 0} (o : Option A) (g : A → Option B) (r : B → Option E) (g' : A → Option C)
    (r' : C → Option E)
    → ((x : A) → (g x >>= r) ≡ (g' x >>= r'))
    → ((o >>= g) >>= r) ≡ ((o >>= g') >>= r')
same_read none g r g' r' h = refl
same_read (some x) g r g' r' h = h x

-- Where rounding a sum of the wider type is the sum of the narrower one, it is so for the whole loop.
module _ {F D : Type 0} (add : D → F → D) (plus times : F → F → F) (rounded : D → F)
    (exact : (t : D) (p : F) → rounded (add t p) ≡ plus (rounded t) p) (n : ℕ) (a b : List F)
    (row column : ℕ) where
  pub sum_from-rounded :
      {A : Type 0} (k i : ℕ) (t : D) (f : F → Option A)
      → (sum_from add times k i n n row column a b t >>= (λ d. f (rounded d)))
        ≡ (sum_from plus times k i n n row column a b (rounded t) >>= f)
  unfolding sum_from
  sum_from-rounded zero i t f = refl
  sum_from-rounded (suc k) i t f =
      same_read (get_elem? a (row * n + i)) _ (λ d. f (rounded d)) _ f
        (λ x.
          same_read (get_elem? b (i * n + column)) _ (λ d. f (rounded d)) _ f
            (λ y.
              sum_from-rounded k (suc i) (add t (times x y)) f
              ∙ ap (λ q. sum_from plus times k (suc i) n n row column a b q >>= f)
                  (exact t (times x y))))
