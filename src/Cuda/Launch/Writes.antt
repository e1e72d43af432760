-- ===== src/Cuda/Launch/Writes.antt =====
-- The writes of the threads of a launch, one after the other in some order.
use mathlib.Core.List.{Perm, Permᴰ}
use mathlib.Core.List.Permᴰ.{cons, nil, swap, trans}
use mathlib.Core.List as List
use mathlib.Core.Option as Option
use mathlib.Core.Option.{some-injective}
use mathlib.Core.Logic.{∥∥₁_elim}
use cuda_open_mp.Common.{
  ℕ, zero, suc, ◌+◌, ◌<◌, ◌≡◌, inl, inr, refl, sym, ap, ap₂, ◌∙◌, subst, Option, none, some, ◌++◌,
  List, [], ◌∷◌, arith, length, length-set, get_elem?, set, Among, get_elem?-set_self,
  get_elem?-set_ne, ℕ_discrete, upto, map, get_or, get_elem?-eq-get_or, ◌>>=◌,
}
use cuda_open_mp.Cuda.Launch.Cells.{
  Within, Safe, Hits, Within-Permᴰ, Among-Permᴰ, launch_cells, launch_cells-Safe, launch_cells-Hits,
}

module _ {F : Type 0} where
  -- The writes of the cells of a list, in its order.
  unfoldable pub perform : (ℕ → List F → Option (List F)) → List ℕ → List F → Option (List F)
  perform cell [] c = some c
  perform cell (i ∷ order) c = do c' ← cell i c; perform cell order c'

  -- Lists of one length with the same elements.
  pub same_elements :
      (xs ys : List F)
      → length xs ≡ length ys
      → ((m : ℕ) → m < length xs → get_elem? xs m ≡ get_elem? ys m)
      → xs ≡ ys
  same_elements [] [] l h = refl
  same_elements [] (y ∷ ys) l h = absurd (omega arith)
  same_elements (x ∷ xs) [] l h = absurd (omega arith)
  same_elements (x ∷ xs) (y ∷ ys) l h =
      let first : some x ≡ some y = h 0 (omega arith) in
      let head : x ≡ y = cc in
      let rest = same_elements xs ys (omega arith) (λ m lt. h (suc m) (omega arith)) in
      ap (λ q. q ∷ xs) head ∙ ap (◌∷◌ y) rest

  module _ (n : ℕ) (cell : ℕ → List F → Option (List F)) (d : List F) (ld : length d ≡ n)
      (writes : (i : ℕ) (c : List F)
        → i < n
        → length c ≡ n
        → (v : F) × (get_elem? d i ≡ some v) × (cell i c ≡ some (set c i v))) where
    perform-step :
        (i : ℕ) (order : List ℕ) (c c' : List F)
        → cell i c ≡ some c'
        → perform cell (i ∷ order) c ≡ perform cell order c'
    unfolding perform
    perform-step i order c c' e = rw (e) refl

    set-value :
        (c : List F) (i m : ℕ) (v : F)
        → length c ≡ n
        → i < n
        → get_elem? d i ≡ some v
        → get_elem? c m ≡ get_elem? d m
        → get_elem? (set c i v) m ≡ get_elem? d m
    set-value c i m v l lt ev h = elim (ℕ_discrete i m) [
      | yes same ↦
          subst (λ q. get_elem? (set c i v) q ≡ get_elem? d q) same
            (get_elem?-set_self c i v (omega arith) ∙ sym ev)
      | no ne ↦ get_elem?-set_ne c i m v ne ∙ h
    ]

    -- Cells that hold their values keep them.
    pub perform-some :
        (order : List ℕ) (c : List F)
        → Within n order
        → length c ≡ n
        → (r : List F) × (perform cell order c ≡ some r) × (length r ≡ n)
    unfolding perform
    perform-some [] c w l = (c, refl, l)
    perform-some (i ∷ order) c (lt, w) l =
        let (v, ev, ew) = writes i c lt l in
        let (r, er, lr) = perform-some order (set c i v) w (length-set c i v ∙ l) in
        (r, perform-step i order c (set c i v) ew ∙ er, lr)

    perform-kept :
        (order : List ℕ) (c r : List F) (m : ℕ)
        → Within n order
        → length c ≡ n
        → m < n
        → perform cell order c ≡ some r
        → get_elem? c m ≡ get_elem? d m
        → get_elem? r m ≡ get_elem? d m
    unfolding perform
    perform-kept [] c r m w l lt e h =
        let same : c ≡ r = cc in subst (λ q. get_elem? q m ≡ get_elem? d m) same h
    perform-kept (i ∷ order) c r m (lti, w) l lt e h =
        let (v, ev, ew) = writes i c lti l in
        let e' : perform cell order (set c i v) ≡ some r =
          sym (perform-step i order c (set c i v) ew) ∙ e in
        perform-kept order (set c i v) r m w (length-set c i v ∙ l) lt e'
          (set-value c i m v l lti ev h)

    perform-written :
        (order : List ℕ) (c r : List F) (m : ℕ)
        → Within n order
        → length c ≡ n
        → m < n
        → perform cell order c ≡ some r
        → Among m order
        → get_elem? r m ≡ get_elem? d m
    unfolding perform
    perform-written [] c r m w l lt e a = absurd a
    perform-written (i ∷ order) c r m (lti, w) l lt e a =
        let (v, ev, ew) = writes i c lti l in
        let e' : perform cell order (set c i v) ≡ some r =
          sym (perform-step i order c (set c i v) ew) ∙ e in
        elim a [
          | inl same ↦ perform-kept order (set c i v) r m w (length-set c i v ∙ l) lt e' (
              subst (λ q. get_elem? (set c i v) q ≡ get_elem? d q) (sym same)
                (get_elem?-set_self c i v (omega arith) ∙ sym ev))
          | inr a' ↦ perform-written order (set c i v) r m w (length-set c i v ∙ l) lt e' a'
        ]

    -- Writes that reach every cell leave the values, whatever was there.
    pub perform-all :
        (order : List ℕ) (c : List F)
        → Within n order
        → ((m : ℕ) → m < n → Among m order)
        → length c ≡ n
        → perform cell order c ≡ some d
    perform-all order c w all l =
        let (r, er, lr) = perform-some order c w l in
        er
        ∙ ap some (
            same_elements r d (lr ∙ sym ld) (λ m lt.
              perform-written order c r m w l (omega (arith, lr)) er (all m (omega (arith, lr)))))

    -- The writes of a launch whose threads end, stay below `n` and reach every cell leave the
    -- values, whatever the order in which they are made.
    pub perform-launch :
        IsSet F
        → (cells order : List ℕ) (c : List F) → Within n cells
        → ((m : ℕ) → m < n → Among m cells)
        → length c ≡ n
        → Perm cells order
        → perform cell order c ≡ some d
    perform-launch F_set cells order c w all l p =
        ∥∥₁_elim p (Option.is_set (List.is_set F_set) _ _)
          (λ q. perform-all order c (Within-Permᴰ n q w) (λ m lt. Among-Permᴰ m q (all m lt)) l)

    -- The same of a launch, of whose threads one writes each cell.
    pub perform-launch_cells :
        IsSet F
        → (schedule : List ℕ → List ℕ) → ((l : List ℕ) → Perm l (schedule l))
        → (body : ℕ → ℕ → Option (List ℕ)) (grid block : ℕ)
        → ((bid tid : ℕ) → bid < grid → tid < block → Safe n (body bid tid))
        → ((m : ℕ)
            → m < n
            → (bid : ℕ) × (tid : ℕ) × (bid < grid) × (tid < block) × Hits (body bid tid) m)
        → (c : List F) → length c ≡ n
        → (launch_cells body grid block >>= (λ cells. perform cell (schedule cells) c)) ≡ some d
    perform-launch_cells F_set schedule fair body grid block safe hits c l =
        let (cells, e, w) = launch_cells-Safe n body grid block safe in
        rw (e) (
          perform-launch F_set cells (schedule cells) c w
            (λ m lt.
              let (bid, tid, lg, lk, hit) = hits m lt in
              let (cells', e', a') = launch_cells-Hits n body grid block safe m bid tid lg lk hit in
              let same : cells' ≡ cells = some-injective cells' cells (sym e' ∙ e) in
              subst (Among m) same a')
            l (fair cells))

  pub perform-append :
      (cell : ℕ → List F → Option (List F)) (xs ys : List ℕ) (c : List F)
      → perform cell (xs ++ ys) c ≡ (perform cell xs c >>= (λ c'. perform cell ys c'))
  unfolding perform
  perform-append cell [] ys c = refl
  perform-append cell (x ∷ xs) ys c =
      elim (cell x c)
        as (λ o.
          (o >>= (λ c'. perform cell (xs ++ ys) c'))
          ≡ ((o >>= (λ c'. perform cell xs c')) >>= (λ c'. perform cell ys c'))) [
            | none ↦ refl
            | some c' ↦ perform-append cell xs ys c'
          ]

pub upto-append : (a b i : ℕ) → upto (a + b) i ≡ upto a i ++ upto b (i + a)
upto-append zero b i =
    let e : 0 + b ≡ b = omega arith in let e' : i ≡ i + 0 = omega arith in ap₂ upto e e'
upto-append (suc a) b i =
    let e : suc a + b ≡ suc (a + b) = omega arith in
    let e' : suc i + a ≡ i + suc a = omega arith in
    ap (λ q. upto q i) e
    ∙ ap (◌∷◌ i) (upto-append a b (suc i) ∙ ap (λ q. upto a (suc i) ++ upto b q) e')

-- The values of `f` from `i` on, in a list.
module _ {F : Type 0} (f : ℕ → F) where
  get_elem?-map_from : (k i m : ℕ) → m < k → get_elem? (map f (upto k i)) m ≡ some (f (i + m))
  get_elem?-map_from zero i m h = absurd (omega arith)
  get_elem?-map_from (suc k) i zero h =
      let e : i + 0 ≡ i = omega arith in ap (λ q. some (f q)) (sym e)
  get_elem?-map_from (suc k) i (suc m) h =
      let e : suc i + m ≡ i + suc m = omega arith in
      get_elem?-map_from k (suc i) m (omega arith) ∙ ap (λ q. some (f q)) e

  pub length-map-upto : (k i : ℕ) → length (map f (upto k i)) ≡ k
  length-map-upto zero i = refl
  length-map-upto (suc k) i = ap suc (length-map-upto k (suc i))

  pub get_elem?-map-upto : (k m : ℕ) → m < k → get_elem? (map f (upto k 0)) m ≡ some (f m)
  get_elem?-map-upto k m h =
      let e : 0 + m ≡ m = omega arith in get_elem?-map_from k 0 m h ∙ ap (λ q. some (f q)) e

  pub get_or-map-upto : (k m : ℕ) (d : F) → m < k → get_or (map f (upto k 0)) m d ≡ f m
  get_or-map-upto k m d h = some-injective _ _ (
      sym (get_elem?-eq-get_or (map f (upto k 0)) m d (omega (arith, length-map-upto k 0)))
      ∙ get_elem?-map-upto k m h)
