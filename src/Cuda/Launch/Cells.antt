-- ===== src/Cuda/Launch/Cells.antt =====
-- The threads of a launch <<<grid, block>>> of CUDA_sample's kernels, and the cells that they write.
use mathlib.Core.List.{Permᴰ}
use mathlib.Core.List.Permᴰ.{cons, nil, swap, trans}
use cuda_open_mp.Common.{
  ℕ, zero, suc, ◌+◌, ◌≤◌, ◌<◌, ◌≡◌, inl, inr, refl, sym, ap, ◌∙◌, subst, Option, some, List, [],
  ◌∷◌, ◌++◌, arith, Among, ℕ_discrete, upto, ltb, Bool-cases, ◌>>=◌,
}

-- What `f 0`, ..., `f (k - 1)` give, one behind the other.
unfoldable pub gather : (ℕ → Option (List ℕ)) → ℕ → Option (List ℕ)
gather f zero = some []
gather f (suc k) = do xs ← gather f k; ys ← f k; some (xs ++ ys)

-- The cells that the threads of a launch write, by block and by thread.
unfoldable pub launch_cells : (ℕ → ℕ → Option (List ℕ)) → ℕ → ℕ → Option (List ℕ)
launch_cells body grid block = gather (λ bid. gather (λ tid. body bid tid) block) grid

-- Every cell is below `n`.
abbrev pub Within : ℕ → List ℕ → Type 0
Within n [] = Unit {0}
Within n (m ∷ l) = (m < n) × Within n l

-- The threads end, and write below `n` only.
abbrev pub Safe : ℕ → Option (List ℕ) → Type 0
Safe n o = (l : List ℕ) × (o ≡ some l) × Within n l

-- The threads end, and one of them writes cell `m`.
abbrev pub Hits : Option (List ℕ) → ℕ → Type 0
Hits o m = (l : List ℕ) × (o ≡ some l) × Among m l

pub Within-append : (n : ℕ) (xs ys : List ℕ) → Within n xs → Within n ys → Within n (xs ++ ys)
Within-append n [] ys hx hy = hy
Within-append n (x ∷ xs) ys (h, hx) hy = (h, Within-append n xs ys hx hy)

pub Among-append_left : (m : ℕ) (xs ys : List ℕ) → Among m xs → Among m (xs ++ ys)
Among-append_left m [] ys a = absurd a
Among-append_left m (x ∷ xs) ys (inl e) = inl e
Among-append_left m (x ∷ xs) ys (inr a) = inr (Among-append_left m xs ys a)

pub Among-append_right : (m : ℕ) (xs ys : List ℕ) → Among m ys → Among m (xs ++ ys)
Among-append_right m [] ys a = a
Among-append_right m (x ∷ xs) ys a = inr (Among-append_right m xs ys a)

gather-Safe :
    (n : ℕ) (f : ℕ → Option (List ℕ)) (k : ℕ)
    → ((i : ℕ) → i < k → Safe n (f i))
    → Safe n (gather f k)
unfolding gather
gather-Safe n f zero h = ([], refl, tt)
gather-Safe n f (suc k) h =
    let (xs, ex, wx) = gather-Safe n f k (λ i lt. h i (omega arith)) in
    let (ys, ey, wy) = h k (omega arith) in
    (xs ++ ys, rw (ex, ey) refl, Within-append n xs ys wx wy)

gather-Hits :
    (n m : ℕ) (f : ℕ → Option (List ℕ)) (k i : ℕ)
    → ((j : ℕ) → j < k → Safe n (f j))
    → i < k
    → Hits (f i) m
    → Hits (gather f k) m
unfolding gather
gather-Hits n m f zero i h lt hit = absurd (omega arith)
gather-Hits n m f (suc k) i h lt (l, e, a) = elim (ℕ_discrete i k) [
  | yes same ↦
      let (xs, ex, wx) = gather-Safe n f k (λ j lt'. h j (omega arith)) in
      let e' : f k ≡ some l = ap f (sym same) ∙ e in
      (xs ++ l, rw (ex, e') refl, Among-append_right m xs l a)
  | no ne ↦
      let (xs, ex, ax) =
        gather-Hits n m f k i (λ j lt'. h j (omega arith)) (omega arith) (l, e, a) in
      let (ys, ey, wy) = h k (omega arith) in
      (xs ++ ys, rw (ex, ey) refl, Among-append_left m xs ys ax)
]

module _ (n : ℕ) (body : ℕ → ℕ → Option (List ℕ)) (grid block : ℕ)
    (safe : (bid tid : ℕ) → bid < grid → tid < block → Safe n (body bid tid)) where
  pub launch_cells-Safe : Safe n (launch_cells body grid block)
  unfolding launch_cells
  launch_cells-Safe =
      gather-Safe n (λ bid. gather (λ tid. body bid tid) block) grid
        (λ bid lt. gather-Safe n (λ tid. body bid tid) block (λ tid lt'. safe bid tid lt lt'))

  pub launch_cells-Hits :
      (m bid tid : ℕ)
      → bid < grid
      → tid < block
      → Hits (body bid tid) m
      → Hits (launch_cells body grid block) m
  unfolding launch_cells
  launch_cells-Hits m bid tid lb lt hit =
      gather-Hits n m (λ b. gather (λ t. body b t) block) grid bid
        (λ b lb'. gather-Safe n (λ t. body b t) block (λ t lt'. safe b t lb' lt')) lb
        (gather-Hits n m (λ t. body bid t) block tid (λ t lt'. safe bid t lb lt') lt hit)

pub upto-Within : (k i : ℕ) → Within (i + k) (upto k i)
upto-Within zero i = tt
upto-Within (suc k) i =
    let e : suc i + k ≡ i + suc k = omega arith in
    (omega arith, subst (λ q. Within q (upto k (suc i))) e (upto-Within k (suc i)))

pub upto-Among : (k i m : ℕ) → i ≤ m → m < i + k → Among m (upto k i)
upto-Among zero i m h h' = absurd (omega arith)
upto-Among (suc k) i m h h' = elim (Bool-cases (ltb i m)) [
  | inl above ↦ inr (upto-Among k (suc i) m (ground arith) (omega arith))
  | inr at ↦ inl (ground arith)
]

pub Within-Permᴰ : (n : ℕ) {xs ys : List ℕ} → Permᴰ xs ys → Within n xs → Within n ys
Within-Permᴰ n nil h = tt
Within-Permᴰ n (cons e d) (h, hs) = (subst (λ q. q < n) e h, Within-Permᴰ n d hs)
Within-Permᴰ n (swap e e') (h, (h', hs)) = (subst (λ q. q < n) e' h', (subst (λ q. q < n) e h, hs))
Within-Permᴰ n (trans d d') h = Within-Permᴰ n d' (Within-Permᴰ n d h)

pub Among-Permᴰ : (m : ℕ) {xs ys : List ℕ} → Permᴰ xs ys → Among m xs → Among m ys
Among-Permᴰ m nil a = a
Among-Permᴰ m (cons e d) (inl q) = inl (q ∙ e)
Among-Permᴰ m (cons e d) (inr a) = inr (Among-Permᴰ m d a)
Among-Permᴰ m (swap e e') (inl q) = inr (inl (q ∙ e))
Among-Permᴰ m (swap e e') (inr (inl q)) = inl (q ∙ e')
Among-Permᴰ m (swap e e') (inr (inr a)) = inr (inr a)
Among-Permᴰ m (trans d d') a = Among-Permᴰ m d' (Among-Permᴰ m d a)
