-- ===== src/Cuda/Launch/Blocks.antt =====
-- Blocks of a launch that make the writes of several cells, one block after the other in some order.
use mathlib.Core.List as List
use mathlib.Core.Option as Option
use mathlib.Core.Logic.{∥∥₁_elim, ∥∥₁_map₂}
use cuda_open_mp.Common.{
  ℕ, ◌/◌, ◌<◌, ◌≡◌, inl, inr, refl, sym, ap, ◌∙◌, fun_ext, Option, some, ◌++◌, List, [], ◌∷◌,
  length, get_elem?, set, Among, ◌>>=◌, map,
}
use cuda_open_mp.Cuda.Launch.Cells.{Within, Within-append, Among-append_left, Among-append_right}
use cuda_open_mp.Cuda.Launch.Writes.{perform, perform-some, perform-all, perform-append}

pub Within-map :
    (n k : ℕ) (f : ℕ → ℕ) (l : List ℕ)
    → ((i : ℕ) → i < k → f i < n)
    → Within k l
    → Within n (map f l)
Within-map n k f [] h w = tt
Within-map n k f (i ∷ l) h (lt, w) = (h i lt, Within-map n k f l h w)

pub Among-map : (m : ℕ) (f : ℕ → ℕ) (l : List ℕ) → Among m l → Among (f m) (map f l)
Among-map m f [] a = absurd a
Among-map m f (i ∷ l) (inl e) = inl (ap f e)
Among-map m f (i ∷ l) (inr a) = inr (Among-map m f l a)

module _ {F : Type 0} where
  -- Performing `other` with the cells of a list is performing `cell` with the cells renamed.
  pub perform-map :
      (k : ℕ) (cell other : ℕ → List F → Option (List F)) (f : ℕ → ℕ)
      → ((i : ℕ) (c : List F) → i < k → other i c ≡ cell (f i) c)
      → (l : List ℕ) (c : List F) → Within k l
      → perform other l c ≡ perform cell (map f l) c
  unfolding perform
  perform-map k cell other f h [] c w = refl
  perform-map k cell other f h (i ∷ l) c (lt, w) =
      rw (h i c lt)
        (ap (λ g. cell (f i) c >>= g) (fun_ext (λ c'. perform-map k cell other f h l c' w)))

  -- A list of cells below `n` such that `block` makes the writes of these, in their order; all cells
  -- whose block satisfies `Mine` are among them.
  abbrev pub Makes :
      ℕ → ℕ → (ℕ → List F → Option (List F)) → (ℕ → Type 0) → (List F → Option (List F)) → Type 0
  Makes n width cell Mine block =
      (l : List ℕ) × Within n l
      × ((m : ℕ) → m < n → Mine (m / width) → Among m l)
      × ((c : List F) → length c ≡ n → block c ≡ perform cell l c)

  module _ (n width : ℕ) (cell : ℕ → List F → Option (List F)) (d : List F) (ld : length d ≡ n)
      (writes : (i : ℕ) (c : List F)
        → i < n
        → length c ≡ n
        → (v : F) × (get_elem? d i ≡ some v) × (cell i c ≡ some (set c i v)))
      (g : ℕ) (block : ℕ → List F → Option (List F))
      (makes : (row : ℕ) → row < g → ∥ Makes n width cell (λ q. q ≡ row) (block row) ∥₁) where
    one_more :
        (row : ℕ) (order : List ℕ)
        → Makes n width cell (λ q. q ≡ row) (block row)
        → Makes n width cell (λ q. Among q order) (perform block order)
        → Makes n width cell (λ q. Among q (row ∷ order)) (perform block (row ∷ order))
    unfolding perform
    one_more row order (l, w, a, e) (l', w', a', e') = (
      l ++ l',
      Within-append n l l' w w',
      (λ m lt mine. elim mine [
        | inl same ↦ Among-append_left m l l' (a m lt same)
        | inr later ↦ Among-append_right m l l' (a' m lt later)
      ]),
      λ c lc.
          let (r, er, lr) = perform-some n cell d ld writes l c w lc in
          rw (e c lc, er, e' r lr) (sym (perform-append cell l l' c ∙ rw (er) refl)),
    )

    perform-Makes :
        (order : List ℕ)
        → Within g order
        → ∥ Makes n width cell (λ q. Among q order) (perform block order) ∥₁
    unfolding perform
    perform-Makes [] w = ∣ ([], tt, (λ m lt a. a), (λ c lc. refl)) ∣₁
    perform-Makes (row ∷ order) (lt, w) =
        ∥∥₁_map₂ (makes row lt) (perform-Makes order w) (one_more row order)

    -- Blocks that reach every cell between them leave the values, whatever their order and that of
    -- the writes of each.
    pub perform-blocks :
        IsSet F
        → (order : List ℕ) (c : List F) → Within g order
        → ((m : ℕ) → m < n → Among (m / width) order)
        → length c ≡ n
        → perform block order c ≡ some d
    perform-blocks F_set order c w all lc =
        ∥∥₁_elim (perform-Makes order w) (Option.is_set (List.is_set F_set) _ _) (λ (l, wl, al, e).
          e c lc ∙ perform-all n cell d ld writes l c wl (λ m lt. al m lt (all m lt)) lc)
