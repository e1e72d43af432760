-- ===== src/Common/Orders.antt =====
-- Rounds of a parallel loop, run one after the other in some order.
use mathlib.Core.List.{Perm, Permᴰ}
use mathlib.Core.List.Permᴰ.{cons, nil, swap, trans}
use mathlib.Core.Logic.{∥∥₁_elim}
use mathlib.Core.Path.{◌≡◌, refl, ap, ap₂, ◌∙◌}
use mathlib.Core.List.{List, [], ◌∷◌}
use Prim.Native.Nat.{ℕ}

module _ {S : Type 0} (round : ℕ → S → S) where
  unfoldable pub run_in : List ℕ → S → S
  run_in [] s = s
  run_in (i ∷ is) s = run_in is (round i s)

  module _ (round_comm : (i j : ℕ) (s : S) → round j (round i s) ≡ round i (round j s)) where
    run_in-Permᴰ : {is js : List ℕ} → Permᴰ is js → (s : S) → run_in is s ≡ run_in js s
    unfolding run_in
    run_in-Permᴰ nil s = refl
    run_in-Permᴰ (cons {a} {b} {l₂ = js} e d) s =
        run_in-Permᴰ d (round a s) ∙ ap (λ t. run_in js (round t s)) e
    run_in-Permᴰ (swap {a} {b} {l = is} e e') s =
        ap (run_in is) (round_comm a b s ∙ ap₂ (λ p q. round p (round q s)) e e')
    run_in-Permᴰ (trans d d') s = run_in-Permᴰ d s ∙ run_in-Permᴰ d' s

    -- Rounds of which any two may be swapped give the same in any order.
    pub run_in-Perm : IsSet S → {is js : List ℕ} → Perm is js → (s : S) → run_in is s ≡ run_in js s
    run_in-Perm S_set p s = ∥∥₁_elim p (S_set _ _) (λ d. run_in-Permᴰ d s)
