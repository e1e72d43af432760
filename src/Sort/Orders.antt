-- ===== src/Sort/Orders.antt =====
-- The rounds of a loop of OpenMP/poe_sort.c, in any order.
use mathlib.Core.List.{Perm, Permᴰ}
use mathlib.Core.List.Permᴰ.{cons, nil, swap, trans}
use mathlib.Core.HLevel.{hedberg}
use mathlib.Core.Logic.{∥∥₁_elim}
use mathlib.Core.List as List
use cuda_open_mp.Common.{
  ℕ, zero, suc, ◌+◌, ◌-◌, ◌*◌, ◌≡◌, ◌≢◌, refl, sym, ap, ◌∙◌, List, [], ◌∷◌, arith, ltb,
  if◌then◌else◌, length, get_or, set, get_or-set_ne, set-set_ne, ap₂, inl, inr, Bool-cases,
  ℕ_discrete,
}
use cuda_open_mp.Sort.{exchange, exchanges, phase}
use cuda_open_mp.Sort.Overrun.{length-exchange}

-- Rounds run one after the other in the order of a list of their indices.
unfoldable pub run_rounds : List ℕ → List ℕ → List ℕ
run_rounds [] x = x
run_rounds (i ∷ is) x = run_rounds is (exchange i x)

-- Indices of one loop: `start`, `start + 2`, ...
abbrev pub InLoop : ℕ → List ℕ → Type 0
InLoop start [] = Unit {0}
InLoop start (i ∷ is) = ((k : ℕ) × (i ≡ start + 2 * k)) × InLoop start is

get_or-exchange :
    (x : List ℕ) (i k : ℕ) → k ≢ i → k ≢ i + 1 → get_or (exchange i x) k 0 ≡ get_or x k 0
unfolding exchange
get_or-exchange x i k h h' =
    let b = get_or x (i + 1) 0 in
    let a = get_or x i 0 in
    ground (arith, get_or-set_ne (set x i b) (i + 1) k a 0, get_or-set_ne x i k b 0)

-- Two rounds that share no index may be swapped.
pair_write : ℕ → ℕ → ℕ → List ℕ → List ℕ
pair_write i a b x = set (set x i a) (i + 1) b

pair_write_comm :
    (i j a b c d : ℕ) (x : List ℕ)
    → i ≢ j
    → i ≢ j + 1
    → j ≢ i + 1
    → pair_write j c d (pair_write i a b x) ≡ pair_write i a b (pair_write j c d x)
unfolding pair_write
pair_write_comm i j a b c d x ne ne' ne'' =
    ap (λ t. set t (j + 1) d) (set-set_ne (set x i a) (i + 1) j b c (λ e. ne'' (sym e)))
    ∙ set-set_ne (set (set x i a) j c) (i + 1) (j + 1) b d (λ e. ne (omega arith))
    ∙ ap (λ t. set (set t (j + 1) d) (i + 1) b) (set-set_ne x i j a c ne)
    ∙ ap (λ t. set t (i + 1) b) (set-set_ne (set x j c) i (j + 1) a d ne')

-- A round is a write of its two cells, in order.
exchange-pair_write :
    (i : ℕ) (x : List ℕ)
    → exchange i x ≡ (
        if ltb (get_or x (i + 1) 0) (get_or x i 0)
        then pair_write i (get_or x (i + 1) 0) (get_or x i 0) x
        else x)
unfolding exchange pair_write
exchange-pair_write i x = refl

exchange_comm :
    (i j : ℕ) (x : List ℕ)
    → i ≢ j
    → i ≢ j + 1
    → j ≢ i + 1
    → exchange j (exchange i x) ≡ exchange i (exchange j x)
exchange_comm i j x ne ne' ne'' =
    let a = get_or x (i + 1) 0 in
    let b = get_or x i 0 in
    let c = get_or x (j + 1) 0 in
    let d = get_or x j 0 in
    rw
      (
        exchange-pair_write j (exchange i x),
        exchange-pair_write i (exchange j x),
        get_or-exchange x i j (λ e. ne (sym e)) ne'',
        get_or-exchange x i (j + 1) (λ e. ne' (sym e)) (λ e. ne (omega arith)),
        get_or-exchange x j i ne ne',
        get_or-exchange x j (i + 1) (λ e. ne'' (sym e)) (λ e. ne (omega arith)),
        exchange-pair_write i x,
        exchange-pair_write j x,
      )
      (ground (arith, pair_write_comm i j a b c d x ne ne' ne''))

-- Different rounds of one loop share no index.
exchange_comm-InLoop :
    (i j k l start : ℕ) (x : List ℕ)
    → i ≡ start + 2 * k
    → j ≡ start + 2 * l
    → exchange j (exchange i x) ≡ exchange i (exchange j x)
exchange_comm-InLoop i j k l start x e e' = elim (ℕ_discrete i j) [
  | yes same ↦ ap₂ (λ p q. exchange p (exchange q x)) (sym same) same
  | no ne ↦ exchange_comm i j x ne (λ h. absurd (omega arith)) (λ h. absurd (omega arith))
]

InLoop-Permᴰ : (start : ℕ) {is js : List ℕ} → Permᴰ is js → InLoop start is → InLoop start js
InLoop-Permᴰ start nil h = h
InLoop-Permᴰ start (cons e d) ((k, i), h) = ((k, sym e ∙ i), InLoop-Permᴰ start d h)
InLoop-Permᴰ start (swap e e') ((k, i), ((l, j), h)) = ((l, sym e' ∙ j), ((k, sym e ∙ i), h))
InLoop-Permᴰ start (trans d d') h = InLoop-Permᴰ start d' (InLoop-Permᴰ start d h)

run_rounds-Permᴰ :
    (start : ℕ) {is js : List ℕ}
    → Permᴰ is js
    → InLoop start is
    → (x : List ℕ) → run_rounds is x ≡ run_rounds js x
unfolding run_rounds
run_rounds-Permᴰ start nil h x = refl
run_rounds-Permᴰ start (cons {a} {l₂ = js} e d) ((k, i), h) x =
    run_rounds-Permᴰ start d h (exchange a x) ∙ ap (λ t. run_rounds js (exchange t x)) e
run_rounds-Permᴰ start (swap {a} {b} {l = is} e e') ((k, i), ((l, j), h)) x =
    ap (run_rounds is)
      (exchange_comm-InLoop a b k l start x i j ∙ ap₂ (λ p q. exchange p (exchange q x)) e e')
run_rounds-Permᴰ start (trans d d') h x =
    run_rounds-Permᴰ start d h x ∙ run_rounds-Permᴰ start d' (InLoop-Permᴰ start d h) x

-- The indices of `for (i = start; i < n - 1; i = i + 2)`.
unfoldable pub indices : ℕ → ℕ → ℕ → List ℕ
indices zero i n = []
indices (suc f) i n = let more = indices f (i + 2) n in if ltb i (n - 1) then i ∷ more else []

indices-InLoop : (f i n start k : ℕ) → i ≡ start + 2 * k → InLoop start (indices f i n)
unfolding indices
indices-InLoop zero i n start k e = tt
indices-InLoop (suc f) i n start k e = elim (Bool-cases (ltb i (n - 1))) [
  | inl below ↦ rw below ((k, e), indices-InLoop f (i + 2) n start (suc k) (omega arith))
  | inr not_below ↦ rw not_below tt
]

phase-run_rounds :
    (f i : ℕ) (x : List ℕ) (changes : ℕ)
    → (phase f i x changes).0 ≡ run_rounds (indices f i (length x)) x
unfolding phase run_rounds indices
phase-run_rounds zero i x changes = refl
phase-run_rounds (suc f) i x changes =
    let more : (phase f (i + 2) (exchange i x) (changes + exchanges i x)).0
        ≡ run_rounds (indices f (i + 2) (length x)) (exchange i x) =
      phase-run_rounds f (i + 2) (exchange i x) (changes + exchanges i x)
      ∙ ap (λ n. run_rounds (indices f (i + 2) n) (exchange i x)) (length-exchange i x) in
    elim (Bool-cases (ltb i (length x - 1))) [
      | inl below ↦ rw below more
      | inr not_below ↦ rw not_below refl
    ]

-- The rounds of a loop of the parallel region, in any order, give the array that they give in the
-- order of their indices.
pub phase-Perm :
    (start : ℕ) (x order : List ℕ)
    → Perm (indices (length x) start (length x)) order
    → run_rounds order x ≡ (phase (length x) start x 0).0
phase-Perm start x order p = ∥∥₁_elim p (List.is_set (hedberg ℕ_discrete) _ _) (λ d. sym (
    phase-run_rounds (length x) start x 0
    ∙ run_rounds-Permᴰ start d (indices-InLoop (length x) start (length x) start 0 (omega arith))
        x))
