-- ===== src/Sort/Pairs.antt =====
-- The two loops of the parallel region of OpenMP/poe_sort.c, as an exchange within each pair of
-- neighbours.
use cuda_open_mp.Common.{
  ℕ, zero, suc, ◌+◌, ◌-◌, ◌≤◌, ◌<◌, ◌≡◌, refl, ap, ap₂, Bool-cases, inl, inr, lt→ltb, ◌∙◌, List, [],
  ◌∷◌, ◌++◌, arith, ltb, if◌then◌else◌, length, length-append, append_assoc,
}
use cuda_open_mp.Sort.{exchange, exchanges, phase, region}

-- The pairs (0, 1), (2, 3), ... put in order, and the number of those that were not.
unfoldable pub pairs : List ℕ → List ℕ × ℕ
pairs [] = ([], 0)
pairs (a ∷ []) = (a ∷ [], 0)
pairs (a ∷ b ∷ x) = let (y, c) = pairs x in if ltb b a then (b ∷ a ∷ y, c + 1) else (a ∷ b ∷ y, c)

-- The pairs (1, 2), (3, 4), ...
unfoldable pub odd_pairs : List ℕ → List ℕ × ℕ
odd_pairs [] = ([], 0)
odd_pairs (a ∷ x) = let (y, c) = pairs x in (a ∷ y, c)

exchange-cons : (p i : ℕ) (x : List ℕ) → exchange (suc i) (p ∷ x) ≡ p ∷ exchange i x
unfolding exchange
exchange-cons p i x = let e : suc i + 1 ≡ suc (i + 1) = omega arith in rw e (ground arith)

exchanges-cons : (p i : ℕ) (x : List ℕ) → exchanges (suc i) (p ∷ x) ≡ exchanges i x
unfolding exchanges
exchanges-cons p i x = let e : suc i + 1 ≡ suc (i + 1) = omega arith in rw e refl

exchange-append :
    (pre : List ℕ) (a b : ℕ) (x : List ℕ)
    → exchange (length pre) (pre ++ (a ∷ b ∷ x)) ≡ pre ++ (if ltb b a then b ∷ a ∷ x else a ∷ b ∷ x)
unfolding exchange
exchange-append [] a b x = ground arith
exchange-append (p ∷ pre) a b x =
    exchange-cons p (length pre) (pre ++ (a ∷ b ∷ x)) ∙ ap (◌∷◌ p) (exchange-append pre a b x)

exchanges-append :
    (pre : List ℕ) (a b : ℕ) (x : List ℕ)
    → exchanges (length pre) (pre ++ (a ∷ b ∷ x)) ≡ (if ltb b a then 1 else 0)
unfolding exchanges
exchanges-append [] a b x = ground arith
exchanges-append (p ∷ pre) a b x =
    exchanges-cons p (length pre) (pre ++ (a ∷ b ∷ x)) ∙ exchanges-append pre a b x

-- One round of a loop whose index has come to a pair `a`, `b`, which becomes `p`, `q`.
phase-round :
    (pre x : List ℕ) (a b p q k f c : ℕ)
    → exchange (length pre) (pre ++ (a ∷ b ∷ x)) ≡ pre ++ (p ∷ q ∷ x)
    → exchanges (length pre) (pre ++ (a ∷ b ∷ x)) ≡ k
    → phase (suc f) (length pre) (pre ++ (a ∷ b ∷ x)) c
      ≡ phase f (length (pre ++ (p ∷ q ∷ []))) ((pre ++ (p ∷ q ∷ [])) ++ x) (c + k)
unfolding phase
phase-round pre x a b p q k f c e n =
    let below : length pre < length (pre ++ (a ∷ b ∷ x)) - 1 =
      omega (arith, length-append pre (a ∷ b ∷ x)) in
    let moved : length (pre ++ (p ∷ q ∷ [])) ≡ length pre + 2 =
      omega (arith, length-append pre (p ∷ q ∷ [])) in
    rw (lt→ltb _ _ below, e, n, moved, append_assoc pre (p ∷ q ∷ []) x)

-- A loop of the region, started behind `pre`.
phase-pairs :
    (x pre : List ℕ) (f c : ℕ)
    → length x ≤ f
    → phase f (length pre) (pre ++ x) c ≡ (pre ++ (pairs x).0, c + (pairs x).1)
unfolding phase pairs
phase-pairs [] pre zero c h = ground arith
phase-pairs [] pre (suc f) c h = ground (arith, length-append {0} pre [])
phase-pairs (a ∷ []) pre zero c h = absurd (omega arith)
phase-pairs (a ∷ []) pre (suc f) c h = ground (arith, length-append {0} pre (a ∷ []))
phase-pairs (a ∷ b ∷ x) pre zero c h = absurd (omega arith)
phase-pairs (a ∷ b ∷ x) pre (suc f) c h = elim (Bool-cases (ltb b a)) [
  | inl less ↦ rw less (
      phase-round pre x a b b a 1 f c
        (exchange-append pre a b x ∙ ap (λ t. pre ++ (if t then b ∷ a ∷ x else a ∷ b ∷ x)) less)
        (exchanges-append pre a b x ∙ ap (λ t. if t then 1 else 0) less)
      ∙ phase-pairs x (pre ++ (b ∷ a ∷ [])) f (c + 1) (omega arith)
      ∙ ap₂ (λ l n. (l, n)) (append_assoc pre (b ∷ a ∷ []) (pairs x).0) (omega arith))
  | inr more ↦ rw more (
      phase-round pre x a b a b 0 f c
        (exchange-append pre a b x ∙ ap (λ t. pre ++ (if t then b ∷ a ∷ x else a ∷ b ∷ x)) more)
        (exchanges-append pre a b x ∙ ap (λ t. if t then 1 else 0) more)
      ∙ phase-pairs x (pre ++ (a ∷ b ∷ [])) f (c + 0) (omega arith)
      ∙ ap₂ (λ l n. (l, n)) (append_assoc pre (a ∷ b ∷ []) (pairs x).0) (omega arith))
]

phase-nil : (f c : ℕ) → phase f 1 [] c ≡ ([], c)
unfolding phase
phase-nil zero c = refl
phase-nil (suc f) c = refl

phase-odd_pairs :
    (f : ℕ) (x : List ℕ) (c : ℕ)
    → length x ≤ f
    → phase f 1 x c ≡ ((odd_pairs x).0, c + (odd_pairs x).1)
unfolding odd_pairs
phase-odd_pairs f [] c h = phase-nil f c ∙ ap (λ n. ([], n)) (omega arith)
phase-odd_pairs f (a ∷ x) c h = phase-pairs x (a ∷ []) f c (omega arith)

length-pairs : (x : List ℕ) → length (pairs x).0 ≡ length x
unfolding pairs
length-pairs [] = refl
length-pairs (a ∷ []) = refl
length-pairs (a ∷ b ∷ x) = ground (arith, length-pairs x)

-- The parallel region exchanges within the even pairs, then within the odd pairs, and counts.
pub region-pairs :
    (x : List ℕ) → region x ≡ ((odd_pairs (pairs x).0).0, (pairs x).1 + (odd_pairs (pairs x).0).1)
unfolding region
region-pairs x = rw (phase-pairs x [] (length x) 0 (omega arith)) (
    phase-odd_pairs (length x) (pairs x).0 (0 + (pairs x).1) (omega (arith, length-pairs x))
    ∙ ap₂ (λ l n. (l, n)) refl (omega arith))
