-- ===== src/Sort/Rounds.antt =====
-- The rounds of `while (changes)` in OpenMP/poe_sort.c.
use cuda_open_mp.Common.{
  ℕ_discrete, subst, ℕ, zero, suc, ◌+◌, ◌*◌, ◌≤◌, ◌<◌, ◌≡◌, refl, sym, ap, ◌∙◌, some, List, [], ◌∷◌,
  arith, ltb, ◌==◌, if◌then◌else◌, length,
}
use cuda_open_mp.Sort.{region, poe_sort}
use cuda_open_mp.Sort.Pairs.{pairs, odd_pairs, region-pairs}

abbrev pub IsSorted : List ℕ → Type 0
IsSorted [] = Unit {0}
IsSorted (a ∷ []) = Unit {0}
IsSorted (a ∷ b ∷ x) = (a ≤ b) × IsSorted (b ∷ x)

-- How often a value occurs.
unfoldable pub occurrences : ℕ → List ℕ → ℕ
occurrences v [] = 0
occurrences v (a ∷ x) = (if a == v then 1 else 0) + occurrences v x

-- The elements below `a`, and the pairs that stand in the wrong order.
fewer : ℕ → List ℕ → ℕ
fewer a [] = 0
fewer a (b ∷ x) = (if ltb b a then 1 else 0) + fewer a x

unfoldable pub inversions : List ℕ → ℕ
unfolding fewer
inversions [] = 0
inversions (a ∷ x) = fewer a x + inversions x

fewer-le : (a : ℕ) (x : List ℕ) → fewer a x ≤ length x
unfolding fewer
fewer-le a [] = omega arith
fewer-le a (b ∷ x) = ground (arith, fewer-le a x)

pub inversions-le : (x : List ℕ) → inversions x ≤ length x * length x
unfolding inversions
inversions-le [] = omega arith
inversions-le (a ∷ x) = omega (arith, fewer-le a x, inversions-le x)

occurrences-pairs : (v : ℕ) (x : List ℕ) → occurrences v (pairs x).0 ≡ occurrences v x
unfolding occurrences pairs
occurrences-pairs v [] = refl
occurrences-pairs v (a ∷ []) = refl
occurrences-pairs v (a ∷ b ∷ x) = ground (arith, occurrences-pairs v x)

fewer-pairs : (v : ℕ) (x : List ℕ) → fewer v (pairs x).0 ≡ fewer v x
unfolding fewer pairs
fewer-pairs v [] = refl
fewer-pairs v (a ∷ []) = refl
fewer-pairs v (a ∷ b ∷ x) = ground (arith, fewer-pairs v x)

inversions-pairs : (x : List ℕ) → inversions (pairs x).0 + (pairs x).1 ≡ inversions x
unfolding inversions pairs
inversions-pairs [] = refl
inversions-pairs (a ∷ []) = refl
inversions-pairs (a ∷ b ∷ x) = ground (arith, inversions-pairs x, fewer-pairs a x, fewer-pairs b x)

inversions-odd_pairs : (x : List ℕ) → inversions (odd_pairs x).0 + (odd_pairs x).1 ≡ inversions x
unfolding inversions odd_pairs
inversions-odd_pairs [] = refl
inversions-odd_pairs (a ∷ x) = omega (arith, inversions-pairs x, fewer-pairs a x)

occurrences-odd_pairs : (v : ℕ) (x : List ℕ) → occurrences v (odd_pairs x).0 ≡ occurrences v x
unfolding occurrences odd_pairs
occurrences-odd_pairs v [] = refl
occurrences-odd_pairs v (a ∷ x) = ground (arith, occurrences-pairs v x)

-- The pairs (0, 1), (2, 3), ... are in order; those from the second element on.
abbrev EvenOrdered : List ℕ → Type 0
EvenOrdered [] = Unit {0}
EvenOrdered (a ∷ []) = Unit {0}
EvenOrdered (a ∷ b ∷ x) = (a ≤ b) × EvenOrdered x

abbrev OddOrdered : List ℕ → Type 0
OddOrdered [] = Unit {0}
OddOrdered (a ∷ x) = EvenOrdered x

IsSorted-of_ordered : (x : List ℕ) → EvenOrdered x → OddOrdered x → IsSorted x
IsSorted-of_ordered [] h k = tt
IsSorted-of_ordered (a ∷ []) h k = tt
IsSorted-of_ordered (a ∷ b ∷ []) h k = (h.0, tt)
IsSorted-of_ordered (a ∷ b ∷ c ∷ x) h k = (h.0, IsSorted-of_ordered (b ∷ c ∷ x) k h.1)

pairs-unchanged : (x : List ℕ) → (pairs x).1 ≡ 0 → ((pairs x).0 ≡ x) × EvenOrdered x
unfolding pairs
pairs-unchanged [] h = (refl, tt)
pairs-unchanged (a ∷ []) h = (refl, tt)
pairs-unchanged (a ∷ b ∷ x) h = ground (arith, pairs-unchanged x)

odd_pairs-unchanged : (x : List ℕ) → (odd_pairs x).1 ≡ 0 → ((odd_pairs x).0 ≡ x) × OddOrdered x
unfolding odd_pairs
odd_pairs-unchanged [] h = (refl, tt)
odd_pairs-unchanged (a ∷ x) h =
    let (same, ordered) = pairs-unchanged x h in (ap (◌∷◌ a) same, ordered)

-- What the parallel region does to an array.
record Improves (x y : List ℕ) (changes : ℕ) : Type 0 where
  fewer_left : inversions y + changes ≡ inversions x
  same_items : (v : ℕ) → occurrences v y ≡ occurrences v x
  sorted : changes ≡ 0 → IsSorted y

region-Improves : (x : List ℕ) → Improves x (region x).0 (region x).1
region-Improves x =
    let y = (pairs x).0 in
    rw (region-pairs x) (record {
      fewer_left = omega (arith, inversions-pairs x, inversions-odd_pairs y);
      same_items = λ v. occurrences-odd_pairs v y ∙ occurrences-pairs v x;
      sorted = λ none_changed.
          let (same, even) = pairs-unchanged x (omega arith) in
          let (same', odd) = odd_pairs-unchanged y (omega arith) in
          subst IsSorted (sym same')
            (IsSorted-of_ordered y (subst EvenOrdered (sym same) even) odd);
    })

sort_loop :
    (f : ℕ) (x : List ℕ)
    → inversions x < f
    → (y : List ℕ) × (poe_sort f x ≡ some y)
      × IsSorted y
      × ((v : ℕ) → occurrences v y ≡ occurrences v x)
unfolding poe_sort
sort_loop zero x h = absurd (omega arith)
sort_loop (suc f) x h =
    let im = region-Improves x in
    let y = (region x).0 in
    elim (ℕ_discrete (region x).1 0) [
      | yes none_changed ↦ (y, rw none_changed, im.sorted none_changed, im.same_items)
      | no changed ↦
          let (z, runs, sorted, same) = sort_loop f y (omega (arith, im.fewer_left)) in
          (z, ground (arith, changed, runs), sorted, λ v. same v ∙ im.same_items v)
    ]

-- poe_sort.c, run barrier by barrier with no count of `changes` lost, ends on every array within one
-- round more than the square of its length, and leaves it sorted, with the same values as often.
pub poe_sort_lem :
    (f : ℕ) (x : List ℕ)
    → length x * length x < f
    → (y : List ℕ) × (poe_sort f x ≡ some y)
      × IsSorted y
      × ((v : ℕ) → occurrences v y ≡ occurrences v x)
poe_sort_lem f x h = sort_loop f x (omega (arith, inversions-le x))
