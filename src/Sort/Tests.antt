-- ===== src/Sort/Tests.antt =====
-- Tests and witnesses for the sorting programs.
use mathlib.Core.List.{Perm}
use mathlib.Core.List.Perm as Perm
use cuda_open_mp.Common.{ℕ, ◌≡◌, refl, some, List, [], ◌∷◌, arith}
use cuda_open_mp.Sort.{exchange, exchanges, descending, phase, region, poe_sort}
use cuda_open_mp.Sort.Rounds.{IsSorted, occurrences, poe_sort_lem}
use cuda_open_mp.Sort.Orders.{run_rounds, indices, phase-Perm}

poe_sort-descending : poe_sort 6 (descending 5 5) ≡ some (1 ∷ 2 ∷ 3 ∷ 4 ∷ 5 ∷ [])
unfolding poe_sort region phase exchange exchanges
poe_sort-descending = refl

phase_counts : phase 4 0 (descending 4 4) 0 ≡ (3 ∷ 4 ∷ 1 ∷ 2 ∷ [], 2)
unfolding phase exchange exchanges
phase_counts = refl

poe_sort_lem_example :
    (y : List ℕ) × (poe_sort 26 (descending 5 5) ≡ some y)
    × IsSorted y
    × ((v : ℕ) → occurrences v y ≡ occurrences v (descending 5 5))
poe_sort_lem_example = poe_sort_lem 26 (descending 5 5) (omega arith)

-- The round at 2 before the round at 0.
two_rounds : Perm (indices 4 0 4) (2 ∷ 0 ∷ [])
unfolding indices
two_rounds = Perm.swap 2 0 []

phase-Perm_example : run_rounds (2 ∷ 0 ∷ []) (descending 4 4) ≡ (phase 4 0 (descending 4 4) 0).0
phase-Perm_example = phase-Perm 0 (descending 4 4) (2 ∷ 0 ∷ []) two_rounds
