-- ===== src/Sort/Overrun.antt =====
-- The last comparison of OpenMP/b_sort.c and OpenMP/oe_sort.c.
use cuda_open_mp.Common.{
  ℕ, zero, suc, ◌+◌, ◌*◌, ◌≤◌, ◌<◌, ◌≡◌, ◌≢◌, refl, ◌∙◌, false, none, some, List, [], ◌∷◌, arith,
  lt→ltb, ◌==◌, length, length-set, get_or, get_elem?, get_elem?-eq-get_or, set,
}
use cuda_open_mp.Sort.{exchange, exchanges, checked_exchange, sweep, b_sort, oe_sort}

pub length-exchange : (i : ℕ) (x : List ℕ) → length (exchange i x) ≡ length x
unfolding exchange
length-exchange i x =
    let b = get_or x (i + 1) 0 in
    let a = get_or x i 0 in ground (arith, length-set (set x i b) (i + 1) a, length-set x i b)

get_elem?-end {ℓ} : {A : Type ℓ} (x : List A) (i : ℕ) → length x ≤ i → get_elem? x i ≡ none
get_elem?-end [] i h = refl
get_elem?-end (a ∷ x) zero h = absurd (omega arith)
get_elem?-end (a ∷ x) (suc i) h = get_elem?-end x i (omega arith)

checked_exchange-end : (i : ℕ) (x : List ℕ) → length x ≤ i + 1 → checked_exchange i x ≡ none
unfolding checked_exchange
checked_exchange-end i x h = rw (get_elem?-end x (i + 1) h, checked_exchange)

checked_exchange-inside :
    (i : ℕ) (x : List ℕ)
    → i + 1 < length x
    → checked_exchange i x ≡ some (exchange i x, exchanges i x)
unfolding checked_exchange
checked_exchange-inside i x h = rw (get_elem?-eq-get_or x (i + 1) 0 h, checked_exchange)

-- A sweep that is to visit the last index reads behind the array.
sweep-end :
    (k f by i n : ℕ) (x : List ℕ) (changes : ℕ)
    → 0 < by
    → length x ≡ n
    → i + k * by + 1 ≡ n
    → k < f
    → sweep f by i n x changes ≡ none
unfolding sweep
sweep-end k zero by i n x changes p l e h = absurd (omega arith)
sweep-end zero (suc f) by i n x changes p l e h =
    rw (lt→ltb i n (omega arith), checked_exchange-end i x (omega arith))
sweep-end (suc k) (suc f) by i n x changes p l e h =
    let inside : i + 1 < length x = omega arith in
    rw (lt→ltb i n (omega arith), checked_exchange-inside i x inside)
      (sweep-end k f by (i + by) n (exchange i x) (changes + exchanges i x) p
        (length-exchange i x ∙ l) (omega arith) (omega arith))

-- On an array of its own length, b_sort.c reads behind the end of the array in its first sweep,
-- whatever the values.
pub b_sort-overrun : (f : ℕ) (x : List ℕ) → x ≢ [] → b_sort (suc f) (length x) x ≡ none
unfolding b_sort
b_sort-overrun f [] h = absurd (h refl)
b_sort-overrun f (a ∷ x) h = rw (
  sweep-end (length x) (suc (length (a ∷ x))) 1 0 (length (a ∷ x)) (a ∷ x) 0 (omega arith) refl
      (omega arith) (omega arith),
  b_sort,
)

-- A sweep over the pairs of an array of even length stays inside it.
record Swept (f i n : ℕ) (x : List ℕ) (changes : ℕ) : Type 0 where
  array : List ℕ
  count : ℕ
  returns : sweep f 2 i n x changes ≡ some (array, count)
  size : length array ≡ n
  grows : changes ≤ count

sweep-pairs :
    (k f i n : ℕ) (x : List ℕ) (changes : ℕ)
    → length x ≡ n
    → i + 2 * k ≡ n
    → k < f
    → Swept f i n x changes
unfolding sweep
sweep-pairs k zero i n x changes l e h = absurd (omega arith)
sweep-pairs zero (suc f) i n x changes l e h = record {
  array = x;
  count = changes;
  returns = ground arith;
  size = l;
  grows = omega arith;
}
sweep-pairs (suc k) (suc f) i n x changes l e h =
    let inside : i + 1 < length x = omega arith in
    let more =
      sweep-pairs k f (i + 2) n (exchange i x) (changes + exchanges i x) (length-exchange i x ∙ l)
        (omega arith) (omega arith) in
    record {
      array = more.array;
      count = more.count;
      returns = rw (lt→ltb i n (omega arith), checked_exchange-inside i x inside) more.returns;
      size = more.size;
      grows = omega (arith, more.grows);
    }

-- One round of a sweep inside the array.
sweep-round :
    (f by i n : ℕ) (x : List ℕ) (changes : ℕ)
    → i < n
    → i + 1 < length x
    → sweep (suc f) by i n x changes
      ≡ sweep f by (i + by) n (exchange i x) (changes + exchanges i x)
unfolding sweep
sweep-round f by i n x changes h inside = rw (lt→ltb i n h, checked_exchange-inside i x inside) refl

exchanges-inverted : (a b : ℕ) (x : List ℕ) → b < a → exchanges 0 (a ∷ b ∷ x) ≡ 1
unfolding exchanges
exchanges-inverted a b x h = rw (lt→ltb b a h) refl

-- The first sweep, where its first pair is exchanged.
first_sweep :
    (k a b : ℕ) (x : List ℕ)
    → length (a ∷ b ∷ x) ≡ 2 + 2 * k
    → b < a
    → (r : List ℕ × ℕ) × (sweep (suc (2 + 2 * k)) 2 0 (2 + 2 * k) (a ∷ b ∷ x) 0 ≡ some r)
      × (length r.0 ≡ 2 + 2 * k)
      × (1 ≤ r.1)
first_sweep k a b x l h =
    let one : 0 + exchanges 0 (a ∷ b ∷ x) ≡ 1 = omega (arith, exchanges-inverted a b x h) in
    let more =
      sweep-pairs k (2 + 2 * k) (0 + 2) (2 + 2 * k) (exchange 0 (a ∷ b ∷ x))
        (0 + exchanges 0 (a ∷ b ∷ x)) (length-exchange 0 (a ∷ b ∷ x) ∙ l) (omega arith)
        (omega arith) in
    let round = sweep-round (2 + 2 * k) 2 0 (2 + 2 * k) (a ∷ b ∷ x) 0 (omega arith) (omega arith) in
    ((more.array, more.count), round ∙ more.returns, more.size, omega (arith, more.grows, one))

-- On an array of even length whose first pair stands in the wrong order, as in `main`, oe_sort.c
-- reads behind the end of the array in its second sweep.
pub oe_sort-overrun :
    (f k a b : ℕ) (x : List ℕ)
    → length (a ∷ b ∷ x) ≡ 2 + 2 * k
    → b < a
    → oe_sort (suc (suc f)) 0 (2 + 2 * k) (a ∷ b ∷ x) ≡ none
unfolding oe_sort
oe_sort-overrun f k a b x l h =
    let (r, first, size, changed) = first_sweep k a b x l h in
    let goes : (r.1 == 0) ≡ false = ground arith in
    rw (
      first,
      oe_sort,
      goes,
      sweep-end k (suc (2 + 2 * k)) 2 1 (2 + 2 * k) r.0 0 (omega arith) size (omega arith)
          (omega arith),
    )
