-- ===== src/Cuda/Cipher/Plain.antt =====
-- The plaintext of a thread of bruteForceCipher as a whole.
use cuda_open_mp.Common.{
  ℕ, zero, suc, ◌+◌, ◌-◌, ◌*◌, ◌%◌, ◌≤◌, ◌<◌, ◌≡◌, refl, sym, ap, ap₂, ◌∙◌, subst, some, List, [],
  ◌∷◌, arith, length, get_elem?, get_or, get_elem?-eq-get_or,
}
use cuda_open_mp.Cuda.Cipher.{
  get_a_val, key_of, Square, val_sum, hill, inverse_of, hill_row, unshift, decrypt_from, flip_from,
  plaintext_of,
}
use cuda_open_mp.Cuda.Cipher.Chars.{InAlphabet}
use cuda_open_mp.Cuda.Cipher.Pairs.{encrypt_pair, encrypt_pair-unshift}

-- Elements in front of a list whose elements are known.
cons-gets :
    (f : ℕ → ℕ) (i k : ℕ) (r : List ℕ)
    → ((m : ℕ) → m < k → get_or r m 0 ≡ f (suc i + m))
    → (m : ℕ) → m < suc k
    → get_or (f i ∷ r) m 0 ≡ f (i + m)
cons-gets f i k r h zero lt = let e : i ≡ i + 0 = omega arith in ap f e
cons-gets f i k r h (suc m) lt =
    let e : suc i + m ≡ i + suc m = omega arith in h m (omega arith) ∙ ap f e

cons-pairs :
    (left right : ℕ → ℕ) (i k : ℕ) (r : List ℕ)
    → ((m : ℕ)
        → m < k
        → (get_or r (m * 2) 0 ≡ left (i + 2 + m * 2))
          × (get_or r (m * 2 + 1) 0 ≡ right (i + 2 + m * 2)))
    → (m : ℕ) → m < suc k
    → (get_or (left i ∷ right i ∷ r) (m * 2) 0 ≡ left (i + m * 2))
      × (get_or (left i ∷ right i ∷ r) (m * 2 + 1) 0 ≡ right (i + m * 2))
cons-pairs left right i k r h zero lt =
    let e : i ≡ i + 0 * 2 = omega arith in (ap left e, ap right e)
cons-pairs left right i k r h (suc m) lt =
    let (l, q) = h m (omega arith) in
    let even : suc m * 2 ≡ suc (suc (m * 2)) = omega arith in
    let odd : suc m * 2 + 1 ≡ suc (suc (m * 2 + 1)) = omega arith in
    let e : i + 2 + m * 2 ≡ i + suc m * 2 = omega arith in
    let all = left i ∷ right i ∷ r in
    (ap (λ j. get_or all j 0) even ∙ l ∙ ap left e, ap (λ j. get_or all j 0) odd ∙ q ∙ ap right e)

flip_from-get :
    (k i : ℕ) (c : List ℕ)
    → length c ≡ 12
    → (r : List ℕ) × (flip_from k i c ≡ some r)
      × (length r ≡ k)
      × ((m : ℕ) → m < k → get_or r m 0 ≡ get_or c (11 - (i + m)) 0)
unfolding flip_from
flip_from-get zero i c h = ([], refl, refl, λ m lt. absurd (omega arith))
flip_from-get (suc k) i c h =
    let (r, e, lr, gets) = flip_from-get k (suc i) c h in
    let x = get_or c (11 - i) 0 in
    (
      x ∷ r,
      rw (get_elem?-eq-get_or c (11 - i) 0 (omega arith), e) refl,
      omega (arith, lr),
      cons-gets (λ m. get_or c (11 - m) 0) i k r gets,
    )

-- The two characters of pair `m`, from `i` on.
module _ (inv : Square) (k1 c1 : List ℕ) where
  abbrev plain_left : ℕ → ℕ
  plain_left i =
      unshift
        (hill_row inv.m00 inv.m01 (get_a_val (get_or c1 i 0)) (get_a_val (get_or c1 (i + 1) 0)))
        (get_or k1 (i % 4) 0)

  abbrev plain_right : ℕ → ℕ
  plain_right i =
      unshift
        (hill_row inv.m10 inv.m11 (get_a_val (get_or c1 i 0)) (get_a_val (get_or c1 (i + 1) 0)))
        (get_or k1 ((i + 1) % 4) 0)

  pub decrypt_from-get :
      (k i : ℕ)
      → i + k * 2 ≤ length c1
      → length k1 ≡ 4
      → (r : List ℕ) × (decrypt_from k i inv k1 c1 ≡ some r)
        × (length r ≡ k * 2)
        × ((m : ℕ)
            → m < k
            → (get_or r (m * 2) 0 ≡ plain_left (i + m * 2))
              × (get_or r (m * 2 + 1) 0 ≡ plain_right (i + m * 2)))
  unfolding decrypt_from
  decrypt_from-get zero i h l = ([], refl, refl, λ m lt. absurd (omega arith))
  decrypt_from-get (suc k) i h l =
      let (r, e, lr, pairs) = decrypt_from-get k (i + 2) (omega arith) l in
      (
        plain_left i ∷ plain_right i ∷ r,
        rw
            (
              get_elem?-eq-get_or c1 i 0 (omega arith),
              get_elem?-eq-get_or c1 (i + 1) 0 (omega arith),
              get_elem?-eq-get_or k1 (i % 4) 0 (omega arith),
              get_elem?-eq-get_or k1 ((i + 1) % 4) 0 (omega arith),
              e,
            )
            refl,
        omega arith,
        cons-pairs plain_left plain_right i k r pairs,
      )

-- On a ciphertext of twelve characters of the alphabet, a thread whose matrix has an inverse ends in
-- range with twelve characters, and each pair of them is encrypted, with the thread's key and
-- matrix, to the pair of the ciphertext read from its end.
pub plaintext_of-encrypts :
    (idx : ℕ) (mat inv : Square) (c2 : List ℕ)
    → get_elem? hill (val_sum (key_of idx) % 6) ≡ some mat
    → inverse_of (val_sum (key_of idx) % 6) ≡ some inv
    → length c2 ≡ 12
    → ((i : ℕ) → i < 12 → InAlphabet (get_or c2 i 0))
    → (pt : List ℕ) × (plaintext_of idx inv c2 ≡ some pt)
      × (length pt ≡ 12)
      × ((m : ℕ)
          → m < 6
          → encrypt_pair mat
              (get_or (key_of idx) (m * 2 % 4) 0)
              (get_or (key_of idx) ((m * 2 + 1) % 4) 0)
              (get_or pt (m * 2) 0)
              (get_or pt (m * 2 + 1) 0)
            ≡ (get_or c2 (11 - m * 2) 0, get_or c2 (11 - (m * 2 + 1)) 0))
unfolding plaintext_of key_of
plaintext_of-encrypts idx mat inv c2 em ei l alphabet =
    let k1 = key_of idx in
    let (c1, ef, l1, flips) = flip_from-get 12 0 c2 l in
    let (pt, ed, lp, pairs) = decrypt_from-get inv k1 c1 6 0 (omega (arith, l1)) refl in
    (
      pt,
      rw (ef) ed,
      lp,
      λ m lt.
          let (left, right) = pairs m lt in
          let at : 0 + m * 2 ≡ m * 2 = omega arith in
          let at' : 0 + (m * 2 + 1) ≡ m * 2 + 1 = omega arith in
          let first : get_or c1 (m * 2) 0 ≡ get_or c2 (11 - m * 2) 0 =
            flips (m * 2) (omega arith) ∙ ap (λ q. get_or c2 (11 - q) 0) at in
          let second : get_or c1 (m * 2 + 1) 0 ≡ get_or c2 (11 - (m * 2 + 1)) 0 =
            flips (m * 2 + 1) (omega arith) ∙ ap (λ q. get_or c2 (11 - q) 0) at' in
          ap₂ (encrypt_pair mat (get_or k1 (m * 2 % 4) 0) (get_or k1 ((m * 2 + 1) % 4) 0))
            (left ∙ ap (plain_left inv k1 c1) at) (right ∙ ap (plain_right inv k1 c1) at)
          ∙ encrypt_pair-unshift (val_sum k1 % 6) (get_or k1 (m * 2 % 4) 0)
              (get_or k1 ((m * 2 + 1) % 4) 0) (get_or c1 (m * 2) 0) (get_or c1 (m * 2 + 1) 0) mat
              inv em ei (omega arith)
              (subst InAlphabet (sym first) (alphabet (11 - m * 2) (omega arith)))
              (subst InAlphabet (sym second) (alphabet (11 - (m * 2 + 1)) (omega arith)))
          ∙ ap₂ (λ x y. (x, y)) first second,
    )

-- On a ciphertext of twelve characters a thread whose matrix has an inverse ends in range.
pub plaintext_of-ends :
    (idx : ℕ) (inv : Square) (c2 : List ℕ)
    → length c2 ≡ 12
    → (pt : List ℕ) × (plaintext_of idx inv c2 ≡ some pt)
unfolding plaintext_of key_of
plaintext_of-ends idx inv c2 l =
    let (c1, ef, l1, flips) = flip_from-get 12 0 c2 l in
    let (pt, ed, lp, pairs) = decrypt_from-get inv (key_of idx) c1 6 0 (omega (arith, l1)) refl in
    (pt, rw (ef) ed)
