-- ===== src/Cuda/Cipher/Pairs.antt =====
-- The pairs that bruteForceCipher decrypts, against the encryption of a pair.
use cuda_open_mp.Common.{
  ℕ, zero, suc, ◌+◌, ◌-◌, ◌%◌, ◌<◌, ◌≡◌, refl, sym, ◌∙◌, Bool, true, false, ◌&&◌, none, some, arith,
  ltb, ◌==◌, get_elem?,
}
use cuda_open_mp.Cuda.Cipher.{
  get_a_char, get_a_val, inverse_from, mod_inverse, Square, hill, determinant, inverse_matrix,
  inverse_of, hill_row, unshift,
}
use cuda_open_mp.Cuda.Cipher.Chars.{
  InAlphabet, get_a_val-lt, get_a_val-get_a_char, get_a_char-get_a_val,
}

-- The independent description: the encryption of a pair of characters.
shift : ℕ → ℕ → ℕ
shift p k = (get_a_val p + get_a_val k) % 36

pub encrypt_pair : Square → ℕ → ℕ → ℕ → ℕ → ℕ × ℕ
encrypt_pair mat ka kb p q = (
  get_a_char (hill_row mat.m00 mat.m01 (shift p ka) (shift q kb)),
  get_a_char (hill_row mat.m10 mat.m11 (shift p ka) (shift q kb)),
)

-- A test that holds of all numbers below a bound.
all_below : ℕ → (ℕ → Bool) → Bool
all_below zero test = true
all_below (suc n) test = all_below n test && test n

all_below-true : (n m : ℕ) (test : ℕ → Bool) → all_below n test ≡ true → m < n → test m ≡ true
unfolding all_below
all_below-true zero m test h lt = absurd (omega arith)
all_below-true (suc n) m test h lt = ground (arith, all_below-true n m test)

-- The matrix brings back the values that its inverse was applied to.
restored : Square → Square → ℕ → ℕ → Bool
restored mat inv a b =
    let p = hill_row inv.m00 inv.m01 a b in
    let q = hill_row inv.m10 inv.m11 a b in
    ltb p 36
    && ltb q 36
    && (hill_row mat.m00 mat.m01 p q == a)
    && (hill_row mat.m10 mat.m11 p q == b)

brings_back : ℕ → ℕ → ℕ → Bool
brings_back m a b = elim (inverse_of m) [
  | none ↦ true
  | some inv ↦ elim (get_elem? hill m) [ none ↦ false | some mat ↦ restored mat inv a b ]
]

brings_back-all :
    all_below 6 (λ m. all_below 36 (λ a. all_below 36 (λ b. brings_back m a b))) ≡ true
unfolding all_below brings_back restored inverse_of mod_inverse inverse_from determinant
    inverse_matrix hill_row
brings_back-all = refl

shift-unshift : (p k : ℕ) → p < 36 → shift (unshift p k) k ≡ p
unfolding shift unshift
shift-unshift p k h =
    rw (get_a_val-get_a_char ((p + 36 - get_a_val k) % 36)) (ground (arith, get_a_val-lt k))

brings_back-restored :
    (m a b : ℕ) (mat inv : Square)
    → get_elem? hill m ≡ some mat
    → inverse_of m ≡ some inv
    → brings_back m a b ≡ restored mat inv a b
unfolding brings_back
brings_back-restored m a b mat inv em ei = rw (ei, em, brings_back) refl

inverse-brings_back :
    (m a b : ℕ) (mat inv : Square)
    → get_elem? hill m ≡ some mat
    → inverse_of m ≡ some inv
    → m < 6
    → a < 36
    → b < 36
    → (hill_row inv.m00 inv.m01 a b < 36)
      × (hill_row inv.m10 inv.m11 a b < 36)
      × (hill_row mat.m00 mat.m01 (hill_row inv.m00 inv.m01 a b) (hill_row inv.m10 inv.m11 a b) ≡ a)
      × (hill_row mat.m10 mat.m11 (hill_row inv.m00 inv.m01 a b) (hill_row inv.m10 inv.m11 a b) ≡ b)
unfolding restored
inverse-brings_back m a b mat inv em ei lm la lb =
    let row =
      all_below-true 6 m (λ m. all_below 36 (λ a. all_below 36 (λ b. brings_back m a b)))
        brings_back-all lm in
    let column = all_below-true 36 a (λ a. all_below 36 (λ b. brings_back m a b)) row la in
    let cell : brings_back m a b ≡ true = all_below-true 36 b (λ b. brings_back m a b) column lb in
    let same : restored mat inv a b ≡ true =
      sym (brings_back-restored m a b mat inv em ei) ∙ cell in
    (ground arith, ground arith, ground arith, ground arith)

-- What a pair is decrypted to is encrypted to that pair again, with the same matrix and the same two
-- characters of the key.
pub encrypt_pair-unshift :
    (m ka kb c1 c2 : ℕ) (mat inv : Square)
    → get_elem? hill m ≡ some mat
    → inverse_of m ≡ some inv
    → m < 6
    → InAlphabet c1
    → InAlphabet c2
    → encrypt_pair mat ka kb
        (unshift (hill_row inv.m00 inv.m01 (get_a_val c1) (get_a_val c2)) ka)
        (unshift (hill_row inv.m10 inv.m11 (get_a_val c1) (get_a_val c2)) kb)
      ≡ (c1, c2)
unfolding encrypt_pair
encrypt_pair-unshift m ka kb c1 c2 mat inv em ei lm in1 in2 =
    let a = get_a_val c1 in
    let b = get_a_val c2 in
    let (lp, lq, ea, eb) =
      inverse-brings_back m a b mat inv em ei lm (get_a_val-lt c1) (get_a_val-lt c2) in
    rw
      (
        shift-unshift (hill_row inv.m00 inv.m01 a b) ka lp,
        shift-unshift (hill_row inv.m10 inv.m11 a b) kb lq,
        ea,
        eb,
        get_a_char-get_a_val c1 in1,
        get_a_char-get_a_val c2 in2,
      )
      refl
