-- ===== src/Cuda/Cipher.antt =====
-- cipher_breaker.cu of CUDA_sample/test: every key of four characters is tried against a ciphertext
-- of twelve. A character is its code. `none` is an index out of range, or the -1 of modInverse.
mod Tests
pub mod Chars
pub mod Pairs
pub mod Plain
pub mod Search
use cuda_open_mp.Common.{
  ℕ, zero, suc, ◌+◌, ◌-◌, ◌*◌, ◌/◌, ◌%◌, ◌^◌, Bool, true, false, ◌&&◌, Option, none, some, List, [],
  ◌∷◌, ltb, leb, ◌==◌, if◌then◌else◌, get_elem?, ◌>>=◌,
}
use cuda_open_mp.Common.Ints.{ℤ, pos, negsuc, pos_part, sub_ℕ, ◌+ℤ◌, ◌*ℤ◌, ◌%ℤ◌}

abbrev pub total_keys : ℕ
total_keys = 1679616

unfoldable pub get_a_char : ℕ → ℕ
get_a_char v = let v' = (v % 36 + 36) % 36 in if ltb v' 26 then 97 + v' else 48 + (v' - 26)

unfoldable pub get_a_val : ℕ → ℕ
get_a_val c =
    if leb 97 c && leb c 122 then c - 97 else if leb 48 c && leb c 57 then c - 48 + 26 else 0

-- `k` rounds of the loop of modInverse, from `x` on, for `a` between 0 and m - 1.
unfoldable pub inverse_from : ℕ → ℕ → ℕ → ℕ → Option ℕ
inverse_from zero x a m = none
inverse_from (suc k) x a m =
    let rest = inverse_from k (suc x) a m in if (a * x) % m == 1 then some x else rest

unfoldable pub mod_inverse : ℕ → ℕ → Option ℕ
mod_inverse a m = inverse_from (m - 1) 1 ((a % m + m) % m) m

-- k1[0], k1[1], k1[2] and k1[3].
unfoldable pub key_of : ℕ → List ℕ
key_of idx =
    get_a_char (idx / 36 / 36 / 36 % 36)
    ∷ get_a_char (idx / 36 / 36 % 36)
    ∷ get_a_char (idx / 36 % 36)
    ∷ get_a_char (idx % 36)
    ∷ []

unfoldable pub val_sum : List ℕ → ℕ
val_sum [] = 0
val_sum (c ∷ k1) = get_a_val c + val_sum k1

-- A 2 by 2 matrix of `int`.
pub record Square : Type 0 where
  m00 : ℤ
  m01 : ℤ
  m10 : ℤ
  m11 : ℤ

abbrev pub square : ℕ → ℕ → ℕ → ℕ → Square
square a b c d = record { m00 = pos a; m01 = pos b; m10 = pos c; m11 = pos d }

abbrev pub hill : List Square
hill =
    square 1 2 3 5
    ∷ square 5 6 17 3
    ∷ square 3 5 1 2
    ∷ square 7 8 11 11
    ∷ square 5 4 3 7
    ∷ square 9 4 5 7
    ∷ []

abbrev pub negated : ℤ → ℤ
negated a = negsuc 0 *ℤ a

-- `(mat[0][0] * mat[1][1] - mat[0][1] * mat[1][0]) % 36`, and 36 added if it is negative.
unfoldable pub determinant : Square → ℤ
determinant m = ((m.m00 *ℤ m.m11 +ℤ negated (m.m01 *ℤ m.m10)) %ℤ 36 +ℤ pos 36) %ℤ 36

unfoldable pub inverse_matrix : Square → ℤ → Square
inverse_matrix m det_inv = record {
  m00 = (m.m11 *ℤ det_inv) %ℤ 36;
  m01 = (negated m.m01 *ℤ det_inv) %ℤ 36;
  m10 = (negated m.m10 *ℤ det_inv) %ℤ 36;
  m11 = (m.m00 *ℤ det_inv) %ℤ 36;
}

-- `none` is a key whose matrix has no inverse, so its thread returns.
unfoldable pub inverse_of : ℕ → Option Square
inverse_of m_val = do
  mat ← get_elem? hill m_val
  det_inv ← mod_inverse (pos_part (determinant mat)) 36
  some (inverse_matrix mat (pos det_inv))

-- A row of the matrix times a pair of values, made positive.
unfoldable pub hill_row : ℤ → ℤ → ℕ → ℕ → ℕ
hill_row a b c_val1 c_val2 = pos_part (((a *ℤ pos c_val1 +ℤ b *ℤ pos c_val2) %ℤ 36 +ℤ pos 36) %ℤ 36)

-- The plain character of a value behind the matrix and of a character of the key; both values are
-- below 36, so the sum of the source is not negative.
unfoldable pub unshift : ℕ → ℕ → ℕ
unshift p_hill k = get_a_char ((p_hill + 36 - get_a_val k) % 36)

-- `k` rounds of the loop that decrypts pairs, from `i` on; the characters it writes.
unfoldable pub decrypt_from : ℕ → ℕ → Square → List ℕ → List ℕ → Option (List ℕ)
decrypt_from zero i inv_mat k1 c1_str = some []
decrypt_from (suc k) i inv_mat k1 c1_str = do
  c1 ← get_elem? c1_str i
  c2 ← get_elem? c1_str (i + 1)
  ka ← get_elem? k1 (i % 4)
  kb ← get_elem? k1 ((i + 1) % 4)
  rest ← decrypt_from k (i + 2) inv_mat k1 c1_str
  some (
      unshift (hill_row inv_mat.m00 inv_mat.m01 (get_a_val c1) (get_a_val c2)) ka
      ∷ unshift (hill_row inv_mat.m10 inv_mat.m11 (get_a_val c1) (get_a_val c2)) kb
      ∷ rest)

-- `k` rounds of `c1_str[i] = d_c2[11 - i]`, from `i` on.
unfoldable pub flip_from : ℕ → ℕ → List ℕ → Option (List ℕ)
flip_from zero i d_c2 = some []
flip_from (suc k) i d_c2 = do
  c ← get_elem? d_c2 (11 - i)
  rest ← flip_from k (suc i) d_c2
  some (c ∷ rest)

-- The plaintext that thread `idx` computes with the inverse of its matrix.
unfoldable pub plaintext_of : ℕ → Square → List ℕ → Option (List ℕ)
plaintext_of idx inv_mat d_c2 = do
  c1_str ← flip_from 12 0 d_c2
  decrypt_from 6 0 inv_mat (key_of idx) c1_str

-- The first four characters are "book".
unfoldable pub is_book : List ℕ → Bool
is_book (a ∷ b ∷ c ∷ d ∷ rest) = (a == 98) && (b == 111) && (c == 111) && (d == 107)
is_book _ = false

-- The memory of the device that the threads write: d_found, d_result_key and d_result_pt.
pub record Found : Type 0 where
  found : ℕ
  result_key : List ℕ
  result_pt : List ℕ

-- The end of a thread. The writes behind atomicExch are taken with it, as only the thread that
-- finds 0 in d_found makes them.
unfoldable pub report : ℕ → List ℕ → Found → Found
report idx plaintext s =
    if is_book plaintext
    then (if s.found == 0
        then record { found = 1; result_key = key_of idx; result_pt = plaintext }
        else record s { found = 1 })
    else s

-- A thread of bruteForceCipher.
unfoldable pub brute_force : List ℕ → ℕ → Found → Option Found
brute_force d_c2 idx s = elim (ltb idx total_keys) [
  | false ↦ some s
  | true ↦ elim (inverse_of (val_sum (key_of idx) % 6)) [
    | none ↦ some s
    | some inv_mat ↦ plaintext_of idx inv_mat d_c2 >>= (λ plaintext. some (report idx plaintext s))
  ]
]

-- The threads of a launch, by their numbers, one after the other.
unfoldable pub brute_force_all : List ℕ → List ℕ → Found → Option Found
brute_force_all d_c2 [] s = some s
brute_force_all d_c2 (idx ∷ order) s = do s' ← brute_force d_c2 idx s; brute_force_all d_c2 order s'
