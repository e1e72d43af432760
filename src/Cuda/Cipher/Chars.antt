-- ===== src/Cuda/Cipher/Chars.antt =====
-- The alphabet of cipher_breaker.cu of CUDA_sample/test, and its keys by their numbers.
use cuda_open_mp.Common.{ℕ, ◌+◌, ◌*◌, ◌%◌, ◌≤◌, ◌<◌, ◌≡◌, ◌⊎◌, inl, inr, List, [], ◌∷◌, arith}
use cuda_open_mp.Cuda.Cipher.{get_a_char, get_a_val}

-- A letter in lower case or a digit.
abbrev pub InAlphabet : ℕ → Type 0
InAlphabet c = ((97 ≤ c) × (c ≤ 122)) ⊎ ((48 ≤ c) × (c ≤ 57))

pub get_a_val-lt : (c : ℕ) → get_a_val c < 36
unfolding get_a_val
get_a_val-lt c = ground arith

pub get_a_val-get_a_char : (v : ℕ) → get_a_val (get_a_char v) ≡ v % 36
unfolding get_a_val get_a_char
get_a_val-get_a_char v = ground arith

pub get_a_char-get_a_val : (c : ℕ) → InAlphabet c → get_a_char (get_a_val c) ≡ c
unfolding get_a_val get_a_char
get_a_char-get_a_val c (inl h) = ground arith
get_a_char-get_a_val c (inr h) = ground arith

-- The number of a key, from its characters.
abbrev pub key_number : List ℕ → ℕ → ℕ
key_number [] n = n
key_number (c ∷ k) n = key_number k (n * 36 + get_a_val c)
