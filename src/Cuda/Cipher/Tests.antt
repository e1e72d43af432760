-- ===== src/Cuda/Cipher/Tests.antt =====
-- The search of cipher_breaker.cu of CUDA_sample/test at the ciphertext of its main.
use cuda_open_mp.Common.{
  ℕ, zero, suc, ◌+◌, ◌-◌, ◌*◌, ◌%◌, ◌<◌, ◌≡◌, ◌⊎◌, inl, refl, some, List, [], ◌∷◌, arith, length,
  get_or, Among,
}
use cuda_open_mp.Common.Ints.{pos, negsuc}
use cuda_open_mp.Cuda.Cipher.{
  get_a_char, get_a_val, key_of, val_sum, inverse_from, mod_inverse, Square, square, determinant,
  inverse_matrix, inverse_of, plaintext_of, Found, brute_force_all,
}
use cuda_open_mp.Cuda.Cipher.Chars.{InAlphabet}
use cuda_open_mp.Cuda.Cipher.Pairs.{encrypt_pair}
use cuda_open_mp.Cuda.Cipher.Plain.{plaintext_of-encrypts}
use cuda_open_mp.Cuda.Cipher.Search.{Hits, Recorded, brute_force_all_sound}

-- "ryryrxwyxtxr".
abbrev c2_input : List ℕ
c2_input = 114 ∷ 121 ∷ 114 ∷ 121 ∷ 114 ∷ 120 ∷ 119 ∷ 121 ∷ 120 ∷ 116 ∷ 120 ∷ 114 ∷ []

letters : (i : ℕ) → i < 12 → InAlphabet (get_or c2_input i 0)
letters zero h = inl (omega arith, omega arith)
letters (suc zero) h = inl (omega arith, omega arith)
letters (suc (suc zero)) h = inl (omega arith, omega arith)
letters (suc (suc (suc zero))) h = inl (omega arith, omega arith)
letters (suc (suc (suc (suc zero)))) h = inl (omega arith, omega arith)
letters (suc (suc (suc (suc (suc zero))))) h = inl (omega arith, omega arith)
letters (suc (suc (suc (suc (suc (suc zero)))))) h = inl (omega arith, omega arith)
letters (suc (suc (suc (suc (suc (suc (suc zero))))))) h = inl (omega arith, omega arith)
letters (suc (suc (suc (suc (suc (suc (suc (suc zero)))))))) h = inl (omega arith, omega arith)
letters (suc (suc (suc (suc (suc (suc (suc (suc (suc zero))))))))) h =
    inl (omega arith, omega arith)
letters (suc (suc (suc (suc (suc (suc (suc (suc (suc (suc zero)))))))))) h =
    inl (omega arith, omega arith)
letters (suc (suc (suc (suc (suc (suc (suc (suc (suc (suc (suc zero))))))))))) h =
    inl (omega arith, omega arith)
letters (suc (suc (suc (suc (suc (suc (suc (suc (suc (suc (suc (suc i)))))))))))) h =
    absurd (omega arith)

-- The key "iy7g" and the plaintext "bookysgu61hj".
key_of-iy7g : key_of 405546 ≡ 105 ∷ 121 ∷ 55 ∷ 103 ∷ []
unfolding key_of get_a_char
key_of-iy7g = refl

abbrev its_inverse : Square
its_inverse = record { m00 = pos 1; m01 = negsuc 15; m10 = negsuc 10; m11 = pos 27 }

inverse_of-iy7g : inverse_of (val_sum (key_of 405546) % 6) ≡ some its_inverse
unfolding key_of get_a_char get_a_val val_sum inverse_of mod_inverse inverse_from determinant
    inverse_matrix
inverse_of-iy7g = refl

abbrev nothing : Found
nothing = record { found = 0; result_key = []; result_pt = [] }

abbrev stale : Found
stale = record { found = 7; result_key = []; result_pt = [] }

brute_force_all_sound_example :
    (r : Found) × (brute_force_all c2_input (0 ∷ 405546 ∷ []) nothing ≡ some r)
    × (((r.found ≡ 0)
          × ((idx : ℕ) (pt : List ℕ) → Among idx (0 ∷ 405546 ∷ []) → Hits c2_input idx pt → ⊥))
        ⊎ Recorded c2_input (0 ∷ 405546 ∷ []) r)
brute_force_all_sound_example = brute_force_all_sound c2_input (0 ∷ 405546 ∷ []) nothing refl refl

plaintext_of-encrypts_example :
    (pt : List ℕ) × (plaintext_of 405546 its_inverse c2_input ≡ some pt)
    × (length pt ≡ 12)
    × ((m : ℕ)
        → m < 6
        → encrypt_pair
            (square 9 4 5 7)
            (get_or (key_of 405546) (m * 2 % 4) 0)
            (get_or (key_of 405546) ((m * 2 + 1) % 4) 0)
            (get_or pt (m * 2) 0)
            (get_or pt (m * 2 + 1) 0)
          ≡ (get_or c2_input (11 - m * 2) 0, get_or c2_input (11 - (m * 2 + 1)) 0))
unfolding key_of get_a_char get_a_val val_sum
plaintext_of-encrypts_example =
    plaintext_of-encrypts 405546 (square 9 4 5 7) its_inverse c2_input refl inverse_of-iy7g refl
      letters
