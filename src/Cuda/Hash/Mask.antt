-- ===== src/Cuda/Hash/Mask.antt =====
-- The mask of k ones is the remainder by 2 ^ k, as k_hash_kernel uses it for MEM_SIZE.
use Prim.Native.Nat.{bit_and, min, digits, bit_and-bitwise}
use native.Mathlib.Nat.{mod-add-div', add-mul-mod_self_right, mod-eq_of_lt, mod-lt, zero-mod}
use cuda_open_mp.Common.{
  ℕ, zero, suc, ◌+◌, ◌-◌, ◌*◌, ◌/◌, ◌%◌, ◌^◌, ◌≤◌, ◌<◌, ◌≡◌, sym, ap, ◌∙◌, arith,
}

two_pow : (k : ℕ) → 2 ^ suc k ≡ 2 * 2 ^ k
two_pow k = ground arith

pub pow_positive : (k : ℕ) → 0 < 2 ^ k
pow_positive zero = omega arith
pow_positive (suc k) = omega (arith, two_pow k, pow_positive k)

split_digit : (a d r p : ℕ) → r + d * p ≡ a / 2 → a ≡ (r * 2 + a % 2) + d * (2 * p)
split_digit a d r p h = ground (arith, h)

-- The remainder by a power of 2, from its lowest digit on.
remainder_digit : (a k : ℕ) → a % 2 ^ suc k ≡ (a / 2) % 2 ^ k * 2 + a % 2
remainder_digit a k =
    let r = (a / 2) % 2 ^ k in
    let d = (a / 2) / 2 ^ k in
    let low : r < 2 ^ k = mod-lt (a / 2) (pow_positive k) in
    ap (λ q. a % q) (two_pow k)
    ∙ ap (λ q. q % (2 * 2 ^ k)) (split_digit a d r (2 ^ k) (mod-add-div' (a / 2) (2 ^ k)))
    ∙ add-mul-mod_self_right (r * 2 + a % 2) d (2 * 2 ^ k)
    ∙ mod-eq_of_lt (omega (arith, low))

mask_half : (k : ℕ) → (2 ^ suc k - 1) / 2 ≡ 2 ^ k - 1
mask_half k = omega (arith, two_pow k, pow_positive k)

mask_odd : (k : ℕ) → (2 ^ suc k - 1) % 2 ≡ 1
mask_odd k = omega (arith, two_pow k, pow_positive k)

mask_digits : (n k a : ℕ) → a ≤ n → digits (λ b. zero) min n a (2 ^ k - 1) ≡ a % 2 ^ k
mask_digits zero k zero h = sym (zero-mod (2 ^ k))
mask_digits zero k (suc a) h = absurd (omega arith)
mask_digits (suc n) k zero h = sym (zero-mod (2 ^ k))
mask_digits (suc n) zero (suc a) h = omega (arith, mask_digits n zero (suc a / 2) (omega arith))
mask_digits (suc n) (suc k) (suc a) h =
    rw
      (
        mask_half k,
        mask_odd k,
        mask_digits n k (suc a / 2) (omega arith),
        remainder_digit (suc a) k,
      )
      (omega arith)

pub bit_and-mask : (a k : ℕ) → bit_and a (2 ^ k - 1) ≡ a % 2 ^ k
bit_and-mask a k = bit_and-bitwise a (2 ^ k - 1) ∙ mask_digits a k a (omega arith)
