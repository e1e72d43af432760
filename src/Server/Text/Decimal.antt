-- ===== src/Server/Text/Decimal.antt =====
-- `%d` of `sprintf` and `atoi` on numbers that are not negative.
use cuda_open_mp.Common.{
  ℕ, zero, suc, ◌+◌, ◌-◌, ◌*◌, ◌/◌, ◌%◌, ◌^◌, ◌≤◌, ◌<◌, ◌≡◌, refl, Bool, ◌&&◌, List, [], ◌∷◌, ◌++◌,
  arith, leb, ltb, lt→ltb, ◌⊎◌, ◌∙◌, if◌then◌else◌, length,
}
use cuda_open_mp.Server.Text.{is_space}

-- The digits of `n` before `acc`. The fuel is above `n`, so it does not run out.
unfoldable pub digits_onto : ℕ → ℕ → List ℕ → List ℕ
digits_onto zero n acc = acc
digits_onto (suc f) n acc =
    let more = digits_onto f (n / 10) ((b'0' + n % 10) ∷ acc) in
    if ltb n 10 then (b'0' + n) ∷ acc else more

-- `sprintf("%d", n)`
unfoldable pub decimal : ℕ → List ℕ
unfolding digits_onto
decimal n = digits_onto (suc n) n []

-- The least number that is no `int`.
abbrev pub int_end : ℕ
int_end = 2 ^ 31

-- `sprintf("%d", n)` of a number that an `int` was set to: it keeps the lower 32 bits, of which the
-- upper half stands for the negative numbers.
unfoldable pub int_decimal : ℕ → List ℕ
int_decimal n =
    let low = n % 2 ^ 32 in if ltb low int_end then decimal low else b'-' ∷ decimal (2 ^ 32 - low)

-- 10 to the power `k`.
abbrev pub tens : ℕ → ℕ
tens zero = 1
tens (suc k) = 10 * tens k

length-digits_onto :
    (k f n : ℕ) (acc : List ℕ)
    → n < tens (suc k)
    → length (digits_onto f n acc) ≤ length acc + suc k
unfolding digits_onto
length-digits_onto k zero n acc h = omega arith
length-digits_onto zero (suc f) n acc h = rw (lt→ltb n 10 h) (omega arith)
length-digits_onto (suc k) (suc f) n acc h =
    ground (arith, length-digits_onto k f (n / 10) ((b'0' + n % 10) ∷ acc))

-- A number below 10 to the power `k + 1` has at most `k + 1` digits.
pub length-decimal : (k n : ℕ) → n < tens (suc k) → length (decimal n) ≤ suc k
unfolding decimal
length-decimal k n h = omega (arith, length-digits_onto k (suc n) n [] h)

-- An `int` has at most ten digits and a sign.
pub length-int_decimal : (n : ℕ) → length (int_decimal n) ≤ 11
unfolding int_decimal
length-int_decimal n =
    let low = n % 2 ^ 32 in ground (arith, length-decimal 9 low, length-decimal 9 (2 ^ 32 - low))

pub int_decimal-decimal : (n : ℕ) → n < int_end → int_decimal n ≡ decimal n
unfolding int_decimal
int_decimal-decimal n h =
    let same : n % 2 ^ 32 ≡ n = omega arith in rw (same, lt→ltb n int_end h) refl

unfoldable pub is_digit : ℕ → Bool
is_digit c = leb b'0' c && leb c b'9'

-- The digits at the front, read onto `n`; reading ends at the first other byte.
unfoldable pub digits_value : ℕ → List ℕ → ℕ
unfolding is_digit
digits_value n [] = n
digits_value n (c ∷ s) =
    let more = digits_value (10 * n + (c - b'0')) s in if is_digit c then more else n

-- `atoi` of a text with no sign: spaces are skipped.
unfoldable pub atoi : List ℕ → ℕ
unfolding digits_value is_space
atoi [] = 0
atoi (c ∷ s) = if is_space c then atoi s else digits_value 0 (c ∷ s)

digits_onto-append :
    (f n : ℕ) (acc rest : List ℕ) → digits_onto f n acc ++ rest ≡ digits_onto f n (acc ++ rest)
unfolding digits_onto
digits_onto-append zero n acc rest = refl
digits_onto-append (suc f) n acc rest =
    ground (arith, digits_onto-append f (n / 10) ((b'0' + n % 10) ∷ acc) rest)

digits_value-digits_onto :
    (f n : ℕ) (acc : List ℕ) → n < f → digits_value 0 (digits_onto f n acc) ≡ digits_value n acc
unfolding digits_onto digits_value
digits_value-digits_onto zero n acc h = absurd (omega arith)
digits_value-digits_onto (suc f) n acc h =
    ground (arith, digits_value-digits_onto f (n / 10) ((b'0' + n % 10) ∷ acc))

abbrev StartsWithDigit : List ℕ → Type 0
StartsWithDigit [] = ⊥
StartsWithDigit (c ∷ s) = (48 ≤ c) × (c ≤ 57)

digits_onto-StartsWithDigit :
    (f n : ℕ) (acc : List ℕ) → n < f → StartsWithDigit (digits_onto f n acc)
unfolding digits_onto
digits_onto-StartsWithDigit zero n acc h = absurd (omega arith)
digits_onto-StartsWithDigit (suc f) n acc h =
    ground (arith, digits_onto-StartsWithDigit f (n / 10) ((b'0' + n % 10) ∷ acc))

atoi-eq : (s : List ℕ) → StartsWithDigit s → atoi s ≡ digits_value 0 s
unfolding atoi
atoi-eq [] h = absurd h
atoi-eq (c ∷ s) h = ground arith

-- The text after a number in which reading ends.
abbrev EndsNumber : List ℕ → Type 0
EndsNumber [] = Unit {0}
EndsNumber (c ∷ s) = (c < 48) ⊎ (57 < c)

digits_value-EndsNumber : (n : ℕ) (s : List ℕ) → EndsNumber s → digits_value n s ≡ n
unfolding digits_value
digits_value-EndsNumber n [] h = refl
digits_value-EndsNumber n (c ∷ s) h = ground arith

-- `atoi` reads back what `%d` prints, before any text that does not go on with a digit.
pub atoi-decimal : (n : ℕ) (rest : List ℕ) → EndsNumber rest → atoi (decimal n ++ rest) ≡ n
unfolding decimal
atoi-decimal n rest h = rw (digits_onto-append (suc n) n [] rest) (
    atoi-eq _ (digits_onto-StartsWithDigit (suc n) n rest (omega arith))
    ∙ digits_value-digits_onto (suc n) n rest (omega arith)
    ∙ digits_value-EndsNumber n rest h)
