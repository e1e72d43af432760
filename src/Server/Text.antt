-- ===== src/Server/Text.antt =====
-- C strings as lists of bytes: the bytes before the terminating NUL.
pub mod Decimal
use Prim.Native.Char.{code}
use Prim.Native.String
use Prim.Native.String.{String}
use cuda_open_mp.Common.{
  ℕ, zero, suc, ◌+◌, ◌/◌, ◌%◌, ◌≡◌, refl, Bool, true, false, ◌||◌, ◌&&◌, List, [], ◌∷◌, leb, ltb,
  ◌==◌, if◌then◌else◌,
}

-- The bytes of an ASCII literal.
abbrev pub codes : String → List ℕ
codes String.[] = []
codes (String.◌∷◌ c s) = code c ∷ codes s

-- `isspace` in the C locale.
unfoldable pub is_space : ℕ → Bool
is_space c = c == 32 || (leb 9 c && leb c 13)

-- `strcmp(s, t) == 0`
unfoldable pub str_eq : List ℕ → List ℕ → Bool
str_eq [] [] = true
str_eq [] (y ∷ ys) = false
str_eq (x ∷ xs) [] = false
str_eq (x ∷ xs) (y ∷ ys) = x == y && str_eq xs ys

abbrev pub is_empty {ℓ} : {A : Type ℓ} → List A → Bool
is_empty [] = true
is_empty (x ∷ xs) = false

-- The last element, `d` if there is none.
abbrev pub last_or : List ℕ → ℕ → ℕ
last_or [] d = d
last_or (x ∷ xs) d = last_or xs x
