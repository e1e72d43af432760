-- ===== src/Cuda/MatMul/Modulo.antt =====
-- The integers modulo 2, as Boolean values, as an exact arithmetic for the matrix products.
use cuda_open_mp.Common.{◌≡◌, refl, Bool, true, false}

abbrev pub differ : Bool → Bool → Bool
differ true true = false
differ true false = true
differ false true = true
differ false false = false

abbrev pub both : Bool → Bool → Bool
both true y = y
both false y = false

pub differ_twice : (t p : Bool) → differ t (differ false p) ≡ differ t p
differ_twice true true = refl
differ_twice true false = refl
differ_twice false true = refl
differ_twice false false = refl

pub differ_error : (t p : Bool) → differ (differ (differ t p) t) (differ false p) ≡ false
differ_error true true = refl
differ_error true false = refl
differ_error false true = refl
differ_error false false = refl
