-- ===== src/Shared/Js.antt =====
-- JavaScript's numbers as the code tests them: the finite ones in hundredths, and the other three.
use mathlib.Core.Bool.{Bool, true, false}
use transaction_service.Shared.Int.{ℤ, pos, ltb_ℤ}
use Prim.Native.Nat.{zero}

pub data Number : Type 0 where
  finite : ℤ → Number
  nan infinity neg_infinity : Number

-- `a < b`. Every comparison with NaN is false.
abbrev pub num_lt : Number → Number → Bool
num_lt (finite a) (finite b) = ltb_ℤ a b
num_lt (finite _) infinity = true
num_lt neg_infinity (finite _) = true
num_lt neg_infinity infinity = true
num_lt _ _ = false

-- `Number.isFinite(a)`
abbrev pub is_finite : Number → Bool
is_finite (finite _) = true
is_finite _ = false

-- `a || b`: zero and NaN are falsy.
abbrev pub num_or : Number → Number → Number
num_or (finite (pos zero)) d = d
num_or nan d = d
num_or a _ = a
