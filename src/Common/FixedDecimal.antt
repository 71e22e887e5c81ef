-- ===== src/Common/FixedDecimal.antt =====
-- `%0*d`: numbers in a given number of decimals.
use Prim.Native.Nat.{ℕ, zero, suc, ◌+◌, ◌/◌, ◌%◌, ◌^◌, ◌<◌}
use mathlib.Core.Path.{◌≡◌, refl, ap, ◌∙◌}
use mathlib.Core.Option.{some}
use mathlib.Core.List.{[], ◌∷◌, ◌++◌}
use native.Mathlib.Omega.{arith}
use cantou.Common.Text.{Bytes}
use cantou.Common.Lists.{length, length-append, All, All-append}
use cantou.Common.Decimal.{decimal_from, decimal_from-snoc, IsDigit}

abbrev pub fixed_decimal : ℕ → ℕ → Bytes
fixed_decimal zero x = []
fixed_decimal (suc n) x = fixed_decimal n (x / 10) ++ ((b'0' + x % 10) ∷ [])

pub length-fixed_decimal : (n x : ℕ) → length (fixed_decimal n x) ≡ n
length-fixed_decimal zero x = refl
length-fixed_decimal (suc n) x = omega (
  arith,
  length-fixed_decimal n (x / 10),
  length-append (fixed_decimal n (x / 10)) ((b'0' + x % 10) ∷ []),
)

pub fixed_decimal-IsDigit : (n x : ℕ) → All IsDigit (fixed_decimal n x)
fixed_decimal-IsDigit zero x = tt
fixed_decimal-IsDigit (suc n) x =
    All-append IsDigit (fixed_decimal n (x / 10)) ((b'0' + x % 10) ∷ [])
      (fixed_decimal-IsDigit n (x / 10)) ((omega arith, omega arith), tt)

pub decimal_from-fixed_decimal :
    (n x : ℕ) → x < 10 ^ n → decimal_from 0 (fixed_decimal n x) ≡ some x
unfolding decimal_from
decimal_from-fixed_decimal zero x h = ap some (omega arith)
decimal_from-fixed_decimal (suc n) x h =
    decimal_from-snoc 0 (fixed_decimal n (x / 10)) (x % 10) (x / 10)
      (decimal_from-fixed_decimal n (x / 10) (omega arith)) (omega arith)
    ∙ ap some (omega arith)
