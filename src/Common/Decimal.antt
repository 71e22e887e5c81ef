-- ===== src/Common/Decimal.antt =====
-- What the program uses of strconv on decimals: FormatUint, `%d`, and ParseUint with base 10.
use Prim.Native.Nat.{ℕ, zero, suc, ◌+◌, ◌-◌, ◌*◌, ◌/◌, ◌%◌, ◌^◌, ◌<◌, ◌≤◌}
use mathlib.Core.Path.{◌≡◌, refl, ap, ◌∙◌}
use mathlib.Core.Logic.{◌≢◌, inl, inr}
use mathlib.Core.Bool.{◌&&◌}
use mathlib.Core.Option.{Option, none, some}
use mathlib.Core.List.{[], ◌∷◌, ◌++◌}
use native.Mathlib.Omega.{arith}
use cantou.Common.Tests.{Bool-cases, Option-cases, ltb, leb, ltb→lt, if◌then◌else◌, ◌>>=◌}
use cantou.Common.Text.{Bytes}
use cantou.Common.Lists.{All, All-append}
use cantou.Common.Split.{IsFreeOf}

-- At most `fuel` digits; a 64-bit number has at most twenty.
abbrev digits_of : ℕ → ℕ → Bytes
digits_of zero n = []
digits_of (suc fuel) n =
    let before = digits_of fuel (n / 10) in
    if ltb n 10 then (b'0' + n) ∷ [] else before ++ ((b'0' + n % 10) ∷ [])

unfoldable pub format_uint : ℕ → Bytes
format_uint n = digits_of 20 n

abbrev digit_value : ℕ → Option ℕ
digit_value c = if leb b'0' c && leb c b'9' then some (c - b'0') else none

unfoldable pub decimal_from : ℕ → Bytes → Option ℕ
decimal_from n [] = some n
decimal_from n (c ∷ s) = do d ← digit_value c; decimal_from (n * 10 + d) s

abbrev within : ℕ → ℕ → Option ℕ
within bits n = if ltb n (2 ^ bits) then some n else none

-- strconv.ParseUint(s, 10, bits)
unfoldable pub parse_uint : ℕ → Bytes → Option ℕ
parse_uint bits [] = none
parse_uint bits (c ∷ s) = do n ← decimal_from 0 (c ∷ s); within bits n

pub decimal_from-snoc :
    (n : ℕ) (s : Bytes) (d m : ℕ)
    → decimal_from n s ≡ some m
    → d < 10
    → decimal_from n (s ++ ((b'0' + d) ∷ [])) ≡ some (m * 10 + d)
unfolding decimal_from
decimal_from-snoc n [] d m h l = ground (arith, h, l)
decimal_from-snoc n (b ∷ s) d m h l = elim (Option-cases (digit_value b)) [
  | inl bad ↦ absurd (ground (arith, bad, h))
  | inr (v, good) ↦
      let rest : decimal_from (n * 10 + v) s ≡ some m = ground (arith, good, h) in
      ground (arith, good, decimal_from-snoc (n * 10 + v) s d m rest l)
]

pub decimal_from-digits_of :
    (fuel n : ℕ) → n < 10 ^ suc fuel → decimal_from 0 (digits_of (suc fuel) n) ≡ some n
unfolding decimal_from
decimal_from-digits_of zero n h = ground (arith, h)
decimal_from-digits_of (suc fuel) n h = elim (Bool-cases (ltb n 10)) [
  | inl small ↦ ground (arith, small)
  | inr large ↦ rw large (
      decimal_from-snoc 0 (digits_of (suc fuel) (n / 10)) (n % 10) (n / 10)
        (decimal_from-digits_of fuel (n / 10) (omega arith)) (omega arith)
      ∙ ap some (omega arith))
]

abbrev pub IsDigit : ℕ → Type 0
IsDigit c = (b'0' ≤ c) × (c ≤ b'9')

digits_of-IsDigit : (fuel n : ℕ) → All IsDigit (digits_of fuel n)
digits_of-IsDigit zero n = tt
digits_of-IsDigit (suc fuel) n = elim (Bool-cases (ltb n 10)) [
  | inl small ↦ rw small ((omega arith, omega (arith, ltb→lt n 10 small)), tt)
  | inr large ↦ rw large (
      All-append IsDigit (digits_of fuel (n / 10)) ((b'0' + n % 10) ∷ [])
        (digits_of-IsDigit fuel (n / 10)) ((omega arith, omega arith), tt))
]

-- A decimal has no separator that is not a digit.
pub format_uint-IsFreeOf : (c n : ℕ) → c < b'0' → IsFreeOf c (format_uint n)
unfolding format_uint
format_uint-IsFreeOf c n h = free (digits_of 20 n) (digits_of-IsDigit 20 n)
  where
    free : (s : Bytes) → All IsDigit s → IsFreeOf c s
    free [] d = tt
    free (b ∷ s) ((l, u), d) = (ground (arith, h, l), free s d)

pub parse_uint_lem :
    (bits n : ℕ) (s : Bytes)
    → s ≢ []
    → decimal_from 0 s ≡ some n
    → n < 2 ^ bits
    → parse_uint bits s ≡ some n
unfolding parse_uint
parse_uint_lem bits n [] ne e h = absurd (ne refl)
parse_uint_lem bits n (c ∷ s) ne e h = ground (arith, e, h)

pub format_uint-nonempty : (n : ℕ) → format_uint n ≢ []
unfolding format_uint
format_uint-nonempty n e = elim (Bool-cases (ltb n 10)) [
  | inl small ↦ absurd (ground (arith, small, e))
  | inr large ↦ snoc (digits_of 19 (n / 10)) (b'0' + n % 10) (rw large at e)
]
  where
    snoc : (s : Bytes) (c : ℕ) → s ++ (c ∷ []) ≢ []
    snoc [] c e = cc e
    snoc (b ∷ s) c e = cc e

pub parse_uint-format_uint :
    (bits n : ℕ) → n < 2 ^ bits → n < 10 ^ 20 → parse_uint bits (format_uint n) ≡ some n
unfolding format_uint
parse_uint-format_uint bits n h l =
    parse_uint_lem bits n (digits_of 20 n) (format_uint-nonempty n) (decimal_from-digits_of 19 n l)
      h

pub format_uint-IsDigit : (n : ℕ) → All IsDigit (format_uint n)
unfolding format_uint
format_uint-IsDigit n = digits_of-IsDigit 20 n

pub decimal_from-format_uint : (n : ℕ) → n < 10 ^ 20 → decimal_from 0 (format_uint n) ≡ some n
unfolding format_uint
decimal_from-format_uint n h = decimal_from-digits_of 19 n h
