-- ===== src/Common/HexUint.antt =====
-- strconv.FormatUint with base 16, and the verbs `%x` and `%X`: numbers in as many digits as needed.
use Prim.Native.Nat.{ℕ, zero, suc, ◌+◌, ◌*◌, ◌-◌, ◌/◌, ◌%◌, ◌^◌, ◌<◌, ◌≤◌}
use mathlib.Core.Path.{◌≡◌, refl, sym, ap, ◌∙◌}
use mathlib.Core.Logic.{◌≢◌, ◌⊎◌, inl, inr}
use mathlib.Core.Bool.{true}
use mathlib.Core.Option.{some}
use mathlib.Core.List.{[], ◌∷◌, ◌++◌}
use native.Mathlib.Omega.{arith}
use cantou.Common.Tests.{Bool-cases, if_elim, ltb, ltb→lt, if◌then◌else◌}
use cantou.Common.Text.{Bytes}
use cantou.Common.Lists.{length, length-append, replicate, All-append}
use cantou.Common.Hex.{
  hex_value, digits_from, digits_from-snoc, upper_digit, hex_value-upper_digit, upper_hex,
  IsUpperHex, upper_hex-upper_digit, parse_uint32_hex, parse_uint32_hex_lem,
}

abbrev pub lower_digit : ℕ → ℕ
lower_digit d = if ltb d 10 then b'0' + d else b'a' + (d - 10)

pub hex_value-lower_digit : (d : ℕ) → d < 16 → hex_value (lower_digit d) ≡ some d
unfolding hex_value
hex_value-lower_digit d h = ground (arith, h)

-- At most `fuel` digits; a 64-bit number has at most sixteen.
abbrev pub hex_digits : (ℕ → ℕ) → ℕ → ℕ → Bytes
hex_digits digit zero n = []
hex_digits digit (suc fuel) n =
    let before = hex_digits digit fuel (n / 16) in
    if ltb n 16 then digit n ∷ [] else before ++ (digit (n % 16) ∷ [])

-- strconv.FormatUint(n, 16)
unfoldable pub format_hex : ℕ → Bytes
format_hex n = hex_digits lower_digit 16 n

-- fmt.Sprintf("%X", n)
unfoldable pub format_upper_hex : ℕ → Bytes
format_upper_hex n = hex_digits upper_digit 16 n

module _ (digit : ℕ → ℕ) (value : (d : ℕ) → d < 16 → hex_value (digit d) ≡ some d) where
  pub digits_from-hex_digits :
      (fuel n : ℕ) → n < 16 ^ suc fuel → digits_from 0 (hex_digits digit (suc fuel) n) ≡ some n
  unfolding digits_from
  digits_from-hex_digits zero n h = ground (arith, h, value n (omega arith))
  digits_from-hex_digits (suc fuel) n h = elim (Bool-cases (ltb n 16)) [
    | inl small ↦ ground (arith, small, value n (ltb→lt n 16 small))
    | inr large ↦ rw large (
        digits_from-snoc 0 (hex_digits digit (suc fuel) (n / 16)) (digit (n % 16)) (n % 16) (n / 16)
          (digits_from-hex_digits fuel (n / 16) (omega arith)) (value (n % 16) (omega arith))
        ∙ ap some (omega arith))
  ]

-- The shortest text: `n` fits `size` digits and not one less.
abbrev pub IsSizeOf : ℕ → ℕ → Type 0
IsSizeOf n size = (0 < size) × (n < 16 ^ size) × ((size ≡ 1) ⊎ (16 ^ size ≤ 16 * n))

IsSizeOf-suc : (n k : ℕ) → 16 ≤ n → IsSizeOf (n / 16) k → IsSizeOf n (suc k)
IsSizeOf-suc n zero h (pos, fits, rest) = absurd (omega (arith, pos))
IsSizeOf-suc n (suc zero) h (pos, fits, rest) =
    (omega arith, omega (arith, fits), inr (omega (arith, h)))
IsSizeOf-suc n (suc (suc k)) h (pos, fits, inl one) = absurd (omega (arith, one))
IsSizeOf-suc n (suc (suc k)) h (pos, fits, inr least) =
    (omega arith, omega (arith, fits), inr (omega (arith, least)))

IsSizeOf-snoc :
    (n : ℕ) (s : Bytes) (c : ℕ)
    → 16 ≤ n
    → IsSizeOf (n / 16) (length s)
    → IsSizeOf n (length (s ++ (c ∷ [])))
IsSizeOf-snoc n s c h size =
    rw (length-append s (c ∷ [])) (rw (add_one (length s)) (IsSizeOf-suc n (length s) h size))
  where
    add_one : (a : ℕ) → a + 1 ≡ suc a
    add_one a = omega arith

pub hex_digits-IsSizeOf :
    (digit : ℕ → ℕ) (fuel n : ℕ)
    → n < 16 ^ suc fuel
    → IsSizeOf n (length (hex_digits digit (suc fuel) n))
hex_digits-IsSizeOf digit zero n h = rw (small n (omega arith)) (omega arith, omega arith, inl refl)
  where
    small : (n : ℕ) → n < 16 → ltb n 16 ≡ true
    small n h = ground (arith, h)
hex_digits-IsSizeOf digit (suc fuel) n h = elim (Bool-cases (ltb n 16)) [
  | inl small ↦ rw small (omega arith, omega (arith, ltb→lt n 16 small), inl refl)
  | inr large ↦ rw large (
      IsSizeOf-snoc n (hex_digits digit (suc fuel) (n / 16)) (digit (n % 16))
        (ground (arith, large)) (hex_digits-IsSizeOf digit fuel (n / 16) (omega arith)))
]

pub digits_from-zeros :
    (k : ℕ) (s : Bytes) → digits_from 0 (replicate k b'0' ++ s) ≡ digits_from 0 s
unfolding digits_from hex_value
digits_from-zeros zero s = refl
digits_from-zeros (suc k) s = ground (arith, digits_from-zeros k s)

pub hex_digits-small :
    (digit : ℕ → ℕ) (fuel n : ℕ) → n < 16 → hex_digits digit (suc fuel) n ≡ digit n ∷ []
hex_digits-small digit fuel n h = let small : ltb n 16 ≡ true = ground (arith, h) in rw small refl

-- A byte takes two digits when zeros are put before it.
hex_digits-byte :
    (digit : ℕ → ℕ) (fuel n : ℕ) (pad : ℕ → ℕ)
    → n < 256
    → pad 1 ≡ 1
    → pad 2 ≡ 0
    → digit 0 ≡ b'0'
    → replicate (pad (length (hex_digits digit (suc (suc fuel)) n))) b'0'
        ++ hex_digits digit (suc (suc fuel)) n
      ≡ digit (n / 16) ∷ (digit (n % 16) ∷ [])
hex_digits-byte digit fuel n pad h one two zero_digit = elim (Bool-cases (ltb n 16)) [
  | inl small ↦
      let high : n / 16 ≡ 0 = omega (arith, ltb→lt n 16 small) in
      let low : n % 16 ≡ n = omega (arith, ltb→lt n 16 small) in
      rw small (
        rw one (
          ap (λ a. a ∷ (digit n ∷ [])) (sym zero_digit ∙ ap digit (sym high))
          ∙ ap (λ b. digit (n / 16) ∷ (b ∷ [])) (ap digit (sym low))))
  | inr large ↦ rw large (rw (hex_digits-small digit fuel (n / 16) (omega arith)) (rw two refl))
]

pub format_upper_hex-byte :
    (n : ℕ) (pad : ℕ → ℕ)
    → n < 256
    → pad 1 ≡ 1
    → pad 2 ≡ 0
    → replicate (pad (length (format_upper_hex n))) b'0' ++ format_upper_hex n
      ≡ upper_digit (n / 16) ∷ (upper_digit (n % 16) ∷ [])
unfolding format_upper_hex
format_upper_hex-byte n pad h one two = hex_digits-byte upper_digit 14 n pad h one two refl

hex_digits-IsUpperHex : (fuel n : ℕ) → IsUpperHex (hex_digits upper_digit fuel n)
hex_digits-IsUpperHex zero n = tt
hex_digits-IsUpperHex (suc fuel) n =
    if_elim IsUpperHex (ltb n 16) _ _ (λ small. (upper_hex-upper_digit n (ltb→lt n 16 small), tt))
      (λ large.
        All-append (λ c. upper_hex c ≡ true) (hex_digits upper_digit fuel (n / 16))
          (upper_digit (n % 16) ∷ []) (hex_digits-IsUpperHex fuel (n / 16))
          (upper_hex-upper_digit (n % 16) (omega arith), tt))

pub format_upper_hex-IsUpperHex : (n : ℕ) → IsUpperHex (format_upper_hex n)
unfolding format_upper_hex
format_upper_hex-IsUpperHex n = hex_digits-IsUpperHex 16 n

pub format_upper_hex-nonempty : (n : ℕ) → n < 2 ^ 64 → format_upper_hex n ≢ []
unfolding format_upper_hex
format_upper_hex-nonempty n h e =
    absurd (omega (arith, (hex_digits-IsSizeOf upper_digit 15 n (omega arith)).0, ap length e))

digits_from-format_upper_hex : (n : ℕ) → n < 2 ^ 32 → digits_from 0 (format_upper_hex n) ≡ some n
unfolding format_upper_hex
digits_from-format_upper_hex n h =
    digits_from-hex_digits upper_digit hex_value-upper_digit 15 n (omega arith)

pub parse_uint32_hex-format_upper_hex :
    (n : ℕ) → n < 2 ^ 32 → parse_uint32_hex (format_upper_hex n) ≡ some n
parse_uint32_hex-format_upper_hex n h =
    parse_uint32_hex_lem (format_upper_hex n) n (format_upper_hex-nonempty n (omega arith))
      (digits_from-format_upper_hex n h) h
