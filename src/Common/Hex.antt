-- ===== src/Common/Hex.antt =====
-- What the program uses of Go's encoding/hex and of strconv.ParseUint with base 16, on ASCII texts.
use Prim.Native.Nat.{ℕ, zero, suc, ◌+◌, ◌-◌, ◌*◌, ◌/◌, ◌%◌, ◌^◌, ◌<◌}
use mathlib.Core.Path.{◌≡◌, refl, ap, ◌∙◌}
use mathlib.Core.Logic.{◌≢◌, inl, inr}
use mathlib.Core.Bool.{Bool, true, ◌&&◌, ◌||◌}
use mathlib.Core.Option.{Option, none, some}
use mathlib.Core.List.{[], ◌∷◌, ◌++◌}
use native.Mathlib.Omega.{arith}
use cantou.Common.Tests.{Option-cases, ltb, leb, if◌then◌else◌, ◌>>=◌}
use cantou.Common.Text.{Bytes}
use cantou.Common.Lists.{length, length-append, All, All-append}

unfoldable pub hex_value : ℕ → Option ℕ
hex_value c =
    if leb b'0' c && leb c b'9'
    then some (c - b'0')
    else if leb b'a' c && leb c b'f'
    then some (c - b'a' + 10)
    else if leb b'A' c && leb c b'F'
    then some (c - b'A' + 10)
    else none

-- hex.DecodeString
unfoldable pub decode_hex : Bytes → Option Bytes
decode_hex [] = some []
decode_hex (c ∷ []) = none
decode_hex (c ∷ (d ∷ s)) = do
  high ← hex_value c
  low ← hex_value d
  rest ← decode_hex s
  some ((high * 16 + low) ∷ rest)

unfoldable pub digits_from : ℕ → Bytes → Option ℕ
digits_from n [] = some n
digits_from n (c ∷ s) = do d ← hex_value c; digits_from (n * 16 + d) s

abbrev in_word : ℕ → Option ℕ
in_word n = if ltb n (2 ^ 32) then some n else none

-- strconv.ParseUint(s, 16, 32)
unfoldable pub parse_uint32_hex : Bytes → Option ℕ
parse_uint32_hex [] = none
parse_uint32_hex (c ∷ s) = do n ← digits_from 0 (c ∷ s); in_word n

-- An upper-case digit, and numbers printed with them.
abbrev pub upper_digit : ℕ → ℕ
upper_digit d = if ltb d 10 then b'0' + d else b'A' + (d - 10)

abbrev pub encode_hex : Bytes → Bytes
encode_hex [] = []
encode_hex (b ∷ bs) = upper_digit (b / 16) ∷ (upper_digit (b % 16) ∷ encode_hex bs)

-- The last `n` digits of a number.
abbrev pub fixed_hex : ℕ → ℕ → Bytes
fixed_hex zero x = []
fixed_hex (suc n) x = fixed_hex n (x / 16) ++ (upper_digit (x % 16) ∷ [])

pub hex_value-upper_digit : (d : ℕ) → d < 16 → hex_value (upper_digit d) ≡ some d
unfolding hex_value
hex_value-upper_digit d h = ground (arith, h)

pub digits_from-snoc :
    (n : ℕ) (s : Bytes) (c d m : ℕ)
    → digits_from n s ≡ some m
    → hex_value c ≡ some d
    → digits_from n (s ++ (c ∷ [])) ≡ some (m * 16 + d)
unfolding digits_from
digits_from-snoc n [] c d m h e = ground (arith, h, e)
digits_from-snoc n (b ∷ s) c d m h e = elim (Option-cases (hex_value b)) [
  | inl bad ↦ absurd (ground (arith, bad, h))
  | inr (v, good) ↦
      let rest : digits_from (n * 16 + v) s ≡ some m = ground (arith, good, h) in
      ground (arith, good, digits_from-snoc (n * 16 + v) s c d m rest e)
]

pub digits_from-fixed_hex : (n x : ℕ) → x < 16 ^ n → digits_from 0 (fixed_hex n x) ≡ some x
unfolding digits_from
digits_from-fixed_hex zero x h = ground (arith, h)
digits_from-fixed_hex (suc n) x h =
    digits_from-snoc 0 (fixed_hex n (x / 16)) (upper_digit (x % 16)) (x % 16) (x / 16)
      (digits_from-fixed_hex n (x / 16) (omega arith))
      (hex_value-upper_digit (x % 16) (omega arith))
    ∙ ap some (omega arith)

pub parse_uint32_hex_lem :
    (s : Bytes) (x : ℕ)
    → s ≢ []
    → digits_from 0 s ≡ some x
    → x < 2 ^ 32
    → parse_uint32_hex s ≡ some x
unfolding parse_uint32_hex
parse_uint32_hex_lem [] x h e l = absurd (h refl)
parse_uint32_hex_lem (c ∷ s) x h e l = ground (arith, e, l)

pub length-fixed_hex : (n x : ℕ) → length (fixed_hex n x) ≡ n
length-fixed_hex zero x = refl
length-fixed_hex (suc n) x = omega (
  arith,
  length-fixed_hex n (x / 16),
  length-append (fixed_hex n (x / 16)) (upper_digit (x % 16) ∷ []),
)

pub parse_uint32_hex-fixed_hex :
    (n x : ℕ) → 0 < n → x < 16 ^ n → x < 2 ^ 32 → parse_uint32_hex (fixed_hex n x) ≡ some x
parse_uint32_hex-fixed_hex n x pos h l =
    parse_uint32_hex_lem (fixed_hex n x) x
      (λ e. absurd (omega (arith, length-fixed_hex n x, ap length e))) (digits_from-fixed_hex n x h)
      l

pub decode_hex-encode_hex :
    (bs : Bytes) → All (λ b. b < 256) bs → decode_hex (encode_hex bs) ≡ some bs
unfolding decode_hex
decode_hex-encode_hex [] h = refl
decode_hex-encode_hex (b ∷ bs) (h, hs) =
    let high = hex_value-upper_digit (b / 16) (omega arith) in
    let low = hex_value-upper_digit (b % 16) (omega arith) in
    ground (arith, high, low, decode_hex-encode_hex bs hs)

pub length-encode_hex : (bs : Bytes) → length (encode_hex bs) ≡ length bs * 2
length-encode_hex [] = refl
length-encode_hex (b ∷ bs) = omega (arith, length-encode_hex bs)

-- The digits that are printed.
abbrev pub upper_hex : ℕ → Bool
upper_hex c = (leb b'0' c && leb c b'9') || (leb b'A' c && leb c b'F')

pub upper_hex-upper_digit : (d : ℕ) → d < 16 → upper_hex (upper_digit d) ≡ true
upper_hex-upper_digit d h = ground (arith, h)

abbrev pub IsUpperHex : Bytes → Type 0
IsUpperHex = All (λ c. upper_hex c ≡ true)

pub fixed_hex-IsUpperHex : (n x : ℕ) → IsUpperHex (fixed_hex n x)
fixed_hex-IsUpperHex zero x = tt
fixed_hex-IsUpperHex (suc n) x =
    All-append (λ c. upper_hex c ≡ true) (fixed_hex n (x / 16)) (upper_digit (x % 16) ∷ [])
      (fixed_hex-IsUpperHex n (x / 16)) (upper_hex-upper_digit (x % 16) (omega arith), tt)

pub encode_hex-IsUpperHex : (bs : Bytes) → All (λ b. b < 256) bs → IsUpperHex (encode_hex bs)
encode_hex-IsUpperHex [] h = tt
encode_hex-IsUpperHex (b ∷ bs) (h, hs) = (
  upper_hex-upper_digit (b / 16) (omega arith),
  (upper_hex-upper_digit (b % 16) (omega arith), encode_hex-IsUpperHex bs hs),
)
