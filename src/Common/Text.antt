-- ===== src/Common/Text.antt =====
-- Text as the list of its bytes, and what the program uses of Go's `strings` package on it.
-- The texts are ASCII, so a code point is a byte and only the ASCII spaces are trimmed.
use Prim.Native.Nat.{ℕ, ◌+◌, ◌-◌}
use Prim.Native.Char.{code}
use Prim.Native.String.{String}
use mathlib.Core.Path.{◌≡◌, refl, sym}
use mathlib.Core.Logic.{◌↔◌, inl, inr}
use mathlib.Core.Bool.{Bool, true, false, ◌&&◌, ◌||◌}
use mathlib.Core.List.{List, [], ◌∷◌, map, reverse}
use native.Mathlib.Omega.{arith}
use cantou.Common.Tests.{Bool-cases, leb, ◌==◌, if◌then◌else◌}

abbrev pub Bytes : Type 0
Bytes = List ℕ

abbrev pub codes : String → Bytes
codes String.[] = []
codes (String.◌∷◌ c s) = code c ∷ codes s

-- s == t
unfoldable pub equal : Bytes → Bytes → Bool
equal [] [] = true
equal (x ∷ xs) (y ∷ ys) = x == y && equal xs ys
equal _ _ = false

pub equal_iff : (s t : Bytes) → (equal s t ≡ true) ↔ (s ≡ t)
unfolding equal
equal_iff [] t = ground arith
equal_iff (x ∷ s) [] = ground arith
equal_iff (x ∷ s) (y ∷ t) = ground (arith, equal_iff s t)

pub equal_refl : (a : Bytes) → equal a a ≡ true
equal_refl a = (equal_iff a a).1 refl

pub equal-false_sym : (s t : Bytes) → equal s t ≡ false → equal t s ≡ false
equal-false_sym s t h = elim (Bool-cases (equal t s)) [
  | inl e ↦ absurd (ground (arith, h, (equal_iff s t).1 (sym ((equal_iff t s).0 e))))
  | inr e ↦ e
]

-- strings.HasPrefix(s, p)
unfoldable pub has_prefix : Bytes → Bytes → Bool
has_prefix s [] = true
has_prefix [] (c ∷ p) = false
has_prefix (b ∷ s) (c ∷ p) = b == c && has_prefix s p

-- strings.HasSuffix(s, p)
unfoldable pub has_suffix : Bytes → Bytes → Bool
unfolding has_prefix
has_suffix s p = has_prefix (reverse s) (reverse p)

-- strings.Contains(s, p)
unfoldable pub contains : Bytes → Bytes → Bool
unfolding has_prefix
contains [] p = has_prefix [] p
contains (b ∷ s) p = has_prefix (b ∷ s) p || contains s p

abbrev pub lower : ℕ → ℕ
lower c = if leb b'A' c && leb c b'Z' then c + 32 else c

abbrev pub upper : ℕ → ℕ
upper c = if leb b'a' c && leb c b'z' then c - 32 else c

-- strings.ToLower(s), strings.ToUpper(s)
abbrev pub to_lower : Bytes → Bytes
to_lower = map lower

abbrev pub to_upper : Bytes → Bytes
to_upper = map upper
