-- ===== src/Common/Words.antt =====
-- Unsigned words as little-endian bytes.
use Prim.Native.Nat.{ℕ, zero, suc, ◌+◌, ◌*◌, ◌/◌, ◌%◌, ◌^◌, ◌<◌}
use mathlib.Core.Path.{◌≡◌, refl, ap}
use mathlib.Core.List.{[], ◌∷◌}
use native.Mathlib.Omega.{arith}
use native.Mathlib.Nat.{pow-suc}
use cantou.Common.Lists.{length}
use cantou.Common.Text.{Bytes}

-- binary.LittleEndian.PutUint…: the `n` low bytes of `x`, lowest first
unfoldable pub put_le : ℕ → ℕ → Bytes
put_le zero x = []
put_le (suc n) x = (x % 256) ∷ put_le n (x / 256)

-- binary.LittleEndian.Uint…
unfoldable pub get_le : Bytes → ℕ
get_le [] = 0
get_le (b ∷ bs) = b + 256 * get_le bs

pub length-put_le : (n x : ℕ) → length (put_le n x) ≡ n
unfolding put_le
length-put_le zero x = refl
length-put_le (suc n) x = ap suc (length-put_le n (x / 256))

pub get_le-put_le : (n x : ℕ) → x < 256 ^ n → get_le (put_le n x) ≡ x
unfolding put_le get_le
get_le-put_le zero x h = omega arith
get_le-put_le (suc n) x h = omega (arith, get_le-put_le n (x / 256) (omega (arith, pow-suc 256 n)))
