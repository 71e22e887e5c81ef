-- ===== src/Config/Lists.antt =====
-- The lists of identifiers of internal/config/flags.go, read back.
use cantou.Common.{
  ℕ, ◌<◌, ◌^◌, ◌≡◌, ◌≢◌, refl, ap, ◌∙◌, some, List, [], ◌∷◌, map, Bytes, arith, All, equal, false,
}
use cantou.Common.Decimal.{
  format_uint, parse_uint-format_uint, format_uint-IsFreeOf, format_uint-nonempty, IsDigit,
  format_uint-IsDigit,
}
use cantou.Common.Hex.{IsUpperHex}
use cantou.Common.Split.{join, split_on, split_on-join, IsFreeOf}
use cantou.Obd.{trim_space}
use cantou.Obd.Lines.{trim_space-IsUpperHex}
use cantou.Config.{format_uint32_slice, parse_ids, parse_uint32_slice}

digits-IsUpperHex : (s : Bytes) → All IsDigit s → IsUpperHex s
digits-IsUpperHex [] h = tt
digits-IsUpperHex (c ∷ s) ((l, u), h) = (ground (arith, l, u), digits-IsUpperHex s h)

trim_space-format_uint : (n : ℕ) → trim_space (format_uint n) ≡ format_uint n
trim_space-format_uint n =
    trim_space-IsUpperHex (format_uint n)
      (digits-IsUpperHex (format_uint n) (format_uint-IsDigit n))

equal-nonempty : (s : Bytes) → s ≢ [] → equal s [] ≡ false
unfolding equal
equal-nonempty [] h = absurd (h refl)
equal-nonempty (c ∷ s) h = refl

parse_ids-format_uint :
    (ids : List ℕ) → All (λ n. n < 2 ^ 32) ids → parse_ids (map format_uint ids) ≡ some ids
unfolding parse_ids
parse_ids-format_uint [] h = refl
parse_ids-format_uint (n ∷ ids) (l, h) = rw (trim_space-format_uint n) (
    rw (equal-nonempty (format_uint n) (format_uint-nonempty n)) (
      rw (parse_uint-format_uint 32 n l (omega (arith, l)))
        (rw (parse_ids-format_uint ids h) refl)))

decimals-IsFreeOf : (ids : List ℕ) → All (IsFreeOf b',') (map format_uint ids)
decimals-IsFreeOf [] = tt
decimals-IsFreeOf (n ∷ ids) = (format_uint-IsFreeOf b',' n (omega arith), decimals-IsFreeOf ids)

parse_uint32_slice_lem : (s : Bytes) → parse_uint32_slice s ≡ parse_ids (split_on b',' s)
unfolding parse_uint32_slice split_on parse_ids equal
parse_uint32_slice_lem [] = refl
parse_uint32_slice_lem (c ∷ s) = refl

-- A list of 32-bit identifiers is read back from its text, also the empty one.
pub parse_uint32_slice-format :
    (ids : List ℕ)
    → All (λ n. n < 2 ^ 32) ids
    → parse_uint32_slice (format_uint32_slice ids) ≡ some ids
unfolding format_uint32_slice parse_uint32_slice
parse_uint32_slice-format [] h = refl
parse_uint32_slice-format (n ∷ ids) h =
    parse_uint32_slice_lem (join b',' (map format_uint (n ∷ ids)))
    ∙ ap parse_ids
        (split_on-join b',' (map format_uint (n ∷ ids)) (λ e. cc e) (decimals-IsFreeOf (n ∷ ids)))
    ∙ parse_ids-format_uint (n ∷ ids) h
