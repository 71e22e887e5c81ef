-- ===== src/Obd/Lines.antt =====
-- The lines that a monitoring adapter prints with headers on and spaces off are read back.
use mathlib.Core.List.{reverse, reverse-reverse}
use cantou.Common.{
  ℕ, ◌%◌, ◌^◌, ◌≤◌, ◌<◌, ◌≡◌, refl, sym, ap, ◌∙◌, Bool, true, false, not, ◌||◌, List, [], ◌∷◌, ◌++◌,
  any, all, All, All-append, All-reverse, arith, Bytes, equal, ==_iff, ◌==◌, has_prefix, to_upper,
  length, take, drop, length-append, take-append_of_length, drop-append_of_length, some, inl, inr,
  Bool-cases, ltb,
}
use cantou.Common.Hex.{
  encode_hex, fixed_hex, length-fixed_hex, parse_uint32_hex-fixed_hex, decode_hex-encode_hex,
  length-encode_hex, upper_hex, IsUpperHex, fixed_hex-IsUpperHex, encode_hex-IsUpperHex,
}
use cantou.Obd.{
  skip_spaces, trim_space, without_blanks, Frame, is_token, is_status_token, non_frame_tokens,
  banner_prefixes, id_len, parse_clean, parse_line,
}

-- The header and the data, as the parser takes them apart.
abbrev split_line : Frame → Bytes
split_line f = fixed_hex (id_len f.extended) f.id ++ encode_hex f.bytes

-- An 11-bit identifier takes 3 digits, a 29-bit one 8.
abbrev pub header_digits : Bool → ℕ
header_digits true = 8
header_digits false = 3

-- The frame as an adapter prints it.
abbrev pub printed : Frame → Bytes
printed f = fixed_hex (header_digits f.extended) f.id ++ encode_hex f.bytes

skip_spaces-IsUpperHex : (s : Bytes) → IsUpperHex s → skip_spaces s ≡ s
skip_spaces-IsUpperHex [] h = refl
skip_spaces-IsUpperHex (c ∷ s) (h, hs) = ground (arith, h)

pub trim_space-IsUpperHex : (s : Bytes) → IsUpperHex s → trim_space s ≡ s
trim_space-IsUpperHex s h =
    ap (λ t. reverse (skip_spaces (reverse t))) (skip_spaces-IsUpperHex s h)
    ∙ ap reverse (skip_spaces-IsUpperHex (reverse s) (All-reverse (λ c. upper_hex c ≡ true) s h))
    ∙ reverse-reverse s

pub without_blanks-IsUpperHex : (s : Bytes) → IsUpperHex s → without_blanks s ≡ s
without_blanks-IsUpperHex [] h = refl
without_blanks-IsUpperHex (c ∷ s) (h, hs) = ground (arith, h, without_blanks-IsUpperHex s hs)

pub to_upper-IsUpperHex : (s : Bytes) → IsUpperHex s → to_upper s ≡ s
to_upper-IsUpperHex [] h = refl
to_upper-IsUpperHex (c ∷ s) (h, hs) = ground (arith, h, to_upper-IsUpperHex s hs)

-- A text with another character than a digit is no such line, and begins none.
equal-not_hex : (s t : Bytes) → IsUpperHex s → all upper_hex t ≡ false → equal s t ≡ false
unfolding equal
equal-not_hex [] [] h k = absurd (ground (arith, k))
equal-not_hex [] (d ∷ t) h k = refl
equal-not_hex (c ∷ s) [] h k = refl
equal-not_hex (c ∷ s) (d ∷ t) (h, hs) k = elim (Bool-cases (c == d)) [
  | inl same ↦
      let digit : upper_hex d ≡ true = ap upper_hex (sym ((==_iff c d).0 same)) ∙ h in
      ground (arith, same, equal-not_hex s t hs (ground (arith, k, digit)))
  | inr other ↦ ground (arith, other)
]

has_prefix-not_hex : (s t : Bytes) → IsUpperHex s → all upper_hex t ≡ false → has_prefix s t ≡ false
unfolding has_prefix
has_prefix-not_hex s [] h k = absurd (ground (arith, k))
has_prefix-not_hex [] (d ∷ t) h k = refl
has_prefix-not_hex (c ∷ s) (d ∷ t) (h, hs) k = elim (Bool-cases (c == d)) [
  | inl same ↦
      let digit : upper_hex d ≡ true = ap upper_hex (sym ((==_iff c d).0 same)) ∙ h in
      ground (arith, same, has_prefix-not_hex s t hs (ground (arith, k, digit)))
  | inr other ↦ ground (arith, other)
]

any_token :
    (c : ℕ) (s : Bytes) (ts : List Bytes)
    → IsUpperHex (c ∷ s)
    → all (λ t. equal t [] || not (all upper_hex t)) ts ≡ true
    → any (equal (c ∷ s)) ts ≡ false
unfolding equal
any_token c s [] h k = refl
any_token c s ([] ∷ ts) h k = ground (arith, k, any_token c s ts h (ground (arith, k)))
any_token c s ((d ∷ t) ∷ ts) h k = ground (
  arith,
  equal-not_hex (c ∷ s) (d ∷ t) h (ground (arith, k)),
  any_token c s ts h (ground (arith, k)),
)

any_banner :
    (s : Bytes) (ts : List Bytes)
    → IsUpperHex s
    → all (λ t. not (all upper_hex t)) ts ≡ true
    → any (has_prefix s) ts ≡ false
any_banner s [] h k = refl
any_banner s (t ∷ ts) h k =
    ground
      (arith, has_prefix-not_hex s t h (ground (arith, k)), any_banner s ts h (ground (arith, k)))

tokens_not_hex : all (λ t. equal t [] || not (all upper_hex t)) non_frame_tokens ≡ true
unfolding equal
tokens_not_hex = refl

banners_not_hex : all (λ t. not (all upper_hex t)) banner_prefixes ≡ true
banners_not_hex = refl

is_token-hex : (s : Bytes) → 0 < length s → IsUpperHex s → is_token s ≡ false
unfolding is_token
is_token-hex [] pos h = absurd (omega arith)
is_token-hex (c ∷ s) pos h =
    rw (any_token c s non_frame_tokens h tokens_not_hex)
      (any_banner (c ∷ s) banner_prefixes h banners_not_hex)

pub is_status_token-hex : (s : Bytes) → 0 < length s → IsUpperHex s → is_status_token s ≡ false
unfolding is_status_token
is_status_token-hex s pos h =
    ap is_token (ap to_upper (trim_space-IsUpperHex s h) ∙ to_upper-IsUpperHex s h)
    ∙ is_token-hex s pos h

pub id_len-pos : (extended : Bool) → 0 < id_len extended
id_len-pos true = omega arith
id_len-pos false = omega arith

id_bound : (extended : Bool) (id : ℕ) → id < 16 ^ id_len extended → id < 2 ^ 32
id_bound true id h = omega arith
id_bound false id h = omega arith

parse_clean-split_line :
    (f : Frame) (s : Bytes)
    → s ≡ split_line f
    → is_status_token s ≡ false
    → f.id < 16 ^ id_len f.extended
    → f.id < 2 ^ 32
    → All (λ b. b < 256) f.bytes
    → parse_clean s f.extended ≡ some f
unfolding parse_clean
parse_clean-split_line f s e not_token fits fits' bytes =
    let n = id_len f.extended in
    let head : take n s ≡ fixed_hex n f.id =
      ap (take n) e
      ∙ take-append_of_length n (fixed_hex n f.id) (encode_hex f.bytes) (length-fixed_hex n f.id) in
    let tail : drop n s ≡ encode_hex f.bytes =
      ap (drop n) e
      ∙ drop-append_of_length n (fixed_hex n f.id) (encode_hex f.bytes) (length-fixed_hex n f.id) in
    let long : n ≤ length s = omega (
      arith,
      ap length e,
      length-append (fixed_hex n f.id) (encode_hex f.bytes),
      length-fixed_hex n f.id,
    ) in
    let pos : 0 < n = id_len-pos f.extended in
    let id = parse_uint32_hex-fixed_hex n f.id pos fits fits' in
    let even : (length (encode_hex f.bytes) % 2 == 1) ≡ false =
      ground (arith, length-encode_hex f.bytes) in
    let short : ltb (length s) n ≡ false = ground (arith, long) in
    rw not_token
      (rw short (rw (head, tail) (rw id (rw even (rw (decode_hex-encode_hex f.bytes bytes) refl)))))

parse_line-split_line :
    (f : Frame)
    → f.id < 16 ^ id_len f.extended
    → All (λ b. b < 256) f.bytes
    → parse_line (split_line f) f.extended ≡ some f
unfolding parse_line
parse_line-split_line f fits bytes =
    let header = fixed_hex (id_len f.extended) f.id in
    let hex : IsUpperHex (split_line f) =
      All-append (λ c. upper_hex c ≡ true) header (encode_hex f.bytes)
        (fixed_hex-IsUpperHex (id_len f.extended) f.id) (encode_hex-IsUpperHex f.bytes bytes) in
    let clean : without_blanks (trim_space (split_line f)) ≡ split_line f =
      ap without_blanks (trim_space-IsUpperHex (split_line f) hex)
      ∙ without_blanks-IsUpperHex (split_line f) hex in
    let pos : 0 < length (split_line f) = omega (
      arith,
      id_len-pos f.extended,
      length-append header (encode_hex f.bytes),
      length-fixed_hex (id_len f.extended) f.id,
    ) in
    ap (λ s. parse_clean s f.extended) clean
    ∙ parse_clean-split_line f (split_line f) refl (is_status_token-hex (split_line f) pos hex) fits
        (id_bound f.extended f.id fits) bytes

pub id_len-header_digits : (extended : Bool) → header_digits extended ≡ id_len extended
id_len-header_digits true = refl
id_len-header_digits false = refl

-- A frame of bytes whose identifier fits a header of 3 or 8 digits is read back from the
-- upper-case digits that an adapter prints for it; these are never taken for a status message.
pub parse_line-printed :
    (f : Frame)
    → f.id < 16 ^ header_digits f.extended
    → All (λ b. b < 256) f.bytes
    → parse_line (printed f) f.extended ≡ some f
parse_line-printed f fits bytes =
    let same = id_len-header_digits f.extended in
    ap (λ n. parse_line (fixed_hex n f.id ++ encode_hex f.bytes) f.extended) same
    ∙ parse_line-split_line f (rw⁻¹ same fits) bytes
