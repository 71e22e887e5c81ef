-- ===== src/Obd/Target/Texts.antt =====
-- internal/obd/uri.go: the parts of the text of an address.
use mathlib.Core.List.{reverse, reverse-reverse}
use cantou.Common.{
  All-reverse, ℕ, zero, suc, ◌/◌, ◌%◌, ◌<◌, ◌≡◌, ◌≢◌, refl, ap, ◌∙◌, sym, true, false, some, [],
  ◌∷◌, ◌++◌, map, append-nil, append_assoc, arith, Bytes, length, All,
}
use cantou.Common.Hex.{
  upper_digit, fixed_hex, upper_hex, hex_value-upper_digit, digits_from, digits_from-fixed_hex,
  fixed_hex-IsUpperHex,
}
use cantou.Common.Split.{join}
use cantou.Obd.{is_space, skip_spaces, trim_space}
use cantou.Playback.Words.{All-imp}
use cantou.Obd.Target.{
  is_separator, is_hex, octets, flushed, fields_func, parse_octet, parse_octets,
}

abbrev pub mac_text : Bytes → Bytes
mac_text mac = join b':' (map (fixed_hex 2) mac)

is_hex-upper_digit : (d : ℕ) → d < 16 → is_hex (upper_digit d) ≡ true
unfolding is_hex
is_hex-upper_digit d h = rw (hex_value-upper_digit d h) refl

pub octets-mac_text : (n : ℕ) (mac : Bytes) → length mac ≡ suc n → octets n (mac_text mac) ≡ true
unfolding octets
octets-mac_text n [] h = absurd (omega arith)
octets-mac_text zero (b ∷ []) h = ground (
  arith,
  is_hex-upper_digit (b / 16 % 16) (omega arith),
  is_hex-upper_digit (b % 16) (omega arith),
)
octets-mac_text zero (b ∷ (c ∷ mac)) h = absurd (omega arith)
octets-mac_text (suc n) (b ∷ []) h = absurd (omega arith)
octets-mac_text (suc n) (b ∷ (c ∷ mac)) h = ground (
  arith,
  is_hex-upper_digit (b / 16 % 16) (omega arith),
  is_hex-upper_digit (b % 16) (omega arith),
  octets-mac_text n (c ∷ mac) (omega arith),
)

-- Trimming leaves a text without spaces as it is.
skip_spaces-plain : (s : Bytes) → All (λ c. is_space c ≡ false) s → skip_spaces s ≡ s
skip_spaces-plain [] h = refl
skip_spaces-plain (c ∷ s) (h, hs) = rw h refl

pub trim_space-plain : (s : Bytes) → All (λ c. is_space c ≡ false) s → trim_space s ≡ s
trim_space-plain s h =
    ap (λ t. reverse (skip_spaces (reverse t))) (skip_spaces-plain s h)
    ∙ ap reverse (skip_spaces-plain (reverse s) (All-reverse (λ c. is_space c ≡ false) s h))
    ∙ reverse-reverse s

-- A part without separators is a field, behind what has been read of it.
fields_func-part :
    (word p s : Bytes)
    → All (λ c. is_separator c ≡ false) p
    → fields_func word (p ++ (b':' ∷ s)) ≡ flushed (word ++ p) ++ fields_func [] s
unfolding fields_func
fields_func-part word [] s h = ap (λ w. flushed w ++ fields_func [] s) (sym (append-nil word))
fields_func-part word (c ∷ p) s (h, hs) = rw h (
    fields_func-part (word ++ (c ∷ [])) p s hs
    ∙ ap (λ w. flushed w ++ fields_func [] s) (append_assoc word (c ∷ []) p))

fields_func-last :
    (word p : Bytes)
    → All (λ c. is_separator c ≡ false) p
    → fields_func word p ≡ flushed (word ++ p)
unfolding fields_func
fields_func-last word [] h = ap flushed (sym (append-nil word))
fields_func-last word (c ∷ p) (h, hs) =
    rw h (fields_func-last (word ++ (c ∷ [])) p hs ∙ ap flushed (append_assoc word (c ∷ []) p))

hex-separator : (c : ℕ) → upper_hex c ≡ true → is_separator c ≡ false
hex-separator c h = ground (arith, h)

pub hex-space : (c : ℕ) → upper_hex c ≡ true → is_space c ≡ false
hex-space c h = ground (arith, h)

octet-free : (b : ℕ) → All (λ c. is_separator c ≡ false) (fixed_hex 2 b)
octet-free b = All-imp (fixed_hex 2 b) hex-separator (fixed_hex-IsUpperHex 2 b)

pub fields_func-mac_text : (mac : Bytes) → fields_func [] (mac_text mac) ≡ map (fixed_hex 2) mac
fields_func-mac_text [] = unfold fields_func in refl
fields_func-mac_text (b ∷ []) = fields_func-last [] (fixed_hex 2 b) (octet-free b)
fields_func-mac_text (b ∷ (c ∷ mac)) =
    fields_func-part [] (fixed_hex 2 b) (mac_text (c ∷ mac)) (octet-free b)
    ∙ ap (◌∷◌ (fixed_hex 2 b)) (fields_func-mac_text (c ∷ mac))

parse_octet_lem :
    (s : Bytes) (b : ℕ) → s ≢ [] → digits_from 0 s ≡ some b → b < 256 → parse_octet s ≡ some b
unfolding parse_octet
parse_octet_lem [] b h e l = absurd (h refl)
parse_octet_lem (c ∷ s) b h e l = ground (arith, e, l)

pub parse_octets-fixed_hex :
    (mac : Bytes) → All (λ b. b < 256) mac → parse_octets (map (fixed_hex 2) mac) ≡ some mac
unfolding parse_octets
parse_octets-fixed_hex [] h = refl
parse_octets-fixed_hex (b ∷ mac) (h, hs) =
    rw
      (parse_octet_lem (fixed_hex 2 b) b (λ e. cc e) (digits_from-fixed_hex 2 b (omega (arith, h)))
        h)
      (rw (parse_octets-fixed_hex mac hs) refl)
