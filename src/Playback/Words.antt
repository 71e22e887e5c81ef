-- ===== src/Playback/Words.antt =====
-- Words and numbers in the lines of text logs (internal/connection/playback).
use mathlib.Core.List.{reverse, reverse-reverse, reverse-cons}
use cantou.Common.{
  ℕ, ◌^◌, ◌<◌, ◌≡◌, ◌≢◌, refl, ap, sym, ◌∙◌, true, false, some, [], ◌∷◌, ◌++◌, append-nil,
  append_assoc, Bytes, arith, All, All-reverse, ltb, ◌==◌,
}
use cantou.Common.Decimal.{decimal_from, parse_uint_lem, IsDigit}
use cantou.Obd.{trim_space, skip_spaces}
use cantou.Playback.{
  fields, fields_from, flushed, is_space, parse_int, trim_parens, skip_parens, is_paren, int_min,
}

pub fields_from-word :
    (field w s : Bytes)
    → All (λ c. is_space c ≡ false) w
    → fields_from field (w ++ (32 ∷ s)) ≡ flushed (field ++ w) ++ fields_from [] s
unfolding fields_from
fields_from-word field [] s h = ap (λ f. flushed f ++ fields_from [] s) (sym (append-nil field))
fields_from-word field (b ∷ w) s (h, hs) = rw h (
    fields_from-word (field ++ (b ∷ [])) w s hs
    ∙ ap (λ f. flushed f ++ fields_from [] s) (append_assoc field (b ∷ []) w))

pub fields_from-last :
    (field w : Bytes) → All (λ c. is_space c ≡ false) w → fields_from field w ≡ flushed (field ++ w)
unfolding fields_from
fields_from-last field [] h = ap flushed (sym (append-nil field))
fields_from-last field (b ∷ w) (h, hs) =
    rw h (fields_from-last (field ++ (b ∷ [])) w hs ∙ ap flushed (append_assoc field (b ∷ []) w))

pub skip_parens-free : (s : Bytes) → All (λ c. is_paren c ≡ false) s → skip_parens s ≡ s
skip_parens-free [] h = refl
skip_parens-free (b ∷ s) (h, hs) = rw h refl

pub reverse-snoc : (s : Bytes) (c : ℕ) → reverse (s ++ (c ∷ [])) ≡ c ∷ reverse s
reverse-snoc [] c = refl
reverse-snoc (b ∷ s) c =
    reverse-cons b (s ++ (c ∷ []))
    ∙ ap (λ r. r ++ (b ∷ [])) (reverse-snoc s c)
    ∙ ap (λ r. c ∷ r) (sym (reverse-cons b s))

pub trim_parens-wrapped :
    (b : ℕ) (s : Bytes)
    → All (λ c. is_paren c ≡ false) (b ∷ s)
    → trim_parens (b'(' ∷ ((b ∷ s) ++ (b')' ∷ []))) ≡ b ∷ s
unfolding trim_parens
trim_parens-wrapped b s (h, hs) = rw h (
    ap (λ r. reverse (skip_parens r)) (reverse-snoc (b ∷ s) b')')
    ∙ ap reverse
        (skip_parens-free (reverse (b ∷ s)) (All-reverse (λ c. is_paren c ≡ false) (b ∷ s) (h, hs)))
    ∙ reverse-reverse (b ∷ s))

pub parse_int-digits :
    (s : Bytes) (n : ℕ)
    → All IsDigit s
    → s ≢ []
    → decimal_from 0 s ≡ some n
    → n < 2 ^ 63
    → parse_int s ≡ some n
unfolding parse_int
parse_int-digits [] n d ne e l = absurd (ne refl)
parse_int-digits (b ∷ s) n ((low, high), d) ne e l =
    let minus : (b == b'-') ≡ false = ground (arith, low) in
    let plus : (b == b'+') ≡ false = ground (arith, low) in
    let value = parse_uint_lem 64 n (b ∷ s) ne e (omega (arith, l)) in
    let fits : ltb n int_min ≡ true = ground (arith, l) in
    rw minus (rw plus (rw value (rw fits refl)))

pub All-imp : {P Q : ℕ → Type 0} (s : Bytes) → ((c : ℕ) → P c → Q c) → All P s → All Q s
All-imp [] f h = tt
All-imp (c ∷ s) f (h, hs) = (f c h, All-imp s f hs)

pub flushed-nonempty : (w : Bytes) → w ≢ [] → flushed w ≡ w ∷ []
flushed-nonempty [] h = absurd (h refl)
flushed-nonempty (c ∷ w) h = refl

pub nonempty_before : (s : Bytes) (c : ℕ) (t : Bytes) → s ++ (c ∷ t) ≢ []
nonempty_before [] c t e = cc e
nonempty_before (b ∷ s) c t e = cc e

-- A word of a line: some characters, none of them a blank.
abbrev pub IsWord : Bytes → Type 0
IsWord w = (w ≢ []) × All (λ c. is_space c ≡ false) w

pub fields_from-IsWord :
    (w s : Bytes) → IsWord w → fields_from [] (w ++ (32 ∷ s)) ≡ w ∷ fields_from [] s
fields_from-IsWord w s (nonempty, free) =
    fields_from-word [] w s free ∙ ap (λ ws. ws ++ fields_from [] s) (flushed-nonempty w nonempty)

pub fields-IsWord :
    (a b c d : Bytes)
    → IsWord a
    → IsWord b
    → IsWord c
    → IsWord d
    → fields (a ++ (32 ∷ (b ++ (32 ∷ (c ++ (32 ∷ d)))))) ≡ a ∷ (b ∷ (c ∷ (d ∷ [])))
unfolding fields
fields-IsWord a b c d ha hb hc (nonempty, free) =
    fields_from-IsWord a _ ha
    ∙ ap (◌∷◌ a) (
        fields_from-IsWord b _ hb
        ∙ ap (◌∷◌ b) (
            fields_from-IsWord c d hc
            ∙ ap (◌∷◌ c) (fields_from-last [] d free ∙ flushed-nonempty d nonempty)))

-- A text that begins and ends with another character than a space is not cut by TrimSpace.
abbrev pub EndsPlain : Bytes → Type 0
EndsPlain s = (front : Bytes) × (c : ℕ) × (s ≡ front ++ (c ∷ [])) × (is_space c ≡ false)

pub EndsPlain-append : (t s : Bytes) → EndsPlain s → EndsPlain (t ++ s)
EndsPlain-append t s (front, c, e, h) =
    (t ++ front, c, ap (λ s. t ++ s) e ∙ sym (append_assoc t front (c ∷ [])), h)

pub trim_space-EndsPlain :
    (c : ℕ) (s : Bytes) → is_space c ≡ false → EndsPlain (c ∷ s) → trim_space (c ∷ s) ≡ c ∷ s
trim_space-EndsPlain c s h (front, d, e, k) =
    let ends : skip_spaces (reverse (c ∷ s)) ≡ reverse (c ∷ s) =
      ap skip_spaces (ap reverse e ∙ reverse-snoc front d)
      ∙ plain d (reverse front) k
      ∙ sym (ap reverse e ∙ reverse-snoc front d) in
    ap (λ t. reverse (skip_spaces (reverse t))) (plain c s h)
    ∙ ap reverse ends
    ∙ reverse-reverse (c ∷ s)
  where
    plain : (c : ℕ) (s : Bytes) → is_space c ≡ false → skip_spaces (c ∷ s) ≡ c ∷ s
    plain c s h = rw h refl
