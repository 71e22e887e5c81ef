-- ===== src/Obd/Target/RoundTrip.antt =====
-- The texts of Bluetooth addresses, read back.
use cantou.Obd.Target.Texts.{
  mac_text, octets-mac_text, trim_space-plain, hex-space, fields_func-mac_text,
  parse_octets-fixed_hex,
}
use cantou.Common.{
  ◌⊎◌, inl, inr, ℕ, ◌<◌, ◌≤◌, ◌≡◌, ◌≢◌, refl, ap, ◌∙◌, true, false, ◌==◌, none, some, [], ◌∷◌, ◌++◌,
  arith, Bytes, equal, has_prefix, to_upper, length, All, All-append,
}
use cantou.Common.Decimal.{
  format_uint, parse_uint, parse_uint-format_uint, format_uint-IsDigit, format_uint-nonempty,
  IsDigit,
}
use cantou.Common.Hex.{fixed_hex, upper_hex, fixed_hex-IsUpperHex}
use cantou.Common.Split.{cut_at, cut_at-separated, IsFreeOf}
use cantou.Obd.{is_space, trim_space}
use cantou.Playback.Words.{All-imp}
use cantou.Obd.Target.{
  target_rfcomm, mac_pattern, parse_octets, parse_mac, parse_channel, parse_rfcomm, with_colons,
  scheme, parse_uri, parse_parts,
}

-- What may stand in the text of an address.
abbrev IsMacChar : ℕ → Type 0
IsMacChar c = (upper_hex c ≡ true) ⊎ (c ≡ b':')

octet-IsMacChar : (b : ℕ) → All IsMacChar (fixed_hex 2 b)
octet-IsMacChar b =
    All-imp {P = λ c. upper_hex c ≡ true} {Q = IsMacChar} (fixed_hex 2 b) (λ c h. inl h)
      (fixed_hex-IsUpperHex 2 b)

mac_text-IsMacChar : (mac : Bytes) → All IsMacChar (mac_text mac)
mac_text-IsMacChar [] = tt
mac_text-IsMacChar (b ∷ []) = octet-IsMacChar b
mac_text-IsMacChar (b ∷ (c ∷ mac)) =
    All-append IsMacChar (fixed_hex 2 b) (b':' ∷ mac_text (c ∷ mac)) (octet-IsMacChar b)
      (inr refl, mac_text-IsMacChar (c ∷ mac))

mac-plain : (c : ℕ) → IsMacChar c → is_space c ≡ false
mac-plain c (inl h) = hex-space c h
mac-plain c (inr e) = ground (arith, e)

mac-slash : (c : ℕ) → IsMacChar c → (c == b'/') ≡ false
mac-slash c (inl h) = ground (arith, h)
mac-slash c (inr e) = ground (arith, e)

to_upper-mac : (s : Bytes) → All IsMacChar s → to_upper (with_colons s) ≡ s
to_upper-mac [] h = refl
to_upper-mac (c ∷ s) (inl h, hs) = ground (arith, h, to_upper-mac s hs)
to_upper-mac (c ∷ s) (inr e, hs) = ground (arith, e, to_upper-mac s hs)

cut_at-none : (c : ℕ) (p : Bytes) → IsFreeOf c p → cut_at c p ≡ none
unfolding cut_at
cut_at-none c [] h = refl
cut_at-none c (b ∷ p) (h, hs) = rw h (rw (cut_at-none c p hs) refl)

parse_channel-format_uint :
    (channel : ℕ) → 1 ≤ channel → channel ≤ 30 → parse_channel (format_uint channel) ≡ some channel
parse_channel-format_uint channel l h =
    parse_channel_lem (format_uint channel) channel (format_uint-nonempty channel)
      (parse_uint-format_uint 8 channel (omega (arith, h)) (omega (arith, h))) l h
  where
    parse_channel_lem :
        (s : Bytes) (n : ℕ)
        → s ≢ []
        → parse_uint 8 s ≡ some n
        → 1 ≤ n
        → n ≤ 30
        → parse_channel s ≡ some n
    parse_channel_lem [] n nonempty e l h = absurd (nonempty refl)
    parse_channel_lem (c ∷ s) n nonempty e l h = unfold parse_channel in rw e (ground (arith, l, h))

-- Behind the scheme, and an address on its own.
parse_uri-scheme :
    (rest : Bytes)
    → All (λ c. is_space c ≡ false) rest
    → parse_uri (scheme ++ rest) ≡ parse_parts rest (cut_at b'/' rest)
unfolding parse_uri equal has_prefix
parse_uri-scheme rest h =
    let whole : trim_space (scheme ++ rest) ≡ scheme ++ rest =
      trim_space-plain (scheme ++ rest)
        (refl, (refl, (refl, (refl, (refl, (refl, (refl, (refl, (refl, h))))))))) in
    rw whole refl

not_r : (c : ℕ) → IsMacChar c → (c == b'r') ≡ false
not_r c (inl h) = ground (arith, h)
not_r c (inr e) = ground (arith, e)

parse_uri-bare :
    (s : Bytes) → All IsMacChar s → mac_pattern s ≡ true → parse_uri s ≡ parse_rfcomm s []
unfolding parse_uri equal has_prefix
parse_uri-bare [] h m = absurd (unfold mac_pattern in ground (arith, m))
parse_uri-bare (c ∷ s) h m =
    let whole : trim_space (c ∷ s) ≡ c ∷ s =
      trim_space-plain (c ∷ s) (All-imp (c ∷ s) mac-plain h) in
    rw whole (ground (arith, m, not_r c h.0))

module _ (mac : Bytes) (six : length mac ≡ 6) (small : All (λ b. b < 256) mac) where
  mac_text-matches : mac_pattern (mac_text mac) ≡ true
  unfolding mac_pattern
  mac_text-matches = octets-mac_text 5 mac six

  parse_mac-mac_text : parse_mac (mac_text mac) ≡ some mac
  unfolding parse_mac
  parse_mac-mac_text =
      rw mac_text-matches
        (ap parse_octets (fields_func-mac_text mac) ∙ parse_octets-fixed_hex mac small)

  parse_rfcomm-mac_text :
      (s : Bytes) (channel : ℕ)
      → parse_channel s ≡ some channel
      → parse_rfcomm (mac_text mac) s ≡ some (target_rfcomm mac (mac_text mac) channel)
  unfolding parse_rfcomm
  parse_rfcomm-mac_text s channel h = rw parse_mac-mac_text (
      rw h (
        ap (λ t. some (target_rfcomm mac t channel))
          (to_upper-mac (mac_text mac) (mac_text-IsMacChar mac))))

  mac_text-plain : All (λ c. is_space c ≡ false) (mac_text mac)
  mac_text-plain = All-imp (mac_text mac) mac-plain (mac_text-IsMacChar mac)

  digits-plain : (n : ℕ) → All (λ c. is_space c ≡ false) (format_uint n)
  digits-plain n =
      All-imp {P = IsDigit} {Q = λ c. is_space c ≡ false} (format_uint n)
        (λ c h. ground (arith, h.0, h.1)) (format_uint-IsDigit n)

  no_slash : IsFreeOf b'/' (mac_text mac)
  no_slash = All-imp (mac_text mac) mac-slash (mac_text-IsMacChar mac)

  -- A Bluetooth address of six bytes is read back from its text in each of the three forms: behind
  -- the scheme with a channel from 1 to 30, behind the scheme alone, and on its own; without a
  -- channel the channel is 0, to be found.
  pub parse_uri-mac_text :
      (channel : ℕ)
      → 1 ≤ channel
      → channel ≤ 30
      → (parse_uri (scheme ++ (mac_text mac ++ (b'/' ∷ format_uint channel)))
          ≡ some (target_rfcomm mac (mac_text mac) channel))
        × (parse_uri (scheme ++ mac_text mac) ≡ some (target_rfcomm mac (mac_text mac) 0))
        × (parse_uri (mac_text mac) ≡ some (target_rfcomm mac (mac_text mac) 0))
  parse_uri-mac_text channel l h =
      let text = mac_text mac in
      let none_given = parse_rfcomm-mac_text [] 0 (unfold parse_channel in refl) in
      (
        parse_uri-scheme (text ++ (b'/' ∷ format_uint channel)) (
              All-append (λ c. is_space c ≡ false) text (b'/' ∷ format_uint channel) mac_text-plain
                (refl, digits-plain channel))
            ∙ ap (parse_parts (text ++ (b'/' ∷ format_uint channel)))
                (cut_at-separated b'/' text (format_uint channel) no_slash)
            ∙ parse_rfcomm-mac_text (format_uint channel) channel
                (parse_channel-format_uint channel l h),
        parse_uri-scheme text mac_text-plain
            ∙ ap (parse_parts text) (cut_at-none b'/' text no_slash)
            ∙ none_given,
        parse_uri-bare text (mac_text-IsMacChar mac) mac_text-matches ∙ none_given,
      )
