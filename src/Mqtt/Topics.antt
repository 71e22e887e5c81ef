-- ===== src/Mqtt/Topics.antt =====
-- Which topics are told apart.
use mathlib.Core.List.{append_cancel_left}
use cantou.Common.{
  ℕ, ◌^◌, ◌<◌, ◌≡◌, ◌≢◌, ap, ◌∙◌, sym, Option, ◌∷◌, ◌++◌, arith, Bytes, codes, some-injective, drop,
}
use cantou.Common.Decimal.{
  format_uint, decimal_from, decimal_from-format_uint, format_uint-IsFreeOf,
}
use cantou.Common.Hex.{digits_from}
use cantou.Common.HexUint.{format_hex, lower_digit, hex_value-lower_digit, digits_from-hex_digits}
use cantou.Common.Split.{cut_at, cut_at-separated, IsFreeOf}
use cantou.Models.{CanMessageTimestamped, CanSignalTimestamped}
use cantou.Mqtt.{slash, connection_name, base_topic, get_topic_from_message, get_topic_from_signal}

format_hex-injective : (a b : ℕ) → a < 2 ^ 32 → b < 2 ^ 32 → format_hex a ≡ format_hex b → a ≡ b
unfolding format_hex
format_hex-injective a b ha hb e = some-injective (
    sym (digits_from-hex_digits lower_digit hex_value-lower_digit 15 a (omega arith))
    ∙ ap (digits_from 0) e
    ∙ digits_from-hex_digits lower_digit hex_value-lower_digit 15 b (omega arith))

pub format_uint-injective :
    (a b : ℕ) → a < 2 ^ 63 → b < 2 ^ 63 → format_uint a ≡ format_uint b → a ≡ b
format_uint-injective a b ha hb e = some-injective (
    sym (decimal_from-format_uint a (omega arith))
    ∙ ap (decimal_from 0) e
    ∙ decimal_from-format_uint b (omega arith))

-- What stands before the first separator, and what behind it, are determined by a text.
cut_injective :
    (c : ℕ) (p q s t : Bytes)
    → IsFreeOf c p
    → IsFreeOf c q
    → p ++ (c ∷ s) ≡ q ++ (c ∷ t)
    → (p ≡ q) × (s ≡ t)
cut_injective c p q s t hp hq e =
    let pairs : (p, s) ≡ (q, t) =
      some-injective
        (sym (cut_at-separated c p s hp) ∙ ap (cut_at c) e ∙ cut_at-separated c q t hq) in
    (ap (λ (x : Bytes × Bytes). x.0) pairs, ap (λ (x : Bytes × Bytes). x.1) pairs)

module _ (resolver : ℕ → Option Bytes)
    (free : (i : ℕ) → IsFreeOf slash (connection_name resolver i)) where
  base_topic-injective :
      (topic : Bytes) (i j : ℕ) (s t : Bytes)
      → i < 2 ^ 63
      → j < 2 ^ 63
      → base_topic resolver topic i (slash ∷ s) ≡ base_topic resolver topic j (slash ∷ t)
      → (i ≡ j) × (s ≡ t)
  base_topic-injective topic i j s t hi hj e =
      let tails = append_cancel_left topic _ _ (ap (drop 1) e) in
      let (_, numbers) =
        cut_injective slash (connection_name resolver i) (connection_name resolver j)
          (format_uint i ++ (slash ∷ s)) (format_uint j ++ (slash ∷ t)) (free i) (free j)
          (ap (drop 1) tails) in
      let (same, rest) =
        cut_injective slash (format_uint i) (format_uint j) s t
          (format_uint-IsFreeOf slash i (omega arith)) (format_uint-IsFreeOf slash j (omega arith))
          numbers in
      (format_uint-injective i j hi hj same, rest)

  -- If the names of connections have no slash: under one configured topic, frames of different
  -- interfaces or identifiers go to different topics, for identifiers of 32 bits and interface numbers
  -- below 2^63, and no frame goes to the topic of a signal.
  pub topics-apart :
      (topic : Bytes) (m m' : CanMessageTimestamped) (s : CanSignalTimestamped)
      → m.interface < 2 ^ 63
      → m'.interface < 2 ^ 63
      → s.interface < 2 ^ 63
      → m.id < 2 ^ 32
      → m'.id < 2 ^ 32
      → (get_topic_from_message resolver topic m ≡ get_topic_from_message resolver topic m'
          → (m.interface ≡ m'.interface) × (m.id ≡ m'.id))
        × (get_topic_from_message resolver topic m ≢ get_topic_from_signal resolver topic s)
  unfolding get_topic_from_message get_topic_from_signal
  topics-apart topic m m' s hm hm' hs fits fits' = (
    (λ e.
        let (same, rest) =
          base_topic-injective topic m.interface m'.interface
            (codes "messages/0x" ++ format_hex m.id) (codes "messages/0x" ++ format_hex m'.id) hm
            hm' e in
        (same, format_hex-injective m.id m'.id fits fits' (ap (drop 11) rest))),
    (λ e.
        let (_, rest) =
          base_topic-injective topic m.interface s.interface
            (codes "messages/0x" ++ format_hex m.id)
            (codes "signals/" ++ (s.message ++ (slash ∷ s.signal))) hm hs e in
        absurd (ground (arith, rest))),
  )
