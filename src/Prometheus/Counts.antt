-- ===== src/Prometheus/Counts.antt =====
-- What the counters of frames come to.
use cantou.Common.{
  ℕ, zero, suc, ◌+◌, ◌/◌, ◌%◌, ◌^◌, ◌<◌, ◌≡◌, ◌≢◌, refl, ap, ◌∙◌, sym, Bool, true, false, ◌&&◌,
  ◌==◌, ==_iff, Option, none, some, List, [], ◌∷◌, ◌++◌, append-nil, append_assoc, arith, Bytes,
  codes, equal, equal_iff, if◌then◌else◌, ltb, Bool-cases, Option-cases, inl, inr, All,
  some-injective, drop,
}
use cantou.Common.Hex.{upper_digit, parse_uint32_hex}
use cantou.Common.HexUint.{hex_digits, format_upper_hex, parse_uint32_hex-format_upper_hex}
use cantou.Models.{CanMessageTimestamped}
use cantou.Client.Filters.{FilterSet, should_filter}
use cantou.Prometheus.{
  hex_loop, format_can_id_hex, FrameLabels, name_or_empty, frame_labels, handle_can_message_channel,
}

hex_loop_zero : (fuel : ℕ) (s : Bytes) → hex_loop fuel 0 s ≡ s
unfolding hex_loop
hex_loop_zero zero s = refl
hex_loop_zero (suc fuel) s = refl

hex_loop-hex_digits :
    (fuel n : ℕ) (s : Bytes)
    → n ≢ 0
    → n < 16 ^ fuel
    → hex_loop fuel n s ≡ hex_digits upper_digit fuel n ++ s
unfolding hex_loop
hex_loop-hex_digits zero n s h l = absurd (h (omega (arith, l)))
hex_loop-hex_digits (suc fuel) n s h l =
    let more : (n == 0) ≡ false = ground (arith, h) in
    elim (Bool-cases (ltb n 16)) [
      | inl small ↦ rw more (
          rw small (
            ap (λ k. hex_loop fuel k (upper_digit (n % 16) ∷ s)) (ground (arith, small))
            ∙ hex_loop_zero fuel (upper_digit (n % 16) ∷ s)
            ∙ ap (λ d. upper_digit d ∷ s) (ground (arith, small))))
      | inr large ↦ rw more (
          rw large (
            hex_loop-hex_digits fuel (n / 16) (upper_digit (n % 16) ∷ s)
              (λ e. absurd (ground (arith, large, e))) (omega (arith, l))
            ∙ sym (
                append_assoc (hex_digits upper_digit fuel (n / 16)) (upper_digit (n % 16) ∷ []) s)))
    ]

-- The code's own loop prints a 32-bit identifier as fmt's `0x%X` does.
pub format_can_id_hex-format_upper_hex :
    (id : ℕ) → id < 2 ^ 32 → format_can_id_hex id ≡ codes "0x" ++ format_upper_hex id
unfolding format_can_id_hex format_upper_hex
format_can_id_hex-format_upper_hex id h = elim (Bool-cases (id == 0)) [
  | inl none_left ↦ let e : id ≡ 0 = (==_iff id 0).0 none_left in rw e refl
  | inr more ↦ rw more (
      ap (λ s. codes "0x" ++ s)
        (hex_loop-hex_digits 16 id [] (λ e. absurd (ground (arith, more, e))) (omega (arith, h))
          ∙ append-nil (hex_digits upper_digit 16 id)))
]

format_can_id_hex-injective :
    (a b : ℕ) → a < 2 ^ 32 → b < 2 ^ 32 → format_can_id_hex a ≡ format_can_id_hex b → a ≡ b
format_can_id_hex-injective a b ha hb e =
    let texts : format_upper_hex a ≡ format_upper_hex b = ap (drop 2) (
      sym (format_can_id_hex-format_upper_hex a ha)
      ∙ e
      ∙ format_can_id_hex-format_upper_hex b hb) in
    some-injective (
      sym (parse_uint32_hex-format_upper_hex a ha)
      ∙ ap parse_uint32_hex texts
      ∙ parse_uint32_hex-format_upper_hex b hb)

-- What a counter is after some increases.
abbrev same_labels : FrameLabels → FrameLabels → Bool
same_labels (name, id) (name', id') = equal name name' && equal id id'

abbrev pub counted : FrameLabels → List FrameLabels → ℕ
counted labels [] = 0
counted labels (l ∷ ls) = (if same_labels labels l then 1 else 0) + counted labels ls

abbrev passes : Option (Option Bytes) → Bool
passes (some none) = true
passes _ = false

module _ (resolver : ℕ → Option Bytes) where
  -- How many frames of an interface and an identifier no filter rejects.
  abbrev pub received : FilterSet → Bytes → ℕ → List CanMessageTimestamped → ℕ
  received filters name id [] = 0
  received filters name id (m ∷ ms) =
      (if passes (should_filter filters m)
          && (equal name (name_or_empty (resolver m.interface)) && id == m.id)
        then 1
        else 0)
      + received filters name id ms

  same_id :
      (a b : ℕ)
      → a < 2 ^ 32
      → b < 2 ^ 32
      → equal (format_can_id_hex a) (format_can_id_hex b) ≡ (a == b)
  same_id a b ha hb = elim (Bool-cases (a == b)) [
    | inl e ↦ rw e ((equal_iff _ _).1 (ap format_can_id_hex ((==_iff a b).0 e)))
    | inr n ↦ elim (Bool-cases (equal (format_can_id_hex a) (format_can_id_hex b))) [
      | inl same ↦
          absurd (ground (arith, n, format_can_id_hex-injective a b ha hb ((equal_iff _ _).0 same)))
      | inr other ↦ rw (n, other) refl
    ]
  ]

  -- If no filter panics, the handler ends, and a counter has been increased exactly once for each
  -- frame that no filter rejects, whose interface has the counter's name and whose identifier is the
  -- counter's; the identifiers have 32 bits. Frames of different identifiers never share a counter.
  pub handle_can_message_channel-counted :
      (filters : FilterSet) (name : Bytes) (id : ℕ) (ms : List CanMessageTimestamped)
      → id < 2 ^ 32
      → All (λ m. m.id < 2 ^ 32) ms
      → All (λ m. should_filter filters m ≢ none) ms
      → (ls : List FrameLabels) × (handle_can_message_channel resolver filters ms ≡ some ls)
        × (counted (name, format_can_id_hex id) ls ≡ received filters name id ms)
  unfolding handle_can_message_channel
  handle_can_message_channel-counted filters name id [] small fits calm = ([], refl, refl)
  handle_can_message_channel-counted filters name id (m ∷ ms) small (f, fits) (c, calm) =
      let (ls, done, same) =
        handle_can_message_channel-counted filters name id ms small fits calm in
      elim (Option-cases (should_filter filters m)) [
        | inl e ↦ absurd (c e)
        | inr (none, e) ↦ (
          frame_labels resolver m ∷ ls,
          rw e (rw done refl),
          rw e (rw (same_id id m.id small f) (omega (arith, same))),
        )
        | inr (some filter, e) ↦ (ls, rw e (rw done refl), rw e (omega (arith, same)))
      ]
