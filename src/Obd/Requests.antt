-- ===== src/Obd/Requests.antt =====
-- The canonical form of OBD-II requests.
use cantou.Common.{
  ℕ, ◌%◌, ◌≡◌, ◌≢◌, sym, ap, ◌∙◌, true, [], ◌∷◌, arith, Bytes, upper, to_upper, length, some, inl,
  inr, Bool-cases, Option-cases, ◌==◌,
}
use cantou.Common.Hex.{hex_value, decode_hex, upper_hex, IsUpperHex}
use cantou.Obd.{trim_space, without_blanks, checked_pid, normalize_pid_request}
use cantou.Obd.Lines.{trim_space-IsUpperHex, without_blanks-IsUpperHex, to_upper-IsUpperHex}

hex_value-upper : (c v : ℕ) → hex_value (upper c) ≡ some v → upper_hex (upper c) ≡ true
unfolding hex_value
hex_value-upper c v h = ground (arith, h)

decode_hex-IsUpperHex : (s bs : Bytes) → decode_hex (to_upper s) ≡ some bs → IsUpperHex (to_upper s)
unfolding decode_hex
decode_hex-IsUpperHex [] bs h = tt
decode_hex-IsUpperHex (c ∷ []) bs h = absurd (ground (arith, h))
decode_hex-IsUpperHex (c ∷ (d ∷ s)) bs h = elim (Option-cases (hex_value (upper c))) [
  | inl e ↦ absurd (ground (arith, e, h))
  | inr (v, e) ↦ elim (Option-cases (hex_value (upper d))) [
    | inl k ↦ absurd (ground (arith, e, k, h))
    | inr (w, k) ↦ elim (Option-cases (decode_hex (to_upper s))) [
      | inl l ↦ absurd (ground (arith, e, k, l, h))
      | inr (rest, l) ↦
          (hex_value-upper c v e, (hex_value-upper d w k, decode_hex-IsUpperHex s rest l))
    ]
  ]
]

-- A request that is accepted is even hexadecimal data, and it is the upper-case text that was checked.
checked_pid_cases :
    (s n : Bytes)
    → checked_pid s ≡ some n
    → (s ≡ n) × ((length n % 2 ≢ 1) × ((bs : Bytes) × (decode_hex n ≡ some bs)))
checked_pid_cases [] n h = absurd (ground (arith, h))
checked_pid_cases (c ∷ s) n h = elim (Bool-cases (length (c ∷ s) % 2 == 1)) [
  | inl odd ↦ absurd (ground (arith, odd, h))
  | inr even ↦ elim (Option-cases (decode_hex (c ∷ s))) [
    | inl bad ↦ absurd (ground (arith, even, bad, h))
    | inr (bs, good) ↦
        let same : c ∷ s ≡ n = ground (arith, even, good, h) in
        (same, rw (sym same) (ground (arith, even), (bs, good)))
  ]
]

-- An accepted request is in a canonical form: upper-case digits, an even number of them, that decode
-- to bytes; and normalising it again changes nothing.
pub normalize_pid_request-IsUpperHex :
    (req n : Bytes)
    → normalize_pid_request req ≡ some n
    → IsUpperHex n
      × ((length n % 2 ≢ 1)
          × (((bs : Bytes) × (decode_hex n ≡ some bs)) × (normalize_pid_request n ≡ some n)))
unfolding normalize_pid_request
normalize_pid_request-IsUpperHex req n h =
    let clean = without_blanks (trim_space req) in
    let (same, (even, (bs, good))) = checked_pid_cases (to_upper clean) n h in
    let hex : IsUpperHex n =
      rw (sym same) (decode_hex-IsUpperHex clean bs (ap decode_hex same ∙ good)) in
    let again : to_upper (without_blanks (trim_space n)) ≡ n =
      ap (λ s. to_upper (without_blanks s)) (trim_space-IsUpperHex n hex)
      ∙ ap to_upper (without_blanks-IsUpperHex n hex)
      ∙ to_upper-IsUpperHex n hex in
    (hex, (even, ((bs, good), ap checked_pid again ∙ ap checked_pid (sym same) ∙ h)))
