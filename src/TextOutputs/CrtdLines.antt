-- ===== src/TextOutputs/CrtdLines.antt =====
-- A CRTD line of internal/parser/crtd/writer.go, read back.
use cantou.Common.{
  ℕ, ◌==◌, ◌+◌, ◌*◌, ◌/◌, ◌%◌, ◌^◌, ◌<◌, ◌≡◌, ◌≢◌, refl, ap, ◌∙◌, Bool, true, false, Option, none,
  some, List, [], ◌∷◌, ◌++◌, map, Bytes, codes, arith, All, All-append, if◌then◌else◌, ltb, ◌>>=◌,
  length,
}
use cantou.Common.Decimal.{
  format_uint, parse_uint, parse_uint_lem, parse_uint-format_uint, format_uint-IsDigit,
  format_uint-nonempty, IsDigit,
}
use cantou.Common.FixedDecimal.{
  fixed_decimal, length-fixed_decimal, fixed_decimal-IsDigit, decimal_from-fixed_decimal,
}
use cantou.Common.Hex.{
  fixed_hex, parse_uint32_hex, parse_uint32_hex-fixed_hex, upper_hex, fixed_hex-IsUpperHex,
  length-fixed_hex,
}
use cantou.Common.HexUint.{
  format_upper_hex, format_upper_hex-IsUpperHex, format_upper_hex-nonempty,
  parse_uint32_hex-format_upper_hex,
}
use cantou.Common.Split.{join, cut_at, cut_at-separated}
use cantou.Playback.{fields, fields_from, busmaster_bytes, is_space}
use cantou.Playback.Words.{
  All-imp, nonempty_before, IsWord, fields_from-IsWord, fields_from-last, flushed-nonempty,
}
use cantou.TextOutputs.{crtd_can_line, crtd_time, record_type}

-- The time in microseconds, the identifier and the bytes.
abbrev read_time : Option (Bytes × Bytes) → Option ℕ
read_time none = none
read_time (some (whole, fraction)) = do
  seconds ← parse_uint 64 whole
  micros ← parse_uint 64 fraction
  some (seconds * 1000000 + micros)

abbrev read_words : List Bytes → Option (ℕ × ℕ × Bytes)
read_words (time ∷ (kind ∷ (id_text ∷ byte_texts))) = do
  micros ← read_time (cut_at b'.' time)
  id ← parse_uint32_hex id_text
  bytes ← busmaster_bytes byte_texts
  some (micros, id, bytes)
read_words _ = none

abbrev pub read_crtd : Bytes → Option (ℕ × ℕ × Bytes)
read_crtd line = read_words (fields line)

fields_from-join : (ws : List Bytes) → All IsWord ws → fields_from [] (join 32 ws) ≡ ws
unfolding fields_from
fields_from-join [] h = refl
fields_from-join (w ∷ []) ((nonempty, free), _) =
    fields_from-last [] w free ∙ flushed-nonempty w nonempty
fields_from-join (w ∷ (v ∷ ws)) (h, hs) =
    fields_from-IsWord w (join 32 (v ∷ ws)) h ∙ ap (◌∷◌ w) (fields_from-join (v ∷ ws) hs)

hex-plain : (c : ℕ) → upper_hex c ≡ true → is_space c ≡ false
hex-plain c h = ground (arith, h)

digit-plain : (c : ℕ) → IsDigit c → is_space c ≡ false
digit-plain c (l, u) = ground (arith, l, u)

pub bytes-IsWord : (bs : Bytes) → All IsWord (map (fixed_hex 2) bs)
bytes-IsWord [] = tt
bytes-IsWord (b ∷ bs) = (
  (
    (λ e. absurd (omega (arith, length-fixed_hex 2 b, ap length e))),
    All-imp (fixed_hex 2 b) hex-plain (fixed_hex-IsUpperHex 2 b),
  ),
  bytes-IsWord bs,
)

busmaster_bytes-fixed_hex :
    (bs : Bytes) → All (λ b. b < 256) bs → busmaster_bytes (map (fixed_hex 2) bs) ≡ some bs
unfolding busmaster_bytes
busmaster_bytes-fixed_hex [] h = refl
busmaster_bytes-fixed_hex (b ∷ bs) (l, h) =
    let small : ltb b 256 ≡ true = ground (arith, l) in
    rw (parse_uint32_hex-fixed_hex 2 b (omega arith) (omega (arith, l)) (omega (arith, l)))
      (rw small (rw (busmaster_bytes-fixed_hex bs h) refl))

plain : (s : Bytes) → All IsDigit s → All (λ c. is_space c ≡ false) s
plain s h = All-imp s digit-plain h

pub crtd_time-IsWord : (timestamp : ℕ) → IsWord (crtd_time timestamp)
crtd_time-IsWord timestamp = (
  nonempty_before whole b'.' fraction,
  All-append (λ c. is_space c ≡ false) whole (b'.' ∷ fraction)
      (plain whole (format_uint-IsDigit (timestamp / 1000000000)))
      (refl, plain fraction (fixed_decimal-IsDigit 6 (timestamp % 1000000000 / 1000))),
)
  where
    whole : Bytes
    whole = format_uint (timestamp / 1000000000)

    fraction : Bytes
    fraction = fixed_decimal 6 (timestamp % 1000000000 / 1000)

pub kind-IsWord :
    (interface_id : ℕ) (transmit : Bool) (id : ℕ)
    → IsWord (format_uint interface_id ++ record_type transmit id)
kind-IsWord interface_id transmit id = (
  nonempty (format_uint interface_id) (record_type transmit id) (format_uint-nonempty interface_id),
  All-append (λ c. is_space c ≡ false) (format_uint interface_id) (record_type transmit id)
      (plain (format_uint interface_id) (format_uint-IsDigit interface_id))
      (letters transmit (ltb 0x7FF id)),
)
  where
    nonempty : (s t : Bytes) → s ≢ [] → s ++ t ≢ []
    nonempty [] t h e = h refl
    nonempty (c ∷ s) t h e = cc e

    letters :
        (a b : Bool)
        → All
            (λ c. is_space c ≡ false)
            ((if a then codes "T" else codes "R") ++ (if b then codes "29" else codes "11"))
    letters true true = (refl, (refl, (refl, tt)))
    letters true false = (refl, (refl, (refl, tt)))
    letters false true = (refl, (refl, (refl, tt)))
    letters false false = (refl, (refl, (refl, tt)))

pub id-IsWord : (id : ℕ) → id < 2 ^ 32 → IsWord (format_upper_hex id)
id-IsWord id h = (
  format_upper_hex-nonempty id (omega arith),
  All-imp (format_upper_hex id) hex-plain (format_upper_hex-IsUpperHex id),
)

fields-crtd_can_line :
    (timestamp interface_id id : ℕ) (transmit : Bool) (bytes : Bytes)
    → id < 2 ^ 32
    → fields (crtd_can_line timestamp interface_id id transmit bytes)
      ≡ crtd_time timestamp
        ∷ ((format_uint interface_id ++ record_type transmit id)
            ∷ (format_upper_hex id ∷ map (fixed_hex 2) bytes))
unfolding fields crtd_can_line
fields-crtd_can_line timestamp interface_id id transmit bytes h =
    fields_from-IsWord (crtd_time timestamp) _ (crtd_time-IsWord timestamp)
    ∙ ap (◌∷◌ (crtd_time timestamp)) (
        fields_from-IsWord (format_uint interface_id ++ record_type transmit id) _
          (kind-IsWord interface_id transmit id)
        ∙ ap (◌∷◌ (format_uint interface_id ++ record_type transmit id)) (
            fields_from-IsWord (format_upper_hex id) _ (id-IsWord id h)
            ∙ ap (◌∷◌ (format_upper_hex id))
                (fields_from-join (map (fixed_hex 2) bytes) (bytes-IsWord bytes))))

not_dot : (c : ℕ) → IsDigit c → (c == b'.') ≡ false
not_dot c (l, u) = ground (arith, l, u)

read_time-crtd_time :
    (timestamp : ℕ)
    → timestamp < 2 ^ 63
    → read_time (cut_at b'.' (crtd_time timestamp)) ≡ some (timestamp / 1000)
read_time-crtd_time timestamp h =
    let whole = timestamp / 1000000000 in
    let micros = timestamp % 1000000000 / 1000 in
    let fraction = fixed_decimal 6 micros in
    let cut =
      cut_at-separated b'.' (format_uint whole) fraction
        (All-imp (format_uint whole) not_dot (format_uint-IsDigit whole)) in
    let sec = parse_uint-format_uint 64 whole (omega (arith, h)) (omega (arith, h)) in
    let frac : parse_uint 64 fraction ≡ some micros =
      parse_uint_lem 64 micros fraction
        (λ e. absurd (omega (arith, length-fixed_decimal 6 micros, ap length e)))
        (decimal_from-fixed_decimal 6 micros (omega arith)) (omega arith) in
    ap read_time cut ∙ rw sec (rw frac (ap some (omega arith)))

-- From the CRTD line of a frame, its time to the microsecond, its identifier and its bytes are read
-- back, for a time below 2^63 nanoseconds.
pub read_crtd-crtd_can_line :
    (timestamp interface_id id : ℕ) (transmit : Bool) (bytes : Bytes)
    → timestamp < 2 ^ 63
    → id < 2 ^ 32
    → All (λ b. b < 256) bytes
    → read_crtd (crtd_can_line timestamp interface_id id transmit bytes)
      ≡ some (timestamp / 1000, id, bytes)
read_crtd-crtd_can_line timestamp interface_id id transmit bytes time fits h =
    ap read_words (fields-crtd_can_line timestamp interface_id id transmit bytes fits)
    ∙ rw (read_time-crtd_time timestamp time) (
        rw (parse_uint32_hex-format_upper_hex id fits)
          (rw (busmaster_bytes-fixed_hex bytes h) refl))
