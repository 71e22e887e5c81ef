-- ===== src/Playback/CandumpLine.antt =====
-- A line as candump writes it with absolute times (internal/connection/playback/candump.go), read
-- back.
use cantou.Common.{
  ℕ, ◌+◌, ◌*◌, ◌%◌, ◌^◌, ◌<◌, ◌≤◌, ◌≡◌, ◌≢◌, refl, ap, ◌∙◌, Bool, true, false, some, [], ◌∷◌, ◌++◌,
  Bytes, codes, arith, All, All-append, equal, length, if◌then◌else◌, ◌>>=◌,
}
use cantou.Common.Decimal.{
  format_uint, format_uint-IsDigit, format_uint-nonempty, decimal_from-format_uint, IsDigit,
}
use cantou.Common.FixedDecimal.{
  fixed_decimal, length-fixed_decimal, fixed_decimal-IsDigit, decimal_from-fixed_decimal,
}
use cantou.Common.Hex.{
  encode_hex, decode_hex-encode_hex, fixed_hex, parse_uint32_hex-fixed_hex, IsUpperHex,
  fixed_hex-IsUpperHex, encode_hex-IsUpperHex,
}
use cantou.Common.Split.{cut_at, cut_at-separated}
use cantou.Obd.Lines.{header_digits}
use cantou.Mf4.Reader.{LogEntry}
use cantou.Playback.{
  is_space, trim_parens, is_paren, scale_up, scale_down, nanoseconds, starts_remote, says_transmit,
  parse_candump_timestamp, candump_fields, candump_frame, parse_candump_line,
}
use cantou.Playback.Words.{
  parse_int-digits, All-imp, nonempty_before, IsWord, fields-IsWord, trim_parens-wrapped,
}

-- A frame with the time it was seen at, in seconds and microseconds.
pub record Stamped : Type 0 where
  pub seconds : ℕ
  pub micros : ℕ
  pub id : ℕ
  pub extended : Bool
  pub transmit : Bool
  pub bytes : Bytes

abbrev pub time_text : Stamped → Bytes
time_text f = format_uint f.seconds ++ (b'.' ∷ fixed_decimal 6 f.micros)

abbrev pub frame_text : Stamped → Bytes
frame_text f = fixed_hex (header_digits f.extended) f.id ++ (b'#' ∷ encode_hex f.bytes)

abbrev pub flag_text : Bool → Bytes
flag_text transmit = if transmit then codes "T" else codes "R"

abbrev pub line_text : Bytes → Stamped → Bytes
line_text interface f =
    (b'(' ∷ (time_text f ++ (b')' ∷ [])))
    ++ (32 ∷ (interface ++ (32 ∷ (frame_text f ++ (32 ∷ flag_text f.transmit)))))

abbrev pub time_of : Stamped → ℕ
time_of f = f.seconds * nanoseconds + f.micros * 1000

abbrev pub entry_of : ℕ → Stamped → LogEntry
entry_of offset f = record {
  offset_ns = offset;
  id = f.id;
  transmit = f.transmit;
  remote = false;
  length = length f.bytes;
  bytes = f.bytes;
}

abbrev pub IsStamped : Stamped → Type 0
IsStamped f =
    (f.seconds < 2 ^ 33)
    × (f.micros < 1000000)
    × (f.id < 16 ^ header_digits f.extended)
    × (length f.bytes ≤ 64)
    × All (λ b. b < 256) f.bytes

parse_candump_timestamp-time_text :
    (f : Stamped)
    → f.seconds < 2 ^ 33
    → f.micros < 1000000
    → parse_candump_timestamp (time_text f) ≡ some (time_of f)
unfolding parse_candump_timestamp scale_up scale_down
parse_candump_timestamp-time_text f l m =
    let fraction = fixed_decimal 6 f.micros in
    let cut = cut_at-separated b'.' (format_uint f.seconds) fraction (
      All-imp (format_uint f.seconds) (λ c d. ground (arith, d.0, d.1))
        (format_uint-IsDigit f.seconds)) in
    let sec =
      parse_int-digits (format_uint f.seconds) f.seconds (format_uint-IsDigit f.seconds)
        (format_uint-nonempty f.seconds) (decimal_from-format_uint f.seconds (omega (arith, l)))
        (omega (arith, l)) in
    let frac =
      parse_int-digits fraction f.micros (fixed_decimal-IsDigit 6 f.micros)
        (λ e. absurd (omega (arith, length-fixed_decimal 6 f.micros, ap length e)))
        (decimal_from-fixed_decimal 6 f.micros (omega (arith, m))) (omega (arith, m)) in
    rw cut (rw sec (rw frac (ap some (omega (arith, l, m)))))

candump_frame-frame_text :
    (transmit : Bool) (f : Stamped)
    → f.id < 16 ^ header_digits f.extended
    → length f.bytes ≤ 64
    → All (λ b. b < 256) f.bytes
    → candump_frame transmit (cut_at b'#' (frame_text f))
      ≡ some (record (entry_of 0 f) { transmit = transmit })
candump_frame-frame_text transmit f fits short bytes =
    let n = header_digits f.extended in
    let header = fixed_hex n f.id in
    let cut =
      cut_at-separated b'#' header (encode_hex f.bytes)
        (All-imp header (λ c d. ground (arith, d)) (fixed_hex-IsUpperHex n f.id)) in
    let id =
      parse_uint32_hex-fixed_hex n f.id (positive f.extended) fits (small f.extended f.id fits) in
    let whole : length f.bytes % 2 ^ 8 ≡ length f.bytes = omega (arith, short) in
    rw cut (
      rw id (
        rw (no_remote (encode_hex f.bytes) (encode_hex-IsUpperHex f.bytes bytes))
          (rw (decode_hex-encode_hex f.bytes bytes) (rw whole refl))))
  where
    positive : (extended : Bool) → 0 < header_digits extended
    positive true = omega arith
    positive false = omega arith

    small : (extended : Bool) (id : ℕ) → id < 16 ^ header_digits extended → id < 2 ^ 32
    small true id h = omega arith
    small false id h = omega arith

    no_remote : (s : Bytes) → IsUpperHex s → starts_remote s ≡ false
    no_remote [] h = refl
    no_remote (c ∷ s) (h, hs) = ground (arith, h)

says_transmit-flag_text : (transmit : Bool) → says_transmit (flag_text transmit ∷ []) ≡ transmit
unfolding equal
says_transmit-flag_text true = refl
says_transmit-flag_text false = refl

time_text-free :
    (f : Stamped) (P : ℕ → Type 0) → ((c : ℕ) → IsDigit c → P c) → P b'.' → All P (time_text f)
time_text-free f P digit dot =
    All-append P (format_uint f.seconds) (b'.' ∷ fixed_decimal 6 f.micros)
      (All-imp (format_uint f.seconds) digit (format_uint-IsDigit f.seconds))
      (dot, All-imp (fixed_decimal 6 f.micros) digit (fixed_decimal-IsDigit 6 f.micros))

stamp-IsWord : (f : Stamped) → IsWord (b'(' ∷ (time_text f ++ (b')' ∷ [])))
stamp-IsWord f = (
  λ e. cc e,
  (
    refl,
    All-append (λ c. is_space c ≡ false) (time_text f) (b')' ∷ [])
        (time_text-free f (λ c. is_space c ≡ false) (λ c d. ground (arith, d.0, d.1)) refl)
        (refl, tt),
  ),
)

frame_text-IsWord : (f : Stamped) → All (λ b. b < 256) f.bytes → IsWord (frame_text f)
frame_text-IsWord f h = (
  nonempty_before (fixed_hex (header_digits f.extended) f.id) b'#' (encode_hex f.bytes),
  All-append (λ c. is_space c ≡ false) (fixed_hex (header_digits f.extended) f.id)
      (b'#' ∷ encode_hex f.bytes)
      (All-imp (fixed_hex (header_digits f.extended) f.id) (λ c d. ground (arith, d))
        (fixed_hex-IsUpperHex (header_digits f.extended) f.id))
      (
        refl,
        All-imp (encode_hex f.bytes) (λ c d. ground (arith, d)) (encode_hex-IsUpperHex f.bytes h),
      ),
)

flag_text-IsWord : (transmit : Bool) → IsWord (flag_text transmit)
flag_text-IsWord true = (λ e. cc e, (refl, tt))
flag_text-IsWord false = (λ e. cc e, (refl, tt))

trim_parens-stamp : (f : Stamped) → trim_parens (b'(' ∷ (time_text f ++ (b')' ∷ []))) ≡ time_text f
trim_parens-stamp f =
    wrapped (time_text f)
      (time_text-free f (λ c. is_paren c ≡ false) (λ c d. ground (arith, d.0, d.1)) refl)
      (nonempty_before (format_uint f.seconds) b'.' (fixed_decimal 6 f.micros))
  where
    wrapped :
        (s : Bytes)
        → All (λ c. is_paren c ≡ false) s
        → s ≢ []
        → trim_parens (b'(' ∷ (s ++ (b')' ∷ []))) ≡ s
    wrapped [] h k = absurd (k refl)
    wrapped (b ∷ s) h k = trim_parens-wrapped b s h

pub parse_candump_line-line_text :
    (interface : Bytes) (f : Stamped)
    → IsWord interface
    → IsStamped f
    → parse_candump_line (line_text interface f) ≡ some (entry_of 0 f, time_of f)
unfolding parse_candump_line candump_fields
parse_candump_line-line_text interface f word (l, m, fits, short, bytes) =
    let stamp = b'(' ∷ (time_text f ++ (b')' ∷ [])) in
    ap candump_fields (
      fields-IsWord stamp interface (frame_text f) (flag_text f.transmit) (stamp-IsWord f) word
        (frame_text-IsWord f bytes) (flag_text-IsWord f.transmit))
    ∙ ap
        (λ t. parse_candump_timestamp t >>= (λ ts.
          candump_frame (says_transmit (flag_text f.transmit ∷ [])) (cut_at b'#' (frame_text f))
          >>= (λ e. some (e, ts))))
        (trim_parens-stamp f)
    ∙ rw (parse_candump_timestamp-time_text f l m) (
        rw (candump_frame-frame_text (says_transmit (flag_text f.transmit ∷ [])) f fits short bytes)
          (ap (λ t. some (record (entry_of 0 f) { transmit = t }, time_of f))
            (says_transmit-flag_text f.transmit)))
