-- ===== src/Influx/Rows.antt =====
-- The rows read back: identifiers and data.
use cantou.Common.{
  ℕ, zero, suc, ◌+◌, ◌*◌, ◌-◌, ◌^◌, ◌≤◌, ◌<◌, ◌≡◌, refl, ap, sym, ◌∙◌, ◌≢◌, ◌⊎◌, inl, inr, Option,
  none, some, List, [], ◌∷◌, ◌++◌, append-nil, leb→le, leb-false→lt, map, Bytes, arith, length,
  take, replicate, All, Bool-cases, leb, true, length-append, length-replicate, ◌>>=◌,
}
use cantou.Common.Decimal.{
  format_uint, parse_uint, parse_uint-format_uint, format_uint-IsFreeOf, format_uint-nonempty,
}
use cantou.Common.Hex.{parse_uint32_hex, parse_uint32_hex_lem, digits_from}
use cantou.Common.HexUint.{
  format_hex, lower_digit, hex_digits, hex_value-lower_digit, digits_from-hex_digits, IsSizeOf,
  hex_digits-IsSizeOf, digits_from-zeros,
}
use cantou.Common.Split.{split_on, join, split_on-join, IsFreeOf}
use cantou.Models.{CanMessageTimestamped}
use cantou.Influx.{
  format_can_id, data_text, convert_msg, convert_many, interface_name, bool_to_int,
  InfluxDbCanMessage,
}

-- Hexadecimal in the fewest digits, but three at least.
abbrev pub IsPadded : ℕ → ℕ → Type 0
IsPadded id size = (3 ≤ size) × (id < 16 ^ size) × ((size ≡ 3) ⊎ (16 ^ size ≤ 16 * id))

IsPadded-long : (id size : ℕ) → IsSizeOf id size → 3 ≤ size → IsPadded id size
IsPadded-long id size (pos, fits, inl one) long = absurd (omega (arith, one, long))
IsPadded-long id size (pos, fits, inr least) long = (long, fits, inr least)

IsPadded-short : (id size : ℕ) → IsSizeOf id size → size < 3 → IsPadded id 3
IsPadded-short id zero (pos, fits, least) short = absurd (omega (arith, pos))
IsPadded-short id (suc zero) (pos, fits, least) short = (omega arith, omega (arith, fits), inl refl)
IsPadded-short id (suc (suc zero)) (pos, fits, least) short =
    (omega arith, omega (arith, fits), inl refl)
IsPadded-short id (suc (suc (suc k))) size short = absurd (omega (arith, short))

length-padded : (s : Bytes) → length s < 3 → length (replicate (3 - length s) b'0' ++ s) ≡ 3
length-padded s h = omega (
  arith,
  length-append (replicate (3 - length s) b'0') s,
  length-replicate {A = ℕ} (3 - length s) b'0',
)

format_can_id-size : (id : ℕ) → id < 2 ^ 64 → IsPadded id (length (format_can_id id))
unfolding format_can_id format_hex
format_can_id-size id h =
    let s = hex_digits lower_digit 16 id in
    let size = hex_digits-IsSizeOf lower_digit 15 id (omega arith) in
    elim (Bool-cases (leb 3 (length s))) [
      | inl long ↦ rw long (IsPadded-long id (length s) size (leb→le 3 (length s) long))
      | inr short ↦
          let less : length s < 3 = leb-false→lt 3 (length s) short in
          rw short (rw (length-padded s less) (IsPadded-short id (length s) size less))
    ]

format_can_id-digits : (id : ℕ) → id < 2 ^ 64 → digits_from 0 (format_can_id id) ≡ some id
unfolding format_can_id format_hex
format_can_id-digits id h = elim (Bool-cases (leb 3 (length (hex_digits lower_digit 16 id)))) [
  | inl long ↦
      rw long (digits_from-hex_digits lower_digit hex_value-lower_digit 15 id (omega arith))
  | inr short ↦ rw short (
      digits_from-zeros (3 - length (hex_digits lower_digit 16 id)) (hex_digits lower_digit 16 id)
      ∙ digits_from-hex_digits lower_digit hex_value-lower_digit 15 id (omega arith))
]

-- The text of an identifier has the fewest hexadecimal digits, padded with zeros to three, and the
-- identifier is read back from it.
pub format_can_id-IsPadded :
    (id : ℕ)
    → id < 2 ^ 32
    → IsPadded id (length (format_can_id id)) × (parse_uint32_hex (format_can_id id) ≡ some id)
format_can_id-IsPadded id h =
    let size = format_can_id-size id (omega arith) in
    (
      size,
      parse_uint32_hex_lem (format_can_id id) id (λ e. absurd (omega (arith, size.0, ap length e)))
          (format_can_id-digits id (omega arith)) h,
    )

-- The data read back: decimals of bytes between commas.
abbrev parse_all : List Bytes → Option Bytes
parse_all [] = some []
parse_all (p ∷ ps) = do b ← parse_uint 8 p; bs ← parse_all ps; some (b ∷ bs)

abbrev pub read_data : Bytes → Option Bytes
read_data [] = some []
read_data (c ∷ s) = parse_all (split_on b',' (c ∷ s))

abbrev prefixed : List Bytes → Bytes
prefixed [] = []
prefixed (p ∷ ps) = b',' ∷ (p ++ prefixed ps)

join-prefixed : (p : Bytes) (ps : List Bytes) → join b',' (p ∷ ps) ≡ p ++ prefixed ps
join-prefixed p [] = sym (append-nil p)
join-prefixed p (q ∷ ps) = ap (λ s. p ++ (b',' ∷ s)) (join-prefixed q ps)

data_text-later :
    (n i : ℕ) (bs : Bytes)
    → n ≤ length bs
    → leb 1 i ≡ true
    → data_text n i bs ≡ some (prefixed (map format_uint (take n bs)))
unfolding data_text
data_text-later zero i bs h later = refl
data_text-later (suc n) i [] h later = absurd (omega arith)
data_text-later (suc n) i (b ∷ bs) h later =
    rw (data_text-later n (i + 1) bs (omega arith) (ground arith)) (rw later refl)

data_text_lem :
    (n : ℕ) (bs : Bytes)
    → n ≤ length bs
    → data_text n 0 bs ≡ some (join b',' (map format_uint (take n bs)))
unfolding data_text
data_text_lem zero bs h = refl
data_text_lem (suc n) [] h = absurd (omega arith)
data_text_lem (suc n) (b ∷ bs) h =
    rw (data_text-later n 1 bs (omega arith) refl)
      (ap some (sym (join-prefixed (format_uint b) (map format_uint (take n bs)))))

data_text-short : (n i : ℕ) (bs : Bytes) → length bs < n → data_text n i bs ≡ none
unfolding data_text
data_text-short zero i bs h = absurd (omega arith)
data_text-short (suc n) i [] h = refl
data_text-short (suc n) i (b ∷ bs) h = rw (data_text-short n (i + 1) bs (omega arith)) refl

parse_all-format_uint :
    (bs : Bytes) → All (λ b. b < 256) bs → parse_all (map format_uint bs) ≡ some bs
parse_all-format_uint [] h = refl
parse_all-format_uint (b ∷ bs) (l, h) =
    rw (parse_uint-format_uint 8 b (omega arith) (omega arith))
      (rw (parse_all-format_uint bs h) refl)

decimals-IsFreeOf : (bs : Bytes) → All (IsFreeOf b',') (map format_uint bs)
decimals-IsFreeOf [] = tt
decimals-IsFreeOf (b ∷ bs) = (format_uint-IsFreeOf b',' b (omega arith), decimals-IsFreeOf bs)

prefix_nil : (s t : Bytes) → s ++ t ≡ [] → s ≡ []
prefix_nil [] t e = refl
prefix_nil (c ∷ s) t e = cc e

read_data-nonempty : (s : Bytes) → s ≢ [] → read_data s ≡ parse_all (split_on b',' s)
read_data-nonempty [] h = absurd (h refl)
read_data-nonempty (c ∷ s) h = refl

read_data-join :
    (bs : Bytes) → All (λ b. b < 256) bs → read_data (join b',' (map format_uint bs)) ≡ some bs
read_data-join [] h = refl
read_data-join (b ∷ bs) h =
    read_data-nonempty (join b',' (map format_uint (b ∷ bs))) (λ e. format_uint-nonempty b (
      prefix_nil (format_uint b) (prefixed (map format_uint bs))
        (sym (join-prefixed (format_uint b) (map format_uint bs)) ∙ e)))
    ∙ ap parse_all
        (split_on-join b',' (map format_uint (b ∷ bs)) (λ e. cc e) (decimals-IsFreeOf (b ∷ bs)))
    ∙ parse_all-format_uint (b ∷ bs) h

abbrev row_of :
    (resolver : ℕ → Option Bytes) → Bytes → CanMessageTimestamped → Bytes → InfluxDbCanMessage
row_of resolver measurement m text = record {
  timestamp = m.timestamp;
  interface = interface_name resolver m.interface;
  transmit = bool_to_int m.transmit;
  id = format_can_id m.id;
  length = m.length;
  remote = bool_to_int m.remote;
  bytes = text;
  measurement = measurement;
}

none_either : {A B : Type 0} (o : Option A) → ◌≡◌ {A = Option B} (o >>= (λ a. none)) none
none_either none = refl
none_either (some a) = refl

-- A frame that has as many bytes as its length says becomes a row with its timestamp and length,
-- from which its identifier and those bytes are read back.
pub convert_msg-read :
    (resolver : ℕ → Option Bytes) (measurement : Bytes) (m : CanMessageTimestamped)
    → m.id < 2 ^ 32
    → All (λ b. b < 256) (take m.length m.bytes)
    → m.length ≤ length m.bytes
    → (row : InfluxDbCanMessage) × (convert_msg resolver measurement m ≡ some row)
      × (read_data row.bytes ≡ some (take m.length m.bytes))
      × (parse_uint32_hex row.id ≡ some m.id)
      × (row.timestamp ≡ m.timestamp)
      × (row.length ≡ m.length)
unfolding convert_msg
convert_msg-read resolver measurement m id bytes fits = (
  row_of resolver measurement m (join b',' (map format_uint (take m.length m.bytes))),
  rw (data_text_lem m.length m.bytes fits) refl,
  read_data-join (take m.length m.bytes) bytes,
  (format_can_id-IsPadded m.id id).1,
  refl,
  refl,
)

-- A block with a frame of fewer bytes than its length says cannot be converted: the index out of
-- range is a panic.
pub convert_many-panics :
    (resolver : ℕ → Option Bytes) (measurement : Bytes) (m : CanMessageTimestamped)
    (before after : List CanMessageTimestamped)
    → length m.bytes < m.length
    → convert_many resolver measurement (before ++ (m ∷ after)) ≡ none
unfolding convert_many convert_msg
convert_many-panics resolver measurement m [] after short =
    rw (data_text-short m.length 0 m.bytes short) refl
convert_many-panics resolver measurement m (b ∷ before) after short =
    rw (convert_many-panics resolver measurement m before after short)
      (none_either (convert_msg resolver measurement b))
