-- ===== src/Playback.antt =====
-- internal/connection/playback: the text logs of candump.go and parser.go, from the lines that a
-- scanner gives. An int64 is kept as its 64 bits.
use cantou.Common.{
  ℕ, zero, suc, ◌+◌, ◌-◌, ◌*◌, ◌/◌, ◌%◌, ◌^◌, Bool, true, false, ◌||◌, ◌&&◌, Option, none, some,
  List, [], ◌∷◌, ◌++◌, map, Bytes, codes, drop, take, if◌then◌else◌, ◌==◌, equal, has_prefix,
  contains, to_lower, to_upper, ltb, leb, length, ◌>>=◌,
}
use mathlib.Core.List.{reverse}
use cantou.Common.Decimal.{parse_uint}
use cantou.Common.Hex.{decode_hex, parse_uint32_hex}
use cantou.Common.Split.{cut_at}
use cantou.Client.SignalFilter.{split_n}
use cantou.Obd.{trim_space, trim_prefix}
use cantou.Mf4.Reader.{LogEntry}
use cantou.Models.{CanMessageTimestamped}
use cantou.Client.Filters.{pad_or_trim}
pub mod Words
pub mod CandumpLine
pub mod Candump
mod Tests

abbrev pub is_space : ℕ → Bool
is_space c = c == 32 || (leb 9 c && leb c 13)

abbrev pub flushed : Bytes → List Bytes
flushed [] = []
flushed (b ∷ field) = (b ∷ field) ∷ []

-- strings.Fields, with the field in the making.
unfoldable pub fields_from : Bytes → Bytes → List Bytes
fields_from field [] = flushed field
fields_from field (b ∷ s) =
    (if is_space b then flushed field else [])
    ++ fields_from (if is_space b then [] else field ++ (b ∷ [])) s

unfoldable pub fields : Bytes → List Bytes
fields s = fields_from [] s

abbrev pub int_min : ℕ
int_min = 2 ^ 63

abbrev signed : Bool → ℕ → Option ℕ
signed negative n =
    if negative
    then if leb n int_min then some ((2 ^ 64 - n) % 2 ^ 64) else none
    else if ltb n int_min
    then some n
    else none

-- strconv.ParseInt(s, 10, 64)
unfoldable pub parse_int : Bytes → Option ℕ
parse_int [] = none
parse_int (b ∷ s) =
    (parse_uint 64 (if b == b'-' || b == b'+' then s else b ∷ s)) >>= (λ n. signed (b == b'-') n)

abbrev pub is_paren : ℕ → Bool
is_paren b = b == b'(' || b == b')'

abbrev pub skip_parens : Bytes → Bytes
skip_parens [] = []
skip_parens (b ∷ s) = let rest = skip_parens s in if is_paren b then rest else b ∷ s

-- strings.Trim(s, "()")
unfoldable pub trim_parens : Bytes → Bytes
trim_parens s = reverse (skip_parens (reverse (skip_parens s)))

-- The loops that scale the fraction; a division rounds towards zero.
unfoldable pub scale_up : ℕ → ℕ → ℕ
scale_up zero frac = frac
scale_up (suc k) frac = scale_up k ((frac * 10) % 2 ^ 64)

unfoldable pub scale_down : ℕ → ℕ → ℕ
scale_down zero frac = frac
scale_down (suc k) frac =
    scale_down k (if ltb frac int_min then frac / 10 else (2 ^ 64 - (2 ^ 64 - frac) / 10) % 2 ^ 64)

abbrev pub nanoseconds : ℕ
nanoseconds = 1000000000

abbrev with_fraction : Bytes → Option (Bytes × Bytes) → Option ℕ
with_fraction s none = (parse_int s) >>= (λ sec. some ((sec * nanoseconds) % 2 ^ 64))
with_fraction s (some (whole, fraction)) = do
  sec ← parse_int whole
  frac ← parse_int fraction
  some (
      (sec * nanoseconds + scale_down (length fraction - 9) (scale_up (9 - length fraction) frac))
      % 2 ^ 64)

unfoldable pub parse_candump_timestamp : Bytes → Option ℕ
parse_candump_timestamp s = with_fraction s (cut_at b'.' s)

abbrev pub starts_remote : Bytes → Bool
starts_remote [] = false
starts_remote (b ∷ s) = b == b'R'

abbrev pub says_transmit : List Bytes → Bool
says_transmit [] = false
says_transmit (flag ∷ more) = equal (to_upper flag) (codes "T")

abbrev pub candump_frame : Bool → Option (Bytes × Bytes) → Option LogEntry
candump_frame transmit none = none
candump_frame transmit (some (id_part, data_part)) = do
  id ← parse_uint32_hex id_part
  bytes ← if starts_remote data_part then some [] else decode_hex data_part
  some (record {
    offset_ns = 0;
    id = id;
    transmit = transmit;
    remote = starts_remote data_part;
    length = length bytes % 2 ^ 8;
    bytes = bytes;
  })

unfoldable pub candump_fields : List Bytes → Option (LogEntry × ℕ)
candump_fields (stamp ∷ (interface ∷ (frame ∷ more))) = do
  ts ← parse_candump_timestamp (trim_parens stamp)
  entry ← candump_frame (says_transmit more) (cut_at b'#' frame)
  some (entry, ts)
candump_fields _ = none

unfoldable pub parse_candump_line : Bytes → Option (LogEntry × ℕ)
parse_candump_line line = candump_fields (fields line)

-- The loops of both Parse functions: the first time that is not negative is the base, and a line
-- that cannot be parsed is left out.
abbrev pub rebased : ℕ → Option (LogEntry × ℕ) → ℕ
rebased base none = base
rebased base (some (entry, ts)) = if ltb base int_min then base else ts

abbrev pub placed : ℕ → Option (LogEntry × ℕ) → List LogEntry
placed base none = []
placed base (some (entry, ts)) = record entry { offset_ns = (ts + 2 ^ 64 - base) % 2 ^ 64 } ∷ []

module _ (skips : Bytes → Bool) (parse_line : Bytes → Option (LogEntry × ℕ)) where
  abbrev pub line_entry : Bytes → Option (LogEntry × ℕ)
  line_entry line = if skips (trim_space line) then none else parse_line (trim_space line)

  unfoldable pub parse_lines : ℕ → List Bytes → List LogEntry
  parse_lines base [] = []
  parse_lines base (line ∷ lines) =
      let base' = rebased base (line_entry line) in
      placed base' (line_entry line) ++ parse_lines base' lines

unfoldable pub parse_candump : List Bytes → List LogEntry
parse_candump lines = parse_lines (λ line. equal line []) parse_candump_line (2 ^ 64 - 1) lines

abbrev times : List Bytes → Option ℕ
times (h ∷ (m ∷ (s ∷ (ms ∷ [])))) = do
  hours ← parse_int h
  minutes ← parse_int m
  seconds ← parse_int s
  milliseconds ← parse_int ms
  some (((hours * 3600 + minutes * 60 + seconds) * nanoseconds + milliseconds * 1000000) % 2 ^ 64)
times _ = none

unfoldable pub parse_busmaster_timestamp : Bytes → Option ℕ
parse_busmaster_timestamp s = times (split_n 4 s)

abbrev byte_of : Bytes → Option ℕ
byte_of s = (parse_uint32_hex s) >>= (λ n. if ltb n 256 then some n else none)

unfoldable pub busmaster_bytes : List Bytes → Option Bytes
busmaster_bytes [] = some []
busmaster_bytes (s ∷ ss) = do b ← byte_of s; bs ← busmaster_bytes ss; some (b ∷ bs)

unfoldable pub busmaster_fields : List Bytes → Option (LogEntry × ℕ)
busmaster_fields (stamp ∷ (direction ∷ (channel ∷ (id_text ∷ (kind ∷ (dlc_text ∷ more)))))) = do
  ts ← parse_busmaster_timestamp stamp
  id ← parse_uint32_hex (trim_prefix (trim_prefix id_text (codes "0x")) (codes "0X"))
  dlc ← parse_uint 8 dlc_text
  bytes ← busmaster_bytes (take dlc more)
  some (
    record {
      offset_ns = 0;
      id = id;
      transmit = equal direction (codes "Tx");
      remote = contains (to_lower kind) (codes "r");
      length = dlc;
      bytes = bytes;
    },
    ts,
  )
busmaster_fields _ = none

unfoldable pub parse_busmaster_line : Bytes → Option (LogEntry × ℕ)
parse_busmaster_line line = busmaster_fields (fields line)

unfoldable pub parse_busmaster : List Bytes → List LogEntry
parse_busmaster lines =
    parse_lines (λ line. equal line [] || has_prefix line (codes "***")) parse_busmaster_line
      (2 ^ 64 - 1) lines

pub data LogFormat : Type 0 where
  mf4 : LogFormat
  busmaster : LogFormat
  candump : LogFormat

-- DetectParser, from whether the file is MF4 and from its first line.
unfoldable pub detect_parser : Bool → List Bytes → Option LogFormat
detect_parser true lines = some mf4
detect_parser false [] = none
detect_parser false (line ∷ lines) =
    if has_prefix line (codes "***BUSMASTER")
    then some busmaster
    else if has_prefix line (codes "(")
    then some candump
    else none

-- The message that Receive sends for an entry; the time and the connection's number are given.
unfoldable pub to_message : ℕ → ℕ → LogEntry → CanMessageTimestamped
to_message now id entry = record {
  timestamp = now;
  interface = id;
  id = entry.id;
  transmit = entry.transmit;
  remote = entry.remote;
  length = entry.length;
  bytes = pad_or_trim entry.bytes 8;
}
