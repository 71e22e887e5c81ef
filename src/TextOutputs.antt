-- ===== src/TextOutputs.antt =====
-- internal/parser/crtd/writer.go and internal/parser/csv/writer.go: the records of the text outputs.
-- The quoting of CSV is a library call. The text of a float64 is a parameter. Timestamps are past 1970.
use cantou.Common.{
  ℕ, zero, suc, ◌+◌, ◌/◌, ◌%◌, Bool, true, false, Option, none, some, List, [], ◌∷◌, ◌++◌, map,
  Bytes, codes, if◌then◌else◌, ltb, ◌>>=◌,
}
use cantou.Common.Decimal.{format_uint}
use cantou.Common.FixedDecimal.{fixed_decimal}
use cantou.Common.Hex.{fixed_hex}
use cantou.Common.HexUint.{format_upper_hex, lower_digit}
use cantou.Common.Split.{join}
use cantou.Models.{CanMessageTimestamped, CanSignalTimestamped}
use cantou.Client.Filters.{FilterSet, should_filter}
pub mod CrtdLines
pub mod Files
pub mod Clients
pub mod Written
pub mod CrtdFiles
mod Tests

-- The microseconds are below 10^6, so that six digits are enough.
abbrev pub crtd_time : ℕ → Bytes
crtd_time timestamp =
    format_uint (timestamp / 1000000000) ++ (b'.' ∷ fixed_decimal 6 (timestamp % 1000000000 / 1000))

abbrev pub record_type : Bool → ℕ → Bytes
record_type transmit id =
    (if transmit then codes "T" else codes "R") ++ (if ltb 0x7FF id then codes "29" else codes "11")

-- Append of the CRTD CAN writer, without the line's end.
unfoldable pub crtd_can_line : ℕ → ℕ → ℕ → Bool → Bytes → Bytes
crtd_can_line timestamp interface_id id transmit bytes =
    crtd_time timestamp
    ++ (32
        ∷ ((format_uint interface_id ++ record_type transmit id)
            ++ (32 ∷ (format_upper_hex id ++ (32 ∷ join 32 (map (fixed_hex 2) bytes))))))

abbrev pub encode_lower : Bytes → Bytes
encode_lower [] = []
encode_lower (b ∷ bs) = lower_digit (b / 16) ∷ (lower_digit (b % 16) ∷ encode_lower bs)

abbrev pub format_bool : Bool → Bytes
format_bool true = codes "true"
format_bool false = codes "false"

-- The fields of a row of the CSV CAN writer.
unfoldable pub csv_can_row : Bytes → CanMessageTimestamped → List Bytes
csv_can_row interface_name m =
    format_uint m.timestamp
    ∷ (format_uint m.id
        ∷ (interface_name
            ∷ (format_bool m.remote
                ∷ (format_bool m.transmit ∷ (format_uint m.length ∷ (encode_lower m.bytes ∷ []))))))

module _ (format_float : ℕ → Bytes) where
  -- Append of the CRTD signal writer.
  unfoldable pub crtd_signal_line : ℕ → CanSignalTimestamped → Bytes
  crtd_signal_line interface_id s =
      crtd_time s.timestamp
      ++ (32
          ∷ (format_uint interface_id
              ++ (codes "SIG "
                  ++ (s.message
                      ++ (b'/' ∷ (s.signal ++ (32 ∷ (format_float s.value ++ (32 ∷ s.unit)))))))))

  -- The fields of a row of the CSV signal writer.
  unfoldable pub csv_signal_row : Bytes → CanSignalTimestamped → List Bytes
  csv_signal_row interface_name s =
      format_uint s.timestamp
      ∷ (interface_name ∷ (s.message ∷ (s.signal ∷ (format_float s.value ∷ (s.unit ∷ [])))))

abbrev pub name_or_nil : Option Bytes → Bytes
name_or_nil none = []
name_or_nil (some name) = name
