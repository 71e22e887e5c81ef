-- ===== src/Playback/Tests.antt =====
-- Text logs at concrete lines, and the theorem about them.
use cantou.Common.{
  ◌≡◌, refl, some, true, false, [], ◌∷◌, map, codes, arith, equal, has_prefix, contains,
}
use cantou.Common.Decimal.{format_uint, parse_uint, decimal_from}
use cantou.Common.Hex.{parse_uint32_hex, digits_from, hex_value}
use cantou.Client.SignalFilter.{split_n}
use cantou.Playback.{
  parse_candump, parse_busmaster_line, busmaster_fields, busmaster_bytes, parse_busmaster_timestamp,
  parse_int, fields, fields_from, detect_parser, candump,
}
use cantou.Playback.CandumpLine.{Stamped, line_text, time_of}
use cantou.Playback.Candump.{entry_at, parse_candump-line_text}

abbrev first_frame : Stamped
first_frame = record {
  seconds = 1700000000;
  micros = 250000;
  id = 0x7E8;
  extended = false;
  transmit = false;
  bytes = 4 ∷ (65 ∷ []);
}

abbrev next_frame : Stamped
next_frame = record first_frame { micros = 250010; transmit = true }

first_line : line_text (codes "can0") first_frame ≡ codes "(1700000000.250000) can0 7E8#0441 R"
unfolding format_uint
first_line = refl

candump_file : detect_parser false (codes "(1700000000.250000) can0 7E8#0441" ∷ []) ≡ some candump
unfolding detect_parser has_prefix
candump_file = refl

busmaster_line :
    parse_busmaster_line (codes "1:0:0:0005 Tx 1 0x7E8 s 2 04 41")
    ≡ some (
      record {
        offset_ns = 0;
        id = 0x7E8;
        transmit = true;
        remote = false;
        length = 2;
        bytes = 4 ∷ (65 ∷ []);
      },
      3600005000000,
    )
unfolding parse_busmaster_line busmaster_fields busmaster_bytes parse_busmaster_timestamp parse_int
    fields fields_from split_n parse_uint decimal_from parse_uint32_hex digits_from hex_value equal
    has_prefix contains
busmaster_line = refl

parse_candump-line_text_example :
    parse_candump (map (line_text (codes "can0")) (first_frame ∷ (next_frame ∷ [])))
    ≡ map (entry_at (time_of first_frame)) (first_frame ∷ (next_frame ∷ []))
parse_candump-line_text_example =
    parse_candump-line_text (codes "can0") first_frame (next_frame ∷ [])
      ((λ e. cc e), (refl, (refl, (refl, (refl, tt)))))
      (omega arith, omega arith, omega arith, omega arith, (omega arith, (omega arith, tt)))
      ((omega arith, omega arith, omega arith, omega arith, (omega arith, (omega arith, tt))), tt)
