-- ===== src/Obd/Target/Tests.antt =====
-- URIs of adapters, and the theorem at an address.
use cantou.Common.{◌≡◌, refl, some, none, [], ◌∷◌, ◌++◌, codes, arith, Bytes, equal, has_prefix}
use cantou.Common.Decimal.{format_uint}
use cantou.Obd.Target.{target_serial, target_rfcomm, parse_uri, mac_pattern, octets, is_hex, scheme}
use cantou.Obd.Target.Texts.{mac_text}
use cantou.Obd.Target.RoundTrip.{parse_uri-mac_text}

serial_path : parse_uri (codes " /dev/ttyUSB0 ") ≡ some (target_serial (codes "/dev/ttyUSB0"))
unfolding parse_uri equal has_prefix mac_pattern octets is_hex
serial_path = refl

empty_refused : parse_uri (codes "  ") ≡ none
unfolding parse_uri equal
empty_refused = refl

abbrev mac : Bytes
mac = 0 ∷ (0x1D ∷ (0xA5 ∷ (0xFF ∷ (16 ∷ (1 ∷ [])))))

parse_uri-mac_text_example :
    (parse_uri (scheme ++ (mac_text mac ++ (b'/' ∷ format_uint 12)))
      ≡ some (target_rfcomm mac (mac_text mac) 12))
    × (parse_uri (scheme ++ mac_text mac) ≡ some (target_rfcomm mac (mac_text mac) 0))
    × (parse_uri (mac_text mac) ≡ some (target_rfcomm mac (mac_text mac) 0))
parse_uri-mac_text_example =
    parse_uri-mac_text mac (omega arith) (omega arith) 12 (omega arith) (omega arith)
