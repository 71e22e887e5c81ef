-- ===== src/Obd/Target.antt =====
-- internal/obd/uri.go: the URI of an adapter, a serial path or a Bluetooth address. The pattern of an
-- address, which the code has as a regular expression, is written out. Of an error only that there is one.
use mathlib.Core.List.{reverse}
use cantou.Common.{
  ℕ, zero, suc, ◌+◌, ◌*◌, Bool, true, false, ◌&&◌, ◌||◌, ◌==◌, ltb, Option, none, some, List, [],
  ◌∷◌, ◌++◌, map, Bytes, codes, equal, has_prefix, to_upper, if◌then◌else◌, ◌>>=◌, length, drop,
}
use cantou.Common.Decimal.{parse_uint}
use cantou.Common.Hex.{hex_value, digits_from}
use cantou.Common.Split.{cut_at}
use cantou.Obd.{trim_space}
pub mod Texts
pub mod RoundTrip
mod Tests

-- Of an address: its bytes in network order, its text, and the channel, 0 for one to be found.
pub data Target : Type 0 where
  target_serial : Bytes → Target
  target_rfcomm : Bytes → Bytes → ℕ → Target

abbrev pub is_separator : ℕ → Bool
is_separator c = c == b':' || c == b'-'

abbrev is_some {ℓ} : {A : Type ℓ} → Option A → Bool
is_some none = false
is_some (some a) = true

unfoldable pub is_hex : ℕ → Bool
unfolding hex_value
is_hex c = is_some (hex_value c)

-- `n` octets, each with a separator behind it, and one more.
unfoldable pub octets : ℕ → Bytes → Bool
octets zero (a ∷ (b ∷ [])) = is_hex a && is_hex b
octets (suc n) (a ∷ (b ∷ (c ∷ s))) = is_hex a && (is_hex b && (is_separator c && octets n s))
octets _ _ = false

unfoldable pub mac_pattern : Bytes → Bool
unfolding octets
mac_pattern s = octets 5 s

abbrev pub flushed : Bytes → List Bytes
flushed [] = []
flushed (b ∷ word) = (b ∷ word) ∷ []

-- strings.FieldsFunc, with the part read so far.
unfoldable pub fields_func : Bytes → Bytes → List Bytes
fields_func word [] = flushed word
fields_func word (c ∷ s) =
    (if is_separator c then flushed word else [])
    ++ fields_func (if is_separator c then [] else word ++ (c ∷ [])) s

abbrev in_byte : ℕ → Option ℕ
in_byte n = if ltb n 256 then some n else none

-- strconv.ParseUint(p, 16, 8)
unfoldable pub parse_octet : Bytes → Option ℕ
unfolding digits_from
parse_octet [] = none
parse_octet (c ∷ s) = do n ← digits_from 0 (c ∷ s); in_byte n

unfoldable pub parse_octets : List Bytes → Option Bytes
unfolding parse_octet
parse_octets [] = some []
parse_octets (p ∷ ps) = do b ← parse_octet p; bs ← parse_octets ps; some (b ∷ bs)

unfoldable pub parse_mac : Bytes → Option Bytes
unfolding mac_pattern fields_func parse_octets
parse_mac s = if mac_pattern s then parse_octets (fields_func [] s) else none

-- An empty channel is 0.
unfoldable pub parse_channel : Bytes → Option ℕ
unfolding parse_uint
parse_channel [] = some 0
parse_channel (c ∷ s) = do n ← parse_uint 8 (c ∷ s); if ltb n 1 || ltb 30 n then none else some n

-- strings.ReplaceAll(s, "-", ":")
abbrev pub with_colons : Bytes → Bytes
with_colons = map (λ c. if c == b'-' then b':' else c)

unfoldable pub parse_rfcomm : Bytes → Bytes → Option Target
unfolding parse_mac parse_channel
parse_rfcomm mac_part channel_part = do
  mac ← parse_mac mac_part
  channel ← parse_channel channel_part
  some (target_rfcomm mac (to_upper (with_colons mac_part)) channel)

abbrev pub scheme : Bytes
scheme = codes "rfcomm://"

abbrev parse_parts : Bytes → Option (Bytes × Bytes) → Option Target
parse_parts rest none = parse_rfcomm rest []
parse_parts rest (some (mac_part, channel_part)) = parse_rfcomm mac_part channel_part

-- `none` stands for an error.
unfoldable pub parse_uri : Bytes → Option Target
parse_uri uri =
    let raw = trim_space uri in
    let rest = drop (length scheme) raw in
    if equal raw []
    then none
    else if has_prefix raw scheme
    then parse_parts rest (cut_at b'/' rest)
    else if mac_pattern raw
    then parse_rfcomm raw []
    else some (target_serial raw)

-- The byte order of Linux's socket addresses.
abbrev pub bdaddr : Bytes → Bytes
bdaddr mac = reverse mac
