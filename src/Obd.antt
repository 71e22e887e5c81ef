-- ===== src/Obd.antt =====
-- internal/obd/frame.go, canid.go, pid.go and protocol.go: the texts that OBD adapters and their
-- configuration use.
use mathlib.Core.List.{reverse}
use cantou.Common.{
  ℕ, zero, suc, ◌+◌, ◌%◌, Bool, true, false, not, ◌||◌, ◌&&◌, List, [], ◌∷◌, ◌++◌, map,
  if◌then◌else◌, ltb, leb, ◌==◌, Bytes, codes, equal, has_prefix, to_upper, any, length, take, drop,
  Option, some, none, ◌>>=◌,
}
use cantou.Common.Hex.{decode_hex, parse_uint32_hex}
pub mod Ids
pub mod Lines
pub mod Requests
pub mod Device
pub mod Elm327
pub mod Stn
pub mod Commands
pub mod Target
pub mod Rfcomm
mod Tests

-- strings.TrimSpace
abbrev is_space : ℕ → Bool
is_space c = c == 32 || (leb 9 c && leb c 13)

abbrev pub skip_spaces : Bytes → Bytes
skip_spaces [] = []
skip_spaces (c ∷ s) = let rest = skip_spaces s in if is_space c then rest else c ∷ s

abbrev pub trim_space : Bytes → Bytes
trim_space s = reverse (skip_spaces (reverse (skip_spaces s)))

-- strings.ReplaceAll(s, " ", "")
abbrev pub without_blanks : Bytes → Bytes
without_blanks [] = []
without_blanks (c ∷ s) = let rest = without_blanks s in if c == 32 then rest else c ∷ rest

pub record Frame : Type 0 where
  pub id : ℕ
  pub extended : Bool
  pub bytes : Bytes

abbrev pub non_frame_tokens : List Bytes
non_frame_tokens =
    codes "OK"
    ∷ (codes "NO DATA"
        ∷ (codes "CAN ERROR"
            ∷ (codes "BUFFER FULL"
                ∷ (codes "BUS BUSY"
                    ∷ (codes "BUS ERROR"
                        ∷ (codes "DATA ERROR"
                            ∷ (codes "STOPPED"
                                ∷ (codes "SEARCHING"
                                    ∷ (codes "UNABLE TO CONNECT"
                                        ∷ (codes "?" ∷ (codes "" ∷ [])))))))))))

abbrev pub banner_prefixes : List Bytes
banner_prefixes = codes "SEARCHING" ∷ (codes "ELM327" ∷ (codes "STN" ∷ (codes "OBDLINK" ∷ [])))

-- the body of IsStatusToken, on the trimmed line in upper case
unfoldable pub is_token : Bytes → Bool
is_token line = any (equal line) non_frame_tokens || any (has_prefix line) banner_prefixes

unfoldable pub is_status_token : Bytes → Bool
is_status_token line = is_token (to_upper (trim_space line))

abbrev pub id_len : Bool → ℕ
id_len true = 8
id_len false = 3

-- ParseLine from `clean` on; `none` stands for any of the errors.
unfoldable pub parse_clean : Bytes → Bool → Option Frame
parse_clean clean extended =
    if is_status_token clean
    then none
    else if ltb (length clean) (id_len extended)
    then none
    else do
      id ← parse_uint32_hex (take (id_len extended) clean)
      if length (drop (id_len extended) clean) % 2 == 1 then none else do
        bytes ← decode_hex (drop (id_len extended) clean)
        some (record { id = id; extended = extended; bytes = bytes })

unfoldable pub parse_line : Bytes → Bool → Option Frame
parse_line line extended = parse_clean (without_blanks (trim_space line)) extended

-- strings.TrimPrefix(s, p)
abbrev pub trim_prefix : Bytes → Bytes → Bytes
trim_prefix s p = if has_prefix s p then drop (length p) s else s

unfoldable pub parse_can_id : Bytes → Option ℕ
parse_can_id s =
    parse_uint32_hex (trim_prefix (trim_prefix (trim_space s) (codes "0x")) (codes "0X"))

unfoldable pub parse_can_ids : List Bytes → Option (List ℕ)
parse_can_ids [] = some []
parse_can_ids (s ∷ ss) =
    let rest = parse_can_ids ss in
    if equal (trim_space s) [] then rest else do id ← parse_can_id s; ids ← rest; some (id ∷ ids)

-- `n` numbers from `start` on
abbrev pub range : ℕ → ℕ → List ℕ
range start zero = []
range start (suc n) = start ∷ range (start + 1) n

-- 0x18DAF100|ecu is a sum, since the low digit of the constant is 0.
abbrev pub obd_response_ids : Bool → List ℕ
obd_response_ids true = range 0x18DAF100 16
obd_response_ids false = range 0x7E8 8

-- The inner loop; `seen` is the map, `out` the result so far.
unfoldable pub merge_list : List ℕ → List ℕ → List ℕ → List ℕ × List ℕ
merge_list seen out [] = (seen, out)
merge_list seen out (id ∷ ids) =
    let known = any (λ i. i == id) seen in
    merge_list (if known then seen else id ∷ seen) (if known then out else out ++ (id ∷ [])) ids

unfoldable pub merge_lists : List ℕ → List ℕ → List (List ℕ) → List ℕ
merge_lists seen out [] = out
merge_lists seen out (ids ∷ lists) =
    let (seen', out') = merge_list seen out ids in merge_lists seen' out' lists

abbrev pub merge_unique_ids : List (List ℕ) → List ℕ
merge_unique_ids lists = merge_lists [] [] lists

abbrev checked_pid : Bytes → Option Bytes
checked_pid [] = none
checked_pid (c ∷ clean) =
    if length (c ∷ clean) % 2 == 1
    then none
    else do bytes ← decode_hex (c ∷ clean); some (c ∷ clean)

unfoldable pub normalize_pid_request : Bytes → Option Bytes
normalize_pid_request req = checked_pid (to_upper (without_blanks (trim_space req)))

unfoldable pub normalize_pid_requests : List Bytes → Option (List Bytes)
normalize_pid_requests [] = some []
normalize_pid_requests (r ∷ reqs) =
    let rest = normalize_pid_requests reqs in
    if equal (trim_space r) []
    then rest
    else do n ← normalize_pid_request r; ns ← rest; some (n ∷ ns)

pub record Protocol : Type 0 where
  pub selector : Bytes
  pub extended : Bool
  pub label : Bytes

abbrev pub protocol_can11_500 : Protocol
protocol_can11_500 = record {
  selector = codes "6";
  extended = false;
  label = codes "ISO 15765-4 CAN 11-bit/500k";
}

unfoldable pub known_protocol : Bytes → Option Protocol
known_protocol s =
    if equal s (codes "0")
    then some (record { selector = codes "0"; extended = false; label = codes "Automatic" })
    else if equal s (codes "6")
    then some protocol_can11_500
    else if equal s (codes "7")
    then some (record {
      selector = codes "7";
      extended = true;
      label = codes "ISO 15765-4 CAN 29-bit/500k";
    })
    else if equal s (codes "8")
    then some (record {
      selector = codes "8";
      extended = false;
      label = codes "ISO 15765-4 CAN 11-bit/250k";
    })
    else if equal s (codes "9")
    then some (record {
      selector = codes "9";
      extended = true;
      label = codes "ISO 15765-4 CAN 29-bit/250k";
    })
    else none

abbrev or_custom : Bytes → Option Protocol → Protocol
or_custom s none = record { selector = s; extended = false; label = codes "Custom protocol " ++ s }
or_custom s (some p) = p

unfoldable pub protocol_for : Bytes → Protocol
protocol_for selector =
    let s = trim_space (to_upper selector) in
    if equal s [] then protocol_can11_500 else or_custom s (known_protocol s)
