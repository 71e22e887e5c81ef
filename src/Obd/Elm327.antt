-- ===== src/Obd/Elm327.antt =====
-- internal/obd/elm327.go: the commands of the AT set. Its monitor is that of Device with ATMA.
use Prim.Native.Nat.{bit_and, bit_or, bit_xor}
use cantou.Common.{
  ℕ, ◌-◌, ◌^◌, Bool, true, false, ◌||◌, Option, none, some, List, [], ◌∷◌, ◌++◌, Bytes, codes,
  if◌then◌else◌, equal, to_upper, length, replicate,
}
use cantou.Common.HexUint.{format_upper_hex}
use cantou.Common.Split.{split_on}
use cantou.Obd.{Frame, Protocol, parse_line, is_status_token, trim_space, without_blanks}
use cantou.Obd.Device.{Device, Read, command, expect_ok, monitor}

-- `%0*X`
unfoldable pub padded_hex : ℕ → ℕ → Bytes
padded_hex width n = let s = format_upper_hex n in replicate (width - length s) b'0' ++ s

-- The commands behind the reset, which have to be acknowledged.
abbrev pub init_commands : Protocol → List Bytes
init_commands proto =
    codes "ATE0"
    ∷ (codes "ATL0"
        ∷ (codes "ATS0"
            ∷ (codes "ATH1"
                ∷ (codes "ATCAF0" ∷ (codes "ATCFC0" ∷ ((codes "ATSP" ++ proto.selector) ∷ []))))))

-- Commands up to the first that is not acknowledged.
unfoldable pub expect_all : List Bytes → Device → Bool × Device
expect_all [] d = (true, d)
expect_all (cmd ∷ cmds) d =
    let (ok, d') = expect_ok cmd d in
    let rest = expect_all cmds d' in if ok then rest else (false, d')

abbrev after_reset : Option Bytes → List Bytes → Device → Bool × Device
after_reset none cmds d = (false, d)
after_reset (some banner) cmds d = expect_all cmds d

unfoldable pub init : Protocol → Device → Bool × Device
init proto d =
    let (banner, d') = command (codes "ATZ") d in after_reset banner (init_commands proto) d'

-- The loop of combinedFilter, from the code and the disjunction so far.
unfoldable pub combine : ℕ → ℕ → List ℕ → ℕ × ℕ
combine code or_all [] = (code, or_all)
combine code or_all (id ∷ ids) = combine (bit_and code id) (bit_or or_all id) ids

-- The code and the mask; the complement is that of a uint32.
unfoldable pub combined_filter : List ℕ → ℕ × ℕ
combined_filter ids =
    let (code, or_all) = combine 0x7FF 0 ids in
    (code, bit_and (2 ^ 32 - 1 - bit_xor or_all code) 0x7FF)

unfoldable pub clear_rx_filter : Device → Bool × Device
clear_rx_filter d = expect_ok (codes "ATCM000") d

unfoldable pub set_rx_filter : List ℕ → Device → Bool × Device
set_rx_filter [] d = clear_rx_filter d
set_rx_filter (id ∷ ids) d =
    let (code, mask) = combined_filter (id ∷ ids) in
    expect_all ((codes "ATCF" ++ padded_hex 3 code) ∷ ((codes "ATCM" ++ padded_hex 3 mask) ∷ [])) d

unfoldable pub monitor_all : Protocol → List Read → Device → Bool × List Frame × Device
monitor_all proto reads d = monitor (codes "ATMA") proto.extended reads d

abbrev add_response : Option Frame → List Frame → List Frame
add_response none frames = frames
add_response (some f) frames = f ∷ frames

-- The frames of the parts of a response, from the first on.
unfoldable pub parse_parts : Bool → List Bytes → List Frame
parse_parts extended [] = []
parse_parts extended (raw ∷ parts) =
    let line = trim_space raw in
    let rest = parse_parts extended parts in
    if equal line [] || is_status_token line
    then rest
    else add_response (parse_line line extended) rest

unfoldable pub parse_response_frames : Bytes → Bool → List Frame
parse_response_frames resp extended = parse_parts extended (split_on 32 resp)

abbrev parsed_response : Option Bytes → Bool → Option (List Frame)
parsed_response none extended = none
parsed_response (some resp) extended = some (parse_response_frames resp extended)

unfoldable pub request : Protocol → Bytes → Device → Option (List Frame) × Device
request proto service_hex d =
    let (resp, d') = command (to_upper (without_blanks (trim_space service_hex))) d in
    (parsed_response resp proto.extended, d')
