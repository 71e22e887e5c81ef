-- ===== src/Obd/Stn.antt =====
-- internal/obd/stn.go: the commands of the ST set, on top of those of elm327.go.
use cantou.Common.{
  ℕ, ◌/◌, ◌%◌, Bool, true, false, ◌||◌, Option, none, some, List, [], ◌∷◌, ◌++◌, Bytes, codes, map,
  if◌then◌else◌, ◌==◌, equal, contains, to_upper, length,
}
use cantou.Common.Decimal.{format_uint}
use cantou.Obd.{Frame, Protocol, trim_space, without_blanks}
use cantou.Obd.Device.{Device, Read, command, expect_ok, monitor}
use cantou.Obd.Elm327.{padded_hex, expect_all, init}

unfoldable pub clear_filters : Device → Bool × Device
clear_filters d = expect_ok (codes "STFPC") d

unfoldable pub init_stn : Protocol → Device → Bool × Device
init_stn proto d =
    let (ok, d') = init proto d in let rest = clear_filters d' in if ok then rest else (false, d')

abbrev filter_width : Bool → ℕ
filter_width true = 8
filter_width false = 4

abbrev filter_mask : Bool → ℕ
filter_mask true = 0x1FFFFFFF
filter_mask false = 0x7FF

unfoldable pub pass_filter : Bool → ℕ → Bytes
pass_filter extended id =
    codes "STFPA "
    ++ (padded_hex (filter_width extended) id
        ++ (codes "," ++ padded_hex (filter_width extended) (filter_mask extended)))

unfoldable pub set_pass_filters : Protocol → List ℕ → Device → Bool × Device
set_pass_filters proto ids d =
    let (ok, d') = clear_filters d in
    let rest = expect_all (map (pass_filter proto.extended) ids) d' in
    if ok then rest else (false, d')

unfoldable pub monitor_stn : Protocol → List Read → Device → Bool × List Frame × Device
monitor_stn proto reads d = monitor (codes "STM") proto.extended reads d

abbrev pub framed_request : Bytes → Option Bytes
framed_request clean =
    if equal clean [] || length clean % 2 == 1
    then none
    else some (padded_hex 2 (length clean / 2) ++ clean)

unfoldable pub obd_single_frame : Bytes → Option Bytes
obd_single_frame pid = framed_request (to_upper (without_blanks (trim_space pid)))

unfoldable pub is_error_response : Bytes → Bool
is_error_response resp =
    let up = to_upper resp in
    contains up (codes "?") || (contains up (codes "ERROR") || contains up (codes "OUT OF MEMORY"))

abbrev missing : Option Bytes → Bool
missing none = true
missing (some frame) = false

abbrev or_nothing : Option Bytes → Bytes
or_nothing none = []
or_nothing (some frame) = frame

-- A response that is missing or is an error.
abbrev refused : Option Bytes → Bool
refused none = true
refused (some resp) = is_error_response resp

unfoldable pub periodic_message : ℕ → Bytes → Bytes
periodic_message ms frame = codes "STPPMA " ++ (format_uint ms ++ (codes ", 7DF, " ++ frame))

-- The loop of StartPeriodic.
unfoldable pub add_periodic : ℕ → List Bytes → Device → Bool × Device
add_periodic ms [] d = (true, d)
add_periodic ms (pid ∷ pids) d =
    let frame = obd_single_frame pid in
    let (resp, d') = command (periodic_message ms (or_nothing frame)) d in
    let rest = add_periodic ms pids d' in
    if missing frame then (false, d) else if refused resp then (false, d') else rest

-- `period_ms` is the period in whole milliseconds; 0 stands for every number that is not positive.
unfoldable pub start_periodic : List Bytes → ℕ → Device → Bool × Device
start_periodic pids period_ms d =
    let (ok, d') = expect_ok (codes "STCMM 1") d in
    let rest = add_periodic (if period_ms == 0 then 1000 else period_ms) pids d' in
    if ok then rest else (false, d')

unfoldable pub stop_periodic : Device → Bool × Device
stop_periodic d = expect_all (codes "STPPMC" ∷ (codes "STCMM 0" ∷ [])) d
