-- ===== src/Prometheus.antt =====
-- internal/output/prometheus/client.go: the metrics of frames and signals. The registry and the HTTP
-- server are third-party; what the handlers ask of a metric is a list of its labels.
use cantou.Common.{
  ℕ, zero, suc, ◌/◌, ◌%◌, Bool, true, false, ◌==◌, Option, none, some, List, [], ◌∷◌, ◌++◌, Bytes,
  codes, if◌then◌else◌, ◌>>=◌,
}
use cantou.Common.Hex.{upper_digit}
use cantou.Models.{CanMessageTimestamped, CanSignalTimestamped}
use cantou.Client.Filters.{FilterSet, should_filter}
pub mod Counts
mod Tests

-- The loop that fills the buffer from its end. At most `fuel` digits; a 32-bit number has at most eight.
unfoldable pub hex_loop : ℕ → ℕ → Bytes → Bytes
hex_loop zero id digits = digits
hex_loop (suc fuel) id digits =
    let rest = hex_loop fuel (id / 16) (upper_digit (id % 16) ∷ digits) in
    if id == 0 then digits else rest

unfoldable pub format_can_id_hex : ℕ → Bytes
format_can_id_hex id = if id == 0 then codes "0x0" else codes "0x" ++ hex_loop 16 id []

abbrev pub name_or_empty : Option Bytes → Bytes
name_or_empty none = []
name_or_empty (some name) = name

-- The labels of can_frames_total: the interface and the identifier.
abbrev pub FrameLabels : Type 0
FrameLabels = Bytes × Bytes

-- The labels of can_signal_value: interface, message, signal and unit.
abbrev pub SignalLabels : Type 0
SignalLabels = Bytes × Bytes × Bytes × Bytes

-- The resolver gives the name of the interface of a connection, if there is one.
module _ (resolver : ℕ → Option Bytes) where
  abbrev pub frame_labels : CanMessageTimestamped → FrameLabels
  frame_labels m = (name_or_empty (resolver m.interface), format_can_id_hex m.id)

  abbrev pub unless_filtered : Option Bytes → FrameLabels → List FrameLabels → List FrameLabels
  unless_filtered none labels later = labels ∷ later
  unless_filtered (some name) labels later = later

  -- The counters that are increased, in order; `none` when a filter panics.
  unfoldable pub handle_can_message_channel :
      FilterSet → List CanMessageTimestamped → Option (List FrameLabels)
  handle_can_message_channel filters [] = some []
  handle_can_message_channel filters (m ∷ ms) = do
    filtered ← should_filter filters m
    later ← handle_can_message_channel filters ms
    some (unless_filtered filtered (frame_labels m) later)

  abbrev pub signal_labels : CanSignalTimestamped → SignalLabels
  signal_labels s = (name_or_empty (resolver s.interface), s.message, s.signal, s.unit)

  -- The gauges that are set, in order, and their values.
  unfoldable pub handle_signal_channel : List CanSignalTimestamped → List (SignalLabels × ℕ)
  handle_signal_channel [] = []
  handle_signal_channel (s ∷ ss) = (signal_labels s, s.value) ∷ handle_signal_channel ss
