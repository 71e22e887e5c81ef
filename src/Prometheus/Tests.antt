-- ===== src/Prometheus/Tests.antt =====
-- A run of the handlers, and the theorem at it.
use cantou.Common.{
  ℕ, ◌≡◌, refl, Option, some, none, false, List, [], ◌∷◌, Bytes, codes, arith, if◌then◌else◌, ◌==◌,
}
use cantou.Models.{CanMessageTimestamped, CanSignalTimestamped}
use cantou.Client.Filters.{FilterSet, should_filter, interface_filter}
use cantou.Prometheus.{
  format_can_id_hex, hex_loop, FrameLabels, handle_can_message_channel, handle_signal_channel,
}
use cantou.Prometheus.Counts.{counted, received, handle_can_message_channel-counted}

abbrev resolver : ℕ → Option Bytes
resolver i = if i == 0 then some (codes "can0") else none

abbrev frame : ℕ → ℕ → CanMessageTimestamped
frame interface id = record {
  timestamp = 1;
  interface = interface;
  id = id;
  transmit = false;
  remote = false;
  length = 0;
  bytes = [];
}

abbrev filters : FilterSet
filters = (codes "one", λ m. some (interface_filter 1 m)) ∷ []

abbrev session : List CanMessageTimestamped
session = frame 0 0x7E8 ∷ (frame 1 0x7E8 ∷ (frame 0 0 ∷ (frame 0 0x7E8 ∷ [])))

session-labels :
    handle_can_message_channel resolver filters session
    ≡ some (
        (codes "can0", codes "0x7E8")
        ∷ ((codes "can0", codes "0x0") ∷ ((codes "can0", codes "0x7E8") ∷ [])))
unfolding handle_can_message_channel should_filter format_can_id_hex hex_loop
session-labels = refl

abbrev rpm : CanSignalTimestamped
rpm = record {
  timestamp = 1;
  interface = 3;
  id = 1;
  message = codes "ENGINE";
  signal = codes "RPM";
  value = 5;
  unit = codes "1/min";
}

gauges :
    handle_signal_channel resolver (rpm ∷ [])
    ≡ (([], codes "ENGINE", codes "RPM", codes "1/min"), 5) ∷ []
unfolding handle_signal_channel
gauges = refl

handle_can_message_channel-counted_example :
    (ls : List FrameLabels) × (handle_can_message_channel resolver filters session ≡ some ls)
    × (counted (codes "can0", format_can_id_hex 0x7E8) ls
        ≡ received resolver filters (codes "can0") 0x7E8 session)
handle_can_message_channel-counted_example =
    handle_can_message_channel-counted resolver filters (codes "can0") 0x7E8 session (omega arith)
      (omega arith) (unfold should_filter in ((λ e. cc), ((λ e. cc), ((λ e. cc), ((λ e. cc), tt)))))
