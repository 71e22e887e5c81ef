-- ===== src/Mqtt/Tests.antt =====
-- Topics and publications, and the theorem at some frames.
use cantou.Common.{ℕ, ◌≡◌, ◌≢◌, refl, true, false, Option, some, [], ◌∷◌, Bytes, codes, arith}
use cantou.Common.Decimal.{format_uint}
use cantou.Common.HexUint.{format_hex}
use cantou.Models.{CanMessageTimestamped, CanSignalTimestamped}
use cantou.Mqtt.{
  Settings, MqttCanMessage, get_topic_from_message, get_topic_from_signal,
  handle_can_message_channel, Roots, build_tls_config,
}
use cantou.Client.Filters.{should_filter}
use cantou.Mqtt.Topics.{topics-apart}

abbrev resolver : ℕ → Option Bytes
resolver i = some (codes "can0")

abbrev frame : ℕ → ℕ → CanMessageTimestamped
frame interface id = record {
  timestamp = 1;
  interface = interface;
  id = id;
  transmit = false;
  remote = false;
  length = 1;
  bytes = 0xA5 ∷ [];
}

abbrev signal : CanSignalTimestamped
signal = record {
  timestamp = 1;
  interface = 2;
  id = 1;
  message = codes "ENGINE";
  signal = codes "RPM";
  value = 5;
  unit = codes "1/min";
}

message_topic :
    get_topic_from_message resolver (codes "cars/one") (frame 2 0x18DAF110)
    ≡ codes "/cars/one/can0/2/messages/0x18daf110"
unfolding get_topic_from_message format_uint format_hex
message_topic = refl

signal_topic :
    get_topic_from_signal resolver (codes "cars/one") signal
    ≡ codes "/cars/one/can0/2/signals/ENGINE/RPM"
unfolding get_topic_from_signal format_uint
signal_topic = refl

abbrev settings : Settings
settings = record { topic = codes "t"; qos = 1; shadow_copy = false }

-- stands for the text of a record
abbrev marshal : MqttCanMessage → Option Bytes
marshal m = some m.bytes

-- What comes while the client is not connected is dropped.
dropped_offline :
    handle_can_message_channel resolver marshal settings []
      ((false, frame 0 1) ∷ ((true, frame 0 2) ∷ []))
    ≡ some (
        record {
          topic = codes "/t/can0/0/messages/0x2";
          qos = 1;
          retained = false;
          payload = codes "a5";
        }
        ∷ [])
unfolding handle_can_message_channel should_filter format_uint format_hex
dropped_offline = refl

no_certificates : build_tls_config (λ path. some []) (λ pem. false) (codes "ca.pem") ≡ Roots.refused
unfolding build_tls_config
no_certificates = refl

topics-apart_example :
    (get_topic_from_message resolver (codes "t") (frame 0 1)
        ≡ get_topic_from_message resolver (codes "t") (frame 2 3)
      → (◌≡◌ {A = ℕ} 0 2) × (◌≡◌ {A = ℕ} 1 3))
    × (get_topic_from_message resolver (codes "t") (frame 0 1)
        ≢ get_topic_from_signal resolver (codes "t") signal)
topics-apart_example =
    topics-apart resolver (λ i. (refl, (refl, (refl, (refl, tt))))) (codes "t") (frame 0 1)
      (frame 2 3) signal (omega arith) (omega arith) (omega arith) (omega arith) (omega arith)
