-- ===== src/Mqtt.antt =====
-- internal/output/mqtt/client.go and models.go: the topics and payloads that are published. The MQTT
-- client and encoding/json are third-party: whether the client is connected comes with each value, and
-- the text of a record is a parameter. Waiting for acknowledgements is left out.
use cantou.Common.{
  ℕ, Bool, true, false, Option, none, some, List, [], ◌∷◌, ◌++◌, Bytes, codes, if◌then◌else◌, ◌>>=◌,
}
use cantou.Common.Decimal.{format_uint}
use cantou.Common.HexUint.{format_hex, lower_digit}
use cantou.Models.{CanMessageTimestamped, CanSignalTimestamped}
use cantou.Client.Filters.{FilterSet, should_filter}
use cantou.TextOutputs.{encode_lower}
pub mod Topics
mod Tests

pub record MqttCanMessage : Type 0 where
  pub timestamp : ℕ
  pub interface : Bytes
  pub id : Bytes
  pub transmit : Bool
  pub remote : Bool
  pub length : ℕ
  pub bytes : Bytes

-- What the client is given besides the topic and the payload.
pub record Settings : Type 0 where
  pub topic : Bytes
  pub qos : ℕ
  pub shadow_copy : Bool

pub record Publication : Type 0 where
  pub topic : Bytes
  pub qos : ℕ
  pub retained : Bool
  pub payload : Bytes

abbrev pub name_or {ℓ} : {A : Type ℓ} → A → Option A → A
name_or other none = other
name_or other (some name) = name

abbrev pub slash : ℕ
slash = b'/'

-- The resolver gives the name of a connection, if there is one.
module _ (resolver : ℕ → Option Bytes) where
  abbrev pub connection_name : ℕ → Bytes
  connection_name interface = name_or (codes "unknown") (resolver interface)

  -- What the topics of an interface begin with.
  abbrev pub base_topic : Bytes → ℕ → Bytes → Bytes
  base_topic topic interface rest =
      slash
      ∷ (topic
          ++ (slash ∷ (connection_name interface ++ (slash ∷ (format_uint interface ++ rest)))))

  unfoldable pub get_topic_from_message : Bytes → CanMessageTimestamped → Bytes
  get_topic_from_message topic m =
      base_topic topic m.interface (slash ∷ (codes "messages/0x" ++ format_hex m.id))

  unfoldable pub get_topic_from_signal : Bytes → CanSignalTimestamped → Bytes
  get_topic_from_signal topic s =
      base_topic topic s.interface (slash ∷ (codes "signals/" ++ (s.message ++ (slash ∷ s.signal))))

  unfoldable pub wire_message : CanMessageTimestamped → MqttCanMessage
  wire_message m = record {
    timestamp = m.timestamp;
    interface = name_or [] (resolver m.interface);
    id = codes "0x" ++ format_hex m.id;
    transmit = m.transmit;
    remote = m.remote;
    length = m.length;
    bytes = encode_lower m.bytes;
  }

  abbrev pub publication : Settings → Bytes → Bytes → Publication
  publication s topic payload = record {
    topic = topic;
    qos = s.qos;
    retained = s.shadow_copy;
    payload = payload;
  }

  module _ (marshal : MqttCanMessage → Option Bytes) (settings : Settings) where
    abbrev publish_marshalled : CanMessageTimestamped → Option Bytes → List Publication
    publish_marshalled m none = []
    publish_marshalled m (some payload) =
        publication settings (get_topic_from_message settings.topic m) payload ∷ []

    abbrev unless_filtered : CanMessageTimestamped → Option Bytes → List Publication
    unless_filtered m none = publish_marshalled m (marshal (wire_message m))
    unless_filtered m (some name) = []

    -- `none` when a filter panics.
    unfoldable pub handle_can_message :
        FilterSet → Bool → CanMessageTimestamped → Option (List Publication)
    unfolding get_topic_from_message wire_message
    handle_can_message filters connected m =
        if connected
        then (should_filter filters m) >>= (λ filtered. some (unless_filtered m filtered))
        else some []

    unfoldable pub handle_can_message_channel :
        FilterSet → List (Bool × CanMessageTimestamped) → Option (List Publication)
    unfolding handle_can_message
    handle_can_message_channel filters [] = some []
    handle_can_message_channel filters ((connected, m) ∷ ms) = do
      now ← handle_can_message filters connected m
      later ← handle_can_message_channel filters ms
      some (now ++ later)

  module _ (format_float : ℕ → Bytes) (settings : Settings) where
    unfoldable pub handle_signal : Bool → CanSignalTimestamped → List Publication
    unfolding get_topic_from_signal
    handle_signal connected s =
        if connected
        then publication settings (get_topic_from_signal settings.topic s) (format_float s.value)
          ∷ []
        else []

    unfoldable pub handle_signal_channel : List (Bool × CanSignalTimestamped) → List Publication
    unfolding handle_signal
    handle_signal_channel [] = []
    handle_signal_channel ((connected, s) ∷ ss) =
        handle_signal connected s ++ handle_signal_channel ss

-- The roots of a TLS connection: those of the system, or those of a file alone; `refused` is an error.
pub data Roots : Type 0 where
  system_roots : Roots
  only : Bytes → Roots
  refused : Roots

module _ (read_file : Bytes → Option Bytes) (has_certificates : Bytes → Bool) where
  abbrev roots_in : Option Bytes → Roots
  roots_in none = refused
  roots_in (some pem) = if has_certificates pem then only pem else refused

  unfoldable pub build_tls_config : Bytes → Roots
  build_tls_config [] = system_roots
  build_tls_config (c ∷ path) = roots_in (read_file (c ∷ path))
