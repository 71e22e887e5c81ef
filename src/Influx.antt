-- ===== src/Influx.antt =====
-- internal/output/influxdb: models.go, and of client.go the rows that frames and signals become.
-- The database client is third-party: what the code hands to WriteData is an output of the model.
-- The resolver of interface numbers is a parameter.
use cantou.Common.{
  ℕ, zero, suc, ◌+◌, ◌-◌, Bool, Option, none, some, List, [], ◌∷◌, ◌++◌, Bytes, if◌then◌else◌, leb,
  length, replicate, take, map, ◌>>=◌,
}
use cantou.Common.Decimal.{format_uint}
use cantou.Common.HexUint.{format_hex}
use cantou.Common.Split.{join}
use cantou.Models.{CanMessageTimestamped, CanSignalTimestamped}
pub mod Batches
pub mod Rows
pub mod Bounds
pub mod Delivery
pub mod Drain
mod Merge
pub mod Tests

pub record InfluxDbCanMessage : Type 0 where
  pub timestamp : ℕ
  pub interface : Bytes
  pub transmit : ℕ
  pub id : Bytes
  pub length : ℕ
  pub remote : ℕ
  pub bytes : Bytes
  pub measurement : Bytes

pub record InfluxDbSignalMessage : Type 0 where
  pub timestamp : ℕ
  pub interface : Bytes
  pub message : Bytes
  pub signal : Bytes
  pub unit : Bytes
  pub value : ℕ
  pub measurement : Bytes

unfoldable pub bool_to_int : Bool → ℕ
bool_to_int b = if b then 1 else 0

unfoldable pub format_can_id : ℕ → Bytes
format_can_id id =
    let s = format_hex id in if leb 3 (length s) then s else replicate (3 - length s) b'0' ++ s

-- The loop over the data: the bytes from `i` on that are still to be written. An index out of
-- range is a panic: no result.
unfoldable pub data_text : (n i : ℕ) → Bytes → Option Bytes
unfolding format_uint
data_text zero i bs = some []
data_text (suc n) i [] = none
data_text (suc n) i (b ∷ bs) =
    (data_text n (i + 1) bs)
    >>= (λ rest. some ((if leb 1 i then b',' ∷ [] else []) ++ (format_uint b ++ rest)))

unfoldable pub interface_name : (ℕ → Option Bytes) → ℕ → Bytes
interface_name resolver id = elim (resolver id) [ none ↦ [] | some name ↦ name ]

module _ (resolver : ℕ → Option Bytes) (measurement : Bytes) where
  unfoldable pub convert_msg : CanMessageTimestamped → Option InfluxDbCanMessage
  convert_msg m = do
    text ← data_text m.length 0 m.bytes
    some (record {
      timestamp = m.timestamp;
      interface = interface_name resolver m.interface;
      transmit = bool_to_int m.transmit;
      id = format_can_id m.id;
      length = m.length;
      remote = bool_to_int m.remote;
      bytes = text;
      measurement = measurement;
    })

  unfoldable pub convert_many : List CanMessageTimestamped → Option (List InfluxDbCanMessage)
  convert_many [] = some []
  convert_many (m ∷ ms) = do row ← convert_msg m; rows ← convert_many ms; some (row ∷ rows)

  unfoldable pub convert_signal : CanSignalTimestamped → InfluxDbSignalMessage
  convert_signal s = record {
    timestamp = s.timestamp;
    interface = interface_name resolver s.interface;
    message = s.message;
    signal = s.signal;
    unit = s.unit;
    value = s.value;
    measurement = measurement;
  }

  -- What HandleSignal and writeSignals hand to the signal client; nothing without one.
  unfoldable pub write_signals : Bool → List CanSignalTimestamped → List InfluxDbSignalMessage
  write_signals has_client ss = if has_client then map convert_signal ss else []

  unfoldable pub handle_signal : Bool → CanSignalTimestamped → List InfluxDbSignalMessage
  handle_signal has_client s = if has_client then convert_signal s ∷ [] else []
