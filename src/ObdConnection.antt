-- ===== src/ObdConnection.antt =====
-- internal/connection/obdconn/connection.go: the options of an OBD adapter, its link, and the frames
-- it forwards. The transports are system calls: what opening one and setting up the device come to
-- is an input of the model. Calls are taken one at a time.
use cantou.Common.{
  ℕ, ◌+◌, ◌*◌, ◌%◌, ◌^◌, Bool, true, false, not, ◌||◌, ◌&&◌, Option, none, some, List, [], ◌∷◌,
  ◌++◌, Bytes, codes, equal, to_lower, if◌then◌else◌, ltb, ◌==◌, length, ◌>>=◌,
}
use cantou.Models.{CanMessageTimestamped}
use cantou.Client.Filters.{pad_or_trim}
use cantou.Obd.{
  Frame, Protocol, normalize_pid_requests, parse_can_ids, trim_space, protocol_for,
  merge_unique_ids, obd_response_ids,
}
pub mod Link
pub mod Options
pub mod Backoff
pub mod Sound
pub mod Transports
pub mod Steps
pub mod Overlap
pub mod Frames
pub mod Polling
mod Tests

abbrev pub mode_monitor : Bytes
mode_monitor = codes "monitor"

abbrev pub mode_poll : Bytes
mode_poll = codes "poll"

abbrev pub mode_hybrid : Bytes
mode_hybrid = codes "hybrid"

abbrev pub network_stn : Bytes
network_stn = codes "stn"

-- Durations are in nanoseconds.
abbrev pub second : ℕ
second = 1000000000

abbrev pub default_baud : ℕ
default_baud = 115200

-- The fields of CanInterfaceOption and ObdOptions that New reads; 0 stands for every number that is
-- not positive.
pub record CanInterfaceOption : Type 0 where
  pub name : Bytes
  pub uri : Bytes
  pub network : Bytes
  pub pids : List Bytes
  pub hw_filters : List Bytes
  pub mode : Bytes
  pub protocol : Bytes
  pub poll_ms : ℕ
  pub port_baud : ℕ
  pub response_filter : Option Bool

-- A transport is a number; `transports` are those that are open, and `next` is the number of the
-- next one. `quit` is the channel: whether there is one, and whether it is closed.
pub record Base : Type 0 where
  pub name : Bytes
  pub network : Bytes
  pub uri : Bytes
  pub supports_hybrid : Bool
  pub proto : Protocol
  pub mode : Bytes
  pub filters : List ℕ
  pub pids : List Bytes
  pub cfg_err : Bool
  pub poll_interval : ℕ
  pub baud : ℕ
  pub driver : Option ℕ
  pub opened : Bool
  pub streaming : Bool
  pub quit : Option Bool
  pub transports : List ℕ
  pub next : ℕ

abbrev or_text : Bytes → Bytes → Bytes
or_text text other = if equal text [] then other else text

-- The requests of a list that is refused are not used, since Open fails.
abbrev or_nil : {A : Type 0} → Option (List A) → List A
or_nil none = []
or_nil (some xs) = xs

abbrev failed : {A : Type 0} → Option A → Bool
failed none = true
failed (some a) = false

unfoldable pub fall_back : Bytes → Bool → List Bytes → Bytes
fall_back mode supports_hybrid pids =
    if equal mode mode_hybrid && not supports_hybrid
    then if ltb 0 (length pids) then mode_poll else mode_monitor
    else mode

abbrev polls : Bytes → Bool
polls mode = equal mode mode_poll || equal mode mode_hybrid

unfoldable pub with_responses : Option Bool → Bytes → Bool → List ℕ → List ℕ
with_responses response_filter mode extended filters =
    let wanted : Bool = elim response_filter [ none ↦ true | some b ↦ b ] in
    if wanted && (ltb 0 (length filters) && polls mode)
    then merge_unique_ids (filters ∷ (obd_response_ids extended ∷ []))
    else filters

unfoldable pub new_base : CanInterfaceOption → Bytes → Base
new_base opt kind =
    let pids = normalize_pid_requests opt.pids in
    let filters = parse_can_ids opt.hw_filters in
    let supports_hybrid = equal kind network_stn in
    let asked = or_text (to_lower (trim_space opt.mode)) mode_monitor in
    let mode = fall_back asked supports_hybrid (or_nil pids) in
    let proto = protocol_for opt.protocol in
    record {
      name = opt.name;
      network = or_text opt.network kind;
      uri = or_text opt.uri opt.name;
      supports_hybrid = supports_hybrid;
      proto = proto;
      mode = mode;
      filters = with_responses opt.response_filter mode proto.extended (or_nil filters);
      pids = or_nil pids;
      cfg_err = failed pids || failed filters;
      poll_interval = (if ltb 0 opt.poll_ms then opt.poll_ms * 1000000 else second);
      baud = (if ltb 0 opt.port_baud then opt.port_baud else default_baud);
      driver = none;
      opened = false;
      streaming = false;
      quit = none;
      transports = [];
      next = 0;
    }

-- New panics without a name.
unfoldable pub new : CanInterfaceOption → Bytes → Option Base
new opt kind = if equal opt.name [] then none else some (new_base opt kind)

-- The message for a frame; the time and the connection's number are given.
unfoldable pub emit : ℕ → ℕ → Frame → CanMessageTimestamped
emit now id frame = record {
  timestamp = now;
  interface = id;
  id = frame.id;
  transmit = false;
  remote = false;
  length = length frame.bytes % 2 ^ 8;
  bytes = pad_or_trim frame.bytes 8;
}
