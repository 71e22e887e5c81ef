-- ===== src/App.antt =====
-- internal/app/app.go and cmd/server/main.go: how the interfaces of a configuration, the dispatchers and
-- the outputs are put together. A channel is an outlet of its receiver; a goroutine that is started is
-- an entry of a list.
use cantou.Common.{
  ℕ, suc, ◌+◌, Bool, true, false, not, ◌&&◌, ltb, Option, none, some, List, [], ◌∷◌, ◌++◌, map,
  Bytes, codes, if◌then◌else◌, ◌>>=◌, length,
}
use cantou.Common.Decimal.{format_uint}
use cantou.Models.{CanMessageTimestamped, CanSignalTimestamped}
use cantou.Config.{CanInterface}
use cantou.Dbc.{ParserInterface, parse_all}
use cantou.Client.Filters.{interface_filter, filter_and}
use cantou.Client.Outlet.{Outlet}
use cantou.Client.MessageDispatch.{
  CanMessageFilterGroup, RegisteredListener, MessageDispatcher, add,
}
use cantou.Client.SignalDispatch.{add_listener}
use cantou.Client.SignalDispatch as SignalDispatch
use cantou.Client.SignalFilter.{Group, parse_group}
pub mod Listeners
pub mod Wiring
mod Tests

pub record SignalDispatcher : Type 0 where
  pub parser : ParserInterface
  pub channel : Outlet CanMessageTimestamped
  pub filter : Group
  pub listeners : List SignalDispatch.RegisteredListener

-- `signal_channel` is there for an output of signals, `is_runner` tells one with a Run of its own.
pub record OutputClient : Type 0 where
  pub name : Bytes
  pub channel : Outlet CanMessageTimestamped
  pub signal_channel : Option (Outlet CanSignalTimestamped)
  pub is_runner : Bool

-- The goroutines, by the output or the interface that they belong to.
pub data Task : Type 0 where
  runs handles_frames handles_signals : Bytes → Task
  dispatches : ℕ → Task
  broadcasts receives : Task

pub record AppData : Type 0 where
  pub log_can_messages : Bool
  pub log_signals : Bool
  pub broadcast_client : MessageDispatcher
  pub signal_dispatchers : List (ℕ × SignalDispatcher)
  pub tasks : List Task

abbrev pub new_app : Bool → Bool → AppData
new_app log_can_messages log_signals = record {
  log_can_messages = log_can_messages;
  log_signals = log_signals;
  broadcast_client = [];
  signal_dispatchers = [];
  tasks = [];
}

unfoldable pub dispatcher_name : ℕ → Bytes
dispatcher_name interface_id = codes "signal-dispatcher-" ++ format_uint interface_id

abbrev pub dispatcher_listener : ℕ → SignalDispatcher → RegisteredListener
dispatcher_listener interface_id d = record {
  name = dispatcher_name interface_id;
  filter = some (record {
    filters = (λ m. some (interface_filter interface_id m)) ∷ [];
    operator = filter_and;
  });
  outlet = d.channel;
}

-- A name that is in use is logged, and the dispatcher is left out.
abbrev registered : AppData → ℕ → SignalDispatcher → Option MessageDispatcher → AppData
registered b interface_id d none = b
registered b interface_id d (some cs) = record b {
  broadcast_client = cs;
  signal_dispatchers = b.signal_dispatchers ++ ((interface_id, d) ∷ []);
}

unfoldable pub add_signal_dispatcher : AppData → ℕ → SignalDispatcher → AppData
add_signal_dispatcher b interface_id d =
    if b.log_signals
    then registered b interface_id d (add (dispatcher_listener interface_id d) b.broadcast_client)
    else b

unfoldable pub add_signal_dispatchers : AppData → List (ℕ × SignalDispatcher) → AppData
add_signal_dispatchers b [] = b
add_signal_dispatchers b ((i, d) ∷ ds) = add_signal_dispatchers (add_signal_dispatcher b i d) ds

abbrev pub output_listener : OutputClient → RegisteredListener
output_listener c = record { name = c.name; filter = none; outlet = c.channel }

-- The error of Add is not looked at.
abbrev pub or_same : MessageDispatcher → Option MessageDispatcher → MessageDispatcher
or_same cs none = cs
or_same cs (some cs') = cs'

abbrev started : AppData → Bool → Task → AppData
started b yes_or_no task = if yes_or_no then record b { tasks = b.tasks ++ (task ∷ []) } else b

abbrev with_frames : AppData → OutputClient → AppData
with_frames b c =
    if b.log_can_messages
    then record b {
      tasks = b.tasks ++ (handles_frames c.name ∷ []);
      broadcast_client = or_same b.broadcast_client (add (output_listener c) b.broadcast_client);
    }
    else b

abbrev listening : Bytes → Outlet CanSignalTimestamped → ℕ × SignalDispatcher → ℕ × SignalDispatcher
listening name channel (i, d) = (
  i,
  record d { listeners = add_listener (record { name = name; outlet = channel }) d.listeners },
)

abbrev with_signals : AppData → OutputClient → Option (Outlet CanSignalTimestamped) → AppData
with_signals b c none = b
with_signals b c (some channel) =
    if ltb 0 (length b.signal_dispatchers)
    then record b {
      tasks = b.tasks ++ (handles_signals c.name ∷ []);
      signal_dispatchers = map (listening c.name channel) b.signal_dispatchers;
    }
    else b

unfoldable pub add_output : AppData → OutputClient → AppData
add_output b c =
    with_signals (with_frames (started b c.is_runner (runs c.name)) c) c c.signal_channel

unfoldable pub add_outputs : AppData → List OutputClient → AppData
add_outputs b [] = b
add_outputs b (c ∷ cs) = add_outputs (add_output b c) cs

abbrev dispatch_task : ℕ × SignalDispatcher → Task
dispatch_task (i, d) = dispatches i

unfoldable pub run : AppData → AppData
run b = record b {
  tasks = b.tasks ++ (map dispatch_task b.signal_dispatchers ++ (broadcasts ∷ (receives ∷ [])));
}

-- The loop of main over the interfaces: the parsers of one, and its dispatcher. `none` stands for the
-- end of the program; loading a DBC file and the built-in one are parameters.
module _ (load : Bytes → Option ParserInterface) (built_in : Option ParserInterface) where
  unfoldable pub load_all : List Bytes → Option (List ParserInterface)
  load_all [] = some []
  load_all (path ∷ paths) = do p ← load path; ps ← load_all paths; some (p ∷ ps)

  unfoldable pub interface_parsers : Bool → CanInterface → Option (List ParserInterface)
  unfolding load_all
  interface_parsers disable_obd2 i = do
    ps ← load_all i.dbc_files
    if disable_obd2 then some ps else built_in >>= (λ p. some (ps ++ (p ∷ [])))

  -- No parser, no dispatcher.
  abbrev dispatcher_of :
      Outlet CanMessageTimestamped
      → CanInterface
      → List ParserInterface
      → Option (Option SignalDispatcher)
  dispatcher_of channel i [] = some none
  dispatcher_of channel i (p ∷ ps) = do
    filter ← parse_group i.signal_filters i.signal_filter_op i.signal_filter_mode
    some (
        some (record {
          parser = parse_all (p ∷ ps);
          channel = channel;
          filter = filter;
          listeners = [];
        }))

  abbrev placed : ℕ → Option SignalDispatcher → List (ℕ × SignalDispatcher)
  placed index none = []
  placed index (some d) = (index, d) ∷ []

  -- Those of the interfaces from a place in the configuration on.
  unfoldable pub interface_dispatchers :
      Outlet CanMessageTimestamped
      → Bool
      → ℕ
      → List CanInterface
      → Option (List (ℕ × SignalDispatcher))
  unfolding interface_parsers
  interface_dispatchers channel disable_obd2 index [] = some []
  interface_dispatchers channel disable_obd2 index (i ∷ is) = do
    ps ← interface_parsers disable_obd2 i
    d ← dispatcher_of channel i ps
    ds ← interface_dispatchers channel disable_obd2 (index + 1) is
    some (placed index d ++ ds)
