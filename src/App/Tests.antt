-- ===== src/App/Tests.antt =====
-- An application with two interfaces and two outputs, and the theorem at it.
use cantou.Common.{
  ℕ, ◌≡◌, refl, Bool, true, false, some, none, List, [], ◌∷◌, ◌++◌, map, Bytes, codes, arith, equal,
}
use cantou.Common.Decimal.{format_uint}
use cantou.Models.{CanMessageTimestamped}
use cantou.Config.{no_obd_options, CanInterface}
use cantou.Client.Outlet.{Outlet}
use cantou.Client.MessageDispatch.{add}
use cantou.Client.MessageDispatch.Delivery.{broadcast_all}
use cantou.Client.SignalFilter.{group_op_and, mode_include}
use cantou.App.{
  SignalDispatcher, OutputClient, Task, new_app, add_signal_dispatcher, add_signal_dispatchers,
  add_output, add_outputs, dispatcher_name, run, interface_dispatchers,
}
use cantou.App.Wiring.{dispatcher_offered, output_offered, wired-served}

abbrev channel : Outlet CanMessageTimestamped
channel = record { queue = []; capacity = 2; dropped = 0 }

abbrev dispatcher : SignalDispatcher
dispatcher = record {
  parser = λ m. [];
  channel = channel;
  filter = record { rules = []; op = group_op_and; mode = mode_include };
  listeners = [];
}

abbrev output : Bytes → Bool → OutputClient
output name is_runner = record {
  name = name;
  channel = channel;
  signal_channel = some (record { queue = []; capacity = 1; dropped = 0 });
  is_runner = is_runner;
}

abbrev dispatchers : List (ℕ × SignalDispatcher)
dispatchers = (0, dispatcher) ∷ ((2, dispatcher) ∷ [])

abbrev outputs : List OutputClient
outputs = output (codes "output-csv") false ∷ (output (codes "output-prometheus") true ∷ [])

tasks_started :
    (run (add_outputs (add_signal_dispatchers (new_app true true) dispatchers) outputs)).tasks
    ≡ Task.handles_frames (codes "output-csv")
      ∷ (Task.handles_signals (codes "output-csv")
          ∷ (Task.runs (codes "output-prometheus")
              ∷ (Task.handles_frames (codes "output-prometheus")
                  ∷ (Task.handles_signals (codes "output-prometheus")
                      ∷ (Task.dispatches 0
                          ∷ (Task.dispatches 2 ∷ (Task.broadcasts ∷ (Task.receives ∷ []))))))))
unfolding run add_outputs add_output add_signal_dispatchers add_signal_dispatcher add
    dispatcher_name equal format_uint
tasks_started = refl

abbrev plain : CanInterface
plain = record {
  name = codes "a";
  network = codes "can";
  uri = codes "can0";
  dbc_files = [];
  loop = false;
  signal_filters = [];
  signal_filter_op = codes "and";
  signal_filter_mode = codes "include";
  obd = no_obd_options;
}

-- Without DBC files and without the built-in one an interface has no dispatcher.
no_dispatcher : interface_dispatchers (λ path. none) none channel true 0 (plain ∷ []) ≡ some []
unfolding interface_dispatchers
no_dispatcher = refl

abbrev frame : ℕ → CanMessageTimestamped
frame interface = record {
  timestamp = 1;
  interface = interface;
  id = 1;
  transmit = false;
  remote = false;
  length = 0;
  bytes = [];
}

abbrev frames : List CanMessageTimestamped
frames = frame 0 ∷ (frame 1 ∷ (frame 2 ∷ []))

wired-served_example :
    broadcast_all
      (add_outputs
        (add_signal_dispatchers (new_app true true) dispatchers)
        outputs).broadcast_client
      frames
    ≡ some (map (dispatcher_offered frames) dispatchers ++ map (output_offered frames) outputs)
wired-served_example = wired-served dispatchers outputs frames (omega arith) (
    unfold add_signal_dispatchers add_signal_dispatcher add dispatcher_name equal format_uint in
    (refl, (refl, tt)))
