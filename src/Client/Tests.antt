-- ===== src/Client/Tests.antt =====
-- Filters and dispatchers at concrete frames and signals, and the theorems about them.
use mathlib.Core.List.Perm
use cantou.Common.{
  ℕ, ◌≡◌, ◌↔◌, refl, true, false, List, [], ◌∷◌, map, codes, equal, some, none, arith,
}
use cantou.Models.{CanMessageTimestamped, CanSignalTimestamped}
use cantou.Client.SignalFilter.{
  Rule, Group, field_signal, field_message, op_contains, op_not_eq, group_op_and, mode_exclude,
  allow, parse_rule,
}
use cantou.Client.SignalFilter as SignalFilters
use cantou.Client.SignalFilter.Groups.{SpellsGroup, parse_group_iff}
use cantou.Client.SignalFilter.Syntax.{Spells, parse_rule_iff}
use cantou.Client.Filters.{
  ByteTest, data_less_than, data_greater_than, filter_or, data_filter, FilterSet, FilterInterface,
  should_filter,
}
use cantou.Client.Filters.Bytewise.{data_filter_lem}
use cantou.Client.Filters.Sets.{decision, should_filter-Perm}
use cantou.Client.Dedupe.{
  DedupeFilterClient, Clock, new_dedupe_filter_client, filter, filter_hash, key,
}
use cantou.Common.Maps.{find}
use cantou.Client.Dedupe.Window.{run, filter_window}
use cantou.Client.Outlet.{Outlet}
use cantou.Client.Outlet.Fifo.{Event, sending, receiving, IsAccounted, run-IsAccounted}
use cantou.Client.Outlet.Fifo as Fifo
use cantou.Client.MessageDispatch.{RegisteredListener, MessageDispatcher}
use cantou.Client.MessageDispatch as Frames
use cantou.Client.MessageDispatch.Delivery.{broadcast_all, served, broadcast_all-served}
use cantou.Client.MessageDispatch.Reachable.{
  Reachable, start, next, adding, WellFormed, Reachable-WellFormed,
}
use cantou.Client.SignalDispatch as Signals
use cantou.Client.SignalDispatch.Delivery.{dispatch-served, offered}
use cantou.Client.SignalDispatch.Delivery as Delivered

abbrev frame : CanMessageTimestamped
frame = record {
  timestamp = 5;
  interface = 1;
  id = 0x7E8;
  transmit = false;
  remote = false;
  length = 2;
  bytes = 1 ∷ (2 ∷ []);
}

abbrev speed : CanSignalTimestamped
speed = record {
  timestamp = 5;
  interface = 1;
  id = 0x244;
  message = codes "Engine";
  signal = codes "Speed";
  value = 0;
  unit = codes "km/h";
}

abbrev no_speed : Group
no_speed = record {
  rules =
      record { field = field_signal; op = op_contains; value = codes "Spe" }
      ∷ (record { field = field_message; op = op_not_eq; value = codes "Gearbox" } ∷ []);
  op = group_op_and;
  mode = mode_exclude;
}

abbrev odd_rule : Rule
odd_rule = record { field = field_signal; op = op_contains; value = codes "a:b" }

parse_rule_iff_example :
    (parse_rule (codes "Signal:CONTAINS:a:b") ≡ some odd_rule)
    ↔ Spells (codes "Signal:CONTAINS:a:b") odd_rule
parse_rule_iff_example = parse_rule_iff (codes "Signal:CONTAINS:a:b") odd_rule

abbrev beyond : List ByteTest
beyond =
    record { byte = 0; operator = data_less_than; target = 9 }
    ∷ (record { byte = 2; operator = data_greater_than; target = 0 } ∷ [])

data_filter_lem_example : data_filter filter_or beyond frame ≡ none
data_filter_lem_example = data_filter_lem filter_or beyond frame

abbrev everything : FilterInterface
everything m = some true

abbrev nothing : FilterInterface
nothing m = some false

abbrev two_filters : FilterSet
two_filters = (codes "a", nothing) ∷ ((codes "b", everything) ∷ [])

abbrev swapped_filters : FilterSet
swapped_filters = (codes "b", everything) ∷ ((codes "a", nothing) ∷ [])

should_filter-Perm_example :
    decision (should_filter two_filters frame) ≡ decision (should_filter swapped_filters frame)
should_filter-Perm_example =
    should_filter-Perm two_filters swapped_filters frame
      (Perm.swap (codes "b", everything) (codes "a", nothing) []) refl

abbrev deduper : DedupeFilterClient
deduper = new_dedupe_filter_client 1 (0x7E8 ∷ [])

abbrev first : Clock
first = record { check = 100; store = 100; sweep = λ h. 101 }

abbrev second : Clock
second = record { check = 200; store = 200; sweep = λ h. 200 }

abbrev third : Clock
third = record { check = 300; store = 300; sweep = λ h. 300 }

filter_window_example :
    (filter
      (run (filter deduper first frame).0 ((second, record frame { id = 0x7E9 }) ∷ []))
      third
      (record frame { timestamp = 9 })).1
    ≡ true
unfolding key filter filter_hash find
filter_window_example =
    filter_window deduper first third frame (record frame { timestamp = 9 })
      ((second, record frame { id = 0x7E9 }) ∷ []) refl refl (omega arith) (omega arith) refl refl

abbrev narrow : Outlet ℕ
narrow = record { queue = []; capacity = 1; dropped = 0 }

abbrev busy : List (Event ℕ)
busy = sending 7 ∷ (sending 8 ∷ (receiving ∷ (sending 9 ∷ [])))

run-IsAccounted_example :
    IsAccounted narrow (7 ∷ (8 ∷ (9 ∷ []))) (Fifo.run narrow busy).0 (Fifo.run narrow busy).1
run-IsAccounted_example = run-IsAccounted busy narrow

abbrev dashboard : RegisteredListener
dashboard = record {
  name = codes "dashboard";
  filter = none;
  outlet = record { queue = []; capacity = 1; dropped = 0 };
}

abbrev recorder : RegisteredListener
recorder = record {
  name = codes "recorder";
  filter = some (record { filters = nothing ∷ (everything ∷ []); operator = filter_or });
  outlet = record { queue = []; capacity = 8; dropped = 0 };
}

broadcast_all-served_example :
    broadcast_all (dashboard ∷ (recorder ∷ [])) (frame ∷ (frame ∷ []))
    ≡ some (map (served (frame ∷ (frame ∷ []))) (dashboard ∷ (recorder ∷ [])))
unfolding Frames.wants Frames.test_filter_group Frames.any_passes
broadcast_all-served_example =
    broadcast_all-served (frame ∷ (frame ∷ [])) (dashboard ∷ (recorder ∷ []))
      (λ m. ground arith, (λ m. ground arith, tt))

dashboard_added : Frames.add dashboard [] ≡ some (dashboard ∷ [])
unfolding Frames.add
dashboard_added = refl

recorder_added : Frames.add recorder (dashboard ∷ []) ≡ some (dashboard ∷ (recorder ∷ []))
unfolding Frames.add equal
recorder_added = refl

two_listeners : Reachable (dashboard ∷ (recorder ∷ []))
two_listeners =
    next (next (start refl) (adding dashboard refl dashboard_added))
      (adding recorder refl recorder_added)

Reachable-WellFormed_example : WellFormed (dashboard ∷ (recorder ∷ []))
Reachable-WellFormed_example = Reachable-WellFormed two_listeners

-- a parser that gives the signal above for every frame, and signals without fractions
abbrev one_signal : CanMessageTimestamped → List CanSignalTimestamped
one_signal m = speed ∷ []

abbrev as_integer : ℕ → ℕ
as_integer x = x

abbrev gauge : Signals.RegisteredListener
gauge = record { name = codes "gauge"; outlet = record { queue = []; capacity = 1; dropped = 0 } }

dispatch-served_example :
    Signals.dispatch one_signal as_integer no_speed (frame ∷ []) (gauge ∷ [])
    ≡ map (Delivered.served (offered one_signal as_integer no_speed (frame ∷ []))) (gauge ∷ [])
dispatch-served_example = dispatch-served one_signal as_integer no_speed (frame ∷ []) (gauge ∷ [])

parse_group_iff_example :
    (SignalFilters.parse_group
        (codes "signal:contains:Spe" ∷ (codes "Message:NEQ:Gearbox" ∷ []))
        (codes "AND")
        []
      ≡ some no_speed)
    ↔ SpellsGroup
        (codes "signal:contains:Spe" ∷ (codes "Message:NEQ:Gearbox" ∷ []))
        (codes "AND")
        []
        no_speed
parse_group_iff_example =
    parse_group_iff (codes "signal:contains:Spe" ∷ (codes "Message:NEQ:Gearbox" ∷ [])) (codes "AND")
      [] no_speed

group_parses :
    SignalFilters.parse_group
      (codes "signal:contains:Spe" ∷ (codes "Message:NEQ:Gearbox" ∷ []))
      (codes "AND")
      []
    ≡ some no_speed
unfolding SignalFilters.parse_group SignalFilters.parse_rules SignalFilters.parse_rule
    SignalFilters.parse_parts SignalFilters.split_n SignalFilters.parse_field SignalFilters.parse_op
    SignalFilters.parse_group_op SignalFilters.parse_mode equal
group_parses = refl
