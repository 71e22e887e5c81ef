-- ===== src/ObdConnection/Tests.antt =====
-- The connection of an OBD adapter at concrete options, and the theorems about it.
use cantou.Common.{◌≡◌, ◌≢◌, refl, none, some, true, false, [], ◌∷◌, codes, arith, inr}
use cantou.Obd.{Protocol}
use cantou.ObdConnection.{Base, CanInterfaceOption, new_base, mode_poll, second}
use cantou.ObdConnection.Link.{
  open_adapter, connect, drop_driver, reconnect, Round, open_failed, init_failed, connected,
  reconnected,
}
use cantou.ObdConnection.Backoff.{reconnect-waits, backoffs}
use cantou.ObdConnection.Sound.{to_list}

abbrev option : CanInterfaceOption
option = record {
  name = codes "car";
  uri = codes "/dev/rfcomm0";
  network = codes "elm327";
  pids = codes "010C" ∷ [];
  hw_filters = codes "123" ∷ [];
  mode = codes "poll";
  protocol = codes "6";
  poll_ms = 0;
  port_baud = 0;
  response_filter = none;
}

abbrev protocol : Protocol
protocol = record { selector = codes "6"; extended = false; label = codes "CAN" }

-- A connection with a link.
abbrev linked : Base
linked = record {
  name = codes "car";
  network = codes "elm327";
  uri = codes "/dev/rfcomm0";
  supports_hybrid = false;
  proto = protocol;
  mode = mode_poll;
  filters = [];
  pids = codes "010C" ∷ [];
  cfg_err = false;
  poll_interval = second;
  baud = 115200;
  driver = some 0;
  opened = true;
  streaming = true;
  quit = some false;
  transports = 0 ∷ [];
  next = 1;
}

abbrev refused : Round
refused = record { stopping = false; attempt = open_failed; stopped = false }

abbrev uninitialised : Round
uninitialised = record { stopping = false; attempt = init_failed; stopped = false }

abbrev accepted : Round
accepted = record { stopping = false; attempt = connected; stopped = false }

first_backoffs :
    backoffs 0 6
    ≡ second ∷ (2000000000 ∷ (4000000000 ∷ (8000000000 ∷ (16000000000 ∷ (30000000000 ∷ [])))))
first_backoffs = refl

reconnect-waits_example :
    ((reconnect linked (refused ∷ (uninitialised ∷ (accepted ∷ [])))).0 ≡ reconnected)
    × ((reconnect linked (refused ∷ (uninitialised ∷ (accepted ∷ [])))).1 ≡ backoffs 0 2)
    × ((reconnect linked (refused ∷ (uninitialised ∷ (accepted ∷ [])))).2.transports
        ≡ to_list (reconnect linked (refused ∷ (uninitialised ∷ (accepted ∷ [])))).2.driver)
    × ((reconnect linked (refused ∷ (uninitialised ∷ (accepted ∷ [])))).2.driver ≢ none)
reconnect-waits_example =
    reconnect-waits linked (refused ∷ (uninitialised ∷ [])) accepted []
      (refl, (omega arith, tt), inr refl)
      ((refl, (λ e. cc e), refl), ((refl, (λ e. cc e), refl), tt)) refl refl

abbrev link : Base
link = (open_adapter (new_base option (codes "elm327")) connected).1

-- The link is lost, an attempt to connect fails, and Close comes in the wait behind it.
abbrev running_link : Base
running_link = record link { quit = some false; streaming = true }

abbrev lost_link : Base
lost_link = (connect (drop_driver running_link.driver running_link) open_failed).1

abbrev closed_link : Base
closed_link = record lost_link { quit = some true; streaming = false; opened = false }
