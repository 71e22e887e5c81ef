-- ===== src/Simulate/Tests.antt =====
-- A run of the simulated interface, and the theorem at it.
use cantou.Common.{
  ℕ, ◌≡◌, refl, some, none, true, false, List, [], ◌∷◌, codes, equal, All, length, ◌+◌, ◌*◌,
}
use cantou.Client.Filters.{pad_or_trim}
use cantou.Simulate.{
  SimConfig, SimulationCanClient, new_simulation_can_client, Draws, Round, done_pausing, slept,
  simulated, sleep_ms, receive_loop, receive, get_interface_name,
}
use cantou.Simulate.Emitted.{IsSimulated, IsPause, receive-IsSimulated}

abbrev settings : SimConfig
settings = record {
  sim_emit_rate = 0;
  sim_emit_rate_min = 20;
  sim_emit_rate_max = 29;
  separator = codes "-";
}

abbrev made : SimulationCanClient
made = record {
  id = 0;
  name = codes "demo";
  network = codes "sim";
  uri = codes "demo";
  opened = false;
  streaming = false;
  rate = 10;
  rate_min = 20;
  rate_max = 29;
  use_random_rate = true;
  count = 0;
}

abbrev draws : ℕ → Draws
draws n = record {
  first = n;
  second = 300;
  third = 1;
  fourth = 2;
  fifth = 3;
  sixth = 4;
  seventh = 5;
  eighth = 6;
  length = n;
  now = 1000 * n;
  id = 2050 + n;
  pause = 10 + n;
}

abbrev rounds : List Round
rounds = slept (draws 0) ∷ (slept (draws 1) ∷ (done_pausing (draws 5) ∷ []))

settings-made : new_simulation_can_client settings (codes "demo") true none none none ≡ some made
unfolding new_simulation_can_client equal
settings-made = refl

made-name : get_interface_name settings made ≡ codes "demo-sim-demo"
made-name = refl

settings-nameless : new_simulation_can_client settings [] true none none none ≡ none
unfolding new_simulation_can_client equal
settings-nameless = refl

rounds-pauses : (receive made rounds).2 ≡ 20 ∷ (21 ∷ (25 ∷ []))
unfolding receive receive_loop sleep_ms
rounds-pauses = refl

rounds-first : simulated made (draws 1) ≡ record {
  timestamp = 1000;
  interface = 0;
  transmit = false;
  remote = false;
  id = 4;
  length = 4;
  bytes = 1 ∷ (44 ∷ (1 ∷ (2 ∷ (0 ∷ (0 ∷ (0 ∷ (0 ∷ [])))))));
}
unfolding simulated pad_or_trim
rounds-first = refl

receive-IsSimulated_example :
    All (IsSimulated 3) (receive (record made { id = 3 }) rounds).1
    × (All (IsPause made) (receive (record made { id = 3 }) rounds).2
        × ((length (receive (record made { id = 3 }) rounds).2
              ≡ length (receive (record made { id = 3 }) rounds).1)
            × ((receive (record made { id = 3 }) rounds).0.count
                ≡ length (receive (record made { id = 3 }) rounds).1)))
receive-IsSimulated_example =
    receive-IsSimulated settings (codes "demo") true none none none made 3 rounds settings-made
