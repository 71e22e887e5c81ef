-- ===== src/Simulate.antt =====
-- internal/connection/simulate/connection.go: the interface that makes frames up. What the generator of
-- random numbers draws, the clock and what the two select statements meet are inputs.
use cantou.Common.{
  ℕ, zero, suc, ◌+◌, ◌-◌, ◌%◌, Bool, true, false, not, ◌&&◌, ◌||◌, ◌==◌, ltb, Option, none, some,
  List, [], ◌∷◌, ◌++◌, map, Bytes, codes, equal, if◌then◌else◌, take,
}
use cantou.Models.{CanMessageTimestamped}
use cantou.Client.Filters.{pad_or_trim}
pub mod Emitted
mod Tests

-- The settings that the client reads, none of them negative.
pub record SimConfig : Type 0 where
  pub sim_emit_rate : ℕ
  pub sim_emit_rate_min : ℕ
  pub sim_emit_rate_max : ℕ
  pub separator : Bytes

pub record SimulationCanClient : Type 0 where
  pub id : ℕ
  pub name : Bytes
  pub network : Bytes
  pub uri : Bytes
  pub opened : Bool
  pub streaming : Bool
  pub rate : ℕ
  pub rate_min : ℕ
  pub rate_max : ℕ
  pub use_random_rate : Bool
  pub count : ℕ

abbrev pub default_rate : SimConfig → ℕ
default_rate cfg = if ltb 0 cfg.sim_emit_rate then cfg.sim_emit_rate else 10

abbrev pub rate_or_default : SimConfig → Option ℕ → ℕ
rate_or_default cfg none = default_rate cfg
rate_or_default cfg (some rate) = if rate == 0 then default_rate cfg else rate

-- A pointer to a text that is nil or points to the empty text.
abbrev text_or : Bytes → Option Bytes → Bytes
text_or other none = other
text_or other (some []) = other
text_or other (some (c ∷ s)) = c ∷ s

-- `none` stands for the panic of an empty name or a nil channel.
unfoldable pub new_simulation_can_client :
    SimConfig → Bytes → Bool → Option Bytes → Option Bytes → Option ℕ → Option SimulationCanClient
new_simulation_can_client cfg name has_channel network uri rate =
    if equal name [] || not has_channel
    then none
    else some (record {
      id = 0;
      name = name;
      network = text_or (codes "sim") network;
      uri = text_or name uri;
      opened = false;
      streaming = false;
      rate = rate_or_default cfg rate;
      rate_min = cfg.sim_emit_rate_min;
      rate_max = cfg.sim_emit_rate_max;
      use_random_rate =
          cfg.sim_emit_rate == 0
          && (ltb 0 cfg.sim_emit_rate_min && ltb cfg.sim_emit_rate_min cfg.sim_emit_rate_max);
      count = 0;
    })

abbrev pub get_interface_name : SimConfig → SimulationCanClient → Bytes
get_interface_name cfg c = c.name ++ (cfg.separator ++ (c.network ++ (cfg.separator ++ c.uri)))

abbrev pub open_client : SimulationCanClient → SimulationCanClient
open_client c = record c { opened = true }

abbrev pub close_client : SimulationCanClient → SimulationCanClient
close_client c = record c { opened = false }

abbrev pub discontinue : SimulationCanClient → SimulationCanClient
discontinue c = record c { streaming = false }

-- rng.Intn(n) is a number below n: any draw stands for the one it leaves modulo n.
abbrev pub intn : ℕ → ℕ → ℕ
intn draw n = draw % n

-- The draws of one round, in the order of the code, and the clock.
pub record Draws : Type 0 where
  pub first : ℕ
  pub second : ℕ
  pub third : ℕ
  pub fourth : ℕ
  pub fifth : ℕ
  pub sixth : ℕ
  pub seventh : ℕ
  pub eighth : ℕ
  pub length : ℕ
  pub now : ℕ
  pub id : ℕ
  pub pause : ℕ

abbrev pub random_bytes : Draws → Bytes
random_bytes d =
    map (λ b. intn b 256)
      (d.first
        ∷ (d.second
            ∷ (d.third ∷ (d.fourth ∷ (d.fifth ∷ (d.sixth ∷ (d.seventh ∷ (d.eighth ∷ []))))))))

-- lengthOfDataPacket
abbrev pub packet_length : ℕ → ℕ
packet_length zero = 2
packet_length (suc zero) = 4
packet_length (suc (suc n)) = 8

unfoldable pub simulated : SimulationCanClient → Draws → CanMessageTimestamped
unfolding pad_or_trim
simulated c d =
    let random_length = packet_length (intn d.length 3) in
    record {
      timestamp = d.now;
      interface = c.id;
      transmit = false;
      remote = false;
      id = intn d.id 2047;
      length = random_length;
      bytes = pad_or_trim (take random_length (random_bytes d)) 8;
    }

-- The pause in milliseconds. The range of a random one is not empty.
unfoldable pub sleep_ms : SimulationCanClient → Draws → ℕ
sleep_ms c d =
    if c.use_random_rate then c.rate_min + intn d.pause (c.rate_max - c.rate_min + 1) else c.rate

-- How a round ends: with the context done before the frame is taken, or during the pause, or not.
pub data Round : Type 0 where
  done_sending : Draws → Round
  done_pausing : Draws → Round
  slept : Draws → Round

-- The rest of a loop that has sent a frame.
abbrev after_frame :
    SimulationCanClient
    → Draws
    → SimulationCanClient × List CanMessageTimestamped × List ℕ
    → SimulationCanClient × List CanMessageTimestamped × List ℕ
after_frame c d (c', frames, pauses) = (c', simulated c d ∷ frames, sleep_ms c d ∷ pauses)

abbrev pub counted : SimulationCanClient → SimulationCanClient
counted c = record c { count = c.count + 1 }

-- The frames that are sent and the pauses that are begun, over the rounds that the loop goes.
unfoldable pub receive_loop :
    SimulationCanClient → List Round → SimulationCanClient × List CanMessageTimestamped × List ℕ
receive_loop c [] = (c, [], [])
receive_loop c (done_sending d ∷ rounds) = (c, [], [])
receive_loop c (done_pausing d ∷ rounds) = after_frame c d (counted c, [], [])
receive_loop c (slept d ∷ rounds) = after_frame c d (receive_loop (counted c) rounds)

unfoldable pub receive :
    SimulationCanClient → List Round → SimulationCanClient × List CanMessageTimestamped × List ℕ
unfolding receive_loop
receive c rounds = receive_loop (record c { streaming = true }) rounds
