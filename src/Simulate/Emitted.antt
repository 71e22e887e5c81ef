-- ===== src/Simulate/Emitted.antt =====
-- What the simulated interface sends.
use cantou.Common.{
  ℕ, zero, suc, ◌+◌, ◌%◌, ◌≤◌, ◌<◌, ◌≡◌, ◌⊎◌, inl, inr, refl, ap, Bool, true, false, Option, some,
  List, [], ◌∷◌, arith, Bytes, length, All, Bool-cases,
}
use cantou.Models.{CanMessageTimestamped}
use cantou.Simulate.{
  SimConfig, SimulationCanClient, new_simulation_can_client, Draws, Round, done_sending,
  done_pausing, slept, simulated, sleep_ms, receive_loop, receive, counted,
}

-- A standard data frame of 2, 4 or 8 bytes, filled up to 8.
pub record IsSimulated (id : ℕ) (m : CanMessageTimestamped) : Type 0 where
  pub from_interface : m.interface ≡ id
  pub standard : m.id < 2047
  pub is_data : m.remote ≡ false
  pub lengths : (m.length ≡ 2) ⊎ ((m.length ≡ 4) ⊎ (m.length ≡ 8))
  pub filled : length m.bytes ≡ 8
  pub are_bytes : All (λ b. b < 256) m.bytes

is_byte : (x : ℕ) → x % 256 < 256
is_byte x = omega arith

zero_is_byte : 0 < 256
zero_is_byte = omega arith

simulated-of_length :
    (c : SimulationCanClient) (d : Draws) (n : ℕ)
    → d.length % 3 ≡ n
    → n < 3
    → IsSimulated c.id (simulated c d)
unfolding simulated
simulated-of_length c d zero e h = rw e (record {
  from_interface = refl;
  standard = omega arith;
  is_data = refl;
  lengths = inl refl;
  filled = refl;
  are_bytes = (
    is_byte d.first,
    (
      is_byte d.second,
      (
        zero_is_byte,
        (zero_is_byte, (zero_is_byte, (zero_is_byte, (zero_is_byte, (zero_is_byte, tt))))),
      ),
    ),
  );
})
simulated-of_length c d (suc zero) e h = rw e (record {
  from_interface = refl;
  standard = omega arith;
  is_data = refl;
  lengths = inr (inl refl);
  filled = refl;
  are_bytes = (
    is_byte d.first,
    (
      is_byte d.second,
      (
        is_byte d.third,
        (is_byte d.fourth, (zero_is_byte, (zero_is_byte, (zero_is_byte, (zero_is_byte, tt))))),
      ),
    ),
  );
})
simulated-of_length c d (suc (suc n)) e h = rw e (record {
  from_interface = refl;
  standard = omega arith;
  is_data = refl;
  lengths = inr (inr refl);
  filled = refl;
  are_bytes = (
    is_byte d.first,
    (
      is_byte d.second,
      (
        is_byte d.third,
        (
          is_byte d.fourth,
          (is_byte d.fifth, (is_byte d.sixth, (is_byte d.seventh, (is_byte d.eighth, tt)))),
        ),
      ),
    ),
  );
})

simulated-IsSimulated : (c : SimulationCanClient) (d : Draws) → IsSimulated c.id (simulated c d)
simulated-IsSimulated c d = simulated-of_length c d (d.length % 3) refl (omega arith)

-- A pause is the fixed rate, or a random one within the two bounds.
pub IsPause : SimulationCanClient → ℕ → Type 0
IsPause c ms =
    ((c.use_random_rate ≡ false) × (ms ≡ c.rate))
    ⊎ ((c.use_random_rate ≡ true) × ((c.rate_min ≤ ms) × (ms ≤ c.rate_max)))

-- Random pauses have bounds in order: the constructor sees to it.
pub IsSetUp : SimulationCanClient → Type 0
IsSetUp c = c.use_random_rate ≡ true → c.rate_min ≤ c.rate_max

sleep_ms-IsPause : (c : SimulationCanClient) (d : Draws) → IsSetUp c → IsPause c (sleep_ms c d)
unfolding sleep_ms IsPause IsSetUp
sleep_ms-IsPause c d ok = elim (Bool-cases c.use_random_rate) [
  | inl random ↦ inr (random, rw random (omega arith, omega (arith, ok random)))
  | inr fixed ↦ inl (fixed, rw fixed refl)
]

new_simulation_can_client-IsSetUp :
    (cfg : SimConfig) (name : Bytes) (chan : Bool) (network uri : Option Bytes) (rate : Option ℕ)
    (c : SimulationCanClient)
    → new_simulation_can_client cfg name chan network uri rate ≡ some c
    → IsSetUp c
unfolding new_simulation_can_client IsSetUp
new_simulation_can_client-IsSetUp cfg name chan network uri rate c e random = ground arith

new_simulation_can_client-count :
    (cfg : SimConfig) (name : Bytes) (chan : Bool) (network uri : Option Bytes) (rate : Option ℕ)
    (c : SimulationCanClient)
    → new_simulation_can_client cfg name chan network uri rate ≡ some c
    → c.count ≡ 0
unfolding new_simulation_can_client
new_simulation_can_client-count cfg name chan network uri rate c e = ground arith

receive_loop-IsSimulated :
    (c : SimulationCanClient) (rounds : List Round)
    → IsSetUp c
    → let (c', frames, pauses) = receive_loop c rounds in
      All (IsSimulated c.id) frames
      × (All (IsPause c) pauses
          × ((length pauses ≡ length frames) × (c'.count ≡ c.count + length frames)))
unfolding receive_loop IsSetUp IsPause
receive_loop-IsSimulated c [] ok = (tt, (tt, (refl, omega arith)))
receive_loop-IsSimulated c (done_sending d ∷ rounds) ok = (tt, (tt, (refl, omega arith)))
receive_loop-IsSimulated c (done_pausing d ∷ rounds) ok =
    ((simulated-IsSimulated c d, tt), ((sleep_ms-IsPause c d ok, tt), (refl, refl)))
receive_loop-IsSimulated c (slept d ∷ rounds) ok =
    let (frames, (pauses, (same, count))) = receive_loop-IsSimulated (counted c) rounds ok in
    (
      (simulated-IsSimulated c d, frames),
      ((sleep_ms-IsPause c d ok, pauses), (ap suc same, omega (arith, count))),
    )

-- The interface that the constructor makes, with the number that the manager gives it, sends data
-- frames of that number alone, with a standard identifier and 2, 4 or 8 bytes filled up to 8. It
-- begins one pause for each frame it sends, of the rate it was made with or within the two bounds of
-- a random rate, and its counter comes to the number of frames.
pub receive-IsSimulated :
    (cfg : SimConfig) (name : Bytes) (chan : Bool) (network uri : Option Bytes) (rate : Option ℕ)
    (c : SimulationCanClient) (number : ℕ) (rounds : List Round)
    → new_simulation_can_client cfg name chan network uri rate ≡ some c
    → let (c', frames, pauses) = receive (record c { id = number }) rounds in
      All (IsSimulated number) frames
      × (All (IsPause c) pauses × ((length pauses ≡ length frames) × (c'.count ≡ length frames)))
unfolding receive IsPause IsSetUp
receive-IsSimulated cfg name chan network uri rate c number rounds e =
    let started = record c { id = number; streaming = true } in
    let setup = new_simulation_can_client-IsSetUp cfg name chan network uri rate c e in
    let (frames, (pauses, (same, count))) = receive_loop-IsSimulated started rounds setup in
    let fresh = new_simulation_can_client-count cfg name chan network uri rate c e in
    (frames, (pauses, (same, omega (arith, count, fresh))))
