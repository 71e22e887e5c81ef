-- ===== src/ObdConnection/Polling.antt =====
-- internal/connection/obdconn/connection.go: one session of the receive loop, which polls the
-- configured PIDs, monitors the bus, or monitors it while the adapter polls. The driver and what its
-- calls do to it are parameters; what the select statements and the clock come to is an input.
use cantou.Common.{
  ℕ, zero, suc, Bool, true, false, Option, none, some, List, [], ◌∷◌, ◌++◌, Bytes, if◌then◌else◌,
  equal,
}
use cantou.Models.{CanMessageTimestamped}
use cantou.Obd.{Frame}
use cantou.ObdConnection.{emit, mode_poll, mode_hybrid}
pub mod Sequence
pub mod Requests
mod Tests

-- For the frames that are emitted in turn, the time of each one that is sent; `none` is for one that
-- gives way to a stop.
abbrev pub Sends : Type 0
Sends = ℕ → Option ℕ

abbrev sent : ℕ → Option ℕ → Frame → List CanMessageTimestamped → List CanMessageTimestamped
sent number none frame rest = rest
sent number (some now) frame rest = emit now number frame ∷ rest

-- The loop that emits frames, of the connection with this number.
unfoldable pub emit_all : ℕ → Sends → List Frame → List CanMessageTimestamped
emit_all number sends [] = []
emit_all number sends (frame ∷ frames) =
    sent number (sends 0) frame (emit_all number (λ i. sends (suc i)) frames)

-- How runPoll ends: it is still waiting for what comes next, returns nil, or the error of a request.
pub data Ending : Type 0 where
  running : Ending
  stopped : Ending
  failed : Ending

-- One round of runPoll: the sends of each request of pollOnce, and whether the wait behind it ends
-- with a tick.
pub record Poll : Type 0 where
  pub sends : ℕ → Sends
  pub ticked : Bool

-- What periodicDriver adds. An error of StopPeriodic is not looked at.
pub record Periodic {ℓ} (D : Type ℓ) : Type ℓ where
  pub start_periodic : List Bytes → ℕ → D → Bool × D
  pub stop_periodic : D → D

-- A driver: what its calls return and what becomes of it. `none` is the error of a request; Monitor
-- returns whether it ends without an error, and the frames that it hands to emit.
pub record Driver {ℓ} (D : Type ℓ) : Type ℓ where
  pub request : Bytes → D → Option (List Frame) × D
  pub monitor : D → Bool × List Frame × D
  pub periodic : Option (Periodic D)

module _ {ℓ} {D : Type ℓ} (driver : Driver D) (number : ℕ) where
  -- What is left of pollOnce when a request is answered, from what the rest of the loop comes to.
  abbrev pub after_request :
      Sends
      → ℕ
      → D
      → Option (List Frame)
      → Bool × List CanMessageTimestamped × ℕ × D
      → Bool × List CanMessageTimestamped × ℕ × D
  after_request sends life d none rest = (false, [], life, d)
  after_request sends life d (some frames) (ok, messages, life', d') =
      (ok, emit_all number sends frames ++ messages, life', d')

  -- pollOnce. `life` tests find no stop before one is asked for; it stays asked for.
  unfoldable pub poll_once :
      List Bytes → (ℕ → Sends) → ℕ → D → Bool × List CanMessageTimestamped × ℕ × D
  poll_once [] sends life d = (true, [], life, d)
  poll_once (pid ∷ pids) sends zero d = (true, [], zero, d)
  poll_once (pid ∷ pids) sends (suc life) d =
      let (answer, d') = driver.request pid d in
      after_request (sends 0) life d' answer (poll_once pids (λ i. sends (suc i)) life d')

  -- What is left of runPoll behind a round.
  abbrev pub after_round :
      Bool
      → Bool × List CanMessageTimestamped × ℕ × D
      → Ending × List CanMessageTimestamped × ℕ × D
      → Ending × List CanMessageTimestamped × ℕ × D
  after_round ticked (false, messages, life, d) rest = (failed, messages, life, d)
  after_round false (true, messages, life, d) rest = (stopped, messages, life, d)
  after_round true (true, messages, life, d) (ending, more, life', d') =
      (ending, messages ++ more, life', d')

  unfoldable pub run_poll :
      List Bytes → List Poll → ℕ → D → Ending × List CanMessageTimestamped × ℕ × D
  run_poll pids [] life d = (running, [], life, d)
  run_poll pids (p ∷ polls) life d =
      let (ok, messages, life', d') = poll_once pids p.sends life d in
      after_round p.ticked (ok, messages, life', d') (run_poll pids polls life' d')

  abbrev ending_of : Bool → Ending
  ending_of true = stopped
  ending_of false = failed

  unfoldable pub monitor_frames : Sends → D → Ending × List CanMessageTimestamped × D
  monitor_frames sends d =
      let (ok, frames, d') = driver.monitor d in (ending_of ok, emit_all number sends frames, d')

  unfoldable pub run_periodic :
      Periodic D → List Bytes → ℕ → Sends → D → Ending × List CanMessageTimestamped × D
  run_periodic pd pids interval sends d =
      let (started, d') = pd.start_periodic pids interval d in
      let (ending, messages, d'') = monitor_frames sends d' in
      if started then (ending, messages, pd.stop_periodic d'') else (failed, [], d')

  unfoldable pub run_hybrid : List Bytes → ℕ → Sends → D → Ending × List CanMessageTimestamped × D
  run_hybrid pids interval sends d = elim driver.periodic [
    | none ↦ monitor_frames sends d
    | some pd ↦ run_periodic pd pids interval sends d
  ]

  -- runOnce, with a driver.
  unfoldable pub run_once :
      Bytes → List Bytes → ℕ → List Poll → ℕ → Sends → D → Ending × List CanMessageTimestamped × D
  run_once mode pids interval polls life sends d =
      let (ending, messages, _, d') = run_poll pids polls life d in
      if equal mode mode_poll
      then (ending, messages, d')
      else if equal mode mode_hybrid
      then run_hybrid pids interval sends d
      else monitor_frames sends d
