-- ===== src/ObdConnection/Steps.antt =====
-- internal/connection/obdconn/connection.go: the goroutine of Receive step by step, with the calls of
-- Discontinue and Close between its steps. An attempt to connect is one phase; one loop runs at a time.
use cantou.Common.{◌≡◌, true, false, none, some, Bytes}
use cantou.ObdConnection.{Base, CanInterfaceOption, new}
use cantou.ObdConnection.Link.{
  Attempt, connect, connected, open_adapter, discontinue, drop_driver, close_adapter,
}

-- Where the goroutine is: there is none, in runOnce, in connect, or in the wait behind a failure.
pub data Phase : Type 0 where
  idle : Phase
  in_session : Phase
  connecting : Phase
  waiting : Phase

-- A step of run and reconnect. `quit` is closed for good, so a test of it that finds no stop is one of
-- an open channel; the context may end at any time.
pub data LoopStep : Base → Phase → Base → Phase → Type 0 where
  ended : (b : Base) → LoopStep b in_session b idle
  lost_stopping : (b : Base) → LoopStep b in_session (drop_driver b.driver b) idle
  lost :
      (b : Base) → b.quit ≡ some false → LoopStep b in_session (drop_driver b.driver b) connecting
  failed :
      (b : Base) (a : Attempt)
      → (connect b a).0 ≡ false
      → LoopStep b connecting (connect b a).1 waiting
  reconnected : (b : Base) → LoopStep b connecting (connect b connected).1 in_session
  stopped : (b : Base) → LoopStep b waiting b idle
  again : (b : Base) → b.quit ≡ some false → LoopStep b waiting b connecting

pub data LoopSteps : Base → Phase → Base → Phase → Type 0 where
  here : (b : Base) (p : Phase) → LoopSteps b p b p
  more :
      {b b' b'' : Base} {p p' p'' : Phase}
      → LoopStep b p b' p'
      → LoopSteps b' p' b'' p''
      → LoopSteps b p b'' p''

-- Open is called without a loop and a link, Receive without a loop, the rest at any time.
pub data Reachable : Base → Phase → Type 0 where
  made :
      (opt : CanInterfaceOption) (kind : Bytes) (b : Base)
      → new opt kind ≡ some b
      → Reachable b idle
  opening :
      (b : Base) (a : Attempt)
      → Reachable b idle
      → b.driver ≡ none
      → Reachable (open_adapter b a).1 idle
  receiving :
      (b : Base)
      → Reachable b idle
      → Reachable (record b { quit = some false; streaming = true }) in_session
  looping : {b b' : Base} {p p' : Phase} → Reachable b p → LoopStep b p b' p' → Reachable b' p'
  discontinuing :
      {b b' : Base} {p : Phase} → Reachable b p → discontinue b ≡ some b' → Reachable b' p
  closing : {b b' : Base} {p : Phase} → Reachable b p → close_adapter b ≡ some b' → Reachable b' p
