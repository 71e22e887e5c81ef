-- ===== src/ObdConnection/Link.antt =====
-- internal/connection/obdconn/connection.go: opening, closing and reconnecting.
use cantou.Common.{
  ℕ, ◌+◌, ◌*◌, Bool, true, false, ◌&&◌, Option, none, some, List, [], ◌∷◌, if◌then◌else◌, ltb, ◌==◌,
  length, ◌>>=◌,
}
use cantou.ObdConnection.{Base, second, polls}

-- What an attempt to connect comes to: openTransport, Init or SetFilters fails, or all succeed.
pub data Attempt : Type 0 where
  open_failed : Attempt
  init_failed : Attempt
  filters_failed : Attempt
  connected : Attempt

abbrev pub remove : ℕ → List ℕ → List ℕ
remove t [] = []
remove t (u ∷ us) = let rest = remove t us in if u == t then rest else u ∷ rest

abbrev open_transport : Base → Base
open_transport b = record b { transports = b.next ∷ b.transports; next = b.next + 1 }

abbrev close_transport : ℕ → Base → Base
close_transport t b = record b { transports = remove t b.transports }

-- connect: whether it returns no error, and the state behind it.
unfoldable pub connect : Base → Attempt → Bool × Base
connect b open_failed = (false, b)
connect b init_failed = (false, close_transport b.next (open_transport b))
connect b filters_failed = (false, close_transport b.next (open_transport b))
connect b connected = (true, record (open_transport b) { driver = some b.next })

unfoldable pub open_adapter : Base → Attempt → Bool × Base
open_adapter b attempt =
    if b.cfg_err
    then (false, b)
    else if polls b.mode && (length b.pids == 0)
    then (false, b)
    else let (ok, b') = connect b attempt in (ok, if ok then record b' { opened = true } else b')

-- close(b.quit), which panics on a channel that is closed.
unfoldable pub close_quit : Option Bool → Base → Option Base
close_quit none b = some b
close_quit (some true) b = none
close_quit (some false) b = some (record b { quit = some true })

unfoldable pub discontinue : Base → Option Base
discontinue b = do
  b' ← if b.streaming then close_quit b.quit b else some b
  some (record b' { streaming = false })

unfoldable pub drop_driver : Option ℕ → Base → Base
drop_driver none b = b
drop_driver (some t) b = record (close_transport t b) { driver = none }

-- An error of the device's own Close is only reported.
unfoldable pub close_adapter : Base → Option Base
close_adapter b = do b' ← discontinue b; some (record (drop_driver b'.driver b') { opened = false })

-- One round of the loop of reconnect: whether a stop has been asked for before it, what the
-- attempt comes to, and whether a stop ends the wait after a failure.
pub record Round : Type 0 where
  pub stopping : Bool
  pub attempt : Attempt
  pub stopped : Bool

pub data Verdict : Type 0 where
  trying : Verdict
  gave_up : Verdict
  reconnected : Verdict

abbrev pub reconnect_min_backoff : ℕ
reconnect_min_backoff = second

abbrev pub reconnect_max_backoff : ℕ
reconnect_max_backoff = 30 * second

unfoldable pub next_backoff : ℕ → ℕ
next_backoff backoff =
    if ltb backoff reconnect_max_backoff
    then if ltb reconnect_max_backoff (backoff * 2) then reconnect_max_backoff else backoff * 2
    else backoff

-- The verdict after the rounds given, the waits begun, and the state.
unfoldable pub attempts : ℕ → Base → List Round → Verdict × List ℕ × Base
attempts backoff b [] = (trying, [], b)
attempts backoff b (r ∷ rounds) =
    let (ok, b') = connect b r.attempt in
    let (verdict, waits, b'') = attempts (next_backoff backoff) b' rounds in
    if r.stopping
    then (gave_up, [], b)
    else if ok
    then (reconnected, [], b')
    else if r.stopped
    then (gave_up, backoff ∷ [], b')
    else (verdict, backoff ∷ waits, b'')

unfoldable pub reconnect : Base → List Round → Verdict × List ℕ × Base
reconnect b rounds = attempts reconnect_min_backoff (drop_driver b.driver b) rounds

-- How one runOnce ends: without an error, or with one, and then whether a stop has been asked for
-- and the rounds of reconnect.
pub data Session : Type 0 where
  ended : Session
  lost : Bool → List Round → Session

-- run, from the driver that runOnce finds; it goes on only when reconnect says so.
unfoldable pub run : Option ℕ → Base → List Session → Base
run driver b [] = b
run none b (s ∷ ss) = b
run (some t) b (ended ∷ ss) = b
run (some t) b (lost stopping rounds ∷ ss) =
    let (verdict, _, b') = reconnect b rounds in
    let after = run b'.driver b' ss in
    if stopping then b else elim verdict [ trying ↦ b' | gave_up ↦ b' | reconnected ↦ after ]

-- Receive, and what its goroutine does over the sessions given; behind them it goes on. Steps has the
-- goroutine step by step.
unfoldable pub receive : Base → List Session → Base
receive b sessions =
    let b' = record b { quit = some false; streaming = true } in run b'.driver b' sessions
