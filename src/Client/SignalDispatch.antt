-- ===== src/Client/SignalDispatch.antt =====
-- internal/client/signal-dispatch/dispatcher.go: frames are decoded to signals, which are expanded,
-- filtered and fanned out to every listener.
use cantou.Common.{ℕ, List, [], ◌∷◌, ◌++◌, map, if◌then◌else◌, Bytes, equal}
use cantou.Models.{CanMessageTimestamped, CanSignalTimestamped}
use cantou.Obd2.{expand_pids_supported}
use cantou.Client.Outlet.{Outlet, send}
use cantou.Client.SignalFilter.{Group, allow}
pub mod Delivery

pub record RegisteredListener : Type 0 where
  pub name : Bytes
  pub outlet : Outlet CanSignalTimestamped

unfoldable pub dropped_count : Bytes → List RegisteredListener → ℕ
dropped_count name [] = 0
dropped_count name (l ∷ ls) = if equal l.name name then l.outlet.dropped else dropped_count name ls

abbrev pub add_listener : RegisteredListener → List RegisteredListener → List RegisteredListener
add_listener l ls = ls ++ (l ∷ [])

-- the innermost loop: one signal to all listeners
abbrev pub fan_out : CanSignalTimestamped → List RegisteredListener → List RegisteredListener
fan_out s ls = map (λ (l : RegisteredListener). record l { outlet = send l.outlet s }) ls

-- `parse_signals` is the parser that the dispatcher is given; `to_uint32` is uint32(…) of a float64.
module _ (parse_signals : CanMessageTimestamped → List CanSignalTimestamped)
    (to_uint32 : ℕ → ℕ) where
  unfoldable pub dispatch_expanded :
      Group → List CanSignalTimestamped → List RegisteredListener → List RegisteredListener
  dispatch_expanded filter [] ls = ls
  dispatch_expanded filter (s ∷ ss) ls =
      dispatch_expanded filter ss (if allow filter s then fan_out s ls else ls)

  unfoldable pub dispatch_signals :
      Group → List CanSignalTimestamped → List RegisteredListener → List RegisteredListener
  dispatch_signals filter [] ls = ls
  dispatch_signals filter (sig ∷ sigs) ls =
      dispatch_signals filter sigs
        (dispatch_expanded filter (expand_pids_supported to_uint32 sig) ls)

  -- the loop of Dispatch over the frames, until the input channel is closed
  unfoldable pub dispatch :
      Group → List CanMessageTimestamped → List RegisteredListener → List RegisteredListener
  dispatch filter [] ls = ls
  dispatch filter (m ∷ ms) ls = dispatch filter ms (dispatch_signals filter (parse_signals m) ls)
