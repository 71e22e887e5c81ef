-- ===== src/Client/MessageDispatch.antt =====
-- internal/client/message-dispatch/dispatcher.go: the fan-out of CAN frames to named listeners.
-- A dispatcher is its list of listeners. The copy of the list that `broadcast` walks is taken as the
-- list itself: Add and Remove do not run between the first and the last send of one frame.
use cantou.Common.{
  ℕ, zero, ◌+◌, Bool, true, false, List, [], ◌∷◌, ◌++◌, if◌then◌else◌, Bytes, equal, Option, some,
  none, ◌>>=◌,
}
use cantou.Models.{CanMessageTimestamped}
use cantou.Client.Filters.{CanFilterGroupOperator, filter_and, filter_or, FilterInterface}
use cantou.Client.Outlet.{Outlet, send}
pub mod Registry
pub mod Delivery
pub mod Reachable

pub record CanMessageFilterGroup : Type 0 where
  pub filters : List FilterInterface
  pub operator : CanFilterGroupOperator

pub record RegisteredListener : Type 0 where
  pub name : Bytes
  pub filter : Option CanMessageFilterGroup
  pub outlet : Outlet CanMessageTimestamped

abbrev pub MessageDispatcher : Type 0
MessageDispatcher = List RegisteredListener

-- `none` stands for the error that the name is in use.
unfoldable pub add : RegisteredListener → MessageDispatcher → Option MessageDispatcher
add l [] = some (l ∷ [])
add l (c ∷ cs) =
    let rest = add l cs in if equal c.name l.name then none else do cs' ← rest; some (c ∷ cs')

-- `none` stands for the error that no listener has the name.
unfoldable pub remove : Bytes → MessageDispatcher → Option MessageDispatcher
remove name [] = none
remove name (c ∷ cs) =
    let rest = remove name cs in
    if equal c.name name then some cs else do cs' ← rest; some (c ∷ cs')

-- A filter that panics ends the program: `none`.
unfoldable pub any_passes : List FilterInterface → CanMessageTimestamped → Option Bool
any_passes [] m = some false
any_passes (f ∷ fs) m = do pass ← f m; if pass then some true else any_passes fs m

unfoldable pub all_pass : List FilterInterface → CanMessageTimestamped → Option Bool
all_pass [] m = some true
all_pass (f ∷ fs) m = do pass ← f m; if pass then all_pass fs m else some false

unfoldable pub test_filter_group : CanMessageFilterGroup → CanMessageTimestamped → Option Bool
test_filter_group g m = elim g.operator [
  | filter_or ↦ any_passes g.filters m
  | filter_and ↦ all_pass g.filters m
]

unfoldable pub wants : Option CanMessageFilterGroup → CanMessageTimestamped → Option Bool
wants none m = some true
wants (some g) m = test_filter_group g m

-- the loop body for one listener
unfoldable pub deliver : RegisteredListener → CanMessageTimestamped → Option RegisteredListener
deliver c m = do
  pass ← wants c.filter m
  some (if pass then record c { outlet = send c.outlet m } else c)

-- the loop body for one frame
unfoldable pub broadcast : MessageDispatcher → CanMessageTimestamped → Option MessageDispatcher
broadcast [] m = some []
broadcast (c ∷ cs) m = do c' ← deliver c m; cs' ← broadcast cs m; some (c' ∷ cs')

unfoldable pub dropped_count : Bytes → MessageDispatcher → ℕ
dropped_count name [] = 0
dropped_count name (c ∷ cs) = if equal c.name name then c.outlet.dropped else dropped_count name cs
