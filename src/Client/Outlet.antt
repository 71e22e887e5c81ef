-- ===== src/Client/Outlet.antt =====
-- What both dispatchers (internal/client/message-dispatch/dispatcher.go and
-- internal/client/signal-dispatch/dispatcher.go) do for one listener: the `select` that sends to its
-- channel without waiting, and the count of what was dropped.
use cantou.Common.{ℕ, ◌+◌, ◌%◌, ◌^◌, List, [], ◌∷◌, ◌++◌, if◌then◌else◌, ltb, length}
pub mod Fifo

-- A buffered channel that no other listener has, and the counter beside it. A listener that waits
-- on a channel without a buffer is not modelled: sending to that is a drop here.
pub record Outlet {ℓ} (A : Type ℓ) : Type ℓ where
  pub queue : List A
  pub capacity : ℕ
  pub dropped : ℕ

module _ {ℓ} {A : Type ℓ} where
  unfoldable pub send : Outlet A → A → Outlet A
  send o a =
      if ltb (length o.queue) o.capacity
      then record o { queue = o.queue ++ (a ∷ []) }
      else record o { dropped = (o.dropped + 1) % 2 ^ 64 }

  unfoldable pub send_all : Outlet A → List A → Outlet A
  send_all o [] = o
  send_all o (a ∷ more) = send_all (send o a) more
