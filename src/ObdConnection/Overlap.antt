-- ===== src/ObdConnection/Overlap.antt =====
-- internal/connection/obdconn/connection.go: what the receive loop leaves open when calls of Discontinue
-- and Close come between its steps.
use cantou.ObdConnection.Steps.{Phase, idle, in_session, connecting, waiting}
use cantou.Common.{◌≡◌, ◌⊎◌, true, none, some}
use cantou.ObdConnection.{Base}
use cantou.ObdConnection.Sound.{IsSound}

-- There is no driver while the loop connects or waits.
abbrev HasNone : Phase → Base → Type 0
HasNone idle b = Unit
HasNone in_session b = Unit
HasNone connecting b = b.driver ≡ none
HasNone waiting b = b.driver ≡ none

-- While there is a loop it streams, or its channel is closed.
abbrev IsHeard : Base → Type 0
IsHeard b = (b.quit ≡ some true) ⊎ (b.streaming ≡ true)

record IsSafe (b : Base) (p : Phase) : Type 0 where
  sound : IsSound b
  has_none : HasNone p b
  heard : (p ≡ idle) ⊎ IsHeard b

-- What the operations keep of the channel and the flag.
Kept : Base → Base → Type 0
Kept b b' = (b'.quit ≡ b.quit) × (b'.streaming ≡ b.streaming)
