-- ===== src/ObdConnection/Transports.antt =====
-- The transports of internal/connection/obdconn/connection.go: none is left open, and the quit
-- channel is closed once.
use cantou.Common.{◌≡◌, sym, ◌∙◌, false, none, some, List, [], some-injective, Bytes}
use mathlib.Core.Path.{subst}
use cantou.ObdConnection.{Base, CanInterfaceOption, new}
use cantou.ObdConnection.Link.{Attempt, open_adapter, discontinue, close_adapter, Session, receive}
use cantou.ObdConnection.Sound.{
  to_list, IsSound, open_adapter-IsSound, made-IsSound, receive-IsSound, discontinue-IsSound,
  close_adapter-IsSound,
}

-- The states that a connection can come to when a call waits until the loop of a Receive has used up
-- its sessions: Open is called without a link, the rest at any time. Steps has the loop step by step.
pub data Reachable : Base → Type 0 where
  made : (opt : CanInterfaceOption) (kind : Bytes) (b : Base) → new opt kind ≡ some b → Reachable b
  opening :
      (b : Base) (a : Attempt) → Reachable b → b.driver ≡ none → Reachable (open_adapter b a).1
  receiving : (b : Base) (ss : List Session) → Reachable b → Reachable (receive b ss)
  discontinuing : (b b' : Base) → Reachable b → discontinue b ≡ some b' → Reachable b'
  closing : (b b' : Base) → Reachable b → close_adapter b ≡ some b' → Reachable b'

pub Reachable-IsSound : (b : Base) → Reachable b → IsSound b
Reachable-IsSound b (made opt kind _ e) = made-IsSound opt kind b e
Reachable-IsSound _ (opening b a r e) = open_adapter-IsSound b a e (Reachable-IsSound b r)
Reachable-IsSound _ (receiving b ss r) = receive-IsSound b ss (Reachable-IsSound b r)
Reachable-IsSound b' (discontinuing b _ r e) =
    let (b'', e', sound, _, _) = discontinue-IsSound b (Reachable-IsSound b r) in
    subst IsSound (some-injective (sym e' ∙ e)) sound
Reachable-IsSound b' (closing b _ r e) =
    let (b'', e', sound, _, _) = close_adapter-IsSound b (Reachable-IsSound b r) in
    subst IsSound (some-injective (sym e' ∙ e)) sound

-- In every such state, Open being called only without a link, the one transport that is open is the driver's; Discontinue and Close do not panic by closing the quit
-- channel twice, and after Close no transport is open.
pub Reachable-closes :
    (b : Base)
    → Reachable b
    → (b.transports ≡ to_list b.driver)
      × ((b' : Base) × (discontinue b ≡ some b'))
      × ((b' : Base) × (close_adapter b ≡ some b') × (b'.transports ≡ []) × (b'.streaming ≡ false))
Reachable-closes b r =
    let sound = Reachable-IsSound b r in
    let (stopped, e, _, _, _) = discontinue-IsSound b sound in
    let (closed, e', _, empty, still) = close_adapter-IsSound b sound in
    (sound.0, (stopped, e), (closed, e', empty, still))
