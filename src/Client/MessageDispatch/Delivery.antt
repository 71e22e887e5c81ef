-- ===== src/Client/MessageDispatch/Delivery.antt =====
-- What a listener receives.
use cantou.Common.{
  ◌≢◌, ◌⊎◌, All, ◌≡◌, refl, sym, ap, ◌∙◌, true, false, List, [], ◌∷◌, map, arith, Option, some,
  none, inl, inr, Option-cases, if◌then◌else◌, ◌>>=◌,
}
use cantou.Models.{CanMessageTimestamped}
use cantou.Client.Outlet.{send_all}
use cantou.Client.MessageDispatch.{
  RegisteredListener, MessageDispatcher, CanMessageFilterGroup, deliver, broadcast, wants,
}

-- The frames for a listener, as its filter says; without an answer there is none.
abbrev pub wanted :
    Option CanMessageFilterGroup → List CanMessageTimestamped → List CanMessageTimestamped
wanted f [] = []
wanted f (m ∷ ms) =
    let later = wanted f ms in
    elim (wants f m) [ none ↦ later | some pass ↦ if pass then m ∷ later else later ]

unfoldable pub broadcast_all :
    MessageDispatcher → List CanMessageTimestamped → Option MessageDispatcher
broadcast_all cs [] = some cs
broadcast_all cs (m ∷ ms) = do cs' ← broadcast cs m; broadcast_all cs' ms

abbrev pub served : List CanMessageTimestamped → RegisteredListener → RegisteredListener
served ms c = record c { outlet = send_all c.outlet (wanted c.filter ms) }

-- No filter of the listener panics.
abbrev pub IsTotal : RegisteredListener → Type 0
IsTotal c = (m : CanMessageTimestamped) → wants c.filter m ≢ none

wants_cases :
    (c : RegisteredListener) (m : CanMessageTimestamped)
    → IsTotal c
    → (wants c.filter m ≡ some true) ⊎ (wants c.filter m ≡ some false)
wants_cases c m t = elim (Option-cases (wants c.filter m)) [
  | inl e ↦ absurd (t m e)
  | inr (true, e) ↦ inl e
  | inr (false, e) ↦ inr e
]

deliver-served :
    (c : RegisteredListener) (m : CanMessageTimestamped)
    → IsTotal c
    → deliver c m ≡ some (served (m ∷ []) c)
unfolding deliver send_all
deliver-served c m t = elim (wants_cases c m t) [
  | inl e ↦ ground (arith, e)
  | inr e ↦ ground (arith, e)
]

served-cons :
    (c : RegisteredListener) (m : CanMessageTimestamped) (ms : List CanMessageTimestamped)
    → IsTotal c
    → served ms (served (m ∷ []) c) ≡ served (m ∷ ms) c
unfolding send_all
served-cons c m ms t = elim (wants_cases c m t) [
  | inl e ↦ ground (arith, e)
  | inr e ↦ ground (arith, e)
]

broadcast-served :
    (cs : MessageDispatcher) (m : CanMessageTimestamped)
    → All IsTotal cs
    → broadcast cs m ≡ some (map (served (m ∷ [])) cs)
unfolding broadcast
broadcast-served [] m h = refl
broadcast-served (c ∷ cs) m (t, h) = ground (arith, deliver-served c m t, broadcast-served cs m h)

served-IsTotal :
    (cs : MessageDispatcher) (ms : List CanMessageTimestamped)
    → All IsTotal cs
    → All IsTotal (map (served ms) cs)
served-IsTotal [] ms h = tt
served-IsTotal (c ∷ cs) ms (t, h) = (t, served-IsTotal cs ms h)

map-served-nil : (cs : MessageDispatcher) → map (served []) cs ≡ cs
unfolding send_all
map-served-nil [] = refl
map-served-nil (c ∷ cs) = ap (λ r. c ∷ r) (map-served-nil cs)

map-served-cons :
    (cs : MessageDispatcher) (m : CanMessageTimestamped) (ms : List CanMessageTimestamped)
    → All IsTotal cs
    → map (served ms) (map (served (m ∷ [])) cs) ≡ map (served (m ∷ ms)) cs
map-served-cons [] m ms h = refl
map-served-cons (c ∷ cs) m ms (t, h) = rw (served-cons c m ms t, map-served-cons cs m ms h) refl

-- If the filters of all listeners answer for every frame, each frame is dealt with, and what a
-- listener is offered does not depend on the others: exactly the frames that its own filter
-- passes, in order.
pub broadcast_all-served :
    (ms : List CanMessageTimestamped) (cs : MessageDispatcher)
    → All IsTotal cs
    → broadcast_all cs ms ≡ some (map (served ms) cs)
unfolding broadcast_all
broadcast_all-served [] cs h = ap some (sym (map-served-nil cs))
broadcast_all-served (m ∷ ms) cs h =
    ap (λ o. o >>= λ cs'. broadcast_all cs' ms) (broadcast-served cs m h)
    ∙ broadcast_all-served ms (map (served (m ∷ [])) cs) (served-IsTotal cs (m ∷ []) h)
    ∙ ap some (map-served-cons cs m ms h)
