-- ===== src/App/Wiring.antt =====
-- What reaches the signal dispatchers and the outputs of an application.
use cantou.App.Listeners.{
  IsAscending, listener_of, add_signal_dispatchers-listeners, AllNamed, add_outputs-listeners,
}
use cantou.Common.{
  ℕ, ◌==◌, ◌≡◌, refl, ap, ◌∙◌, true, some, List, [], ◌∷◌, ◌++◌, map, arith, if◌then◌else◌, All,
  All-append,
}
use cantou.Models.{CanMessageTimestamped}
use cantou.Client.Outlet.{send_all}
use cantou.Client.MessageDispatch.{RegisteredListener, wants, test_filter_group, all_pass}
use cantou.Client.MessageDispatch.Delivery.{
  wanted, broadcast_all, served, IsTotal, broadcast_all-served,
}
use cantou.App.{
  SignalDispatcher, OutputClient, new_app, dispatcher_listener, add_signal_dispatchers,
  output_listener, add_outputs,
}

-- The frames of one interface.
abbrev pub frames_of : ℕ → List CanMessageTimestamped → List CanMessageTimestamped
frames_of i [] = []
frames_of i (m ∷ ms) = let rest = frames_of i ms in if m.interface == i then m ∷ rest else rest

wants-dispatcher_listener :
    (i : ℕ) (d : SignalDispatcher) (m : CanMessageTimestamped)
    → wants (dispatcher_listener i d).filter m ≡ some (m.interface == i)
unfolding wants test_filter_group all_pass
wants-dispatcher_listener i d m = ground arith

wanted-dispatcher_listener :
    (i : ℕ) (d : SignalDispatcher) (ms : List CanMessageTimestamped)
    → wanted (dispatcher_listener i d).filter ms ≡ frames_of i ms
wanted-dispatcher_listener i d [] = refl
wanted-dispatcher_listener i d (m ∷ ms) =
    ground (arith, wants-dispatcher_listener i d m, wanted-dispatcher_listener i d ms)

wanted-output_listener :
    (o : OutputClient) (ms : List CanMessageTimestamped) → wanted (output_listener o).filter ms ≡ ms
unfolding wants
wanted-output_listener o [] = refl
wanted-output_listener o (m ∷ ms) = ap (◌∷◌ m) (wanted-output_listener o ms)

-- A dispatcher and an output behind the frames that they are offered.
abbrev pub dispatcher_offered :
    List CanMessageTimestamped → ℕ × SignalDispatcher → RegisteredListener
dispatcher_offered ms (i, d) =
    dispatcher_listener i (record d { channel = send_all d.channel (frames_of i ms) })

abbrev pub output_offered : List CanMessageTimestamped → OutputClient → RegisteredListener
output_offered ms o = output_listener (record o { channel = send_all o.channel ms })

dispatchers-served :
    (ds : List (ℕ × SignalDispatcher)) (ms : List CanMessageTimestamped)
    → (map (served ms) (map listener_of ds) ≡ map (dispatcher_offered ms) ds)
      × All IsTotal (map listener_of ds)
dispatchers-served [] ms = (refl, tt)
dispatchers-served ((i, d) ∷ ds) ms =
    let (rest, total) = dispatchers-served ds ms in
    (
      ap
            (λ (x : List CanMessageTimestamped).
              dispatcher_listener i (record d { channel = send_all d.channel x })
              ∷ map (served ms) (map listener_of ds))
            (wanted-dispatcher_listener i d ms)
          ∙ ap (◌∷◌ (dispatcher_offered ms (i, d))) rest,
      (λ m e. absurd (ground (arith, e, wants-dispatcher_listener i d m)), total),
    )

outputs-served :
    (os : List OutputClient) (ms : List CanMessageTimestamped)
    → (map (served ms) (map output_listener os) ≡ map (output_offered ms) os)
      × All IsTotal (map output_listener os)
outputs-served [] ms = (refl, tt)
outputs-served (o ∷ os) ms =
    let (rest, total) = outputs-served os ms in
    (
      ap
            (λ (x : List CanMessageTimestamped).
              output_listener (record o { channel = send_all o.channel x })
              ∷ map (served ms) (map output_listener os))
            (wanted-output_listener o ms)
          ∙ ap (◌∷◌ (output_offered ms o)) rest,
      (λ m e. absurd (unfold wants in ground (arith, e)), total),
    )

map-append {ℓ κ} :
    {A : Type ℓ} {B : Type κ} (f : A → B) (xs ys : List A) → map f (xs ++ ys) ≡ map f xs ++ map f ys
map-append f [] ys = refl
map-append f (x ∷ xs) ys = ap (◌∷◌ (f x)) (map-append f xs ys)

-- An application that logs frames and signals is built by adding the signal dispatchers of some
-- interfaces, in ascending order, and then outputs whose names no other listener has. When frames
-- are broadcast, the dispatcher of an interface is offered exactly the frames of that interface, and
-- each output is offered all frames, in order.
pub wired-served :
    (ds : List (ℕ × SignalDispatcher)) (os : List OutputClient) (ms : List CanMessageTimestamped)
    → IsAscending 0 ds
    → AllNamed (add_signal_dispatchers (new_app true true) ds).broadcast_client os
    → broadcast_all
        (add_outputs (add_signal_dispatchers (new_app true true) ds) os).broadcast_client
        ms
      ≡ some (map (dispatcher_offered ms) ds ++ map (output_offered ms) os)
wired-served ds os ms up named =
    let b = add_signal_dispatchers (new_app true true) ds in
    let (dispatchers, logs) =
      add_signal_dispatchers-listeners 0 ds (new_app true true) up (λ j above small. refl) refl in
    let whole : (add_outputs b os).broadcast_client ≡ map listener_of ds ++ map output_listener os =
      add_outputs-listeners os b named logs ∙ ap (λ cs. cs ++ map output_listener os) dispatchers in
    let (offered, total) = dispatchers-served ds ms in
    let (offered', total') = outputs-served os ms in
    ap (λ cs. broadcast_all cs ms) whole
    ∙ broadcast_all-served ms (map listener_of ds ++ map output_listener os)
        (All-append IsTotal (map listener_of ds) (map output_listener os) total total')
    ∙ ap some (
        map-append (served ms) (map listener_of ds) (map output_listener os)
        ∙ ap (λ cs. cs ++ map (served ms) (map output_listener os)) offered
        ∙ ap (λ cs. map (dispatcher_offered ms) ds ++ cs) offered')
