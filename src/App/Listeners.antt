-- ===== src/App/Listeners.antt =====
-- internal/app/app.go: the listeners that are registered one after the other.
use mathlib.Core.List.{append_cancel_left}
use cantou.Common.{
  ℕ, suc, ◌^◌, ◌≤◌, ◌<◌, ◌≡◌, ◌≢◌, refl, ap, ◌∙◌, sym, true, false, List, [], ◌∷◌, ◌++◌, map,
  append-nil, append_assoc, arith, Bytes, codes, equal, equal_iff, Bool-cases, inl, inr,
}
use cantou.Mqtt.Topics.{format_uint-injective}
use cantou.Client.MessageDispatch.{RegisteredListener, MessageDispatcher, add}
use cantou.Client.MessageDispatch.Registry.{has_name, add_lem, has_name-snoc}
use cantou.App.{
  AppData, SignalDispatcher, OutputClient, dispatcher_name, dispatcher_listener, or_same,
  add_signal_dispatcher, add_signal_dispatchers, output_listener, add_output, add_outputs,
}

equal-of_ne : (s t : Bytes) → s ≢ t → equal s t ≡ false
equal-of_ne s t h = elim (Bool-cases (equal s t)) [
  | inl e ↦ absurd (h ((equal_iff s t).0 e))
  | inr e ↦ e
]

dispatcher_name-ne :
    (i j : ℕ)
    → i < 2 ^ 63
    → j < 2 ^ 63
    → i ≢ j
    → equal (dispatcher_name i) (dispatcher_name j) ≡ false
unfolding dispatcher_name
dispatcher_name-ne i j hi hj h = equal-of_ne (dispatcher_name i) (dispatcher_name j) (λ e.
    h (format_uint-injective i j hi hj (append_cancel_left (codes "signal-dispatcher-") _ _ e)))

-- The interfaces, in ascending order from `k` on.
abbrev pub IsAscending : ℕ → List (ℕ × SignalDispatcher) → Type 0
IsAscending k [] = Unit
IsAscending k ((i, d) ∷ ds) = (k ≤ i) × (i < 2 ^ 63) × IsAscending (suc i) ds

abbrev IsFresh : ℕ → MessageDispatcher → Type 0
IsFresh k cs = (j : ℕ) → k ≤ j → j < 2 ^ 63 → has_name (dispatcher_name j) cs ≡ false

abbrev pub listener_of : ℕ × SignalDispatcher → RegisteredListener
listener_of (i, d) = dispatcher_listener i d

add_signal_dispatcher-free :
    (b : AppData) (i : ℕ) (d : SignalDispatcher)
    → b.log_signals ≡ true
    → has_name (dispatcher_name i) b.broadcast_client ≡ false
    → add_signal_dispatcher b i d ≡ record b {
      broadcast_client = b.broadcast_client ++ (dispatcher_listener i d ∷ []);
      signal_dispatchers = b.signal_dispatchers ++ ((i, d) ∷ []);
    }
unfolding add_signal_dispatcher
add_signal_dispatcher-free b i d logs free =
    rw logs (rw (add_lem (dispatcher_listener i d) b.broadcast_client) (rw free refl))

pub add_signal_dispatchers-listeners :
    (k : ℕ) (ds : List (ℕ × SignalDispatcher)) (b : AppData)
    → IsAscending k ds
    → IsFresh k b.broadcast_client
    → b.log_signals ≡ true
    → ((add_signal_dispatchers b ds).broadcast_client ≡ b.broadcast_client ++ map listener_of ds)
      × ((add_signal_dispatchers b ds).log_can_messages ≡ b.log_can_messages)
unfolding add_signal_dispatchers
add_signal_dispatchers-listeners k [] b up fresh logs = (sym (append-nil b.broadcast_client), refl)
add_signal_dispatchers-listeners k ((i, d) ∷ ds) b (low, high, up) fresh logs =
    let next : AppData = record b {
      broadcast_client = b.broadcast_client ++ (dispatcher_listener i d ∷ []);
      signal_dispatchers = b.signal_dispatchers ++ ((i, d) ∷ []);
    } in
    let step = add_signal_dispatcher-free b i d logs (fresh i low high) in
    let (listeners, frames) =
      add_signal_dispatchers-listeners (suc i) ds next up
        (λ j above small.
          has_name-snoc (dispatcher_name j) b.broadcast_client (dispatcher_listener i d)
            (fresh j (omega (arith, low, above)) small)
            (dispatcher_name-ne i j high small (λ e. absurd (omega (arith, e, above)))))
        logs in
    (
      ap (λ (a : AppData). (add_signal_dispatchers a ds).broadcast_client) step
          ∙ listeners
          ∙ append_assoc b.broadcast_client (dispatcher_listener i d ∷ []) (map listener_of ds),
      ap (λ (a : AppData). (add_signal_dispatchers a ds).log_can_messages) step ∙ frames,
    )

add_output-listeners :
    (b : AppData) (c : OutputClient)
    → b.log_can_messages ≡ true
    → ((add_output b c).broadcast_client
        ≡ or_same b.broadcast_client (add (output_listener c) b.broadcast_client))
      × ((add_output b c).log_can_messages ≡ true)
unfolding add_output
add_output-listeners b c logs = ground (arith, logs)

-- The outputs have names that no other listener has.
abbrev pub AllNamed : MessageDispatcher → List OutputClient → Type 0
AllNamed cs [] = Unit
AllNamed cs (o ∷ os) = (has_name o.name cs ≡ false) × AllNamed (cs ++ (output_listener o ∷ [])) os

pub add_outputs-listeners :
    (os : List OutputClient) (b : AppData)
    → AllNamed b.broadcast_client os
    → b.log_can_messages ≡ true
    → (add_outputs b os).broadcast_client ≡ b.broadcast_client ++ map output_listener os
unfolding add_outputs
add_outputs-listeners [] b named logs = sym (append-nil b.broadcast_client)
add_outputs-listeners (o ∷ os) b (free, named) logs =
    let (listeners, still) = add_output-listeners b o logs in
    let now : (add_output b o).broadcast_client ≡ b.broadcast_client ++ (output_listener o ∷ []) =
      listeners
      ∙ ap (or_same b.broadcast_client) (add_lem (output_listener o) b.broadcast_client)
      ∙ rw free refl in
    add_outputs-listeners os (add_output b o) (rw now named) still
    ∙ ap (λ cs. cs ++ map output_listener os) now
    ∙ append_assoc b.broadcast_client (output_listener o ∷ []) (map output_listener os)
