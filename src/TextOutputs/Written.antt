-- ===== src/TextOutputs/Written.antt =====
-- What a text output leaves on disk, whatever the library passes on early and whenever the timer ticks.
use cantou.Common.{
  ℕ, zero, suc, ◌≡◌, ◌≢◌, refl, ap, ◌∙◌, sym, Bool, true, false, Option, none, some, List, [], ◌∷◌,
  ◌++◌, append-nil, append_assoc, arith, Bytes, take, drop, inl, inr, All, if◌then◌else◌,
  Bool-cases,
}
use cantou.Models.{CanMessageTimestamped}
use cantou.Client.Filters.{FilterSet, should_filter}
use cantou.TextOutputs.Files.{FileWriter, write, flush, close}
use cantou.TextOutputs.Clients.{
  TextClient, Event, received, tick, handle_can_message, handle_can_event, handle_can_events,
  handle_can_message_channel,
}

take-append-drop {ℓ} : {A : Type ℓ} (n : ℕ) (xs : List A) → take n xs ++ drop n xs ≡ xs
take-append-drop zero xs = refl
take-append-drop (suc n) [] = refl
take-append-drop (suc n) (x ∷ xs) = ap (◌∷◌ x) (take-append-drop n xs)

-- What has been written, on disk or not.
abbrev pub contents : FileWriter → Bytes
contents w = w.file ++ w.buffer

pub contents-write :
    (passed_on : Bytes → ℕ) (w : FileWriter) (s : Bytes)
    → contents (write passed_on w s) ≡ contents w ++ s
unfolding write
contents-write passed_on w s =
    append_assoc w.file (take (passed_on (w.buffer ++ s)) (w.buffer ++ s))
      (drop (passed_on (w.buffer ++ s)) (w.buffer ++ s))
    ∙ ap (◌++◌ w.file) (take-append-drop (passed_on (w.buffer ++ s)) (w.buffer ++ s))
    ∙ sym (append_assoc w.file w.buffer s)

pub contents-flush : (w : FileWriter) → contents (flush w) ≡ contents w
unfolding flush
contents-flush w = append-nil (w.file ++ w.buffer)

-- The frames among the events that no filter rejects.
abbrev passes : Option (Option Bytes) → Bool
passes (some none) = true
passes _ = false

abbrev pub passed : FilterSet → List (Event CanMessageTimestamped) → List CanMessageTimestamped
passed filters [] = []
passed filters (tick ∷ es) = passed filters es
passed filters (received m ∷ es) =
    let rest = passed filters es in if passes (should_filter filters m) then m ∷ rest else rest

abbrev pub NoPanic : FilterSet → Event CanMessageTimestamped → Type 0
NoPanic filters tick = Unit
NoPanic filters (received m) = should_filter filters m ≢ none

abbrev pub texts : (CanMessageTimestamped → Bytes) → List CanMessageTimestamped → Bytes
texts can_text [] = []
texts can_text (m ∷ ms) = can_text m ++ texts can_text ms

module _ (passed_on : Bytes → ℕ) (can_text : CanMessageTimestamped → Bytes)
    (signals : Option FileWriter) (filters : FilterSet) where
  abbrev writing : FileWriter → TextClient
  writing w = record { can_writer = some w; signal_writer = signals; filters = filters }

  abbrev lines_of : List (Event CanMessageTimestamped) → Bytes
  lines_of es = texts can_text (passed filters es)

  abbrev Continues : FileWriter → Bytes → FileWriter → Type 0
  Continues w s w' = (contents w' ≡ contents w ++ s) × (w'.opened ≡ w.opened)

  handle_received :
      (w : FileWriter) (m : CanMessageTimestamped) (o : Option (Option Bytes))
      → should_filter filters m ≡ o
      → o ≢ none
      → (w' : FileWriter) × (handle_can_message passed_on can_text (writing w) m
          ≡ some (writing w'))
        × Continues w (lines_of (received m ∷ [])) w'
  unfolding handle_can_message
  handle_received w m none e h = absurd (h refl)
  handle_received w m (some (some name)) e h =
      (w, rw e, (rw e (sym (append-nil (contents w))), refl))
  handle_received w m (some none) e h = (
    write passed_on w (can_text m),
    rw e,
    (
      rw e (
          contents-write passed_on w (can_text m)
          ∙ ap (◌++◌ (contents w)) (sym (append-nil (can_text m)))),
      unfold write in refl,
    ),
  )

  handle_one :
      (w : FileWriter) (e : Event CanMessageTimestamped)
      → NoPanic filters e
      → (w' : FileWriter) × (handle_can_event passed_on can_text (writing w) e ≡ some (writing w'))
        × Continues w (lines_of (e ∷ [])) w'
  unfolding handle_can_event
  handle_one w tick h =
      (flush w, refl, (contents-flush w ∙ sym (append-nil (contents w)), unfold flush in refl))
  handle_one w (received m) h = handle_received w m (should_filter filters m) refl h

  lines_of-cons :
      (e : Event CanMessageTimestamped) (es : List (Event CanMessageTimestamped))
      → lines_of (e ∷ es) ≡ lines_of (e ∷ []) ++ lines_of es
  lines_of-cons tick es = refl
  lines_of-cons (received m) es = elim (Bool-cases (passes (should_filter filters m))) [
    | inl p ↦ rw p (ap (λ x. x ++ lines_of es) (sym (append-nil (can_text m))))
    | inr p ↦ rw p refl
  ]

  handle-Continues :
      (w : FileWriter) (es : List (Event CanMessageTimestamped))
      → All (NoPanic filters) es
      → (w' : FileWriter) × (handle_can_events passed_on can_text (writing w) es
          ≡ some (writing w'))
        × Continues w (lines_of es) w'
  unfolding handle_can_events
  handle-Continues w [] h = (w, refl, (sym (append-nil (contents w)), refl))
  handle-Continues w (e ∷ es) h =
      let (v, step, (now, same)) = handle_one w e h.0 in
      let (w', steps, (later, same')) = handle-Continues v es h.1 in
      (
        w',
        rw step steps,
        (
          later
              ∙ ap (λ x. x ++ lines_of es) now
              ∙ append_assoc (contents w) (lines_of (e ∷ [])) (lines_of es)
              ∙ ap (◌++◌ (contents w)) (sym (lines_of-cons e es)),
          same' ∙ same,
        ),
      )

  -- Whatever the library passes on early and whenever the timer ticks, after the channel of frames
  -- is closed everything is on disk: what had been written to the open writer before, and then, in
  -- order, the texts of exactly the frames that no filter rejects, if no filter panics. The file is
  -- closed and nothing is left in the buffer; the writer of signals is as before.
  pub handle_can_message_channel-written :
      (w : FileWriter) (es : List (Event CanMessageTimestamped))
      → w.opened ≡ true
      → All (NoPanic filters) es
      → handle_can_message_channel passed_on can_text (writing w) es
        ≡ some (
            writing (record {
              file = (w.file ++ w.buffer) ++ texts can_text (passed filters es);
              buffer = [];
              opened = false;
            }))
  unfolding handle_can_message_channel close
  handle_can_message_channel-written w es o h =
      let (w', steps, (written, same)) = handle-Continues w es h in
      rw steps (rw same (rw o (ground (arith, written, contents-flush w'))))
