-- ===== src/ObdConnection/Polling/Sequence.antt =====
-- internal/connection/obdconn/connection.go: the requests of polling made one after the other, and
-- the messages of their answers.
use cantou.Common.{
  ℕ, zero, suc, ◌+◌, ◌≤◌, ◌≡◌, ◌≢◌, ◌⊎◌, inl, inr, refl, sym, ap, append-nil, append_assoc, ◌∙◌,
  Option, some, none, List, [], ◌∷◌, ◌++◌, arith, Bytes, length, take, take_all, take_past,
  take_within, map, length-append,
}
use mathlib.Core.List.{map-append}
use cantou.Models.{CanMessageTimestamped}
use cantou.Obd.{Frame}
use cantou.ObdConnection.{emit}
use cantou.ObdConnection.Polling.{Sends, sent, emit_all, Driver}

abbrev pub untimed : CanMessageTimestamped → CanMessageTimestamped
untimed m = record m { timestamp = 0 }

-- No frame gives way to a stop.
abbrev pub AllSent : Sends → Type 0
AllSent sends = (i : ℕ) → sends i ≢ none

sent-untimed :
    (number : ℕ) (now : Option ℕ) (frame : Frame) (rest : List CanMessageTimestamped)
    → now ≢ none
    → map untimed (sent number now frame rest) ≡ emit 0 number frame ∷ map untimed rest
unfolding emit
sent-untimed number none frame rest h = absurd (h refl)
sent-untimed number (some now) frame rest h = refl

pub emit_all-sent :
    (number : ℕ) (sends : Sends) (frames : List Frame)
    → AllSent sends
    → map untimed (emit_all number sends frames) ≡ map (emit 0 number) frames
unfolding emit_all
emit_all-sent number sends [] h = refl
emit_all-sent number sends (f ∷ frames) h =
    let later : Sends = λ i. sends (suc i) in
    sent-untimed number (sends 0) f (emit_all number later frames) (h 0)
    ∙ ap (◌∷◌ (emit 0 number f)) (emit_all-sent number later frames (λ i. h (suc i)))

pub told-append :
    (number : ℕ) (messages more : List CanMessageTimestamped) (frames others : List Frame)
    → map untimed messages ≡ map (emit 0 number) frames
    → map untimed more ≡ map (emit 0 number) others
    → map untimed (messages ++ more) ≡ map (emit 0 number) (frames ++ others)
told-append number messages more frames others h k = rw (map-append untimed messages more) (
    rw (map-append (emit 0 number) frames others)
      (rw h (ap (λ ms. map (emit 0 number) frames ++ ms) k)))

-- The lists of a number of rounds one after the other.
unfoldable pub rounds_of : ℕ → List Bytes → List Bytes
rounds_of zero pids = []
rounds_of (suc n) pids = pids ++ rounds_of n pids

abbrev pub frames_of : Option (List Frame) → List Frame
frames_of none = []
frames_of (some frames) = frames

module _ {ℓ} {D : Type ℓ} (driver : Driver D) (number : ℕ) where
  -- The requests made one after the other: the frames of the answers, and the driver behind them.
  unfoldable pub ask_all : List Bytes → D → List Frame × D
  ask_all [] d = ([], d)
  ask_all (pid ∷ pids) d =
      let (answer, d') = driver.request pid d in
      let (frames, d'') = ask_all pids d' in (frames_of answer ++ frames, d'')

  pub ask_all-append :
      (pids qs : List Bytes) (d : D)
      → let (frames, d') = ask_all pids d in
        let (more, d'') = ask_all qs d' in ask_all (pids ++ qs) d ≡ (frames ++ more, d'')
  unfolding ask_all
  ask_all-append [] qs d = refl
  ask_all-append (pid ∷ pids) qs d =
      let (answer, d') = driver.request pid d in
      rw (ask_all-append pids qs d') (
        ap (λ fs. (fs, (ask_all qs (ask_all pids d').1).1))
          (sym (
            append_assoc (frames_of answer) (ask_all pids d').0
              (ask_all qs (ask_all pids d').1).0)))

  -- From `d` the first requests of the list are made, one for each test that finds no stop, and the
  -- messages are those of the answers.
  pub record IsAsked (pids : List Bytes) (life : ℕ) (d : D) (life' : ℕ) (d' : D)
      (messages : List CanMessageTimestamped) : Type ℓ where
    pub asked : ℕ
    pub within : asked ≤ length pids
    pub lived : life' + asked ≡ life
    pub device : d' ≡ (ask_all (take asked pids) d).1
    pub told : map untimed messages ≡ map (emit 0 number) (ask_all (take asked pids) d).0

  -- A part of the rounds is a part of all of them.
  pub IsAsked-within :
      (pids qs : List Bytes) (life life' : ℕ) (d d' : D) (messages : List CanMessageTimestamped)
      → (a : IsAsked pids life d life' d' messages)
      → (b : IsAsked (pids ++ qs) life d life' d' messages) × (b.asked ≡ a.asked)
  IsAsked-within pids qs life life' d d' messages a =
      let same = take_within a.asked pids qs a.within in
      (
        record {
          asked = a.asked;
          within = omega (arith, a.within, length-append pids qs);
          lived = a.lived;
          device = rw same a.device;
          told = rw same a.told;
        },
        refl,
      )

  asked_both :
      (pids qs : List Bytes) (d d' : D) (m n : ℕ)
      → m ≤ length pids
      → (m ≡ length pids) ⊎ (n ≡ 0)
      → d' ≡ (ask_all (take m pids) d).1
      → ask_all (take (m + n) (pids ++ qs)) d
        ≡ ((ask_all (take m pids) d).0 ++ (ask_all (take n qs) d').0, (ask_all (take n qs) d').1)
  unfolding ask_all
  asked_both pids qs d d' m n h (inl e) there =
      let all = take_all m pids (omega arith) in
      rw (take_past (m + n) n pids qs (omega arith))
        (rw all (rw (there ∙ ap (λ ps. (ask_all ps d).1) all) (ask_all-append pids (take n qs) d)))
  asked_both pids qs d d' m n h (inr e) there =
      let same : m + n ≡ m = omega arith in
      rw same (
        rw e (
          rw (take_within m pids qs h)
            (rw (append-nil (ask_all (take m pids) d).0) (rw there refl))))

  -- One after the other, when the first is the whole of its list or the second is nothing.
  pub IsAsked-append :
      (pids qs : List Bytes) (life life' life'' : ℕ) (d d' d'' : D)
      (messages more : List CanMessageTimestamped)
      → (a : IsAsked pids life d life' d' messages) (b : IsAsked qs life' d' life'' d'' more)
      → (a.asked ≡ length pids) ⊎ (b.asked ≡ 0)
      → (c : IsAsked (pids ++ qs) life d life'' d'' (messages ++ more)) × (c.asked
          ≡ a.asked + b.asked)
  IsAsked-append pids qs life life' life'' d d' d'' messages more a b e =
      let both = asked_both pids qs d d' a.asked b.asked a.within e a.device in
      (
        record {
          asked = a.asked + b.asked;
          within = omega (arith, a.within, b.within, length-append pids qs);
          lived = omega (arith, a.lived, b.lived);
          device = rw both b.device;
          told = rw both (
              told-append number messages more (ask_all (take a.asked pids) d).0
                (ask_all (take b.asked qs) d').0 a.told b.told);
        },
        refl,
      )
