-- ===== src/ObdConnection/Polling/Requests.antt =====
-- internal/connection/obdconn/connection.go: what polling asks of the driver, against the requests
-- made one after the other.
use cantou.Common.{
  ℕ, zero, suc, ◌≡◌, ◌≢◌, ◌⊎◌, inl, inr, refl, Bool, true, false, Option, some, none, List, [], ◌∷◌,
  ◌++◌, arith, Bytes, length, take, All, length-append,
}
use Prim.Native.Nat.{min}
use cantou.ObdConnection.Polling.Sequence.{
  AllSent, emit_all-sent, told-append, rounds_of, ask_all, IsAsked, IsAsked-within, IsAsked-append,
}
use cantou.Models.{CanMessageTimestamped}
use cantou.Obd.{Frame}
use cantou.ObdConnection.Polling.{
  Sends, emit_all, Poll, Driver, Ending, running, stopped, failed, poll_once, run_poll,
  after_request, after_round,
}

module _ {ℓ} {D : Type ℓ} (driver : Driver D) (number : ℕ) where
  -- What a round or a run comes to, with what is the whole of it when nothing has gone wrong.
  abbrev IsRound : List Bytes → ℕ → D → Bool × List CanMessageTimestamped × ℕ × D → Type ℓ
  IsRound pids life d (ok, messages, life', d') =
      (a : IsAsked driver number pids life d life' d' messages) × (ok ≡ true
        → a.asked ≡ min life (length pids))

  after_request-IsRound :
      (pid : Bytes) (pids : List Bytes) (sends : Sends) (life : ℕ) (d : D)
      (answer : Option (List Frame)) (rest : Bool × List CanMessageTimestamped × ℕ × D)
      → (driver.request pid d).0 ≡ answer
      → AllSent sends
      → IsRound pids life (driver.request pid d).1 rest
      → IsRound
          (pid ∷ pids)
          (suc life)
          d
          (after_request driver number sends life (driver.request pid d).1 answer rest)
  unfolding ask_all
  after_request-IsRound pid pids sends life d none rest e all h = (
    record {
      asked = 1;
      within = omega arith;
      lived = omega arith;
      device = refl;
      told = rw e refl;
    },
    λ failed. absurd (cc failed),
  )
  after_request-IsRound pid pids sends life d (some frames) (ok, messages, life', d') e all
        (a, whole) =
      (
        record {
          asked = suc a.asked;
          within = omega (arith, a.within);
          lived = omega (arith, a.lived);
          device = a.device;
          told = rw e (
              told-append number (emit_all number sends frames) messages frames
                (ask_all driver number (take a.asked pids) (driver.request pid d).1).0
                (emit_all-sent number sends frames all) a.told);
        },
        λ fine. omega (arith, whole fine),
      )

  poll_once-IsRound :
      (pids : List Bytes) (sends : ℕ → Sends) (life : ℕ) (d : D)
      → ((i : ℕ) → AllSent (sends i))
      → IsRound pids life d (poll_once driver number pids sends life d)
  unfolding poll_once ask_all
  poll_once-IsRound [] sends life d all = (
    record { asked = 0; within = omega arith; lived = omega arith; device = refl; told = refl },
    λ fine. omega arith,
  )
  poll_once-IsRound (pid ∷ pids) sends zero d all = (
    record { asked = 0; within = omega arith; lived = omega arith; device = refl; told = refl },
    λ fine. omega arith,
  )
  poll_once-IsRound (pid ∷ pids) sends (suc life) d all =
      let (answer, d') = driver.request pid d in
      let later : ℕ → Sends = λ i. sends (suc i) in
      let rest = poll_once-IsRound pids later life d' (λ i. all (suc i)) in
      after_request-IsRound pid pids (sends 0) life d answer
        (poll_once driver number pids later life d') refl (all 0) rest

  abbrev IsRun : List Bytes → ℕ → D → Ending × List CanMessageTimestamped × ℕ × D → Type ℓ
  IsRun pids life d (ending, messages, life', d') =
      (a : IsAsked driver number pids life d life' d' messages) × (ending ≡ running
        → a.asked ≡ min life (length pids))

  after_round-IsRun :
      (pids qs : List Bytes) (ticked : Bool) (life : ℕ) (d : D)
      (round : Bool × List CanMessageTimestamped × ℕ × D)
      (rest : Ending × List CanMessageTimestamped × ℕ × D)
      → IsRound pids life d round
      → IsRun qs round.2 round.3 rest
      → IsRun (pids ++ qs) life d (after_round driver number ticked round rest)
  after_round-IsRun pids qs ticked life d (false, messages, life', d') rest (a, whole) b =
      let (c, same) = IsAsked-within driver number pids qs life life' d d' messages a in
      (c, λ e. absurd (cc e))
  after_round-IsRun pids qs false life d (true, messages, life', d') rest (a, whole) b =
      let (c, same) = IsAsked-within driver number pids qs life life' d d' messages a in
      (c, λ e. absurd (cc e))
  after_round-IsRun pids qs true life d (true, messages, life', d') (ending, more, life'', d'')
        (a, whole) (b, full) =
      let n = whole refl in
      let enough : (a.asked ≡ length pids) ⊎ (b.asked ≡ 0) = ground (arith, n, a.lived, b.lived) in
      let (c, same) =
        IsAsked-append driver number pids qs life life' life'' d d' d'' messages more a b enough in
      (c, λ e. omega (arith, same, n, full e, a.lived, b.lived, length-append pids qs))

  run_poll-IsRun :
      (pids : List Bytes) (polls : List Poll) (life : ℕ) (d : D)
      → All (λ p. (i : ℕ) → AllSent (p.sends i)) polls
      → IsRun (rounds_of (length polls) pids) life d (run_poll driver number pids polls life d)
  unfolding run_poll ask_all rounds_of
  run_poll-IsRun pids [] life d all = (
    record { asked = 0; within = omega arith; lived = omega arith; device = refl; told = refl },
    λ e. omega arith,
  )
  run_poll-IsRun pids (p ∷ polls) life d (here, all) =
      let round = poll_once driver number pids p.sends life d in
      after_round-IsRun pids (rounds_of (length polls) pids) p.ticked life d round
        (run_poll driver number pids polls round.2 round.3)
        (poll_once-IsRound pids p.sends life d here) (run_poll-IsRun pids polls round.2 round.3 all)

  whole_unless_ended :
      {pids : List Bytes} {life : ℕ} {d : D} (run : Ending × List CanMessageTimestamped × ℕ × D)
      → IsRun pids life d run
      → (a : IsAsked driver number pids life d run.2 run.3 run.1) × ((run.0 ≢ running)
          ⊎ (a.asked ≡ min life (length pids)))
  whole_unless_ended (running, messages, life', d') (a, whole) = (a, inr (whole refl))
  whole_unless_ended (stopped, messages, life', d') (a, whole) = (a, inl (λ e. cc e))
  whole_unless_ended (failed, messages, life', d') (a, whole) = (a, inl (λ e. cc e))

  -- When no frame gives way to a stop, the rounds of polling leave the driver where a first part of
  -- the configured requests, repeated in their order, leaves it when they are made one after the
  -- other, and send the frames of its answers, in order and padded, apart from their times. As long as
  -- polling has not ended, the part is all the requests of the rounds, or as many of them as there are
  -- tests before a stop.
  pub run_poll-asked :
      (pids : List Bytes) (polls : List Poll) (life : ℕ) (d : D)
      → All (λ p. (i : ℕ) → AllSent (p.sends i)) polls
      → let (ending, messages, life', d') = run_poll driver number pids polls life d in
        let wanted = rounds_of (length polls) pids in
        (a : IsAsked driver number wanted life d life' d' messages) × ((ending ≢ running)
          ⊎ (a.asked ≡ min life (length wanted)))
  run_poll-asked pids polls life d all =
      whole_unless_ended (run_poll driver number pids polls life d)
        (run_poll-IsRun pids polls life d all)
