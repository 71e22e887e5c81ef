-- ===== src/ObdConnection/Sound.antt =====
-- What every operation of internal/connection/obdconn/connection.go keeps of the transports and the
-- quit channel.
use cantou.Common.{
  ℕ, ◌+◌, ◌<◌, ◌≡◌, refl, ap, ◌∙◌, ◌⊎◌, inl, inr, Bool, true, false, ◌&&◌, Option, none, some, List,
  [], arith, ◌∷◌, ◌==◌, ==_refl, length, All, if_elim, if◌then◌else◌, some-injective, Bool-cases,
  Bytes, equal,
}
use mathlib.Core.Path.{subst}
use cantou.ObdConnection.{Base, CanInterfaceOption, new, new_base, polls}
use cantou.ObdConnection.Link.{
  Attempt, open_failed, init_failed, filters_failed, connected, connect, open_adapter, close_quit,
  discontinue, drop_driver, close_adapter, remove, Round, Verdict, trying, gave_up, reconnected,
  attempts, reconnect, next_backoff, reconnect_min_backoff, Session, ended, lost, run, receive,
}

abbrev pub to_list : Option ℕ → List ℕ
to_list none = []
to_list (some t) = t ∷ []

-- The channel of a loop that streams is open.
abbrev pub IsStoppable : Base → Type 0
IsStoppable b = (b.streaming ≡ false) ⊎ (b.quit ≡ some false)

-- The open transport is the driver's.
abbrev pub IsSound : Base → Type 0
IsSound b =
    (b.transports ≡ to_list b.driver) × All (λ t. t < b.next) (to_list b.driver) × IsStoppable b

remove_fresh : (next : ℕ) (ts : List ℕ) → All (λ t. t < next) ts → remove next (next ∷ ts) ≡ ts
remove_fresh next ts h = rw (==_refl next) (unchanged ts h)
  where
    unchanged : (ts : List ℕ) → All (λ t. t < next) ts → remove next ts ≡ ts
    unchanged [] h = refl
    unchanged (t ∷ ts) (l, h) = ground (arith, l, unchanged ts h)

weaken : (next : ℕ) (ts : List ℕ) → All (λ t. t < next) ts → All (λ t. t < next + 1) ts
weaken next [] h = tt
weaken next (t ∷ ts) (l, h) = (omega arith, weaken next ts h)

connect-failed :
    (b : Base)
    → IsSound b
    → (remove b.next (b.next ∷ b.transports) ≡ to_list b.driver)
      × All (λ t. t < b.next + 1) (to_list b.driver)
      × IsStoppable b
connect-failed b (tight, fresh, stoppable) = (
  ap (λ ts. remove b.next (b.next ∷ ts)) tight ∙ remove_fresh b.next (to_list b.driver) fresh,
  weaken b.next (to_list b.driver) fresh,
  stoppable,
)

-- A failed attempt keeps the driver; after one that succeeds there is a driver.
pub connect-IsSound :
    (b : Base) (a : Attempt)
    → b.driver ≡ none
    → IsSound b
    → IsSound (connect b a).1 × ((connect b a).0 ≡ false → (connect b a).1.driver ≡ none)
unfolding connect
connect-IsSound b open_failed e h = (h, λ f. e)
connect-IsSound b init_failed e h = (connect-failed b h, λ f. e)
connect-IsSound b filters_failed e h = (connect-failed b h, λ f. e)
connect-IsSound b connected e (tight, fresh, stoppable) = (
  (ap (λ ts. b.next ∷ ts) (tight ∙ ap to_list e), (omega arith, tt), stoppable),
  λ f. absurd (cc f),
)

pub drop_driver-IsSound :
    (driver : Option ℕ) (b : Base)
    → b.driver ≡ driver
    → IsSound b
    → IsSound (drop_driver driver b) × ((drop_driver driver b).driver ≡ none)
unfolding drop_driver
drop_driver-IsSound none b e h = (h, e)
drop_driver-IsSound (some t) b e (tight, fresh, stoppable) =
    ((ap (remove t) (tight ∙ ap to_list e) ∙ alone, tt, stoppable), refl)
  where
    alone : remove t (t ∷ []) ≡ []
    alone = rw (==_refl t) refl

attempts-IsSound :
    (rounds : List Round) (backoff : ℕ) (b : Base)
    → b.driver ≡ none
    → IsSound b
    → IsSound (attempts backoff b rounds).2
unfolding attempts
attempts-IsSound [] backoff b e h = h
attempts-IsSound (r ∷ rounds) backoff b e h =
    let (tight, kept) = connect-IsSound b r.attempt e h in
    let b' = (connect b r.attempt).1 in
    let later = attempts (next_backoff backoff) b' rounds in
    by_round r.stopping (connect b r.attempt).0 r.stopped (gave_up, [], b) (reconnected, [], b')
      (gave_up, backoff ∷ [], b') (later.0, backoff ∷ later.1, later.2) h tight tight
      (λ bad. attempts-IsSound rounds (next_backoff backoff) b' (kept bad) tight)
  where
    Sound : Verdict × List ℕ × Base → Type 0
    Sound result = IsSound result.2

    by_round :
        (stop ok stopped : Bool) (v w x y : Verdict × List ℕ × Base)
        → Sound v
        → Sound w
        → Sound x
        → (ok ≡ false → Sound y)
        → Sound (if stop then v else if ok then w else if stopped then x else y)
    by_round true ok stopped v w x y hv hw hx hy = hv
    by_round false true stopped v w x y hv hw hx hy = hw
    by_round false false true v w x y hv hw hx hy = hx
    by_round false false false v w x y hv hw hx hy = hy refl

pub reconnect-IsSound :
    (b : Base) (rounds : List Round) → IsSound b → IsSound (reconnect b rounds).2
unfolding reconnect
reconnect-IsSound b rounds h =
    let (tight, empty) = drop_driver-IsSound b.driver b refl h in
    attempts-IsSound rounds reconnect_min_backoff (drop_driver b.driver b) empty tight

run-IsSound :
    (driver : Option ℕ) (b : Base) (ss : List Session) → IsSound b → IsSound (run driver b ss)
unfolding run
run-IsSound driver b [] h = h
run-IsSound none b (s ∷ ss) h = h
run-IsSound (some t) b (ended ∷ ss) h = h
run-IsSound (some t) b (lost stopping rounds ∷ ss) h =
    let tight = reconnect-IsSound b rounds h in
    if_elim IsSound stopping _ _ (λ stop. h)
      (λ go.
        by_verdict (reconnect b rounds).0 _ _ tight
          (run-IsSound (reconnect b rounds).2.driver (reconnect b rounds).2 ss tight))
  where
    by_verdict :
        (v : Verdict) (b' after : Base)
        → IsSound b'
        → IsSound after
        → IsSound (elim v [ trying ↦ b' | gave_up ↦ b' | reconnected ↦ after ])
    by_verdict trying b' after x y = x
    by_verdict gave_up b' after x y = x
    by_verdict reconnected b' after x y = y

pub open_adapter-IsSound :
    (b : Base) (a : Attempt) → b.driver ≡ none → IsSound b → IsSound (open_adapter b a).1
unfolding open_adapter
open_adapter-IsSound b a e h =
    let sound = (connect-IsSound b a e h).0 in
    if_elim Sound b.cfg_err _ _ (λ bad. h)
      (λ good.
        if_elim Sound (polls b.mode && (length b.pids == 0)) _ _ (λ bad. h)
          (λ go. if_elim IsSound (connect b a).0 _ _ (λ ok. sound) (λ bad. sound)))
  where
    Sound : Bool × Base → Type 0
    Sound result = IsSound result.1

pub made-IsSound :
    (opt : CanInterfaceOption) (kind : Bytes) (b : Base) → new opt kind ≡ some b → IsSound b
unfolding new new_base
made-IsSound opt kind b e = elim (Bool-cases (equal opt.name [])) [
  | inl empty ↦ absurd (ground (arith, empty, e))
  | inr named ↦
      let same : new_base opt kind ≡ b = some-injective (rw named at e) in
      subst IsSound same (refl, tt, inl refl)
]

pub receive-IsSound : (b : Base) (ss : List Session) → IsSound b → IsSound (receive b ss)
unfolding receive
receive-IsSound b ss (tight, fresh, _) =
    let b' : Base = record b { quit = some false; streaming = true } in
    run-IsSound b.driver b' ss (tight, fresh, inr refl)

-- Discontinue does not panic, and no loop streams after it.
pub discontinue-IsSound :
    (b : Base)
    → IsSound b
    → (b' : Base) × (discontinue b ≡ some b')
      × IsSound b'
      × (b'.driver ≡ b.driver)
      × (b'.streaming ≡ false)
unfolding discontinue close_quit
discontinue-IsSound b (tight, fresh, inl still) =
    (record b { streaming = false }, rw still refl, (tight, fresh, inl refl), refl, refl)
discontinue-IsSound b (tight, fresh, inr usable) = elim (Bool-cases b.streaming) [
  | inl streams ↦ (
    record b { streaming = false; quit = some true },
    rw streams (rw usable refl),
    (tight, fresh, inl refl),
    refl,
    refl,
  )
  | inr still ↦
      (record b { streaming = false }, rw still refl, (tight, fresh, inl refl), refl, refl)
]

drop_driver-streaming :
    (driver : Option ℕ) (b : Base) → (drop_driver driver b).streaming ≡ b.streaming
unfolding drop_driver
drop_driver-streaming none b = refl
drop_driver-streaming (some t) b = refl

pub close_adapter-IsSound :
    (b : Base)
    → IsSound b
    → (b' : Base) × (close_adapter b ≡ some b')
      × IsSound b'
      × (b'.transports ≡ [])
      × (b'.streaming ≡ false)
unfolding close_adapter
close_adapter-IsSound b h =
    let (stopped, e, sound, same, still) = discontinue-IsSound b h in
    let (closed, empty) = drop_driver-IsSound stopped.driver stopped refl sound in
    (
      record (drop_driver stopped.driver stopped) { opened = false },
      rw e refl,
      closed,
      closed.0 ∙ ap to_list empty,
      drop_driver-streaming stopped.driver stopped ∙ still,
    )
