-- ===== src/ObdConnection/Backoff.antt =====
-- The waits of reconnect in internal/connection/obdconn/connection.go.
use Prim.Native.Nat.{min}
use cantou.Common.{
  ℕ, zero, suc, ◌*◌, ◌^◌, ◌≡◌, ◌≢◌, refl, ap, sym, ◌∙◌, false, none, List, [], ◌∷◌, ◌++◌, arith,
  length, All,
}
use cantou.ObdConnection.{Base, second}
use cantou.ObdConnection.Link.{
  Attempt, open_failed, init_failed, filters_failed, connected, connect, drop_driver, Round,
  reconnected, attempts, reconnect, next_backoff,
}
use cantou.ObdConnection.Sound.{to_list, reconnect-IsSound, IsSound}

-- The wait after the failure with number `k`: a second doubled `k` times, at most thirty seconds.
abbrev pub backoff_at : ℕ → ℕ
backoff_at k = min (2 ^ k * second) (30 * second)

-- Those of `n` failures from `k` on.
abbrev pub backoffs : ℕ → ℕ → List ℕ
backoffs k zero = []
backoffs k (suc n) = backoff_at k ∷ backoffs (suc k) n

next_backoff_lem : (k : ℕ) → next_backoff (backoff_at k) ≡ backoff_at (suc k)
unfolding next_backoff
next_backoff_lem k = ground arith

-- A round without a stop in which the attempt fails.
abbrev pub Fails : Round → Type 0
Fails r = (r.stopping ≡ false) × (r.attempt ≢ connected) × (r.stopped ≡ false)

connect-refused : (b : Base) (a : Attempt) → a ≢ connected → (connect b a).0 ≡ false
unfolding connect
connect-refused b open_failed h = refl
connect-refused b init_failed h = refl
connect-refused b filters_failed h = refl
connect-refused b connected h = absurd (h refl)

attempts-failed :
    (backoff : ℕ) (b : Base) (r : Round) (rounds : List Round)
    → Fails r
    → attempts backoff b (r ∷ rounds) ≡ (
      (attempts (next_backoff backoff) (connect b r.attempt).1 rounds).0,
      backoff ∷ (attempts (next_backoff backoff) (connect b r.attempt).1 rounds).1,
      (attempts (next_backoff backoff) (connect b r.attempt).1 rounds).2,
    )
unfolding attempts
attempts-failed backoff b r rounds (go, fails, on) =
    let bad = connect-refused b r.attempt fails in rw (go, attempts) (rw bad (rw on refl))

attempts-connects :
    (backoff : ℕ) (b : Base) (r : Round) (rounds : List Round)
    → r.stopping ≡ false
    → r.attempt ≡ connected
    → attempts backoff b (r ∷ rounds) ≡ (reconnected, [], (connect b connected).1)
unfolding attempts connect
attempts-connects backoff b r rounds go ok = rw go (rw ok refl)

connect-driver : (b : Base) → (connect b connected).1.driver ≢ none
unfolding connect
connect-driver b e = cc e

attempts-waits :
    (fails : List Round) (r : Round) (rest : List Round) (k : ℕ) (b : Base)
    → All Fails fails
    → r.stopping ≡ false
    → r.attempt ≡ connected
    → ((attempts (backoff_at k) b (fails ++ (r ∷ rest))).0 ≡ reconnected)
      × ((attempts (backoff_at k) b (fails ++ (r ∷ rest))).1 ≡ backoffs k (length fails))
      × ((attempts (backoff_at k) b (fails ++ (r ∷ rest))).2.driver ≢ none)
attempts-waits [] r rest k b h go ok =
    let done = attempts-connects (backoff_at k) b r rest go ok in
    (
      ap (λ a. a.0) done,
      ap (λ a. a.1) done,
      λ e. connect-driver b (sym (ap (λ a. a.2.driver) done) ∙ e),
    )
attempts-waits (f ∷ fails) r rest k b (h, hs) go ok =
    let later = attempts-waits fails r rest (suc k) (connect b f.attempt).1 hs go ok in
    let next = attempts-failed (backoff_at k) b f (fails ++ (r ∷ rest)) h in
    let e = next_backoff_lem k in
    (
      ap (λ a. a.0) next
          ∙ ap (λ w. (attempts w (connect b f.attempt).1 (fails ++ (r ∷ rest))).0) e
          ∙ later.0,
      ap (λ a. a.1) next
          ∙ ap (λ w. backoff_at k ∷ (attempts w (connect b f.attempt).1 (fails ++ (r ∷ rest))).1) e
          ∙ ap (λ ws. backoff_at k ∷ ws) later.1,
      λ none_left. later.2 (
          sym (ap (λ w. (attempts w (connect b f.attempt).1 (fails ++ (r ∷ rest))).2.driver) e)
          ∙ sym (ap (λ a. a.2.driver) next)
          ∙ none_left),
    )

-- However often connecting fails, if no stop comes and an attempt then succeeds, the link is
-- reconnected at that attempt; the waits before it are one second, doubled each time up to thirty;
-- and the only transport open is the new driver's.
pub reconnect-waits :
    (b : Base) (fails : List Round) (r : Round) (rest : List Round)
    → IsSound b
    → All Fails fails
    → r.stopping ≡ false
    → r.attempt ≡ connected
    → ((reconnect b (fails ++ (r ∷ rest))).0 ≡ reconnected)
      × ((reconnect b (fails ++ (r ∷ rest))).1 ≡ backoffs 0 (length fails))
      × ((reconnect b (fails ++ (r ∷ rest))).2.transports
          ≡ to_list (reconnect b (fails ++ (r ∷ rest))).2.driver)
      × ((reconnect b (fails ++ (r ∷ rest))).2.driver ≢ none)
unfolding reconnect
reconnect-waits b fails r rest sound h go ok =
    let (verdict, waits, driver) = attempts-waits fails r rest 0 (drop_driver b.driver b) h go ok in
    (verdict, waits, (reconnect-IsSound b (fails ++ (r ∷ rest)) sound).0, driver)
