-- ===== src/Influx/Drain.antt =====
-- The end of internal/output/influxdb/client.go: the workers empty the closed channel.
use cantou.Common.{
  ℕ, suc, ◌+◌, ◌≤◌, ◌≡◌, refl, ap, sym, ◌∙◌, Bool, true, false, List, [], ◌∷◌, ◌++◌, append-nil,
  arith, length, inl, inr, if◌then◌else◌,
}
use mathlib.Core.Path.{subst}
use cantou.Influx.Batches.{
  InfluxDbClient, Event, received, ticked, done, taken, new_client, take_chunk, step, run, accepted,
}
use cantou.Influx.Merge.{concat, Merge, merge_nil}
use cantou.Influx.Delivery.{IsDelivered, run-closed, step-closed, run-IsDelivered}

module _ {A : Type 0} where
  -- The receives of workers in a run.
  abbrev pub takes : List (Event A) → ℕ
  takes [] = 0
  takes (taken ∷ es) = suc (takes es)
  takes (received a drops ∷ es) = takes es
  takes (ticked ∷ es) = takes es
  takes (done ∷ es) = takes es

  takes_cons :
      (e : Event A) (es : List (Event A)) (n : ℕ)
      → n ≤ takes (e ∷ es)
      → n ≤ takes (e ∷ []) + takes es
  takes_cons taken es n l = omega (arith, l)
  takes_cons (received a drops) es n l = omega (arith, l)
  takes_cons ticked es n l = omega (arith, l)
  takes_cons done es n l = omega (arith, l)

  kept_if :
      (b : Bool) (c c' : InfluxDbClient A) (n : ℕ)
      → b ≡ true
      → length c.internal_channel ≤ n
      → length (if b then c else c').internal_channel ≤ n
  kept_if true c c' n h l = l
  kept_if false c c' n h l = absurd (cc h)

  shorter :
      (chunks : List (List A)) (c : InfluxDbClient A) (n : ℕ)
      → c.internal_channel ≡ chunks
      → length c.internal_channel ≤ suc n
      → length (take_chunk chunks c).internal_channel ≤ n
  unfolding take_chunk
  shorter [] c n e l = omega (arith, ap length e)
  shorter (chunk ∷ more) c n e l = omega (arith, l, ap length e)

  step-channel :
      (c : InfluxDbClient A) (e : Event A) (n : ℕ)
      → c.closed ≡ true
      → length c.internal_channel ≤ takes (e ∷ []) + n
      → length (step c e).internal_channel ≤ n
  unfolding step
  step-channel c (received a drops) n h l = kept_if c.closed c _ n h (omega (arith, l))
  step-channel c ticked n h l = kept_if c.closed c _ n h (omega (arith, l))
  step-channel c done n h l = kept_if c.closed c _ n h (omega (arith, l))
  step-channel c taken n h l = shorter c.internal_channel c n refl (omega (arith, l))

  run-empties :
      (later : List (Event A)) (c : InfluxDbClient A) (seen : List A)
      → c.closed ≡ true
      → IsDelivered seen c
      → length c.internal_channel ≤ takes later
      → ((run c later).internal_channel ≡ []) × ((run c later).closed ≡ true)
  unfolding run
  run-empties [] c seen h d l = (empty c.internal_channel l, h)
    where
      empty : (q : List (List A)) → length q ≤ 0 → q ≡ []
      empty [] l = refl
      empty (x ∷ q) l = absurd (omega arith)
  run-empties (e ∷ later) c seen h d l =
      let (closed, delivered) = step-closed c e seen h d in
      run-empties later (step c e) seen closed delivered
        (step-channel c e (takes later) h (takes_cons e later _ l))

  run-append :
      (xs ys : List (Event A)) (c : InfluxDbClient A) → run c (xs ++ ys) ≡ run (run c xs) ys
  unfolding run
  run-append [] ys c = refl
  run-append (x ∷ xs) ys c = run-append xs ys (step c x)

  finished :
      (c : InfluxDbClient A) (seen : List A)
      → IsDelivered seen c
      → (c.internal_channel ≡ []) × (c.closed ≡ true)
      → Merge (concat c.handed) (concat c.lost) seen
  finished c seen (before, m, all, inl running) (drained, closed) = absurd (cc (running, closed))
  finished c seen (before, m, all, inr empty) (drained, closed) =
      let written : c.handed ++ c.internal_channel ≡ c.handed =
        ap (λ q. c.handed ++ q) drained ∙ append-nil c.handed in
      let everything : seen ≡ before = all ∙ ap (λ b. before ++ b) empty ∙ append-nil before in
      subst (λ s. Merge (concat c.handed) (concat c.lost) s) (sym everything)
        (subst (λ s. Merge (concat s) (concat c.lost) before) written m)

  -- Once the loop has returned, as many receives of workers as there are blocks waiting empty the
  -- channel, whatever else happens; and then every value accepted has been taken by a worker once, the
  -- blocks in order of arrival, or is in a block reported as dropped at capacity. What a worker does
  -- with a block it has taken, which may fail, is not covered.
  pub run-drained :
      (es later : List (Event A)) (max_blocks max_connections : ℕ)
      → (run (new_client max_blocks max_connections) es).closed ≡ true
      → length (run (new_client max_blocks max_connections) es).internal_channel ≤ takes later
      → Merge
          (concat (run (new_client max_blocks max_connections) (es ++ later)).handed)
          (concat (run (new_client max_blocks max_connections) (es ++ later)).lost)
          (accepted es)
  run-drained es later max_blocks max_connections h l =
      let c : InfluxDbClient A = new_client max_blocks max_connections in
      let d = run-IsDelivered es c [] refl ([], merge_nil, refl, inl refl) in
      subst (λ s. Merge (concat s.handed) (concat s.lost) (accepted es))
        (sym (run-append es later c))
        (finished (run (run c es) later) (accepted es)
          (run-closed later (run c es) (accepted es) h d)
          (run-empties later (run c es) (accepted es) h d l))
