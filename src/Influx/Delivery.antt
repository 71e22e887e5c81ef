-- ===== src/Influx/Delivery.antt =====
-- What internal/output/influxdb/client.go does with the values it accepts: each is handed to a
-- worker once, in order, or is in a block the code warns of.
use cantou.Common.{
  ◌+◌, ◌%◌, ◌^◌, ◌≡◌, refl, ap, sym, ◌∙◌, ◌⊎◌, inl, inr, Bool, true, false, List, [], ◌∷◌, ◌++◌,
  append-nil, append_assoc, if◌then◌else◌, ltb, leb, length, Bool-cases,
}
use mathlib.Core.Path.{subst}
use cantou.Influx.Batches.{
  InfluxDbClient, Event, received, ticked, done, taken, send, flush_block, flush, gather,
  take_chunk, handle, step, run, accepted,
}
use cantou.Influx.Merge.{concat, concat-snoc, Merge, Merge-append_left, Merge-append_right}

module _ {A : Type 0} where
  -- The values accepted so far are those of the blocks handed out or waiting, shuffled with those of
  -- the blocks lost, and then the block in the making; after the loop has returned there is none.
  abbrev pub IsDelivered : List A → InfluxDbClient A → Type 0
  IsDelivered seen c =
      (before : List A) × Merge (concat (c.handed ++ c.internal_channel)) (concat c.lost) before
      × (seen ≡ before ++ c.message_block)
      × ((c.closed ≡ false) ⊎ (c.message_block ≡ []))

  send-Merge :
      (block : List A) (c : InfluxDbClient A) (before : List A)
      → Merge (concat (c.handed ++ c.internal_channel)) (concat c.lost) before
      → Merge
          (concat ((send block c).handed ++ (send block c).internal_channel))
          (concat (send block c).lost)
          (before ++ block)
  unfolding send
  send-Merge block c before m =
      elim (Bool-cases (ltb (length c.internal_channel) c.max_connections)) [
        | inl free ↦
            let behind : concat (c.handed ++ (c.internal_channel ++ (block ∷ [])))
                ≡ concat (c.handed ++ c.internal_channel) ++ block =
              ap concat (sym (append_assoc c.handed c.internal_channel (block ∷ [])))
              ∙ concat-snoc (c.handed ++ c.internal_channel) block in
            rw free (rw behind (Merge-append_left block m))
        | inr full ↦ rw full (rw (concat-snoc c.lost block) (Merge-append_right block m))
      ]

  send-closed : (block : List A) (c : InfluxDbClient A) → (send block c).closed ≡ c.closed
  unfolding send
  send-closed block c = elim (Bool-cases (ltb (length c.internal_channel) c.max_connections)) [
    | inl free ↦ rw free refl
    | inr full ↦ rw full refl
  ]

  flush_block-IsDelivered :
      (block : List A) (c : InfluxDbClient A) (seen : List A)
      → c.message_block ≡ block
      → (before : List A) × Merge (concat (c.handed ++ c.internal_channel)) (concat c.lost) before
        × (seen ≡ before ++ c.message_block)
      → ((flush_block block c).message_block ≡ [])
        × ((flush_block block c).closed ≡ c.closed)
        × IsDelivered seen (flush_block block c)
  unfolding flush_block
  flush_block-IsDelivered [] c seen e (before, m, all) = (e, refl, (before, m, all, inr e))
  flush_block-IsDelivered (a ∷ more) c seen e (before, m, all) = (
    refl,
    send-closed (a ∷ more) c,
    (
      before ++ (a ∷ more),
      send-Merge (a ∷ more) c before m,
      all ∙ ap (λ s. before ++ s) e ∙ sym (append-nil (before ++ (a ∷ more))),
      inr refl,
    ),
  )

  gather-IsDelivered :
      (a : A) (c : InfluxDbClient A) (seen : List A)
      → c.closed ≡ false
      → IsDelivered seen c
      → ((gather a c).closed ≡ false) × IsDelivered (seen ++ (a ∷ [])) (gather a c)
  unfolding gather flush
  gather-IsDelivered a c seen running (before, m, all, empty) =
      let c' : InfluxDbClient A = record c { message_block = c.message_block ++ (a ∷ []) } in
      let grown : seen ++ (a ∷ []) ≡ before ++ (c.message_block ++ (a ∷ [])) =
        ap (λ s. s ++ (a ∷ [])) all ∙ append_assoc before c.message_block (a ∷ []) in
      elim (Bool-cases (leb c.max_blocks (length (c.message_block ++ (a ∷ []))))) [
        | inl full ↦
            let (_, same, delivered) =
              flush_block-IsDelivered c'.message_block c' (seen ++ (a ∷ [])) refl
                (before, m, grown) in
            rw full (same ∙ running, delivered)
        | inr part ↦ rw part (running, (before, m, grown, inl running))
      ]

  take_chunk-IsDelivered :
      (chunks : List (List A)) (c : InfluxDbClient A) (seen : List A)
      → c.internal_channel ≡ chunks
      → IsDelivered seen c
      → ((take_chunk chunks c).closed ≡ c.closed) × IsDelivered seen (take_chunk chunks c)
  unfolding take_chunk
  take_chunk-IsDelivered [] c seen e h = (refl, h)
  take_chunk-IsDelivered (chunk ∷ more) c seen e (before, m, all, empty) =
      let same : c.handed ++ c.internal_channel ≡ (c.handed ++ (chunk ∷ [])) ++ more =
        ap (λ s. c.handed ++ s) e ∙ sym (append_assoc c.handed (chunk ∷ []) more) in
      (refl, (before, subst (λ s. Merge (concat s) (concat c.lost) before) same m, all, empty))

  -- The values that a step adds to those accepted.
  abbrev added : Event A → List A
  added (received a drops) = if drops then [] else a ∷ []
  added _ = []

  abbrev ends : Event A → Bool
  ends done = true
  ends _ = false

  handle-IsDelivered :
      (c : InfluxDbClient A) (e : Event A) (seen : List A)
      → c.closed ≡ false
      → IsDelivered seen c
      → ((handle c e).closed ≡ ends e) × IsDelivered (seen ++ added e) (handle c e)
  unfolding handle flush
  handle-IsDelivered c (received a drops) seen running h =
      let counted : InfluxDbClient A = record c { count = (c.count + 1) % 2 ^ 64 } in
      elim (Bool-cases (drops)) [
        | inl drop ↦ rw drop (running, rw (append-nil seen) h)
        | inr keep ↦ rw keep (gather-IsDelivered a counted seen running h)
      ]
  handle-IsDelivered c ticked seen running (before, m, all, empty) =
      let (_, same, delivered) =
        flush_block-IsDelivered c.message_block c seen refl (before, m, all) in
      (same ∙ running, rw (append-nil seen) delivered)
  handle-IsDelivered c done seen running (before, m, all, empty) =
      let (emptied, _, (before', m', all', _)) =
        flush_block-IsDelivered c.message_block c seen refl (before, m, all) in
      (refl, rw (append-nil seen) (before', m', all', inr emptied))
  handle-IsDelivered c taken seen running h =
      let (same, delivered) = take_chunk-IsDelivered c.internal_channel c seen refl h in
      (same ∙ running, rw (append-nil seen) delivered)

  step-running : (c : InfluxDbClient A) (e : Event A) → c.closed ≡ false → step c e ≡ handle c e
  unfolding step handle
  step-running c (received a drops) h = rw h refl
  step-running c ticked h = rw h refl
  step-running c done h = rw h refl
  step-running c taken h = refl

  kept_if :
      (b : Bool) (c c' : InfluxDbClient A) (seen : List A)
      → b ≡ true
      → (c.closed ≡ true) × IsDelivered seen c
      → ((if b then c else c').closed ≡ true) × IsDelivered seen (if b then c else c')
  kept_if true c c' seen h d = d
  kept_if false c c' seen h d = absurd (cc h)

  pub step-closed :
      (c : InfluxDbClient A) (e : Event A) (seen : List A)
      → c.closed ≡ true
      → IsDelivered seen c
      → ((step c e).closed ≡ true) × IsDelivered seen (step c e)
  unfolding step
  step-closed c (received a drops) seen h d =
      kept_if c.closed c (handle c (received a drops)) seen h (h, d)
  step-closed c ticked seen h d = kept_if c.closed c (handle c ticked) seen h (h, d)
  step-closed c done seen h d = kept_if c.closed c (handle c done) seen h (h, d)
  step-closed c taken seen h d =
      let (same, delivered) = take_chunk-IsDelivered c.internal_channel c seen refl d in
      (same ∙ h, delivered)

  pub run-closed :
      (es : List (Event A)) (c : InfluxDbClient A) (seen : List A)
      → c.closed ≡ true
      → IsDelivered seen c
      → IsDelivered seen (run c es)
  unfolding run
  run-closed [] c seen h d = d
  run-closed (e ∷ es) c seen h d =
      let (closed, delivered) = step-closed c e seen h d in
      run-closed es (step c e) seen closed delivered

  accepted_cons :
      (e : Event A) (es : List (Event A))
      → ends e ≡ false
      → accepted (e ∷ es) ≡ added e ++ accepted es
  accepted_cons (received a drops) es h = elim (Bool-cases (drops)) [
    | inl drop ↦ rw drop refl
    | inr keep ↦ rw keep refl
  ]
  accepted_cons ticked es h = refl
  accepted_cons done es h = absurd (cc h)
  accepted_cons taken es h = refl

  accepted_end : (e : Event A) (es : List (Event A)) → ends e ≡ true → accepted (e ∷ es) ≡ added e
  accepted_end (received a drops) es h = absurd (cc h)
  accepted_end ticked es h = absurd (cc h)
  accepted_end done es h = refl
  accepted_end taken es h = absurd (cc h)

  -- From a client that runs: in any order of values, with any answers of the filters, ticks, worker
  -- receives and the end, what has been accepted is what was taken by a worker or waits for one,
  -- shuffled with the blocks reported as dropped at capacity, each in the order of arrival, followed
  -- by the block in the making; and that is empty once the loop has returned. What a worker does with
  -- a block it has taken is not covered.
  pub run-IsDelivered :
      (es : List (Event A)) (c : InfluxDbClient A) (seen : List A)
      → c.closed ≡ false
      → IsDelivered seen c
      → IsDelivered (seen ++ accepted es) (run c es)
  unfolding run
  run-IsDelivered [] c seen running d = rw (append-nil seen) d
  run-IsDelivered (e ∷ es) c seen running d =
      let (closed, delivered) = handle-IsDelivered c e seen running d in
      subst (λ s. IsDelivered (seen ++ accepted (e ∷ es)) (run s es))
        (sym (step-running c e running))
        (elim (Bool-cases (ends e)) [
          | inl final ↦
              rw (accepted_end e es final)
                (run-closed es (handle c e) (seen ++ added e) (closed ∙ final) delivered)
          | inr goes_on ↦ rw (accepted_cons e es goes_on) (
              rw (sym (append_assoc seen (added e) (accepted es)))
                (run-IsDelivered es (handle c e) (seen ++ added e) (closed ∙ goes_on) delivered))
        ])
