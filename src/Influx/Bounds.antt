-- ===== src/Influx/Bounds.antt =====
-- The blocks of internal/output/influxdb/client.go stay within what is configured.
use cantou.Common.{
  ℕ, ◌+◌, ◌%◌, ◌^◌, ◌≤◌, ◌<◌, ◌≡◌, refl, ap, ◌⊎◌, inl, inr, Bool, true, false, List, [], ◌∷◌, ◌++◌,
  arith, if◌then◌else◌, ltb, ltb→lt, leb, leb-false→lt, length, length-append, Bool-cases, All,
  All-append,
}
use mathlib.Core.Path.{subst}
use cantou.Influx.Batches.{
  InfluxDbClient, Event, received, ticked, done, taken, send, flush_block, flush, gather,
  take_chunk, handle, step, run,
}

module _ {A : Type 0} where
  -- A block that is sent: not empty, and of at most `max_blocks` values, or one value.
  abbrev pub IsBatch : ℕ → List A → Type 0
  IsBatch max_blocks block = (0 < length block) × ((length block ≤ max_blocks) ⊎ (length block ≡ 1))

  abbrev pub IsWithin : InfluxDbClient A → Type 0
  IsWithin c =
      (length c.internal_channel ≤ c.max_connections)
      × All (IsBatch c.max_blocks) c.internal_channel
      × All (IsBatch c.max_blocks) c.handed
      × All (IsBatch c.max_blocks) c.lost

  -- Between two steps the block is empty or smaller than that.
  abbrev pub IsBounded : InfluxDbClient A → Type 0
  IsBounded c =
      ((length c.message_block ≡ 0) ⊎ (length c.message_block < c.max_blocks)) × IsWithin c

  send-IsWithin :
      (block : List A) (c : InfluxDbClient A)
      → IsBatch c.max_blocks block
      → IsWithin c
      → IsWithin (send block c)
  unfolding send
  send-IsWithin block c b (room, waiting, written, lost) =
      elim (Bool-cases (ltb (length c.internal_channel) c.max_connections)) [
        | inl free ↦ rw free (
          omega (
            arith,
            ltb→lt (length c.internal_channel) c.max_connections free,
            length-append c.internal_channel (block ∷ []),
          ),
          All-append (IsBatch c.max_blocks) c.internal_channel (block ∷ []) waiting (b, tt),
          written,
          lost,
        )
        | inr full ↦ rw full (
          room,
          waiting,
          written,
          All-append (IsBatch c.max_blocks) c.lost (block ∷ []) lost (b, tt),
        )
      ]

  flush_block-IsBounded :
      (block : List A) (c : InfluxDbClient A)
      → c.message_block ≡ block
      → ((length block ≤ c.max_blocks) ⊎ (length block ≤ 1))
      → IsWithin c
      → IsBounded (flush_block block c)
  unfolding flush_block
  flush_block-IsBounded [] c e small h = (inl (ap length e), h)
  flush_block-IsBounded (a ∷ more) c e (inl small) h =
      (inl refl, send-IsWithin (a ∷ more) c (omega arith, inl small) h)
  flush_block-IsBounded (a ∷ more) c e (inr small) h =
      (inl refl, send-IsWithin (a ∷ more) c (omega arith, inr (omega (arith, small))) h)

  flush-IsBounded : (c : InfluxDbClient A) → IsBounded c → IsBounded (flush c)
  unfolding flush
  flush-IsBounded c (inl e, h) =
      flush_block-IsBounded c.message_block c refl (inr (omega (arith, e))) h
  flush-IsBounded c (inr l, h) =
      flush_block-IsBounded c.message_block c refl (inl (omega (arith, l))) h

  flush_added :
      (a : A) (c : InfluxDbClient A)
      → ((length c.message_block ≡ 0) ⊎ (length c.message_block < c.max_blocks))
      → IsWithin c
      → IsBounded (flush (record c { message_block = c.message_block ++ (a ∷ []) }))
  unfolding flush
  flush_added a c (inl e) h =
      flush_block-IsBounded (c.message_block ++ (a ∷ [])) _ refl
        (inr (omega (arith, e, length-append c.message_block (a ∷ [])))) h
  flush_added a c (inr l) h =
      flush_block-IsBounded (c.message_block ++ (a ∷ [])) _ refl
        (inl (omega (arith, l, length-append c.message_block (a ∷ [])))) h

  gather-IsBounded : (a : A) (c : InfluxDbClient A) → IsBounded c → IsBounded (gather a c)
  unfolding gather
  gather-IsBounded a c (small, h) =
      let c' : InfluxDbClient A = record c { message_block = c.message_block ++ (a ∷ []) } in
      elim (Bool-cases (leb c.max_blocks (length c'.message_block))) [
        | inl full ↦ rw full (flush_added a c small h)
        | inr part ↦ rw part (inr (leb-false→lt c.max_blocks (length c'.message_block) part), h)
      ]

  take_chunk-IsBounded :
      (chunks : List (List A)) (c : InfluxDbClient A)
      → c.internal_channel ≡ chunks
      → IsBounded c
      → IsBounded (take_chunk chunks c)
  unfolding take_chunk
  take_chunk-IsBounded [] c e h = h
  take_chunk-IsBounded (chunk ∷ more) c e (small, (room, waiting, written, lost)) =
      let queued : All (IsBatch c.max_blocks) (chunk ∷ more) =
        subst (λ q. All (IsBatch c.max_blocks) q) e waiting in
      (
        small,
        (
          omega (arith, room, ap length e),
          queued.1,
          All-append (IsBatch c.max_blocks) c.handed (chunk ∷ []) written (queued.0, tt),
          lost,
        ),
      )

  kept_if :
      (b : Bool) (c c' : InfluxDbClient A)
      → IsBounded c
      → IsBounded c'
      → IsBounded (if b then c else c')
  kept_if true c c' h h' = h
  kept_if false c c' h h' = h'

  handle-IsBounded : (c : InfluxDbClient A) (e : Event A) → IsBounded c → IsBounded (handle c e)
  unfolding handle
  handle-IsBounded c (received a drops) h =
      let counted : InfluxDbClient A = record c { count = (c.count + 1) % 2 ^ 64 } in
      elim (Bool-cases (drops)) [
        | inl drop ↦ rw drop h
        | inr keep ↦ rw keep (gather-IsBounded a counted h)
      ]
  handle-IsBounded c ticked h = flush-IsBounded c h
  handle-IsBounded c done h = flush-IsBounded c h
  handle-IsBounded c taken h = take_chunk-IsBounded c.internal_channel c refl h

  step-IsBounded : (c : InfluxDbClient A) (e : Event A) → IsBounded c → IsBounded (step c e)
  unfolding step
  step-IsBounded c taken h = take_chunk-IsBounded c.internal_channel c refl h
  step-IsBounded c (received a drops) h =
      kept_if c.closed c (handle c (received a drops)) h (handle-IsBounded c (received a drops) h)
  step-IsBounded c ticked h = kept_if c.closed c (handle c ticked) h (handle-IsBounded c ticked h)
  step-IsBounded c done h = kept_if c.closed c (handle c done) h (handle-IsBounded c done h)

  -- Whatever happens, the channel holds at most `max_connections` blocks, every block sent, taken
  -- or lost has at least one value and at most `max_blocks` (or one), and the block in the making
  -- is empty or smaller than `max_blocks`, when all this holds at first.
  pub run-IsBounded :
      (es : List (Event A)) (c : InfluxDbClient A) → IsBounded c → IsBounded (run c es)
  unfolding run
  run-IsBounded [] c h = h
  run-IsBounded (e ∷ es) c h = run-IsBounded es (step c e) (step-IsBounded c e h)
