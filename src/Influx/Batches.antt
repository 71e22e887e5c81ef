-- ===== src/Influx/Batches.antt =====
-- internal/output/influxdb/client.go: the loop that gathers values into blocks, the channel that
-- holds the full blocks, and the workers that empty it. The code has it twice, for frames and for
-- signals; the difference is the filter. What a worker then does with its block, a conversion that may
-- panic and a write whose error is only logged, is behind this model.
use cantou.Common.{
  ℕ, ◌+◌, ◌%◌, ◌^◌, Bool, true, false, List, [], ◌∷◌, ◌++◌, if◌then◌else◌, ltb, leb, length,
}

-- `handed` has the blocks that workers took, in the order they took them, and `lost` those the
-- code warns of. `count` is an atomic uint64.
pub record InfluxDbClient (A : Type 0) : Type 0 where
  pub message_block : List A
  pub max_blocks : ℕ
  pub internal_channel : List (List A)
  pub max_connections : ℕ
  pub count : ℕ
  pub handed : List (List A)
  pub lost : List (List A)
  pub closed : Bool

-- What the `select` of the loop receives, a value with whether the filters drop it then, as a filter
-- may keep a state and read the clock, and a receive by a worker. `done` is both the end of the
-- context and of the channel.
pub data Event (A : Type 0) : Type 0 where
  received : A → Bool → Event A
  ticked : Event A
  done : Event A
  taken : Event A

module _ {A : Type 0} where
  abbrev pub new_client : ℕ → ℕ → InfluxDbClient A
  new_client max_blocks max_connections = record {
    message_block = [];
    max_blocks = max_blocks;
    internal_channel = [];
    max_connections = max_connections;
    count = 0;
    handed = [];
    lost = [];
    closed = false;
  }

  -- The send that does not wait. A channel without a buffer has no workers either.
  unfoldable pub send : List A → InfluxDbClient A → InfluxDbClient A
  send block c =
      if ltb (length c.internal_channel) c.max_connections
      then record c { internal_channel = c.internal_channel ++ (block ∷ []) }
      else record c { lost = c.lost ++ (block ∷ []) }

  unfoldable pub flush_block : List A → InfluxDbClient A → InfluxDbClient A
  flush_block [] c = c
  flush_block (a ∷ more) c = record (send (a ∷ more) c) { message_block = [] }

  unfoldable pub flush : InfluxDbClient A → InfluxDbClient A
  flush c = flush_block c.message_block c

  unfoldable pub gather : A → InfluxDbClient A → InfluxDbClient A
  gather a c =
      let c' = record c { message_block = c.message_block ++ (a ∷ []) } in
      if leb c.max_blocks (length c'.message_block) then flush c' else c'

  unfoldable pub take_chunk : List (List A) → InfluxDbClient A → InfluxDbClient A
  take_chunk [] c = c
  take_chunk (chunk ∷ more) c = record c {
    internal_channel = more;
    handed = c.handed ++ (chunk ∷ []);
  }

  -- What the loop does while it runs.
  unfoldable pub handle : InfluxDbClient A → Event A → InfluxDbClient A
  handle c (received a drops) =
      let counted = record c { count = (c.count + 1) % 2 ^ 64 } in
      if drops then counted else gather a counted
  handle c ticked = flush c
  handle c done = record (flush c) { closed = true }
  handle c taken = take_chunk c.internal_channel c

  -- After the loop has returned only the workers go on.
  unfoldable pub step : InfluxDbClient A → Event A → InfluxDbClient A
  step c taken = take_chunk c.internal_channel c
  step c e = if c.closed then c else handle c e

  unfoldable pub run : InfluxDbClient A → List (Event A) → InfluxDbClient A
  run c [] = c
  run c (e ∷ es) = run (step c e) es

  -- What the loop has received and not filtered, until it returned.
  abbrev pub accepted : List (Event A) → List A
  accepted [] = []
  accepted (received a drops ∷ es) = let later = accepted es in if drops then later else a ∷ later
  accepted (ticked ∷ es) = accepted es
  accepted (done ∷ es) = []
  accepted (taken ∷ es) = accepted es
