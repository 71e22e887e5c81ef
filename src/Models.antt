-- ===== src/Models.antt =====
-- internal/models: the values that the components exchange.
use cantou.Common.{ℕ, Bool, Bytes}

-- A timestamp is a count of nanoseconds since 1970; the wall clock is past that date.
pub record CanMessageTimestamped : Type 0 where
  pub timestamp : ℕ
  pub interface : ℕ
  pub id : ℕ
  pub transmit : Bool
  pub remote : Bool
  pub length : ℕ
  pub bytes : Bytes

-- `value` is the bit pattern of the float64.
pub record CanSignalTimestamped : Type 0 where
  pub timestamp : ℕ
  pub interface : ℕ
  pub id : ℕ
  pub message : Bytes
  pub signal : Bytes
  pub value : ℕ
  pub unit : Bytes
