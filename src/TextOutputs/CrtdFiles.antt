-- ===== src/TextOutputs/CrtdFiles.antt =====
-- A CRTD file that the client has left, read back line by line.
use cantou.Common.{ℕ, ◌/◌, ◌^◌, ◌<◌, Option, some, Bytes, All}
use cantou.Models.{CanMessageTimestamped}

-- What fits a record.
abbrev pub FitsCrtd : CanMessageTimestamped → Type 0
FitsCrtd m = (m.timestamp < 2 ^ 63) × (m.id < 2 ^ 32) × All (λ b. b < 256) m.bytes

abbrev pub record_of : CanMessageTimestamped → Option (ℕ × ℕ × Bytes)
record_of m = some (m.timestamp / 1000, m.id, m.bytes)
