-- ===== src/Client/Dedupe.antt =====
-- internal/client/dedupe/dedupe.go: the filter that drops a frame seen less than a timeout ago.
use Prim.Native.Nat.{bit_xor}
use cantou.Common.{
  ℕ, ◌+◌, ◌-◌, ◌*◌, ◌%◌, ◌^◌, Bool, true, false, not, ◌&&◌, List, [], ◌∷◌, ◌++◌, if◌then◌else◌, leb,
  ◌==◌, any, length, Bytes, Option, some, none,
}
use cantou.Common.Words.{put_le}
use cantou.Common.Maps.{find, insert, delete_if}
use cantou.Models.{CanMessageTimestamped}
pub mod Key
pub mod Window

-- 64-bit FNV-1a, as hash/fnv documents it
unfoldable pub fnv : ℕ → Bytes → ℕ
fnv h [] = h
fnv h (b ∷ bs) = fnv (bit_xor h b * 1099511628211 % 2 ^ 64) bs

abbrev pub flag : Bool → ℕ
flag true = 1
flag false = 0

-- What is written into the hash.
unfoldable pub key : CanMessageTimestamped → Bytes
key m =
    put_le 4 m.interface
    ++ (put_le 4 m.id ++ (flag m.transmit ∷ (flag m.remote ∷ (m.length ∷ m.bytes))))

unfoldable pub hash_can_message_data : CanMessageTimestamped → ℕ
unfolding key
hash_can_message_data m = fnv 14695981039346656037 (key m)

-- The timeout is in milliseconds and not negative; an empty list of ids stands for all.
pub record DedupeFilterClient : Type 0 where
  pub storage : List (ℕ × ℕ)
  pub timeout : ℕ
  pub ids : List ℕ

abbrev pub new_dedupe_filter_client : ℕ → List ℕ → DedupeFilterClient
new_dedupe_filter_client timeout ids = record { storage = []; timeout = timeout; ids = ids }

-- The readings of the clock during one call, in nanoseconds: the first `time.Since`, the
-- `time.Now` that is stored, and the `time.Since` at each entry of the sweep.
pub record Clock : Type 0 where
  pub check : ℕ
  pub store : ℕ
  pub sweep : ℕ → ℕ

abbrev pub window : DedupeFilterClient → ℕ
window dc = dc.timeout * 1000000

abbrev pub selects : DedupeFilterClient → CanMessageTimestamped → Bool
selects dc m = not (not (length dc.ids == 0) && not (any (λ i. i == m.id) dc.ids))

unfoldable pub swept : ℕ → (ℕ → ℕ) → List (ℕ × ℕ) → List (ℕ × ℕ)
swept w sweep m = delete_if (λ h t. leb (t + w) (sweep h)) m

-- the body under the lock, given what the storage has for the hash
unfoldable pub filter_hash : DedupeFilterClient → Clock → ℕ → Option ℕ → DedupeFilterClient × Bool
filter_hash dc clock h none =
    (record dc { storage = swept (window dc) clock.sweep (insert h clock.store dc.storage) }, false)
filter_hash dc clock h (some t) =
    if leb (t + window dc) clock.check
    then (record dc { storage = insert h clock.store dc.storage }, false)
    else (dc, true)

-- `true` stands for a frame that is dropped.
unfoldable pub filter :
    DedupeFilterClient → Clock → CanMessageTimestamped → DedupeFilterClient × Bool
filter dc clock m =
    if selects dc m
    then filter_hash dc clock (hash_can_message_data m) (find (hash_can_message_data m) dc.storage)
    else (dc, false)
