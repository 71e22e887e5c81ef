-- ===== src/Mf4/Record.antt =====
-- The CAN_DataFrame record: `EncodeCANFrameRecord` of mf4.go and the fields that
-- `parseMF4CANRecord` of playback/mf4.go reads back.
use Prim.Native.Nat.{bit_or}
use cantou.Common.{
  ℕ, zero, suc, ◌+◌, ◌*◌, ◌/◌, ◌%◌, ◌^◌, ◌<◌, ◌≡◌, refl, Bool, true, false, ◌&&◌, ◌++◌, ◌∷◌, [],
  arith, Bytes, ltb, ◌==◌, ==_iff, if◌then◌else◌, length, drop,
}
use cantou.Common.Words.{put_le, get_le}
use cantou.Mf4.Blocks.{can_record_size}

-- bits 2-30 hold the identifier; the fourth byte takes the IDE bit for one of more than 11 bits
unfoldable pub id_bytes : ℕ → Bytes
unfolding put_le
id_bytes can_id =
    let id_field = can_id % 2 ^ 29 * 4 in
    let last = id_field / 2 ^ 24 in
    put_le 3 id_field ++ ((if ltb 0x7ff can_id then bit_or last 0x80 else last) ∷ [])

unfoldable pub direction_byte : Bool → ℕ → ℕ
direction_byte tx data_len = bit_or (if tx then 1 else 0) (data_len % 128 * 2)

-- The record for a timestamp given as the bits of its float64.
unfoldable pub can_frame : ℕ → ℕ → Bool → ℕ → ℕ → Bytes
can_frame ts_bits can_id tx data_len vlsd_offset =
    put_le 8 ts_bits
    ++ (id_bytes can_id
        ++ (direction_byte tx data_len ∷ ((data_len % 16 * 4) ∷ put_le 8 vlsd_offset)))

-- `rec` is overwritten in place; a shorter one is left alone.
unfoldable pub encode_can_frame_record : Bytes → ℕ → ℕ → Bool → ℕ → ℕ → Bytes
encode_can_frame_record rec ts_bits can_id tx data_len vlsd_offset =
    if ltb (length rec) can_record_size
    then rec
    else can_frame ts_bits can_id tx data_len vlsd_offset ++ drop can_record_size rec

-- The two fields that are read from the composite part.
unfoldable pub read_id : Bytes → ℕ
read_id four = get_le four / 4 % 2 ^ 29

pub length-id_bytes : (can_id : ℕ) → length (id_bytes can_id) ≡ 4
unfolding id_bytes
length-id_bytes can_id = refl

-- A test passes for all of the first n numbers.
passes_below : (ℕ → Bool) → ℕ → Bool
passes_below test zero = true
passes_below test (suc n) = passes_below test n && test n

test_of_below : (test : ℕ → Bool) (n b : ℕ) → b < n → passes_below test n ≡ true → test b ≡ true
unfolding passes_below
test_of_below test zero b small passed = absurd (omega arith)
test_of_below test (suc n) b small passed = ground (arith, test_of_below test n b)

set_top_bit_table : passes_below (λ b. bit_or b 0x80 == b + 128) 128 ≡ true
unfolding passes_below
set_top_bit_table = refl

set_top_bit : (b : ℕ) → b < 128 → bit_or b 0x80 ≡ b + 128
set_top_bit b h = (==_iff _ _).0 (test_of_below _ 128 b h set_top_bit_table)

set_low_bit_table : passes_below (λ b. bit_or 1 (b * 2) == b * 2 + 1) 128 ≡ true
unfolding passes_below
set_low_bit_table = refl

no_low_bit_table : passes_below (λ b. bit_or 0 (b * 2) == b * 2) 128 ≡ true
unfolding passes_below
no_low_bit_table = refl

pub direction_byte_fields :
    (tx : Bool) (n : ℕ)
    → n < 128
    → (direction_byte tx n / 2 % 128 ≡ n) × ((direction_byte tx n % 2 == 1) ≡ tx)
unfolding direction_byte
direction_byte_fields true n h = ground (
  arith,
  (==_iff _ _).0 (
      test_of_below (λ b. bit_or 1 (b * 2) == b * 2 + 1) 128 (n % 128) (omega arith)
        set_low_bit_table),
)
direction_byte_fields false n h = ground (
  arith,
  (==_iff _ _).0
      (test_of_below (λ b. bit_or 0 (b * 2) == b * 2) 128 (n % 128) (omega arith) no_low_bit_table),
)

-- The identifier survives, and the IDE bit does not disturb it.
pub read_id-id_bytes : (can_id : ℕ) → read_id (id_bytes can_id) ≡ can_id % 2 ^ 29
unfolding read_id id_bytes get_le
read_id-id_bytes can_id = ground (arith, set_top_bit (can_id % 2 ^ 29 * 4 / 2 ^ 24) (omega arith))
