-- ===== src/Influx/Tests.antt =====
-- The InfluxDB output at concrete frames, and the theorems about it.
use cantou.Common.{
  ℕ, ◌≡◌, refl, none, some, false, true, List, [], ◌∷◌, codes, Bytes, Option, arith, inl, ◌++◌,
  replicate,
}
use cantou.Common.Hex.{parse_uint32_hex}
use cantou.Common.HexUint.{format_hex}
use cantou.Common.Decimal.{format_uint}
use cantou.Models.{CanMessageTimestamped}
use cantou.Influx.{InfluxDbCanMessage, convert_many, format_can_id, convert_msg, data_text}
use cantou.Influx.Rows.{convert_msg-read, read_data, convert_many-panics}
use cantou.Influx.Batches.{
  Event, received, done, taken, new_client, run, step, handle, gather, flush, flush_block, send,
}
use cantou.Influx.Bounds.{IsBounded, run-IsBounded}
use cantou.Influx.Delivery.{IsDelivered, run-IsDelivered}
use cantou.Influx.Merge.{merge_nil, Merge, concat}
use cantou.Influx.Drain.{run-drained}

format_can_id_short : format_can_id 0x1F ≡ codes "01f"
unfolding format_can_id format_hex
format_can_id_short = refl

data_text_two : data_text 2 0 (7 ∷ (255 ∷ [])) ≡ some (codes "7,255")
unfolding data_text format_uint
data_text_two = refl

abbrev frame : CanMessageTimestamped
frame = record {
  timestamp = 9;
  interface = 0;
  id = 0x7E8;
  transmit = false;
  remote = false;
  length = 2;
  bytes = 7 ∷ (255 ∷ []);
}

abbrev resolver : ℕ → Option Bytes
resolver id = some (codes "can0")

convert_msg-read_example :
    (row : InfluxDbCanMessage) × (convert_msg resolver (codes "can_message") frame ≡ some row)
    × (read_data row.bytes ≡ some (7 ∷ (255 ∷ [])))
    × (parse_uint32_hex row.id ≡ some 0x7E8)
    × (row.timestamp ≡ 9)
    × (row.length ≡ 2)
convert_msg-read_example =
    convert_msg-read resolver (codes "can_message") frame (omega arith)
      (omega arith, (omega arith, tt)) (omega arith)

-- The cut of the log reader leaves a CAN FD frame with 8 bytes and a length of 12.
abbrev long_frame : CanMessageTimestamped
long_frame = record frame { length = 12; bytes = replicate 8 0 }

convert_many-panics_example :
    convert_many resolver (codes "can_message") (frame ∷ (long_frame ∷ [])) ≡ none
convert_many-panics_example =
    convert_many-panics resolver (codes "can_message") long_frame (frame ∷ []) [] (omega arith)

-- The value 3 is filtered.
abbrev events : List (Event ℕ)
events =
    received 1 false
    ∷ (received 3 true
        ∷ (received 2 false
            ∷ (received 4 false ∷ (received 5 false ∷ (received 6 false ∷ (done ∷ []))))))

lost_batches : (run (new_client 2 1) events).lost ≡ (4 ∷ (5 ∷ [])) ∷ ((6 ∷ []) ∷ [])
unfolding run step handle gather flush flush_block send
lost_batches = refl

run-IsBounded_example : IsBounded (run (new_client 2 1) events)
run-IsBounded_example = run-IsBounded events (new_client 2 1) (inl refl, (omega arith, tt, tt, tt))

run-IsDelivered_example : IsDelivered (1 ∷ (2 ∷ (4 ∷ (5 ∷ (6 ∷ []))))) (run (new_client 2 1) events)
run-IsDelivered_example =
    run-IsDelivered events (new_client 2 1) [] refl ([], merge_nil, refl, inl refl)

run-drained_example :
    Merge
      (concat (run (new_client 2 1) (events ++ (taken ∷ []))).handed)
      (concat (run (new_client 2 1) (events ++ (taken ∷ []))).lost)
      (1 ∷ (2 ∷ (4 ∷ (5 ∷ (6 ∷ [])))))
unfolding run step handle gather flush flush_block send
run-drained_example = run-drained events (taken ∷ []) 2 1 refl (omega arith)
