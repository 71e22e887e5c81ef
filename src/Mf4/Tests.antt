-- ===== src/Mf4/Tests.antt =====
-- Runs of the writer and the reader, and the theorems at concrete files.
use cantou.Common.{
  ℕ, suc, ◌≤◌, ◌≡◌, ◌≢◌, refl, true, false, List, [], ◌∷◌, ◌++◌, map, arith, codes, length, ◌⊎◌,
}
use cantou.Mf4.Outcome.{ok, running}
use cantou.Mf4.Blocks.{Block, block_id_cg}
use cantou.Mf4.Metadata.{layout_can, layout_signal}
use cantou.Mf4.Writer.{new_writer, done, failed, AppendError, Writer}
use cantou.Mf4.FileBlocks.{is_mf4_file, read_full}
use cantou.Mf4.Vlsd.{CgInfo, no_vlsd}
use cantou.Mf4.Reader.{parse, rebase, read_data, read_records}
use cantou.Mf4.Stream.{Frame, append_all, groups, can_info, frame_bytes, next_offset}
use cantou.Mf4.Decode.{entry}
use cantou.Mf4.RoundTrip.{parse-append_all}
use cantou.Mf4.Loops.{read_data_total, read_records-running}
use cantou.Mf4.Faults.{whole, cut, append_can_on, IsPart, append_can_on-cases}
use cantou.Mf4.Appending.{CanRefused}

-- stands for the conversion of a float64
abbrev as_integer : ℕ → ℕ
as_integer x = x

abbrev rx : Frame
rx = record { ts_bits = 1000; id = 0x123; tx = false; payload = 1 ∷ 2 ∷ 3 ∷ [] }

abbrev tx : Frame
tx = record { ts_bits = 5000; id = 0x18daf110; tx = true; payload = [] }

abbrev late : Frame
late = record { ts_bits = 7000; id = 1; tx = false; payload = 9 ∷ [] }

abbrev frames : List Frame
frames = rx ∷ tx ∷ []

abbrev recorded : Writer
recorded = append_all (new_writer layout_can) frames

metadata_is_848_bytes : length (new_writer layout_can).file ≡ 848
unfolding new_writer
metadata_is_848_bytes = refl

new_file_is_mf4 : is_mf4_file (new_writer layout_signal).file ≡ true
unfolding new_writer is_mf4_file read_full
new_file_is_mf4 = refl

parse-append_all_example :
    parse as_integer (suc (suc 0)) recorded.file ≡ ok (rebase (map (entry as_integer) frames))
parse-append_all_example = parse-append_all as_integer 0 frames (omega arith) (omega arith)

abbrev cg : Block
cg = record { id = block_id_cg; links = 488 ∷ 0 ∷ []; payload = 7 ∷ 8 ∷ [] }

read_data_total_example : read_data as_integer 2 groups can_info (1 ∷ 0 ∷ 9 ∷ []) ≢ running
read_data_total_example =
    read_data_total as_integer 2 groups can_info (1 ∷ 0 ∷ 9 ∷ []) (omega arith)

abbrev empty_records : CgInfo
empty_records = record {
  record_id = 0;
  data_bytes = 0;
  acq_name = codes "CAN_DataFrame";
  is_vlsd = false;
}

read_records-running_example :
    read_records as_integer 1000 0 [] empty_records no_vlsd (7 ∷ []) ≡ running
read_records-running_example =
    read_records-running as_integer 1000 [] empty_records no_vlsd 7 [] refl

-- The write of the payload breaks off behind its third byte.
append_can_on-cases_example :
    let result = append_can_on whole (cut 3) recorded late.ts_bits late.id late.tx late.payload in
    (((whole ≡ whole)
        × (cut 3 ≡ whole)
        × (recorded.scheme ≡ layout_can)
        × (length late.payload ≤ 64)
        × (recorded.opened ≡ true)
        × (result ≡ (
          record recorded {
            file = recorded.file ++ frame_bytes recorded.vlsd_offset late [];
            vlsd_offset = next_offset recorded.vlsd_offset late;
          },
          done,
        )))
      ⊎ ((e : AppendError) × (result ≡ (recorded, failed e)) × CanRefused recorded late.payload e))
    ⊎ IsPart whole (cut 3) recorded late result
append_can_on-cases_example = append_can_on-cases whole (cut 3) recorded late

abbrev signals : Writer
signals = new_writer layout_signal
