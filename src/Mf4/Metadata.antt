-- ===== src/Mf4/Metadata.antt =====
-- internal/parser/mf4/writer.go: the metadata blocks at the head of a file.
use cantou.Common.{ℕ, ◌+◌, ◌-◌, ◌*◌, true, [], ◌∷◌, ◌++◌, Bytes, codes, length, replicate}
use cantou.Common.Words.{put_le}
use cantou.Mf4.Blocks.{
  id_block_size, header_size, can_record_size, block_id_hd, block_id_dg, block_id_cg, block_id_cn,
  block_id_dt, acq_name_can_data_frame, acq_name_timestamp, cg_flag_vlsd, cg_flag_bus, Block,
  new_block, size, link_bytes, bytes, build_tx_block, write_id_block,
}

abbrev pub max_can_data_len : ℕ
max_can_data_len = 64

abbrev pub signal_record_size : ℕ
signal_record_size = 32

abbrev pub record_id_primary : ℕ
record_id_primary = 1

abbrev pub record_id_vlsd : ℕ
record_id_vlsd = 2

pub data LayoutScheme : Type 0 where
  layout_can layout_signal : LayoutScheme

abbrev primary_acq_name : LayoutScheme → Bytes
primary_acq_name layout_can = acq_name_can_data_frame
primary_acq_name layout_signal = codes "Signal"

abbrev primary_rec_size : LayoutScheme → ℕ
primary_rec_size layout_can = can_record_size
primary_rec_size layout_signal = signal_record_size

abbrev dt_header : Bytes
dt_header = block_id_dt ++ (replicate 4 0 ++ (put_le 8 header_size ++ replicate 8 0))

-- The file offsets of the blocks, in the order in which they are written.
pub record Addresses : Type 0 where
  pub tx_primary : ℕ
  pub tx_timestamp : ℕ
  pub tx_payload : ℕ
  pub cg_primary : ℕ
  pub cg_vlsd : ℕ
  pub cn_timestamp : ℕ
  pub cn_payload : ℕ
  pub dg : ℕ
  pub dt : ℕ

unfoldable pub addresses : LayoutScheme → Addresses
unfolding size
addresses scheme =
    let tx_primary = id_block_size + size (new_block block_id_hd 6 24) in
    let tx_timestamp = tx_primary + length (build_tx_block (primary_acq_name scheme)) in
    let tx_payload = tx_timestamp + length (build_tx_block acq_name_timestamp) in
    let cg_primary = tx_payload + length (build_tx_block (primary_acq_name scheme)) in
    let cg_vlsd = cg_primary + size (new_block block_id_cg 6 32) in
    let cn_timestamp = cg_vlsd + size (new_block block_id_cg 6 32) in
    let cn_payload = cn_timestamp + size (new_block block_id_cn 8 48) in
    let dg = cn_payload + size (new_block block_id_cn 8 48) in
    let dt = dg + size (new_block block_id_dg 4 8) in
    record {
      tx_primary = tx_primary;
      tx_timestamp = tx_timestamp;
      tx_payload = tx_payload;
      cg_primary = cg_primary;
      cg_vlsd = cg_vlsd;
      cn_timestamp = cn_timestamp;
      cn_payload = cn_payload;
      dg = dg;
      dt = dt;
    }

-- A channel group: its record id, its flags and the size of its records.
abbrev cg_data : ℕ → ℕ → ℕ → Bytes
cg_data record_id flags rec_size =
    put_le 8 record_id
    ++ (replicate 8 0
        ++ (put_le 2 flags ++ (replicate 6 0 ++ (put_le 4 rec_size ++ replicate 4 0))))

-- A channel: its type, sync type and data type, the byte offset and the bit count.
abbrev cn_data : ℕ → ℕ → ℕ → ℕ → ℕ → Bytes
cn_data channel_type sync_type data_type byte_offset bit_count =
    (channel_type ∷ sync_type ∷ data_type ∷ 0 ∷ [])
    ++ (put_le 4 byte_offset ++ (put_le 4 bit_count ++ replicate 36 0))

unfoldable pub metadata : LayoutScheme → Addresses → Bytes
unfolding bytes link_bytes write_id_block build_tx_block
metadata scheme a =
    let tx_primary = build_tx_block (primary_acq_name scheme) in
    let hd : Block = record {
      id = block_id_hd;
      links = a.dg ∷ 0 ∷ 0 ∷ 0 ∷ 0 ∷ 0 ∷ [];
      payload = replicate 24 0;
    } in
    let cg1 : Block = record {
      id = block_id_cg;
      links = a.cg_vlsd ∷ a.cn_timestamp ∷ a.tx_primary ∷ 0 ∷ 0 ∷ 0 ∷ [];
      payload = cg_data record_id_primary cg_flag_bus (primary_rec_size scheme);
    } in
    let cg2 : Block = record {
      id = block_id_cg;
      links = replicate 6 0;
      payload = cg_data record_id_vlsd cg_flag_vlsd 0;
    } in
    let cn_ts : Block = record {
      id = block_id_cn;
      links = a.cn_payload ∷ 0 ∷ a.tx_timestamp ∷ replicate 5 0;
      payload = cn_data 2 1 4 0 64;
    } in
    let cn_payload : Block = record {
      id = block_id_cn;
      links = 0 ∷ 0 ∷ a.tx_payload ∷ replicate 5 0;
      payload = cn_data 0 0 10 8 ((primary_rec_size scheme - 8) * 8);
    } in
    let dg : Block = record {
      id = block_id_dg;
      links = 0 ∷ a.cg_primary ∷ a.dt ∷ 0 ∷ [];
      payload = 1 ∷ replicate 7 0;
    } in
    write_id_block true
    ++ (bytes hd
        ++ (tx_primary
            ++ (build_tx_block acq_name_timestamp
                ++ (tx_primary
                    ++ (bytes cg1
                        ++ (bytes cg2
                            ++ (bytes cn_ts ++ (bytes cn_payload ++ (bytes dg ++ dt_header)))))))))
