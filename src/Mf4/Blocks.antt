-- ===== src/Mf4/Blocks.antt =====
-- internal/parser/mf4/mf4.go: the blocks of an MDF4 file as bytes.
use cantou.Common.{
  ℕ, ◌+◌, ◌-◌, ◌*◌, ◌%◌, Bool, List, [], ◌∷◌, ◌++◌, Bytes, codes, ◌==◌, if◌then◌else◌, length, take,
  replicate,
}
use cantou.Common.Words.{put_le}

abbrev pub id_block_size : ℕ
id_block_size = 64

abbrev pub header_size : ℕ
header_size = 24

abbrev pub can_record_size : ℕ
can_record_size = 22

abbrev pub block_id_hd : Bytes
block_id_hd = codes "##HD"

abbrev pub block_id_dg : Bytes
block_id_dg = codes "##DG"

abbrev pub block_id_cg : Bytes
block_id_cg = codes "##CG"

abbrev pub block_id_cn : Bytes
block_id_cn = codes "##CN"

abbrev pub block_id_tx : Bytes
block_id_tx = codes "##TX"

abbrev pub block_id_dt : Bytes
block_id_dt = codes "##DT"

abbrev pub acq_name_can_data_frame : Bytes
acq_name_can_data_frame = codes "CAN_DataFrame"

abbrev pub acq_name_timestamp : Bytes
acq_name_timestamp = codes "Timestamp"

abbrev pub cg_flag_vlsd : ℕ
cg_flag_vlsd = 0x0001

abbrev pub cg_flag_bus : ℕ
cg_flag_bus = 0x0006

-- `copy` into a zeroed buffer of `n` bytes
abbrev pub padded : ℕ → Bytes → Bytes
padded n s = take n (s ++ replicate n 0)

-- A block before it is written; its links are absolute file offsets.
pub record Block : Type 0 where
  pub id : Bytes
  pub links : List ℕ
  pub payload : Bytes

abbrev pub new_block : Bytes → ℕ → ℕ → Block
new_block id link_count data_size = record {
  id = id;
  links = replicate link_count 0;
  payload = replicate data_size 0;
}

unfoldable pub size : Block → ℕ
size b = header_size + length b.links * 8 + length b.payload

unfoldable pub link_bytes : List ℕ → Bytes
link_bytes [] = []
link_bytes (link ∷ links) = put_le 8 link ++ link_bytes links

unfoldable pub bytes : Block → Bytes
unfolding size
bytes b =
    padded 4 b.id
    ++ (replicate 4 0
        ++ (put_le 8 (size b) ++ (put_le 8 (length b.links) ++ (link_bytes b.links ++ b.payload))))

-- The length of a ##TX block for a text of `n` bytes: a NUL is added, and zeros up to a multiple of 8.
unfoldable pub tx_block_len : ℕ → ℕ
tx_block_len n =
    let block_len = header_size + (n + 1) in
    if block_len % 8 == 0 then block_len else block_len + (8 - block_len % 8)

unfoldable pub build_tx_block : Bytes → Bytes
unfolding tx_block_len put_le
build_tx_block text =
    let payload = text ++ (0 ∷ []) in
    let block_len = tx_block_len (length text) in
    block_id_tx
    ++ (replicate 4 0
        ++ (put_le 8 block_len
            ++ (replicate 8 0
                ++ (payload ++ replicate (block_len - header_size - length payload) 0))))

-- The 64-byte identification block, in its five written parts and the zeros between them.
unfoldable pub write_id_block : Bool → Bytes
unfolding put_le
write_id_block unfinalized =
    (if unfinalized then codes "UnFinMF " else codes "MDF     ")
    ++ (codes "4.11    "
        ++ (codes "cantou  "
            ++ (replicate 4 0
                ++ (put_le 2 411
                    ++ (replicate 30 0
                        ++ ((if unfinalized then put_le 2 1 else replicate 2 0)
                            ++ replicate 2 0))))))
