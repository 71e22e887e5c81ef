-- ===== src/Mf4/Writer.antt =====
-- internal/parser/mf4/writer.go: the records appended behind the metadata, and the
-- rewriting that finalizes a file. A write to the file system succeeds; Faults has AppendCAN with writes
-- that fail.
use cantou.Mf4.Metadata.{
  layout_can, layout_signal, max_can_data_len, record_id_primary, record_id_vlsd, LayoutScheme,
  addresses, metadata,
}
use cantou.Common.{
  ℕ, ◌+◌, ◌-◌, ◌%◌, ◌^◌, Bool, true, false, [], ◌∷◌, ◌++◌, Bytes, codes, ltb, ◌==◌, any,
  if◌then◌else◌, length, take, drop, replicate,
}
use cantou.Common.Words.{put_le}
use cantou.Mf4.Blocks.{header_size, can_record_size}
use cantou.Mf4.Record.{encode_can_frame_record}

pub data AppendError : Type 0 where
  wrong_layout can_data_too_long label_has_nul label_too_long file_closed write_failed : AppendError

pub data Appended : Type 0 where
  done : Appended
  failed : AppendError → Appended

-- `opened` is false when the file pointer is nil.
pub record Writer : Type 0 where
  pub file : Bytes
  pub opened : Bool
  pub scheme : LayoutScheme
  pub dt_header_at : ℕ
  pub data_start : ℕ
  pub vlsd_offset : ℕ

-- `newWriter` with `writeMetadata`
unfoldable pub new_writer : LayoutScheme → Writer
unfolding addresses metadata put_le
new_writer scheme =
    let a = addresses scheme in
    record {
      file = metadata scheme a;
      opened = true;
      scheme = scheme;
      dt_header_at = a.dt;
      data_start = a.dt + header_size;
      vlsd_offset = 0;
    }

-- [record id][4-byte length][payload]
abbrev pub vlsd_record : Bytes → Bytes
vlsd_record payload = record_id_vlsd ∷ (put_le 4 (length payload) ++ payload)

abbrev pub append_vlsd : Writer → Bytes → Writer
append_vlsd w payload = record w {
  file = w.file ++ vlsd_record payload;
  vlsd_offset = (w.vlsd_offset + (4 + length payload)) % 2 ^ 64;
}

abbrev pub write : Writer → Bytes → Writer
write w buf = record w { file = w.file ++ buf }

-- Behind the check of the scheme. The timestamp comes as the bits of its float64.
unfoldable pub append_can_record : Writer → ℕ → ℕ → Bool → Bytes → Writer × Appended
append_can_record w ts_bits can_id tx payload =
    let rec = replicate can_record_size 0 in
    if ltb max_can_data_len (length payload)
    then (w, failed can_data_too_long)
    else if w.opened
    then (
      append_vlsd
          (write w (
            record_id_primary
            ∷ encode_can_frame_record rec ts_bits can_id tx (length payload % 256) w.vlsd_offset))
          payload,
      done,
    )
    else (w, failed file_closed)

unfoldable pub append_can_in : LayoutScheme → Writer → ℕ → ℕ → Bool → Bytes → Writer × Appended
append_can_in layout_can w ts_bits can_id tx payload = append_can_record w ts_bits can_id tx payload
append_can_in layout_signal w _ _ _ _ = (w, failed wrong_layout)

unfoldable pub append_can : Writer → ℕ → ℕ → Bool → Bytes → Writer × Appended
unfolding append_can_in append_can_record encode_can_frame_record
append_can w = append_can_in w.scheme w

abbrev pub has_nul : Bytes → Bool
has_nul = any (λ b. b == 0)

abbrev pub signal_label : Bytes → Bytes → Bytes → Bytes
signal_label message signal unit = message ++ (0 ∷ (signal ++ (0 ∷ unit)))

abbrev pub signal_record : ℕ → ℕ → ℕ → ℕ → ℕ → Bytes
signal_record ts_bits can_id iface value_bits vlsd_offset =
    put_le 8 ts_bits
    ++ (put_le 8 value_bits ++ (put_le 4 iface ++ (put_le 4 can_id ++ put_le 8 vlsd_offset)))

unfoldable pub append_signal_record :
    Writer → ℕ → ℕ → ℕ → ℕ → Bytes → Bytes → Bytes → Writer × Appended
append_signal_record w ts_bits can_id iface value_bits message signal unit =
    if any has_nul (message ∷ signal ∷ unit ∷ [])
    then (w, failed label_has_nul)
    else if ltb (2 ^ 32 - 1) (length message + length signal + length unit + 2)
    then (w, failed label_too_long)
    else if w.opened
    then (
      append_vlsd
          (write w
            (record_id_primary ∷ signal_record ts_bits can_id iface value_bits w.vlsd_offset))
          (signal_label message signal unit),
      done,
    )
    else (w, failed file_closed)

unfoldable pub append_signal_in :
    LayoutScheme → Writer → ℕ → ℕ → ℕ → ℕ → Bytes → Bytes → Bytes → Writer × Appended
append_signal_in layout_signal w ts_bits can_id iface value_bits message signal unit =
    append_signal_record w ts_bits can_id iface value_bits message signal unit
append_signal_in layout_can w _ _ _ _ _ _ _ = (w, failed wrong_layout)

unfoldable pub append_signal : Writer → ℕ → ℕ → ℕ → ℕ → Bytes → Bytes → Bytes → Writer × Appended
unfolding append_signal_in append_signal_record
append_signal w = append_signal_in w.scheme w

-- Bytes written at an offset inside the file.
abbrev pub write_at : Bytes → ℕ → Bytes → Bytes
write_at file off s = take off file ++ (s ++ drop (off + length s) file)

unfoldable pub finalize : Writer → Writer
unfolding put_le
finalize w =
    let block_len = length w.file - w.dt_header_at in
    let with_len = write_at w.file (w.dt_header_at + 8) (put_le 8 block_len) in
    record w { file = write_at (write_at with_len 0 (codes "MDF     ")) 60 (replicate 2 0) }

unfoldable pub close : Writer → Writer
unfolding finalize
close w = if w.opened then record (finalize w) { opened = false } else w

unfoldable pub close_unfinalized : Writer → Writer
close_unfinalized w = if w.opened then record w { opened = false } else w
