-- ===== src/Mf4/RoundTrip.antt =====
-- A file that the writer made is read back by the playback parser.
use cantou.Common.{
  ℕ, suc, ◌+◌, ◌-◌, ◌^◌, ◌≤◌, ◌<◌, ◌≡◌, refl, ap, ◌∙◌, sym, true, List, [], ◌∷◌, ◌++◌, map, arith,
  Bytes, some, length, append_assoc, append-nil, All,
}
use cantou.Common.Words.{put_le, get_le, get_le-put_le}
use cantou.Mf4.Outcome.{ok, ◌>>=◌}
use cantou.Mf4.Metadata.{layout_can}
use cantou.Mf4.Writer.{Writer, Appended, new_writer, close}
use cantou.Mf4.FileBlocks.{read_full, read_body, read_links, read_dt_body, sub64}
use cantou.Mf4.Vlsd.{no_vlsd}
use cantou.Mf4.Reader.{LogEntry, read_data, parse_dg, rebase, parse}
use cantou.Mf4.Stream.{
  Frame, IsRecordable, stream, frame_bytes, groups, can_info, vlsd_total, append_all,
  append_can_lem, next_offset, length-frame_bytes,
}
use cantou.Mf4.Collect.{collect-stream}
use cantou.Mf4.Decode.{entry, read-stream}

frame_bytes-append :
    (o : ℕ) (f : Frame) (rest : Bytes) → frame_bytes o f [] ++ rest ≡ frame_bytes o f rest
frame_bytes-append o f rest = simp (append_assoc, append-nil)

abbrev end_offset : ℕ → List Frame → ℕ
end_offset o [] = o
end_offset o (f ∷ fs) = end_offset (next_offset o f) fs

-- A writer of CAN frames behind the bytes `s` and at the offset `o`.
abbrev written : Bytes → ℕ → Writer
written s o = record (new_writer layout_can) {
  file = (new_writer layout_can).file ++ s;
  vlsd_offset = o;
}

append_all-written :
    (fs : List Frame) (s : Bytes) (o : ℕ)
    → All IsRecordable fs
    → append_all (written s o) fs ≡ written (s ++ stream o fs) (end_offset o fs)
append_all-written [] s o h = ap (λ x. written x o) (sym (append-nil s))
append_all-written (f ∷ fs) s o h =
    let head = (new_writer layout_can).file in
    ap (λ (r : Writer × Appended). append_all r.0 fs)
      (append_can_lem (written s o) f (unfold new_writer in refl) (unfold new_writer in refl)
        h.0.payload_fits)
    ∙ ap
        (λ (x : Bytes).
          append_all (record (new_writer layout_can) { file = x; vlsd_offset = next_offset o f })
            fs)
        (append_assoc head s (frame_bytes o f []))
    ∙ append_all-written fs (s ++ frame_bytes o f []) (next_offset o f) h.1
    ∙ ap (λ x. written x (end_offset o (f ∷ fs)))
        (append_assoc s (frame_bytes o f []) (stream (next_offset o f) fs)
          ∙ ap (◌++◌ s) (frame_bytes-append o f (stream (next_offset o f) fs)))

append_all-new_writer :
    (fs : List Frame)
    → All IsRecordable fs
    → append_all (new_writer layout_can) fs ≡ written (stream 0 fs) (end_offset 0 fs)
unfolding new_writer
append_all-new_writer fs h =
    ap (λ x. append_all (record (new_writer layout_can) { file = x; vlsd_offset = 0 }) fs)
      (sym (append-nil (new_writer layout_can).file))
    ∙ append_all-written fs [] 0 h

read_full_all : (s : Bytes) → read_full (length s) s ≡ some (s, [])
unfolding read_full
read_full_all [] = refl
read_full_all (b ∷ s) = rw (read_full_all s)

-- A stated length is read in full; without one the data runs to the end.
read_dt_body_full : (s : Bytes) → length s ≤ 2 ^ 48 → read_dt_body true (length s) s ≡ ok s
unfolding read_dt_body
read_dt_body_full [] h = refl
read_dt_body_full (b ∷ s) h = ground (arith, read_full_all (b ∷ s))

stated_length : (n : ℕ) → n ≤ 2 ^ 48 → sub64 (get_le (put_le 8 (24 + n))) 24 ≡ n
stated_length n h = rw (get_le-put_le 8 (24 + n) (omega arith)) (omega arith)

length-new_writer : (s : Bytes) → length ((new_writer layout_can).file ++ s) - 824 ≡ 24 + length s
unfolding new_writer
length-new_writer s = omega arith

pub vlsd_total-le : (fs : List Frame) (o : ℕ) → vlsd_total fs ≤ length (stream o fs)
vlsd_total-le [] o = omega arith
vlsd_total-le (f ∷ fs) o = omega (
  arith,
  vlsd_total-le fs (next_offset o f),
  length-frame_bytes o f (stream (next_offset o f) fs),
)

module _ (to_int64 : ℕ → ℕ) where
  read_data-stream :
      (fs : List Frame)
      → All IsRecordable fs
      → vlsd_total fs < 2 ^ 64
      → read_data to_int64 1 groups can_info (stream 0 fs) ≡ ok (map (entry to_int64) fs)
  unfolding read_data
  read_data-stream fs h room =
      rw (collect-stream fs no_vlsd (length (stream 0 fs)) h (omega arith))
        (read-stream to_int64 fs no_vlsd (length (stream 0 fs)) h (omega arith) (omega arith))

  parse_dg-written :
      (fuel : ℕ) (s : Bytes) (o : ℕ)
      → parse_dg to_int64 (suc (suc fuel)) (written s o).file 760
        ≡ (read_data to_int64 1 groups can_info s >>= λ es. ok (es, 0))
  unfolding parse_dg new_writer get_le read_dt_body read_body read_full read_links
  parse_dg-written fuel s o = refl

  parse-written :
      (fuel : ℕ) (s : Bytes) (o : ℕ) (es : List LogEntry)
      → read_data to_int64 1 groups can_info s ≡ ok es
      → parse to_int64 (suc (suc fuel)) (written s o).file ≡ ok (rebase es)
  unfolding parse new_writer get_le read_body read_full read_links
  parse-written fuel s o es h = ground (arith, parse_dg-written fuel s o, h)

  -- Any frames whose identifiers have at most 29 bits and whose payloads have at most 64 bytes,
  -- and whose payloads take less than 2^64 bytes with their length prefixes, appended one by
  -- one to a new writer, are parsed back in order from the unfinalized file: each with its
  -- identifier, direction, length and payload, as a data frame, its time relative to the first.
  -- Fuel for two steps along each chain of blocks is enough.
  pub parse-append_all :
      (fuel : ℕ) (fs : List Frame)
      → All IsRecordable fs
      → vlsd_total fs < 2 ^ 64
      → parse to_int64 (suc (suc fuel)) (append_all (new_writer layout_can) fs).file
        ≡ ok (rebase (map (entry to_int64) fs))
  parse-append_all fuel fs h room =
      ap (λ (w : Writer). parse to_int64 (suc (suc fuel)) w.file) (append_all-new_writer fs h)
      ∙ parse-written fuel (stream 0 fs) (end_offset 0 fs) (map (entry to_int64) fs)
          (read_data-stream fs h room)

  parse_dg-closed :
      (fuel : ℕ) (s : Bytes) (o : ℕ)
      → parse_dg to_int64 (suc (suc fuel)) (close (written s o)).file 760 ≡ (
          (read_dt_body true (sub64 (get_le (put_le 8 (length (written s o).file - 824))) 24) s
            >>= λ d. read_data to_int64 1 groups can_info d)
          >>= λ es. ok (es, 0))
  unfolding parse_dg new_writer get_le close read_body read_full read_links
  parse_dg-closed fuel s o = refl

  parse-closed :
      (fuel : ℕ) (s : Bytes) (o : ℕ) (es : List LogEntry)
      → length s ≤ 2 ^ 48
      → read_data to_int64 1 groups can_info s ≡ ok es
      → parse to_int64 (suc (suc fuel)) (close (written s o)).file ≡ ok (rebase es)
  unfolding parse new_writer close get_le read_body read_full read_links
  parse-closed fuel s o es fits h =
      let body = read_dt_body_full s fits in
      let stated : sub64 (get_le (put_le 8 (length (written s o).file - 824))) 24 ≡ length s =
        rw (length-new_writer s) (stated_length (length s) fits) in
      ground (arith, parse_dg-closed fuel s o, stated, body, h)

  -- Frames within the same limits, whose records take at most 2^48 bytes, are also parsed back
  -- from the file that Close has finalized, whose DT block states the length of the data and
  -- whose magic is that of a finished file.
  pub parse-close :
      (fuel : ℕ) (fs : List Frame)
      → All IsRecordable fs
      → length (stream 0 fs) ≤ 2 ^ 48
      → parse to_int64 (suc (suc fuel)) (close (append_all (new_writer layout_can) fs)).file
        ≡ ok (rebase (map (entry to_int64) fs))
  parse-close fuel fs h room =
      ap (λ (w : Writer). parse to_int64 (suc (suc fuel)) (close w).file)
        (append_all-new_writer fs h)
      ∙ parse-closed fuel (stream 0 fs) (end_offset 0 fs) (map (entry to_int64) fs) room
          (read_data-stream fs h (omega (arith, vlsd_total-le fs 0)))
