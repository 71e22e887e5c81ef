-- ===== src/Mf4/Decode.antt =====
-- The second pass: the entries that come back.
use cantou.Common.{
  ℕ, zero, suc, ◌+◌, ◌*◌, ◌%◌, ◌^◌, ◌≤◌, ◌<◌, ◌≡◌, refl, ap, ◌∙◌, sym, List, [], ◌∷◌, ◌++◌, map,
  false, arith, Bytes, some, none, length, drop, take_all, append_assoc, length-append,
  take-append_of_length, drop-append_of_length, All,
}
use cantou.Common.Words.{put_le, get_le, get_le-put_le, length-put_le}
use cantou.Mf4.Outcome.{ok}
use cantou.Mf4.Record.{
  can_frame, id_bytes, direction_byte, length-id_bytes, direction_byte_fields, read_id-id_bytes,
}
use cantou.Mf4.Vlsd.{VlsdIndex, lookup}
use cantou.Mf4.Reader.{LogEntry, read_step, read_records, with_entry, parse_can_record}
use cantou.Mf4.Stream.{
  Frame, IsRecordable, stream, frame_bytes, groups, can_info, collected, length-can_frame,
  length-frame_bytes, vlsd_total,
}
use cantou.Mf4.Collect.{collect_all, lookup-collect_all}

get_le-singleton : (b : ℕ) → get_le (b ∷ []) ≡ b
unfolding get_le
get_le-singleton b = omega arith

drop_six : (xs : Bytes) (a b : ℕ) (ys : Bytes) → length xs ≡ 4 → drop 6 (xs ++ (a ∷ (b ∷ ys))) ≡ ys
drop_six xs a b ys h = rw (sym (append_assoc xs (a ∷ (b ∷ [])) ys)) (
    drop-append_of_length 6 (xs ++ (a ∷ (b ∷ []))) ys
      (omega (arith, length-append xs (a ∷ (b ∷ [])))))

module _ (to_int64 : ℕ → ℕ) where
  -- The entry that a frame is read back as.
  abbrev pub entry : Frame → LogEntry
  entry f = record {
    offset_ns = to_int64 f.ts_bits;
    id = f.id;
    transmit = f.tx;
    remote = false;
    length = length f.payload;
    bytes = f.payload;
  }

  parse_can_record-can_frame :
      (f : Frame) (o : ℕ) (v : VlsdIndex)
      → IsRecordable f
      → o < 2 ^ 64
      → lookup v o (length f.payload) ≡ f.payload
      → parse_can_record to_int64 (can_frame f.ts_bits f.id f.tx (length f.payload % 256) o) v
        ≡ some (entry f)
  unfolding parse_can_record can_frame
  parse_can_record-can_frame f o v h fits found =
      let n = length f.payload % 256 in
      let tail = direction_byte f.tx n ∷ ((n % 16 * 4) ∷ put_le 8 o) in
      let can = id_bytes f.id ++ tail in
      ground (
        arith,
        length-can_frame f.ts_bits f.id f.tx n o,
        take-append_of_length 8 (put_le 8 f.ts_bits) can (length-put_le 8 f.ts_bits),
        drop-append_of_length 8 (put_le 8 f.ts_bits) can (length-put_le 8 f.ts_bits),
        get_le-put_le 8 f.ts_bits h.ts_fits,
        take-append_of_length 4 (id_bytes f.id) tail (length-id_bytes f.id),
        drop-append_of_length 4 (id_bytes f.id) tail (length-id_bytes f.id),
        read_id-id_bytes f.id,
        direction_byte_fields f.tx n (omega arith),
        get_le-singleton (direction_byte f.tx n),
        drop_six (id_bytes f.id) (direction_byte f.tx n) (n % 16 * 4) (put_le 8 o)
            (length-id_bytes f.id),
        take_all 8 (put_le 8 o) (omega (arith, length-put_le 8 o)),
        get_le-put_le 8 o fits,
        found,
      )

  read-primary :
      (f : Frame) (o : ℕ) (rest : Bytes) (v : VlsdIndex)
      → IsRecordable f
      → o < 2 ^ 64
      → lookup v o (length f.payload) ≡ f.payload
      → read_step to_int64 1 groups can_info v
          (1 ∷ (can_frame f.ts_bits f.id f.tx (length f.payload % 256) o ++ rest))
        ≡ some (some (entry f), rest)
  unfolding read_step
  read-primary f o rest v h fits found =
      let rec = can_frame f.ts_bits f.id f.tx (length f.payload % 256) o in
      let len = length-can_frame f.ts_bits f.id f.tx (length f.payload % 256) o in
      ground (
        arith,
        len,
        length-append rec rest,
        take-append_of_length 22 rec rest len,
        drop-append_of_length 22 rec rest len,
        parse_can_record-can_frame f o v h fits found,
      )

  read-payload :
      (payload rest : Bytes) (v : VlsdIndex)
      → length payload ≤ 64
      → read_step to_int64 1 groups can_info v
          (2 ∷ (put_le 4 (length payload) ++ (payload ++ rest)))
        ≡ some (none, rest)
  unfolding read_step put_le
  read-payload payload rest v h = ground (
    arith,
    get_le-put_le 4 (length payload) (omega arith),
    length-append payload rest,
    drop-append_of_length (length payload) payload rest refl,
  )

  -- two rounds take one frame
  read-frame :
      (f : Frame) (o : ℕ) (rest : Bytes) (v : VlsdIndex) (fuel : ℕ)
      → IsRecordable f
      → o < 2 ^ 64
      → lookup v o (length f.payload) ≡ f.payload
      → read_records to_int64 (suc (suc fuel)) 1 groups can_info v (frame_bytes o f rest)
        ≡ with_entry to_int64 (some (entry f)) (read_records to_int64 fuel 1 groups can_info v rest)
  unfolding read_records
  read-frame f o rest v fuel h fits found =
      let payload_record = 2 ∷ (put_le 4 (length f.payload) ++ (f.payload ++ rest)) in
      ground (
        arith,
        read-primary f o payload_record v h fits found,
        read-payload f.payload rest v h.payload_fits,
      )

  -- The second pass over the stream, with an index in which each frame finds its payload.
  pub read-stream :
      (fs : List Frame) (v : VlsdIndex) (fuel : ℕ)
      → All IsRecordable fs
      → v.raw_offset + vlsd_total fs < 2 ^ 64
      → length (stream v.raw_offset fs) ≤ fuel
      → read_records to_int64 fuel 1 groups can_info (collect_all v fs) (stream v.raw_offset fs)
        ≡ ok (map entry fs)
  read-stream [] v fuel h room enough = unfold read_records in refl
  read-stream (f ∷ fs) v zero h room enough = absurd (omega arith)
  read-stream (f ∷ fs) v (suc zero) h room enough = absurd (
      omega
        (arith, length-frame_bytes v.raw_offset f (stream (collected v f.payload).raw_offset fs)))
  read-stream (f ∷ fs) v (suc (suc fuel)) h room enough =
      let rest = stream (collected v f.payload).raw_offset fs in
      let found = lookup-collect_all f fs v room in
      let later =
        read-stream fs (collected v f.payload) fuel h.1 (omega arith)
          (omega (arith, length-frame_bytes v.raw_offset f rest)) in
      read-frame f v.raw_offset rest (collect_all v (f ∷ fs)) fuel h.0 (omega arith) found
      ∙ ap (with_entry to_int64 (some (entry f))) later
