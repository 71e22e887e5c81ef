-- ===== src/Mf4/Faults.antt =====
-- internal/parser/mf4/writer.go: AppendCAN with what its two writes to the file come to.
use mathlib.Core.List.{append_cancel_left}
use cantou.Common.{
  ℕ, zero, suc, ◌+◌, ◌%◌, ◌≤◌, ◌≡◌, ◌≢◌, refl, ap, ◌∙◌, sym, ◌⊎◌, inl, inr, Bool, Bool-cases, true,
  [], ◌∷◌, ◌++◌, arith, Bytes, length, append_assoc, ltb, ltb→lt, take, take_within, take_past,
  take_all, if◌then◌else◌, replicate, List,
}
use Prim.Native.Nat.{min}
use mathlib.Core.Path.{subst}
use cantou.Mf4.Blocks.{can_record_size}
use cantou.Mf4.Record.{encode_can_frame_record}
use cantou.Mf4.Metadata.{
  LayoutScheme, layout_can, layout_signal, max_can_data_len, record_id_primary,
}
use cantou.Mf4.Writer.{
  Writer, Appended, done, failed, AppendError, wrong_layout, can_data_too_long, file_closed,
  write_failed, append_can, append_vlsd, vlsd_record, write,
}
use cantou.Mf4.Stream.{Frame, frame_bytes, next_offset, append_can_lem}
use cantou.Mf4.Appending.{CanRefused, LayoutScheme-cases}

-- A write of all bytes, or an error behind the first of them.
pub data WriteResult : Type 0 where
  whole : WriteResult
  cut : ℕ → WriteResult

abbrev pub append_vlsd_on : WriteResult → Writer → Bytes → Writer × Appended
append_vlsd_on whole w payload = (append_vlsd w payload, done)
append_vlsd_on (cut n) w payload = (write w (take n (vlsd_record payload)), failed write_failed)

-- The writes of a record and of its payload, which is not tried when the first one fails.
abbrev pub write_both : WriteResult → WriteResult → Writer → Bytes → Bytes → Writer × Appended
write_both whole second w rec payload = append_vlsd_on second (write w rec) payload
write_both (cut n) second w rec payload = (write w (take n rec), failed write_failed)

abbrev pub can_record : ℕ → ℕ → ℕ → Bool → Bytes → Bytes
can_record vlsd_offset ts_bits can_id tx payload =
    record_id_primary
    ∷ encode_can_frame_record (replicate can_record_size 0) ts_bits can_id tx (length payload % 256)
        vlsd_offset

abbrev pub append_can_record_on :
    WriteResult → WriteResult → Writer → ℕ → ℕ → Bool → Bytes → Writer × Appended
append_can_record_on first second w ts_bits can_id tx payload =
    if ltb max_can_data_len (length payload)
    then (w, failed can_data_too_long)
    else if w.opened
    then write_both first second w (can_record w.vlsd_offset ts_bits can_id tx payload) payload
    else (w, failed file_closed)

abbrev pub append_can_in_on :
    LayoutScheme → WriteResult → WriteResult → Writer → ℕ → ℕ → Bool → Bytes → Writer × Appended
append_can_in_on layout_can first second w ts_bits can_id tx payload =
    append_can_record_on first second w ts_bits can_id tx payload
append_can_in_on layout_signal first second w _ _ _ _ = (w, failed wrong_layout)

-- AppendCAN, with the results of its writes.
unfoldable pub append_can_on :
    WriteResult → WriteResult → Writer → ℕ → ℕ → Bool → Bytes → Writer × Appended
append_can_on first second w = append_can_in_on w.scheme first second w

can_record-vlsd_record :
    (w : Writer) (f : Frame)
    → w.scheme ≡ layout_can
    → w.opened ≡ true
    → length f.payload ≤ 64
    → can_record w.vlsd_offset f.ts_bits f.id f.tx f.payload ++ vlsd_record f.payload
      ≡ frame_bytes w.vlsd_offset f []
unfolding append_can
can_record-vlsd_record w f s o h =
    let rec = can_record w.vlsd_offset f.ts_bits f.id f.tx f.payload in
    let computed : (append_can w f.ts_bits f.id f.tx f.payload).0.file
        ≡ (w.file ++ rec) ++ vlsd_record f.payload =
      ground (arith, s, o, h) in
    append_cancel_left w.file (rec ++ vlsd_record f.payload) (frame_bytes w.vlsd_offset f []) (
      sym (append_assoc w.file rec (vlsd_record f.payload))
      ∙ sym computed
      ∙ ap (λ (r : Writer × Appended). r.0.file) (append_can_lem w f s o h))

-- A part of the bytes of a frame, when one of its writes has failed.
abbrev pub IsPart : WriteResult → WriteResult → Writer → Frame → Writer × Appended → Type 0
IsPart first second w f result =
    ((first ≢ whole) ⊎ (second ≢ whole))
    × ((n : ℕ) × (result ≡ (
      record w { file = w.file ++ take n (frame_bytes w.vlsd_offset f []) },
      failed write_failed,
    )))

take-min : {A : Type 0} (n : ℕ) (xs : List A) → take (min n (length xs)) xs ≡ take n xs
take-min zero xs = let none_left : min 0 (length xs) ≡ 0 = omega arith in rw none_left refl
take-min (suc n) [] = take_all (min (suc n) 0) [] (omega arith)
take-min (suc n) (x ∷ xs) =
    let step : min (suc n) (suc (length xs)) ≡ suc (min n (length xs)) = omega arith in
    rw step (ap (◌∷◌ x) (take-min n xs))

write_both-IsPart :
    (first second : WriteResult) (w : Writer) (f : Frame) (rec : Bytes)
    → rec ++ vlsd_record f.payload ≡ frame_bytes w.vlsd_offset f []
    → ((first ≡ whole) × (second ≡ whole))
      ⊎ IsPart first second w f (write_both first second w rec f.payload)
write_both-IsPart whole whole w f rec e = inl (refl, refl)
write_both-IsPart whole (cut n) w f rec e =
    let reached : take (length rec + n) (frame_bytes w.vlsd_offset f [])
        ≡ rec ++ take n (vlsd_record f.payload) =
      ap (take (length rec + n)) (sym e)
      ∙ take_past (length rec + n) n rec (vlsd_record f.payload) refl in
    inr (
      inr (λ h. cc h),
      (
        length rec + n,
        ap (λ file. (record w { file = file }, failed write_failed))
            (append_assoc w.file rec (take n (vlsd_record f.payload))
              ∙ ap (λ bs. w.file ++ bs) (sym reached)),
      ),
    )
write_both-IsPart (cut n) second w f rec e =
    let m = min n (length rec) in
    let reached : take m (frame_bytes w.vlsd_offset f []) ≡ take n rec =
      ap (take m) (sym e)
      ∙ take_within m rec (vlsd_record f.payload) (omega arith)
      ∙ take-min n rec in
    inr (
      inl (λ h. cc h),
      (m, ap (λ bs. (record w { file = w.file ++ bs }, failed write_failed)) (sym reached)),
    )

append_can_on-whole :
    (w : Writer) (f : Frame)
    → append_can_on whole whole w f.ts_bits f.id f.tx f.payload
      ≡ append_can w f.ts_bits f.id f.tx f.payload
unfolding append_can_on append_can
append_can_on-whole w f = ground arith

-- Whatever the two writes of AppendCAN come to: it writes the record of a frame and its payload whole
-- and advances the payload offset, on an open file for frames and with at most 64 bytes; or it reports
-- an error whose condition holds, without a write, and leaves the writer as it was; or one of the writes
-- has failed, which it reports, and then the file has grown by a part of the bytes of the frame, from
-- their start on, and the payload offset is as it was.
pub append_can_on-cases :
    (first second : WriteResult) (w : Writer) (f : Frame)
    → let result = append_can_on first second w f.ts_bits f.id f.tx f.payload in
      (((first ≡ whole)
          × (second ≡ whole)
          × (w.scheme ≡ layout_can)
          × (length f.payload ≤ 64)
          × (w.opened ≡ true)
          × (result ≡ (
            record w {
              file = w.file ++ frame_bytes w.vlsd_offset f [];
              vlsd_offset = next_offset w.vlsd_offset f;
            },
            done,
          )))
        ⊎ ((e : AppendError) × (result ≡ (w, failed e)) × CanRefused w f.payload e))
      ⊎ IsPart first second w f result
unfolding append_can_on
append_can_on-cases first second w f = elim (LayoutScheme-cases w.scheme) [
  | inr s ↦ inl (inr (wrong_layout, rw s refl, s))
  | inl s ↦ elim (Bool-cases (ltb 64 (length f.payload))) [
    | inl long ↦ inl (inr (can_data_too_long, rw (s, long) refl, (s, ltb→lt _ _ long)))
    | inr short ↦
        let fits : length f.payload ≤ 64 = ground (arith, short) in
        elim (Bool-cases w.opened) [
          | inr c ↦ inl (inr (file_closed, rw (s, short, c) refl, (s, fits, c)))
          | inl o ↦
              let rec = can_record w.vlsd_offset f.ts_bits f.id f.tx f.payload in
              let computed : append_can_on first second w f.ts_bits f.id f.tx f.payload
                  ≡ write_both first second w rec f.payload =
                rw (s, short, o) refl in
              elim (write_both-IsPart first second w f rec (can_record-vlsd_record w f s o fits)) [
                | inl (one, two) ↦ inl (
                    inl (
                      one,
                      two,
                      s,
                      fits,
                      o,
                      rw (one, two) (append_can_on-whole w f ∙ append_can_lem w f s o fits),
                    ))
                | inr part ↦ inr (subst (IsPart first second w f) (sym computed) part)
              ]
        ]
  ]
]
