-- ===== src/Mf4/Collect.antt =====
-- The first pass: what collectVLSD gathers from the records of a file.
use cantou.Common.{
  ℕ, zero, suc, ◌+◌, ◌%◌, ◌^◌, ◌≤◌, ◌<◌, ◌≡◌, refl, ◌∙◌, sym, List, [], ◌∷◌, ◌++◌, append-nil,
  append_assoc, arith, Bytes, length, length-append, take-append_of_length, drop-append_of_length,
  All,
}
use cantou.Common.Words.{put_le}
use cantou.Mf4.Outcome.{ok}
use cantou.Common.Maps.{find}
use cantou.Mf4.Vlsd.{VlsdIndex, collect_vlsd, lookup, lookup_at}
use cantou.Mf4.Stream.{
  Frame, IsRecordable, stream, frame_bytes, groups, collected, collect_primary, collect_payload,
  length-frame_bytes, vlsd_total, payloads,
}

abbrev pub collect_all : VlsdIndex → List Frame → VlsdIndex
collect_all v [] = v
collect_all v (f ∷ fs) = collect_all (collected v f.payload) fs

module _ (f : Frame) (rest : Bytes) (v : VlsdIndex) (fits : length f.payload ≤ 64) where
  -- two rounds take one frame
  collect-frame :
      (fuel : ℕ)
      → collect_vlsd (suc (suc fuel)) 1 groups (frame_bytes v.raw_offset f rest) v
        ≡ collect_vlsd fuel 1 groups rest (collected v f.payload)
  unfolding collect_vlsd
  collect-frame fuel =
      let payload_record = 2 ∷ (put_le 4 (length f.payload) ++ (f.payload ++ rest)) in
      ground (
        arith,
        collect_primary f v.raw_offset (length f.payload % 256) payload_record v,
        collect_payload f.payload rest v fits,
      )

pub collect-stream :
    (fs : List Frame) (v : VlsdIndex) (fuel : ℕ)
    → All IsRecordable fs
    → length (stream v.raw_offset fs) ≤ fuel
    → collect_vlsd fuel 1 groups (stream v.raw_offset fs) v ≡ ok (collect_all v fs)
collect-stream [] v fuel h enough = unfold collect_vlsd in refl
collect-stream (f ∷ fs) v zero h enough = absurd (omega arith)
collect-stream (f ∷ fs) v (suc zero) h enough = absurd (
    omega (arith, length-frame_bytes v.raw_offset f (stream (collected v f.payload).raw_offset fs)))
collect-stream (f ∷ fs) v (suc (suc fuel)) h enough =
    collect-frame f (stream (collected v f.payload).raw_offset fs) v h.0.payload_fits fuel
    ∙ collect-stream fs (collected v f.payload) fuel h.1 (
        omega
          (arith, length-frame_bytes v.raw_offset f (stream (collected v f.payload).raw_offset fs)))

pub buf-collect_all :
    (fs : List Frame) (v : VlsdIndex) → (collect_all v fs).buf ≡ v.buf ++ payloads fs
buf-collect_all [] v = sym (append-nil v.buf)
buf-collect_all (f ∷ fs) v =
    buf-collect_all fs (collected v f.payload) ∙ append_assoc v.buf f.payload (payloads fs)

-- Later frames hide no earlier offset, as long as the offsets do not wrap around.
pub find-collect_all :
    (fs : List Frame) (v : VlsdIndex) (k : ℕ)
    → v.raw_offset + vlsd_total fs < 2 ^ 64
    → k < v.raw_offset
    → find k (collect_all v fs).offsets ≡ find k v.offsets
find-collect_all [] v k room h = refl
find-collect_all (f ∷ fs) v k room h =
    find-collect_all fs (collected v f.payload) k (omega arith) (omega arith)
    ∙ unfold find in ground arith

-- In the index of the whole file a frame finds its own payload.
pub lookup-collect_all :
    (f : Frame) (fs : List Frame) (v : VlsdIndex)
    → v.raw_offset + vlsd_total (f ∷ fs) < 2 ^ 64
    → lookup (collect_all v (f ∷ fs)) v.raw_offset (length f.payload) ≡ f.payload
unfolding lookup lookup_at find
lookup-collect_all f fs v room =
    let w = collected v f.payload in
    rw (find-collect_all fs w v.raw_offset (omega arith) (omega arith)) (
      rw (buf-collect_all fs w) (
        ground (
          arith,
          append_assoc v.buf f.payload (payloads fs),
          length-append v.buf (f.payload ++ payloads fs),
          length-append f.payload (payloads fs),
          drop-append_of_length (length v.buf) v.buf (f.payload ++ payloads fs) refl,
          take-append_of_length (length f.payload) f.payload (payloads fs) refl,
        )))
