-- ===== src/Mf4/Stream.antt =====
-- The bytes that `AppendCAN` puts behind the metadata, and what the two passes of the reader
-- make of them.
use cantou.Common.{
  ℕ, ◌+◌, ◌%◌, ◌^◌, ◌≤◌, ◌<◌, ◌≡◌, refl, Bool, true, false, List, [], ◌∷◌, ◌++◌, append-nil,
  append_assoc, arith, Bytes, some, length, length-append, take-append_of_length,
  drop-append_of_length,
}
use cantou.Common.Words.{put_le, get_le-put_le}
use cantou.Mf4.Blocks.{acq_name_can_data_frame}
use cantou.Mf4.Record.{can_frame, id_bytes}
use cantou.Mf4.Metadata.{layout_can}
use cantou.Mf4.Writer.{Writer, done, append_can, vlsd_record}
use cantou.Mf4.Vlsd.{CgInfo, CgMap, VlsdIndex, collect_step}

-- A frame as it is given to `AppendCAN`, its timestamp as the bits of a float64.
pub record Frame : Type 0 where
  pub ts_bits : ℕ
  pub id : ℕ
  pub tx : Bool
  pub payload : Bytes

-- What the format can hold.
pub record IsRecordable (f : Frame) : Type 0 where
  pub ts_fits : f.ts_bits < 2 ^ 64
  pub id_fits : f.id < 2 ^ 29
  pub payload_fits : length f.payload ≤ 64

abbrev pub next_offset : ℕ → Frame → ℕ
next_offset o f = (o + (4 + length f.payload)) % 2 ^ 64

abbrev pub frame_bytes : ℕ → Frame → Bytes → Bytes
frame_bytes o f rest =
    1
    ∷ (can_frame f.ts_bits f.id f.tx (length f.payload % 256) o
        ++ (2 ∷ (put_le 4 (length f.payload) ++ (f.payload ++ rest))))

abbrev pub stream : ℕ → List Frame → Bytes
stream o [] = []
stream o (f ∷ fs) = frame_bytes o f (stream (next_offset o f) fs)

abbrev pub append_all : Writer → List Frame → Writer
append_all w [] = w
append_all w (f ∷ fs) = append_all (append_can w f.ts_bits f.id f.tx f.payload).0 fs

-- One accepted frame: the file grows by its two records and the offset by the second.
pub append_can_lem :
    (w : Writer) (f : Frame)
    → w.scheme ≡ layout_can
    → w.opened ≡ true
    → length f.payload ≤ 64
    → append_can w f.ts_bits f.id f.tx f.payload ≡ (
      record w {
        file = w.file ++ frame_bytes w.vlsd_offset f [];
        vlsd_offset = next_offset w.vlsd_offset f;
      },
      done,
    )
unfolding append_can
append_can_lem w f s o h = ground (
  arith,
  s,
  o,
  append-nil (can_frame f.ts_bits f.id f.tx (length f.payload % 256) w.vlsd_offset),
  append-nil f.payload,
  append_assoc w.file (1 ∷ can_frame f.ts_bits f.id f.tx (length f.payload % 256) w.vlsd_offset)
      (vlsd_record f.payload),
)

pub length-can_frame :
    (ts_bits can_id : ℕ) (tx : Bool) (n o : ℕ) → length (can_frame ts_bits can_id tx n o) ≡ 22
unfolding can_frame id_bytes put_le
length-can_frame ts_bits can_id tx n o = refl

pub length-frame_bytes :
    (o : ℕ) (f : Frame) (rest : Bytes)
    → length (frame_bytes o f rest) ≡ 28 + length f.payload + length rest
unfolding can_frame id_bytes put_le
length-frame_bytes o f rest = omega (arith, length-append f.payload rest)

-- The bytes of the VLSD stream, length prefixes included.
abbrev pub vlsd_total : List Frame → ℕ
vlsd_total [] = 0
vlsd_total (f ∷ fs) = 4 + length f.payload + vlsd_total fs

abbrev pub payloads : List Frame → Bytes
payloads [] = []
payloads (f ∷ fs) = f.payload ++ payloads fs

-- The two channel groups of the file.
abbrev pub can_info : CgInfo
can_info = record {
  record_id = 1;
  data_bytes = 22;
  acq_name = acq_name_can_data_frame;
  is_vlsd = false;
}

abbrev pub vlsd_info : CgInfo
vlsd_info = record { record_id = 2; data_bytes = 0; acq_name = []; is_vlsd = true }

abbrev pub groups : CgMap
groups = (2, vlsd_info) ∷ (1, can_info) ∷ []

pub collect_primary :
    (f : Frame) (o : ℕ) (n : ℕ) (rest : Bytes) (v : VlsdIndex)
    → collect_step 1 groups (1 ∷ (can_frame f.ts_bits f.id f.tx n o ++ rest)) v ≡ (v, some rest)
unfolding collect_step can_frame id_bytes put_le
collect_primary f o n rest v = ground arith

abbrev pub collected : VlsdIndex → Bytes → VlsdIndex
collected v payload = record {
  buf = v.buf ++ payload;
  offsets = (v.raw_offset, length v.buf) ∷ v.offsets;
  raw_offset = (v.raw_offset + (4 + length payload)) % 2 ^ 64;
}

pub collect_payload :
    (payload rest : Bytes) (v : VlsdIndex)
    → length payload ≤ 64
    → collect_step 1 groups (2 ∷ (put_le 4 (length payload) ++ (payload ++ rest))) v
      ≡ (collected v payload, some rest)
unfolding collect_step put_le
collect_payload payload rest v h = ground (
  arith,
  get_le-put_le 4 (length payload) (omega arith),
  length-append payload rest,
  take-append_of_length (length payload) payload rest refl,
  drop-append_of_length (length payload) payload rest refl,
)
