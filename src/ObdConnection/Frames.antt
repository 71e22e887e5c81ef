-- ===== src/ObdConnection/Frames.antt =====
-- The messages that internal/connection/obdconn/connection.go makes of frames.
use cantou.Common.{
  ℕ, ◌-◌, ◌%◌, ◌^◌, ◌≤◌, ◌≡◌, ap, ◌∙◌, ltb→lt, inl, inr, arith, ltb, length, length-append,
  length-replicate, length-take, replicate, take, take-append, take_all, Bool-cases, ltb-false→le,
  Bytes,
}
use cantou.Client.Filters.{pad_or_trim}
use cantou.Obd.{Frame}
use cantou.ObdConnection.{emit}

pub pad_or_trim_lem :
    (bb : Bytes) (size : ℕ)
    → (length (pad_or_trim bb size) ≡ size)
      × (length bb ≤ size → take (length bb) (pad_or_trim bb size) ≡ bb)
unfolding pad_or_trim
pad_or_trim_lem bb size = elim (Bool-cases (ltb (length bb) size)) [
  | inl less ↦ rw less (
    omega (
      arith,
      ltb→lt (length bb) size less,
      length-append bb (replicate (size - length bb) 0),
      length-replicate {A = ℕ} (size - length bb) 0,
    ),
    λ fits. take-append bb (replicate (size - length bb) 0),
  )
  | inr more ↦ rw more (
    omega (arith, ltb-false→le (length bb) size more, length-take size bb),
    λ fits. ap (take (length bb)) (take_all size bb fits) ∙ take_all (length bb) bb (omega arith),
  )
]

-- A message has 8 bytes of data, and the first of them, as many as its length says, are those of the
-- frame, if that has at most 8.
pub emit-take :
    (now id : ℕ) (frame : Frame)
    → length frame.bytes ≤ 8
    → (length (emit now id frame).bytes ≡ 8)
      × (take (emit now id frame).length (emit now id frame).bytes ≡ frame.bytes)
unfolding emit
emit-take now id frame h =
    let (eight, start) = pad_or_trim_lem frame.bytes 8 in
    let whole : length frame.bytes % 2 ^ 8 ≡ length frame.bytes = omega arith in
    (eight, ap (λ n. take n (pad_or_trim frame.bytes 8)) whole ∙ start h)
