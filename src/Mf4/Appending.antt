-- ===== src/Mf4/Appending.antt =====
-- What an append or a close does to the writer, on every branch.
use mathlib.Core.List.{append_cancel_left}
use cantou.Common.{
  ℕ, ◌+◌, ◌-◌, ◌≤◌, ◌<◌, ◌≡◌, refl, ap, ◌∙◌, sym, ◌⊎◌, inl, inr, Bool-cases, codes, ltb→lt,
  drop-append_of_length, true, false, [], ◌∷◌, ◌++◌, arith, Bytes, length, length-append,
  length-take, length-drop, append_assoc, any, ◌==◌, take, drop, ltb,
}
use cantou.Common.Words.{put_le, length-put_le}
use cantou.Mf4.Metadata.{LayoutScheme, layout_can, layout_signal}
use cantou.Mf4.Writer.{
  Writer, done, failed, AppendError, wrong_layout, can_data_too_long, file_closed, append_can,
  append_can_in, append_signal, signal_record, signal_label, has_nul, vlsd_record, write_at,
  finalize, close,
}
use cantou.Mf4.Stream.{Frame, frame_bytes, next_offset, append_can_lem}

pub LayoutScheme-cases : (s : LayoutScheme) → (s ≡ layout_can) ⊎ (s ≡ layout_signal)
LayoutScheme-cases layout_can = inl refl
LayoutScheme-cases layout_signal = inr refl

-- Why a frame is refused; the first cause that applies is the one reported.
abbrev pub CanRefused : Writer → Bytes → AppendError → Type 0
CanRefused w payload wrong_layout = w.scheme ≡ layout_signal
CanRefused w payload can_data_too_long = (w.scheme ≡ layout_can) × (64 < length payload)
CanRefused w payload file_closed =
    (w.scheme ≡ layout_can) × (length payload ≤ 64) × (w.opened ≡ false)
CanRefused w payload _ = ⊥

-- AppendCAN either writes the record of a frame and its payload whole and advances the payload
-- offset, on an open file for frames and with at most 64 bytes, or it reports an error whose
-- condition holds and leaves the writer as it was.
pub append_can_all_or_nothing :
    (w : Writer) (f : Frame)
    → ((append_can w f.ts_bits f.id f.tx f.payload ≡ (
      record w {
        file = w.file ++ frame_bytes w.vlsd_offset f [];
        vlsd_offset = next_offset w.vlsd_offset f;
      },
      done,
    ))
        × (w.scheme ≡ layout_can)
        × (length f.payload ≤ 64)
        × (w.opened ≡ true))
      ⊎ ((e : AppendError) × (append_can w f.ts_bits f.id f.tx f.payload ≡ (w, failed e))
          × CanRefused w f.payload e)
unfolding append_can
append_can_all_or_nothing w f = elim (LayoutScheme-cases w.scheme) [
  | inr s ↦ inr (wrong_layout, rw (s, append_can_in), s)
  | inl s ↦ elim (Bool-cases (ltb 64 (length f.payload))) [
    | inl long ↦ inr (can_data_too_long, ground (arith, s, long), (s, ltb→lt _ _ long))
    | inr short ↦
        let fits : length f.payload ≤ 64 = ground (arith, short) in
        elim (Bool-cases w.opened) [
          | inl o ↦ inl (append_can_lem w f s o fits, s, fits, o)
          | inr c ↦ inr (file_closed, ground (arith, s, c, fits), (s, fits, c))
        ]
  ]
]

-- The parts of a label without NULs are determined by it.
split_at_nul :
    (s t : Bytes) {r q : Bytes}
    → any (λ b. b == 0) s ≡ false
    → any (λ b. b == 0) t ≡ false
    → s ++ (0 ∷ r) ≡ t ++ (0 ∷ q)
    → (s ≡ t) × (r ≡ q)
split_at_nul [] [] hs ht e = ground (arith, e)
split_at_nul [] (y ∷ t) hs ht e = ground (arith, e)
split_at_nul (x ∷ s) [] hs ht e = ground (arith, e)
split_at_nul (x ∷ s) (y ∷ t) {r} {q} hs ht e = ground (arith, e, split_at_nul s t {r = r} {q = q})

vlsd_record_injective : (s t : Bytes) → vlsd_record s ≡ vlsd_record t → s ≡ t
vlsd_record_injective s t e =
    sym (drop-append_of_length 4 (put_le 4 (length s)) s (length-put_le 4 (length s)))
    ∙ ap (drop 5) e
    ∙ drop-append_of_length 4 (put_le 4 (length t)) t (length-put_le 4 (length t))

-- What an accepted signal adds to the file.
abbrev signal_bytes : Writer → ℕ → ℕ → ℕ → ℕ → Bytes → Bytes → Bytes → Bytes
signal_bytes w ts_bits can_id iface value_bits message signal unit =
    (1 ∷ signal_record ts_bits can_id iface value_bits w.vlsd_offset)
    ++ vlsd_record (signal_label message signal unit)

module _ (w : Writer) (ts_bits can_id iface value_bits : ℕ) where
  append_signal_done :
      (message signal unit : Bytes)
      → (append_signal w ts_bits can_id iface value_bits message signal unit).1 ≡ done
      → (has_nul message ≡ false)
        × (has_nul signal ≡ false)
        × (has_nul unit ≡ false)
        × ((append_signal w ts_bits can_id iface value_bits message signal unit).0.file
            ≡ w.file ++ signal_bytes w ts_bits can_id iface value_bits message signal unit)
  unfolding append_signal
  append_signal_done message signal unit h =
      let rec = 1 ∷ signal_record ts_bits can_id iface value_bits w.vlsd_offset in
      ground (arith, h, append_assoc w.file rec (vlsd_record (signal_label message signal unit)))

  -- Two signals that are accepted with the same time, identifier, interface and value, and
  -- leave the same file, have the same message, signal and unit.
  pub append_signal_injective :
      (message signal unit message' signal' unit' : Bytes)
      → (append_signal w ts_bits can_id iface value_bits message signal unit).1 ≡ done
      → (append_signal w ts_bits can_id iface value_bits message' signal' unit').1 ≡ done
      → (append_signal w ts_bits can_id iface value_bits message signal unit).0.file
        ≡ (append_signal w ts_bits can_id iface value_bits message' signal' unit').0.file
      → (message ≡ message') × (signal ≡ signal') × (unit ≡ unit')
  append_signal_injective message signal unit message' signal' unit' h h' e =
      let (m, s, _, made) = append_signal_done message signal unit h in
      let (m', s', _, made') = append_signal_done message' signal' unit' h' in
      let rec = 1 ∷ signal_record ts_bits can_id iface value_bits w.vlsd_offset in
      let label = signal_label message signal unit in
      let label' = signal_label message' signal' unit' in
      let same : label ≡ label' = vlsd_record_injective label label' (
        append_cancel_left rec (vlsd_record label) (vlsd_record label') (
          append_cancel_left w.file (rec ++ vlsd_record label) (rec ++ vlsd_record label')
            (sym made ∙ e ∙ made'))) in
      let (messages, rest) = split_at_nul message message' m m' same in
      let (signals, units) = split_at_nul signal signal' s s' rest in (messages, signals, units)

write_at-length :
    (file : Bytes) (off : ℕ) (s : Bytes)
    → off + length s ≤ length file
    → length (write_at file off s) ≡ length file
write_at-length file off s h = omega (
  arith,
  length-append (take off file) (s ++ drop (off + length s) file),
  length-append s (drop (off + length s) file),
  length-take off file,
  length-drop (off + length s) file,
)

length-finalize :
    (w : Writer)
    → 62 ≤ w.dt_header_at
    → w.dt_header_at + 24 ≤ length w.file
    → length (finalize w).file ≡ length w.file
unfolding finalize
length-finalize w h k =
    let block_len = length w.file - w.dt_header_at in
    let with_len = write_at w.file (w.dt_header_at + 8) (put_le 8 block_len) in
    let first : length with_len ≡ length w.file =
      write_at-length w.file (w.dt_header_at + 8) (put_le 8 block_len) (omega arith) in
    let second : length (write_at with_len 0 (codes "MDF     ")) ≡ length with_len =
      write_at-length with_len 0 (codes "MDF     ") (omega (arith, first)) in
    write_at-length (write_at with_len 0 (codes "MDF     ")) 60 (0 ∷ 0 ∷ [])
      (omega (arith, first, second))
    ∙ second
    ∙ first

-- Close keeps the size of a file that holds its metadata, the header of its DT block included,
-- and closing again changes nothing.
pub close_in_place :
    (w : Writer)
    → 62 ≤ w.dt_header_at
    → w.dt_header_at + 24 ≤ length w.file
    → (length (close w).file ≡ length w.file) × (close (close w) ≡ close w)
unfolding close
close_in_place w h k = elim (Bool-cases w.opened) [
  | inl o ↦ (rw o (length-finalize w h k), rw o)
  | inr c ↦ (ground (arith, c), ground (arith, c))
]
