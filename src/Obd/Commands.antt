-- ===== src/Obd/Commands.antt =====
-- What internal/obd/elm327.go and stn.go send.
use cantou.Common.{
  ℕ, ◌-◌, ◌/◌, ◌%◌, ◌<◌, ◌≡◌, refl, sym, ap, ◌∙◌, Bool, true, false, some, List, [], ◌∷◌, ◌++◌,
  append-nil, append_assoc, Bytes, to_upper, codes, map, inl, inr, Bool-cases, Option-cases, ◌==◌,
  equal, arith, All, length,
}
use cantou.Common.Hex.{
  encode_hex, decode_hex, decode_hex-encode_hex, length-encode_hex, encode_hex-IsUpperHex,
}
use cantou.Common.HexUint.{format_upper_hex-byte}
use cantou.Obd.{Protocol, trim_space, without_blanks}
use cantou.Obd.Lines.{trim_space-IsUpperHex, without_blanks-IsUpperHex, to_upper-IsUpperHex}
use cantou.Obd.Device.{
  Device, carriage_return, sent, write_line, command, expect_ok, read_until_prompt,
}
use cantou.Obd.Elm327.{padded_hex, expect_all, init, init_commands}
use cantou.Obd.Stn.{framed_request, obd_single_frame}

padded_hex-byte : (n : ℕ) → n < 256 → padded_hex 2 n ≡ encode_hex (n ∷ [])
unfolding padded_hex
padded_hex-byte n h = format_upper_hex-byte n (λ k. 2 - k) h refl refl

equal_nil : (s : Bytes) → 0 < length s → equal s [] ≡ false
unfolding equal
equal_nil [] h = absurd (omega arith)
equal_nil (c ∷ s) h = refl

framed :
    (bs : Bytes)
    → 0 < length bs
    → length bs < 256
    → framed_request (encode_hex bs) ≡ some (encode_hex (length bs ∷ bs))
framed bs pos short =
    let size = length-encode_hex bs in
    let nonempty = equal_nil (encode_hex bs) (omega (arith, size)) in
    let even : (length (encode_hex bs) % 2 == 1) ≡ false = ground (arith, size) in
    let half : length (encode_hex bs) / 2 ≡ length bs = omega (arith, size) in
    rw nonempty (
      rw even (
        ap (λ n. some (padded_hex 2 n ++ encode_hex bs)) half
        ∙ ap (λ s. some (s ++ encode_hex bs)) (padded_hex-byte (length bs) short)))

-- A request of 1 to 255 bytes is wrapped in a frame that reads back as the number of its bytes and
-- then those.
pub obd_single_frame-decoded :
    (bs : Bytes)
    → All (λ b. b < 256) bs
    → 0 < length bs
    → length bs < 256
    → (frame : Bytes) × (obd_single_frame (encode_hex bs) ≡ some frame)
      × (decode_hex frame ≡ some (length bs ∷ bs))
unfolding obd_single_frame
obd_single_frame-decoded bs h pos short =
    let hex = encode_hex-IsUpperHex bs h in
    let clean : to_upper (without_blanks (trim_space (encode_hex bs))) ≡ encode_hex bs =
      ap (λ s. to_upper (without_blanks s)) (trim_space-IsUpperHex (encode_hex bs) hex)
      ∙ ap to_upper (without_blanks-IsUpperHex (encode_hex bs) hex)
      ∙ to_upper-IsUpperHex (encode_hex bs) hex in
    (
      encode_hex (length bs ∷ bs),
      ap framed_request clean ∙ framed bs pos short,
      decode_hex-encode_hex (length bs ∷ bs) (short, h),
    )

abbrev pub with_return : Bytes → Bytes
with_return cmd = cmd ++ (carriage_return ∷ [])

sent-written :
    (writes : List Bool) (t : Bytes) (d : Device)
    → (sent writes t d).0 ≡ true
    → (sent writes t d).1.written ≡ d.written ++ (t ∷ [])
sent-written [] t d h = refl
sent-written (true ∷ writes) t d h = refl
sent-written (false ∷ writes) t d h = absurd (cc h)

write_line-written :
    (cmd : Bytes) (d : Device)
    → (write_line cmd d).0 ≡ true
    → (write_line cmd d).1.written ≡ d.written ++ (with_return cmd ∷ [])
unfolding write_line
write_line-written cmd d h = sent-written d.writes (with_return cmd) d h

read_until_prompt-written : (d : Device) → (read_until_prompt d).1.written ≡ d.written
unfolding read_until_prompt
read_until_prompt-written d = refl

-- A command that is answered has been sent, and nothing else.
command-written :
    (cmd : Bytes) (d : Device) (resp : Bytes)
    → (command cmd d).0 ≡ some resp
    → (command cmd d).1.written ≡ d.written ++ (with_return cmd ∷ [])
unfolding command
command-written cmd d resp h = elim (Bool-cases (write_line cmd d).0) [
  | inl ok ↦ rw ok (read_until_prompt-written (write_line cmd d).1 ∙ write_line-written cmd d ok)
  | inr bad ↦ absurd (cc (rw bad at h))
]

expect_ok-written :
    (cmd : Bytes) (d : Device)
    → (expect_ok cmd d).0 ≡ true
    → (expect_ok cmd d).1.written ≡ d.written ++ (with_return cmd ∷ [])
unfolding expect_ok
expect_ok-written cmd d h = elim (Option-cases (command cmd d).0) [
  | inl silent ↦ absurd (cc (rw silent at h))
  | inr (resp, answered) ↦ command-written cmd d resp answered
]

expect_all-written :
    (cmds : List Bytes) (d : Device)
    → (expect_all cmds d).0 ≡ true
    → (expect_all cmds d).1.written ≡ d.written ++ map with_return cmds
unfolding expect_all
expect_all-written [] d h = sym (append-nil d.written)
expect_all-written (cmd ∷ cmds) d h = elim (Bool-cases (expect_ok cmd d).0) [
  | inl ok ↦ rw ok (
      expect_all-written cmds (expect_ok cmd d).1 (rw ok at h)
      ∙ ap (λ w. w ++ map with_return cmds) (expect_ok-written cmd d ok)
      ∙ append_assoc d.written (with_return cmd ∷ []) (map with_return cmds))
  | inr bad ↦ absurd (cc (rw bad at h))
]

-- When Init of an ELM327 succeeds, it has sent the reset and then all its commands in order, each
-- ended by a carriage return, and nothing else.
pub init-written :
    (proto : Protocol) (d : Device)
    → (init proto d).0 ≡ true
    → (init proto d).1.written ≡ d.written ++ map with_return (codes "ATZ" ∷ init_commands proto)
unfolding init
init-written proto d h = elim (Option-cases (command (codes "ATZ") d).0) [
  | inl silent ↦ absurd (cc (rw silent at h))
  | inr (banner, answered) ↦ rw answered (
      expect_all-written (init_commands proto) (command (codes "ATZ") d).1 (rw answered at h)
      ∙ ap (λ w. w ++ map with_return (init_commands proto))
          (command-written (codes "ATZ") d banner answered)
      ∙ append_assoc d.written (with_return (codes "ATZ") ∷ [])
          (map with_return (init_commands proto)))
]
